-- ===== src/Cli/Inert.antt =====
-- Commands on a name that is no container id.
use runtt.Shared.{ℕ, ◌≡◌, refl, Bool, true, false, Option, none, some, Result, err}
use runtt.Shared.Text.{Text}
use runtt.Container.{VerbError, validate_container_id}
use runtt.Container.Host.{Host}
use runtt.Container.Verbs.{create, start, print_state, kill, delete, read_state}
use runtt.Cli.{
  Command, create_cmd, start_cmd, state_cmd, kill_cmd, delete_cmd, proxy_cmd, real_main,
}

-- The container that one of the five verbs is asked about.
abbrev pub verb_on : Command → Option Text
verb_on (create_cmd id bundle pid_file) = some id
verb_on (start_cmd id) = some id
verb_on (state_cmd id) = some id
verb_on (kill_cmd id signal all) = some id
verb_on (delete_cmd id force) = some id
verb_on (proxy_cmd id target firmware force_reflash log_target) = none

-- The exit code on a name that is refused: a forced delete of what cannot be read succeeds.
abbrev pub refusal : Command → ℕ
refusal (delete_cmd id true) = 0
refusal _ = 1

module _ {W : Type 0} (h : Host W)
    (proxy_run : Text → Text → Text → Text → Bool → Option Text → W → Result VerbError ℕ × W)
    (rounds : ℕ) (root : Text) where
  -- A verb on a name that is not accepted as a container id touches nothing on the host, neither files
  -- nor processes, and exits with 1, or with 0 where it is a forced delete.
  pub real_main-refused :
      (cmd : Command) (id : Text) (e : VerbError) (w : W)
      → verb_on cmd ≡ some id
      → validate_container_id id ≡ err e
      → real_main h proxy_run rounds root cmd w ≡ (refusal cmd, w)
  unfolding real_main create start print_state kill delete read_state
  real_main-refused (create_cmd name bundle pid_file) id e w on bad =
      let same : name ≡ id = cc in rw (same, bad) refl
  real_main-refused (start_cmd name) id e w on bad =
      let same : name ≡ id = cc in rw (same, bad) refl
  real_main-refused (state_cmd name) id e w on bad =
      let same : name ≡ id = cc in rw (same, bad) refl
  real_main-refused (kill_cmd name signal all) id e w on bad =
      let same : name ≡ id = cc in rw (same, bad) refl
  real_main-refused (delete_cmd name true) id e w on bad =
      let same : name ≡ id = cc in rw (same, bad) refl
  real_main-refused (delete_cmd name false) id e w on bad =
      let same : name ≡ id = cc in rw (same, bad) refl
  real_main-refused (proxy_cmd name target firmware f l) id e w on bad = cc
