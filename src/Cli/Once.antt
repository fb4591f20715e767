-- ===== src/Cli/Once.antt =====
-- A container is started once, whatever commands are run in between.
use runtt.Shared.{ℕ, ◌≡◌, ◌≢◌, refl, sym, ap, subst, ◌∙◌, Bool, false, not}
use runtt.Shared.{Option-cases, arith, inl, inr, Option, some, Result, ok, err, List, [], ◌∷◌, All}
use runtt.Shared.Stateful.{and_then-ok}
use runtt.Shared.Text.{Text}
use runtt.Container.{State, VerbError, running, validate_container_id, state_file}
use runtt.Container.Host.{Host}
use runtt.Container.Lifecycle.{Stores, read-start}
use runtt.Container.Files.{Less, Files, IsOver}
use runtt.Container.Over.{
  lesser, start-Keeps, print_state-Keeps, kill-Keeps, delete-Keeps, create-Keeps,
}
use runtt.Container.Verbs.{read_state, start, kill, delete, create, print_state, is_created}
use runtt.Cli.{
  Command, create_cmd, start_cmd, state_cmd, kill_cmd, delete_cmd, proxy_cmd, real_main, exit_of,
  proxy_exit,
}

-- A command that is not a `create` of the container.
abbrev pub IsOther : Text → Command → Type 0
IsOther id (create_cmd id' bundle pid_file) = id' ≢ id
IsOther id _ = Unit

module _ {W : Type 0} (h : Host W)
    (proxy_run : Text → Text → Text → Text → Bool → Option Text → W → Result VerbError ℕ × W)
    (rounds : ℕ) (root : Text) where
  -- The commands of an engine, one after the other.
  abbrev pub run_all : List Command → W → W
  run_all [] w = w
  run_all (c ∷ cs) w = run_all cs (real_main h proxy_run rounds root c w).1

  exit_of-world : {A : Type 0} (r : Result VerbError A × W) → (exit_of r).1 ≡ r.1
  exit_of-world (ok a, w) = refl
  exit_of-world (err e, w) = refl

  proxy_exit-world : (r : Result VerbError ℕ × W) → (proxy_exit r).1 ≡ r.1
  proxy_exit-world (ok code, w) = refl
  proxy_exit-world (err e, w) = refl

  exit_of-zero :
      {A : Type 0} (r : Result VerbError A × W) → (exit_of r).0 ≡ 0 → (a : A) × (r ≡ (ok a, r.1))
  exit_of-zero (ok a, w) e = (a, refl)
  exit_of-zero (err x, w) e = absurd (omega (arith, e))

  module _ (files : Files h)
      (proxy_quiet : (id target firmware : Text) (skip : Bool) (log_target : Option Text) (w : W)
        → Less h w (proxy_run root id target firmware skip log_target w).1)
      (id : Text) (v : validate_container_id id ≡ ok tt) where
    abbrev Over : W → Type 0
    Over = IsOver h root files id v

    real_main-Over :
        (c : Command) (w : W)
        → IsOther id c
        → Over w
        → Over (real_main h proxy_run rounds root c w).1
    unfolding real_main
    real_main-Over (create_cmd id' bundle pid_file) w other o =
        subst Over (sym (exit_of-world (create h root id' bundle pid_file w)))
          (create-Keeps h root files id v id' bundle pid_file other w o)
    real_main-Over (start_cmd id') w other o =
        subst Over (sym (exit_of-world (start h root id' w)))
          (start-Keeps h root files id v id' w o)
    real_main-Over (state_cmd id') w other o =
        subst Over (sym (exit_of-world (print_state h root id' w)))
          (print_state-Keeps h root files id v id' w o)
    real_main-Over (kill_cmd id' signal all) w other o =
        subst Over (sym (exit_of-world (kill h root id' signal w)))
          (kill-Keeps h root files id v id' signal w o)
    real_main-Over (delete_cmd id' force) w other o =
        subst Over (sym (exit_of-world (delete h root rounds id' force w)))
          (delete-Keeps h root files id v rounds id' force w o)
    real_main-Over (proxy_cmd id' target firmware force_reflash log_target) w other o =
        subst Over
          (sym (
            proxy_exit-world (proxy_run root id' target firmware (not force_reflash) log_target w)))
          (lesser h root files id v
            (proxy_quiet id' target firmware (not force_reflash) log_target w) o)

    run_all-Over : (cs : List Command) (w : W) → All (IsOther id) cs → Over w → Over (run_all cs w)
    run_all-Over [] w others o = o
    run_all-Over (c ∷ cs) w (other, others) o =
        run_all-Over cs _ others (real_main-Over c w other o)

    read-loaded :
        (w w' : W) (st : State)
        → read_state h root id w ≡ (ok st, w')
        → h.load (state_file root id) w ≡ some st
    unfolding read_state
    read-loaded w w' st e = elim (Option-cases (h.load (state_file root id) w)) [
      | inl missing ↦ cc (rw (v, missing) at e)
      | inr (x, found) ↦ let is : x ≡ st = cc (rw (v, found) at e) in found ∙ ap some is
    ]

    -- A container that is over cannot be started.
    start-Over : (w w' : W) → Over w → start h root id w ≡ (ok tt, w') → ⊥
    unfolding start
    start-Over w w' o e =
        let (st, is, rest) = and_then-ok (read_state h root id w) _ e in
        let u = (read_state h root id w).1 in
        let same : read_state h root id w ≡ (ok st, u) = ap (λ x. (x, u)) is in
        cc (rw (o st (read-loaded w u st same)) at rest)

    -- On a file system on which a state file is what was renamed into its place, for proxies that leave the
    -- state files alone, and for a container whose state file is read and holds its id: after a `start`
    -- that succeeds, and then any commands on any containers, other than a `create` of this one, no
    -- further `start` of it exits with 0.
    pub start_once :
        (st : State) (w w' : W) (cs : List Command)
        → read_state h root id w ≡ (ok st, w)
        → st.id ≡ id
        → start h root id w ≡ (ok tt, w')
        → All (IsOther id) cs
        → (real_main h proxy_run rounds root (start_cmd id) (run_all cs w')).0 ≢ 0
    unfolding real_main
    start_once st w w' cs r same e others exits =
        let stores : Stores h = record { reads_back = files.reads_back } in
        let after = read-loaded w' w' _ (read-start h root stores id st w w' r same e) in
        let over : Over w' = λ x l.
          let is : record st { status = running } ≡ x = cc in
          subst (λ (y : State). is_created y.status ≡ false) is refl in
        let z = run_all cs w' in
        let (_, ended) = exit_of-zero (start h root id z) exits in
        start-Over z (start h root id z).1 (run_all-Over cs w' others over) ended
