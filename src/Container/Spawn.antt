-- ===== src/Container/Spawn.antt =====
-- `spawn` of crates/runtt/src/proxy.rs: the command line and the environment of the proxy. `exec` of the
-- Host starts the process, in a process group of its own.
use runtt.Shared.{ℕ, Bool, List, [], ◌∷◌, ◌++◌, Option, none, some, if◌then◌else◌, ok}
use runtt.Shared.Stateful.{M, ◌>>=◌, call}
use runtt.Shared.Text.{Text, codes}
use runtt.Shared.Text.Numbers.{I32, show_dec}
use runtt.Container.{VerbError, not_spawned}
use runtt.Container.Host.{Host, ask}

abbrev log_args : Option Text → List Text
log_args none = []
log_args (some label) = codes "--log-target" ∷ label ∷ []

-- The command line of `proxy::spawn`.
abbrev pub proxy_args : Text → Text → Text → Text → Bool → Option Text → List Text
proxy_args root id target firmware skip_if_same log_target =
    codes "--root"
    ∷ root
    ∷ codes "proxy"
    ∷ codes "--container-id"
    ∷ id
    ∷ codes "--target"
    ∷ target
    ∷ codes "--firmware"
    ∷ firmware
    ∷ ((if skip_if_same then [] else codes "--force-reflash" ∷ []) ++ log_args log_target)

-- A variable that is passed on where it is set.
abbrev pub passed_on : Text → Option Text → List (Text × Text)
passed_on name none = []
passed_on name (some value) = (name, value) ∷ []

abbrev pub lock_fd_env : Text
lock_fd_env = codes "RUNTT_LOCK_FD"

-- The environment after `env_clear`.
abbrev pub proxy_env : ℕ → Option Text → Option Text → List (Text × Text)
proxy_env lock_fd trace log =
    (codes "PATH", codes "/usr/sbin:/usr/bin:/sbin:/bin")
    ∷ (lock_fd_env, show_dec lock_fd)
    ∷ (passed_on (codes "RUNTT_TRACE") trace ++ passed_on (codes "RUST_LOG") log)

module _ {W : Type 0} (h : Host W) (root : Text) where
  abbrev pub reads : Text → M VerbError W (Option Text)
  reads name w = (ok (h.env name w), w)

  unfoldable pub spawn : Text → Text → Text → Bool → Option Text → ℕ → M VerbError W I32
  spawn id target firmware skip_if_same log_target lock_fd = do
    exe ← ask h.current_exe not_spawned
    trace ← reads (codes "RUNTT_TRACE")
    log ← reads (codes "RUST_LOG")
    call
        (h.exec exe (proxy_args root id target firmware skip_if_same log_target)
          (proxy_env lock_fd trace log))
        not_spawned
