-- ===== src/Occupancy.antt =====
-- Occupancy over several services: the processes of `proxy::run` on one kernel, up to the deploy, with
-- the lock files of crates/runtt/src/lock.rs. Each process has its own view of the system calls.
pub mod Acquire
pub mod Exclusive
use runtt.Shared.{
  ℕ, ◌≡◌, Bool, true, false, Option, none, some, Result, ok, err, ◌==◌, if◌then◌else◌,
}
use runtt.Shared.Text.{Text}
use runtt.Target.{parse_target}
use runtt.Container.{VerbError}
use runtt.Container.Host.{Host}
use runtt.Container.Lock.{acquire_named, acquire_resolved}
use runtt.Resolve.{Resolved, System, lock_key}
use runtt.Proxy.{ProxyError, on_target, prepare}

-- The system calls of each process, and what its end does: the kernel closes its descriptors.
pub record Kernel (W : Type 0) : Type 0 where
  pub host : ℕ → Host W
  pub exits : ℕ → W → W

-- The world, and the board that each process has gone on to deploy to.
pub record Services (W : Type 0) : Type 0 where
  pub world : W
  pub resident : ℕ → Option Resolved

abbrev pub resides : (ℕ → Option Resolved) → ℕ → Option Resolved → ℕ → Option Resolved
resides f p r q = if q == p then r else f q

abbrev pub granted : {A : Type 0} → Result VerbError A → Bool
granted (ok _) = true
granted (err _) = false

module _ {W : Type 0} (k : Kernel W) (root : Text) (canonicalize : Text → Option Text) where
  -- Whether the process `p` gets the lock of a key.
  abbrev pub may_claim : ℕ → W → Text → Bool
  may_claim p w key = granted (acquire_resolved (k.host p) root key w).0

  -- What the claim leaves of the world, where the target resolves.
  abbrev pub attempted : ℕ → Result ProxyError Resolved → W → W
  attempted p (err e) w = w
  attempted p (ok r) w = (acquire_resolved (k.host p) root (lock_key canonicalize r) w).1

  -- A process that cannot go on ends; otherwise it deploys to its board.
  abbrev pub settled : ℕ → Services W → Result ProxyError Resolved → W → Services W
  settled p s (err e) w = record s { world = k.exits p w }
  settled p s (ok r) w = record { world = w; resident = resides s.resident p (some r) }

  -- Phase 2 of `run` in the process `p` up to the deploy. `sys` is what the system shows it.
  unfoldable pub begin : ℕ → System → Text → Option Text → Services W → Services W
  begin p sys target log_target s =
      let claim = may_claim p s.world in
      settled p s (prepare sys canonicalize claim target log_target)
        (attempted p (on_target sys canonicalize claim (parse_target target)) s.world)

  -- A process starts, one takes any lock (as `create` does for a label), or one ends.
  pub data Step (s : Services W) : Services W → Type 0 where
    begins :
        (p : ℕ) (sys : System) (target : Text) (log_target : Option Text)
        → s.resident p ≡ none
        → Step s (begin p sys target log_target s)
    acquires :
        (p : ℕ) (name : Text)
        → Step s (record s { world = (acquire_named (k.host p) root name s.world).1 })
    ends :
        (p : ℕ)
        → Step s (record { world = k.exits p s.world; resident = resides s.resident p none })

  pub data Reach (s₀ : Services W) : Services W → Type 0 where
    here : Reach s₀ s₀
    next : {s s' : Services W} → Reach s₀ s → Step s s' → Reach s₀ s'
