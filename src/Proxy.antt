-- ===== src/Proxy.antt =====
-- crates/runtt/src/proxy.rs, and `stay_resident` of flash.rs: the process behind a container, from the
-- wait for `start` to the heartbeats. The clock and the log threads are left out.
pub mod Claims
pub mod Heartbeats
pub mod Signals
pub mod Window
pub mod Exits
use runtt.Shared.{
  ℕ, zero, suc, ◌+◌, Bool, true, false, ◌||◌, List, [], ◌∷◌, Option, none, some, Result, ok, err,
}
use runtt.Shared.{leb, ◌==◌, if◌then◌else◌}
use runtt.Shared.Text.{Text}
use runtt.Target.{Target, LabelError, parse_target}
use runtt.Container.{sigint, sigterm, sigusr1}
use runtt.Resolve.{Resolved, serial, can, ResolveError, System, resolve, lock_key, set_log}

pub data ProxyError : Type 0 where
  bad_target bad_log_target unresolved unresolved_log in_use log_on_can not_deployed lost
        no_handlers :
      ProxyError

-- `install_handlers`: `install` is signal(2) with the handler, and says whether it took it.
unfoldable pub install_all : (ℕ → Bool) → List ℕ → Result ProxyError (Unit {0})
install_all install [] = ok tt
install_all install (sig ∷ sigs) =
    let rest = install_all install sigs in if install sig then rest else err no_handlers

unfoldable pub install_handlers : (ℕ → Bool) → Result ProxyError (Unit {0})
unfolding install_all
install_handlers install = install_all install (sigusr1 ∷ sigterm ∷ sigint ∷ [])

-- Phase 1 over what the swaps of the signal cell give in turn: whether the proxy is to begin or to exit
-- cleanly, or `none` while it waits.
unfoldable pub await_start : List ℕ → Option Bool
await_start [] = none
await_start (sig ∷ more) =
    let later = await_start more in
    if sig == 0
    then later
    else if sig == sigusr1
    then some true
    else if sig == sigterm || sig == sigint
    then some false
    else later

module _ (sys : System) (canonicalize : Text → Option Text) (claim : Text → Bool) where
  abbrev pub on_target : Result LabelError Target → Result ProxyError Resolved
  on_target (err e) = err bad_target
  on_target (ok t) = found (resolve sys t)
    where
      found : Result ResolveError Resolved → Result ProxyError Resolved
      found (err e) = err unresolved
      found (ok r) = ok r

  abbrev with_log : Resolved → Result ResolveError Resolved → Result ProxyError Resolved
  with_log r (err e) = err unresolved_log
  with_log r (ok (serial mgmt log)) = ok (set_log r mgmt)
  with_log r (ok (can iface node_id log)) = err log_on_can

  abbrev on_log_target : Resolved → Result LabelError Target → Result ProxyError Resolved
  on_log_target r (err e) = err bad_log_target
  on_log_target r (ok t) = with_log r (resolve sys t)

  abbrev pub override_log : Resolved → Option Text → Result ProxyError Resolved
  override_log r none = ok r
  override_log r (some label) = on_log_target r (parse_target label)

  abbrev pub claimed : Option Text → Result ProxyError Resolved → Result ProxyError Resolved
  claimed log_target (err e) = err e
  claimed log_target (ok r) =
      if claim (lock_key canonicalize r) then override_log r log_target else err in_use

  -- Phase 2 up to the deploy: the target is resolved, the board claimed, and the log target put in.
  unfoldable pub prepare : Text → Option Text → Result ProxyError Resolved
  prepare target log_target = claimed log_target (on_target (parse_target target))

-- One round of the resident loop: the two looks at the stop flag and the answer to the heartbeat.
pub record Beat : Type 0 where
  pub stop_before : Bool
  pub stop_after : Bool
  pub echoed : Bool

-- The loop of `stay_resident`; `none` while it goes on.
unfoldable pub stay_resident : ℕ → List Beat → Option (Result ProxyError (Unit {0}))
stay_resident failures [] = none
stay_resident failures (b ∷ bs) =
    let well = stay_resident 0 bs in
    let missed = stay_resident (failures + 1) bs in
    if b.stop_before
    then some (ok tt)
    else if b.stop_after
    then some (ok tt)
    else if b.echoed
    then well
    else if leb 2 (failures + 1)
    then some (err lost)
    else missed

abbrev pub resident :
    Result ProxyError (Unit {0}) → List Beat → Option (Result ProxyError (Unit {0}))
resident (err e) beats = some (err e)
resident (ok _) beats = stay_resident 0 beats

abbrev pub begun :
    (Resolved → Result ProxyError (Unit {0}))
    → List Beat
    → Result ProxyError Resolved
    → Option (Result ProxyError (Unit {0}))
begun deploy beats (err e) = some (err e)
begun deploy beats (ok r) = resident (deploy r) beats

abbrev pub awaited :
    Option Bool → Option (Result ProxyError (Unit {0})) → Option (Result ProxyError (Unit {0}))
awaited none later = none
awaited (some false) later = some (ok tt)
awaited (some true) later = later

abbrev pub handled :
    Result ProxyError (Unit {0})
    → Option (Result ProxyError (Unit {0}))
    → Option (Result ProxyError (Unit {0}))
handled (err e) later = some (err e)
handled (ok _) later = later

-- `run`: how the proxy ends, `ok` being exit code 0. `deploy` is the deploy of flash.rs.
unfoldable pub run_proxy :
    (ℕ → Bool)
    → System
    → (Text → Option Text)
    → (Text → Bool)
    → (Resolved → Result ProxyError (Unit {0}))
    → List ℕ
    → Text
    → Option Text
    → List Beat
    → Option (Result ProxyError (Unit {0}))
run_proxy install sys canonicalize claim deploy signals target log_target beats =
    handled (install_handlers install) (
      awaited (await_start signals)
        (begun deploy beats (prepare sys canonicalize claim target log_target)))
