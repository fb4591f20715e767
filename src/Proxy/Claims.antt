-- ===== src/Proxy/Claims.antt =====
-- The board that is deployed to is the board that was claimed.
use runtt.Shared.{◌≡◌, refl, Bool, true, Bool-cases, inl, inr, Result, ok, err, Option, none, some}
use runtt.Shared.Text.{Text}
use runtt.Target.{Target, LabelError, parse_target}
use runtt.Resolve.{Resolved, ResolveError, serial, can, System, resolve, lock_key, set_log}
use runtt.Proxy.{ProxyError, prepare, on_target, with_log, on_log_target, override_log, claimed}

lock_key-set_log :
    (canonicalize : Text → Option Text) (r : Resolved) (path : Text)
    → lock_key canonicalize (set_log r path) ≡ lock_key canonicalize r
unfolding lock_key set_log
lock_key-set_log canonicalize (serial mgmt log) path = refl
lock_key-set_log canonicalize (can iface node_id log) path = refl

module _ (sys : System) (canonicalize : Text → Option Text) (claim : Text → Bool) where
  abbrev key : Resolved → Text
  key r = lock_key canonicalize r

  with_log-key :
      (r r' : Resolved) (x : Result ResolveError Resolved)
      → with_log sys canonicalize claim r x ≡ ok r'
      → key r' ≡ key r
  with_log-key r r' (err x) e = cc
  with_log-key r r' (ok (serial mgmt log)) e =
      let is : set_log r mgmt ≡ r' = cc in rw (← is) (lock_key-set_log canonicalize r mgmt)
  with_log-key r r' (ok (can iface node_id log)) e = cc

  on_log_target-key :
      (r r' : Resolved) (x : Result LabelError Target)
      → on_log_target sys canonicalize claim r x ≡ ok r'
      → key r' ≡ key r
  on_log_target-key r r' (err x) e = cc
  on_log_target-key r r' (ok t) e = with_log-key r r' (resolve sys t) e

  pub override_log-key :
      (r r' : Resolved) (log_target : Option Text)
      → override_log sys canonicalize claim r log_target ≡ ok r'
      → lock_key canonicalize r' ≡ lock_key canonicalize r
  override_log-key r r' none e = let is : r ≡ r' = cc in rw (is) refl
  override_log-key r r' (some label) e = on_log_target-key r r' (parse_target label) e

  claimed-key :
      (log_target : Option Text) (x : Result ProxyError Resolved) (r : Resolved)
      → claimed sys canonicalize claim log_target x ≡ ok r
      → claim (key r) ≡ true
  claimed-key log_target (err x) r e = cc
  claimed-key log_target (ok r0) r e = elim (Bool-cases (claim (key r0))) [
    | inl mine ↦ rw (override_log-key r0 r log_target (rw mine at e)) mine
    | inr other ↦ cc (rw other at e)
  ]

  -- Whatever the labels are, a board that the proxy goes on to deploy to is one whose key it has claimed,
  -- also after the log target has been put in.
  pub prepare_claims :
      (target : Text) (log_target : Option Text) (r : Resolved)
      → prepare sys canonicalize claim target log_target ≡ ok r
      → claim (lock_key canonicalize r) ≡ true
  unfolding prepare
  prepare_claims target log_target r e =
      claimed-key log_target (on_target sys canonicalize claim (parse_target target)) r e
