-- ===== src/Occupancy/Exclusive.antt =====
-- No board has two services, in any order of their steps.
use runtt.Shared.{ℕ, ◌≡◌, refl, subst, arith, Option, none, some}
use runtt.Shared.{Result, ok, err, ◌++◌, ◌==◌, Bool-cases, inl, inr}
use runtt.Shared.Text.{Text, codes}
use runtt.Target.{parse_target}
use runtt.Container.{join_path}
use runtt.Container.Lock.{sanitise, acquire_named, acquire_resolved}
use runtt.Resolve.{Resolved, System, lock_key}
use runtt.Proxy.{ProxyError, on_target, claimed, override_log, prepare}
use runtt.Proxy.Claims.{override_log-key}
use runtt.Occupancy.{
  Kernel, Services, resides, may_claim, attempted, settled, begin, Step, begins, acquires, ends,
  Reach, here, next,
}
use runtt.Occupancy.Acquire.{Locks, Sole, Grown, Claimed, acquire_named-Claimed}

module _ {W : Type 0} (k : Kernel W) (root : Text) (canonicalize : Text → Option Text)
    (Opened : W → ℕ → ℕ → Text → Type 0) (Holds : W → ℕ → Text → Type 0)
    (l : Locks k Opened Holds) where
  -- The lock file of a board.
  abbrev pub board_lock : Resolved → Text
  board_lock r = join_path root (codes "device-" ++ sanitise (lock_key canonicalize r))

  record Inv (s : Services W) : Type 0 where
    sole : Sole Holds s.world
    claims : (p : ℕ) (r : Resolved) → s.resident p ≡ some r → Holds s.world p (board_lock r)

  start : {w : W} → Sole Holds w → Grown Holds w w
  start s = record { sole = s; old = λ q path h. h }

  acquired :
      (p : ℕ) (name : Text) (w : W)
      → Sole Holds w
      → Claimed Holds w p
          (join_path root name)
          (acquire_named (k.host p) root name w).0
          (acquire_named (k.host p) root name w).1
  acquired p name w s = acquire_named-Claimed k root Opened Holds l w p name w (start s)

  -- More locks, the same residents.
  grown-Inv :
      {s : Services W} {w : W} → Inv s → Grown Holds s.world w → Inv (record s { world = w })
  grown-Inv v g = record { sole = g.sole; claims = λ p r e. g.old p _ (v.claims p r e) }

  exit-Inv :
      {s : Services W} (p : ℕ)
      → Inv s
      → Inv (record { world = k.exits p s.world; resident = resides s.resident p none })
  exit-Inv {s} p v = record {
    sole = λ q q' path a b.
        v.sole q q' path (l.exit_only p q path s.world a) (l.exit_only p q' path s.world b);
    claims = λ q r e. elim (Bool-cases (q == p)) [
      | inl same ↦ cc (rw same at e)
      | inr other ↦ l.exit_keeps p q _ s.world (ground arith) (v.claims q r (rw other at e))
    ];
  }

  -- A process that is no resident ends.
  gone-Inv :
      {s : Services W} (p : ℕ)
      → s.resident p ≡ none
      → Inv s
      → Inv (record s { world = k.exits p s.world })
  gone-Inv {s} p idle v = record {
    sole = λ q q' path a b.
        v.sole q q' path (l.exit_only p q path s.world a) (l.exit_only p q' path s.world b);
    claims = λ q r e.
        l.exit_keeps p q _ s.world (λ same. cc (subst (λ x. s.resident x ≡ some r) same e))
          (v.claims q r e);
  }

  -- A process that holds the lock of its board becomes a resident.
  settled-Inv :
      (s : Services W) (p : ℕ) (w : W) (r₀ : Resolved) (y : Result ProxyError Resolved)
      → s.resident p ≡ none
      → Inv (record s { world = w })
      → Holds w p (board_lock r₀)
      → ((r : Resolved) → y ≡ ok r → lock_key canonicalize r ≡ lock_key canonicalize r₀)
      → Inv (settled k root canonicalize p s y w)
  settled-Inv s p w r₀ (err e) idle v mine key = gone-Inv p idle v
  settled-Inv s p w r₀ (ok r) idle v mine key = record {
    sole = v.sole;
    claims = λ q r' e. elim (Bool-cases (q == p)) [
      | inl same ↦
          let at : q ≡ p = ground arith in
          let is : r ≡ r' = cc (rw same at e) in rw (at, ← is, key r refl) mine
      | inr other ↦ v.claims q r' (rw other at e)
    ];
  }

  claimed-Inv :
      (s : Services W) (p : ℕ) (sys : System) (log_target : Option Text)
      (x : Result ProxyError Resolved)
      → s.resident p ≡ none
      → Inv s
      → Inv (
          settled k root canonicalize p s
            (claimed sys canonicalize (may_claim k root canonicalize p s.world) log_target x)
            (attempted k root canonicalize p x s.world))
  claimed-Inv s p sys log_target (err e) idle v = gone-Inv p idle v
  claimed-Inv s p sys log_target (ok r) idle v =
      let claim = may_claim k root canonicalize p s.world in
      let key = lock_key canonicalize r in
      let done = acquired p (codes "device-" ++ sanitise key) s.world v.sole in
      let w = (acquire_resolved (k.host p) root key s.world).1 in
      let now = grown-Inv v done.grown in
      elim (Bool-cases (claim key)) [
        | inl mine ↦ rw mine (
            settled-Inv s p w r (override_log sys canonicalize claim r log_target) idle now
              (done.held mine) (λ r' e. override_log-key sys canonicalize claim r r' log_target e))
        | inr other ↦ rw other (gone-Inv p idle now)
      ]

  Step-Inv : {s s' : Services W} → Inv s → Step k root canonicalize s s' → Inv s'
  unfolding begin prepare
  Step-Inv {s} v (begins p sys target log_target idle) =
      claimed-Inv s p sys log_target
        (on_target sys canonicalize (may_claim k root canonicalize p s.world) (parse_target target))
        idle v
  Step-Inv {s} v (acquires p name) = grown-Inv v (acquired p name s.world v.sole).grown
  Step-Inv v (ends p) = exit-Inv p v

  Reach-Inv : {s₀ s : Services W} → Inv s₀ → Reach k root canonicalize s₀ s → Inv s
  Reach-Inv v here = v
  Reach-Inv v (next r step) = Step-Inv (Reach-Inv v r) step

  -- For locks as in flock(2), and a beginning in which no process has a board or a lock: after any
  -- starts, claims and ends of processes, in any order, and whatever the labels and the systems are, two
  -- processes that have gone on to deploy to boards with the same `lock_key`, or with keys that become the
  -- same file name, are one process.
  pub Reach-exclusive :
      (w : W) (s : Services W) (p q : ℕ) (r r' : Resolved)
      → ((x : ℕ) (path : Text) → ¬ Holds w x path)
      → Reach k root canonicalize (record { world = w; resident = λ x. none }) s
      → s.resident p ≡ some r
      → s.resident q ≡ some r'
      → sanitise (lock_key canonicalize r) ≡ sanitise (lock_key canonicalize r')
      → p ≡ q
  Reach-exclusive w s p q r r' free reach at at' same =
      let v =
        Reach-Inv (record { sole = λ x y path h. absurd (free x path h); claims = λ x b e. cc })
          reach in
      v.sole p q (board_lock r) (v.claims p r at) (rw same (v.claims q r' at'))
