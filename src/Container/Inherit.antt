-- ===== src/Container/Inherit.antt =====
-- The lock of the label goes from `create` to the proxy: why `clear_cloexec` is there.
use runtt.Shared.{ℕ, ◌*◌, ◌/◌, ◌%◌, ◌≡◌, refl, sym, ap, subst, ◌∙◌, arith, Bool, Option, none, some}
use runtt.Shared.{Result, ok, err, List}
use runtt.Shared.Stateful.{◌>>=◌, and_then, call, and_then-ok, answer-ok}
use runtt.Shared.Text.{Text, codes}
use runtt.Shared.Text.Numbers.{I32}
use runtt.Target.{parse_target}
use runtt.Container.{
  VerbError, join_path, validate_container_id, lookup, keeps_image, spec_target, spec_skip_if_same,
  spec_log_target, no_directory, no_lock_file, not_inherited, not_spawned, no_spec, no_target,
}
use runtt.Container.Host.{Spec, Host, Flock, locked, would_block, failed, asked, known, ok_or}
use runtt.Container.Lock.{lock_name, claim, clear_cloexec, acquire_named}
use runtt.Container.Spawn.{spawn, proxy_args, proxy_env}
use runtt.Container.Verbs.{
  create, guarded, record_created, locate_firmware, is_target, is_log_target,
}
use runtt.Container.Recorded.{Lasts, record_created-Keeps}

-- What is known of locks and descriptors. `Opened w fd path` says that `fd` is open on `path`,
-- `Locked w fd path` that it also has the lock, `Kept w fd` that it stays open in a process that is
-- started, and `Held w pid path` that the process `pid` has the lock.
pub record Passes {W : Type 0} (h : Host W) (Opened Locked : W → ℕ → Text → Type 0)
    (Kept : W → ℕ → Type 0) (Held : W → I32 → Text → Type 0) : Type 0 where
  pub opens :
      (fd : ℕ) (path : Text) (w w' : W) → h.open_lock path w ≡ (some fd, w') → Opened w' fd path
  pub locks :
      (fd : ℕ) (path : Text) (w w' : W)
      → Opened w fd path
      → h.flock fd w ≡ (locked, w')
      → Locked w' fd path
  pub stays :
      (fd flags : ℕ) (path : Text) (w w' : W)
      → Locked w fd path
      → h.set_fd fd flags w ≡ (some tt, w')
      → Locked w' fd path
  -- FD_CLOEXEC is bit 0.
  pub keeps :
      (fd flags : ℕ) (w w' : W) → flags % 2 ≡ 0 → h.set_fd fd flags w ≡ (some tt, w') → Kept w' fd
  pub inherits :
      (fd : ℕ) (path exe : Text) (args : List Text) (env : List (Text × Text)) (pid : I32)
      (w w' : W)
      → Locked w fd path
      → Kept w fd
      → h.exec exe args env w ≡ (some pid, w')
      → Held w' pid path
  pub lasts : (pid : I32) (path : Text) → Lasts h (λ w. Held w pid path)

-- A result and the state with it.
whole : {E A W : Type 0} (r : Result E A × W) {a : A} → r.0 ≡ ok a → r ≡ (ok a, r.1)
whole (x, w) e = ap (λ y. (y, w)) e

asked-ok :
    {A W : Type 0} (o : Option A) (e : VerbError) (w : W) {a : A}
    → (asked o e w).0 ≡ ok a
    → (o ≡ some a) × ((asked o e w).1 ≡ w)
asked-ok none e w h = cc
asked-ok (some b) e w h = (cc, refl)

module _ {W : Type 0} (h : Host W) (root : Text) (Opened Locked : W → ℕ → Text → Type 0)
    (Kept : W → ℕ → Type 0) (Held : W → I32 → Text → Type 0)
    (p : Passes h Opened Locked Kept Held) where
  clear_cloexec-Kept :
      (fd : ℕ) (path : Text) (w w' : W)
      → clear_cloexec h fd w ≡ (ok tt, w')
      → Locked w fd path
      → Locked w' fd path × Kept w' fd
  unfolding clear_cloexec
  clear_cloexec-Kept fd path w w' e l = go (h.get_fd fd w) e
    where
      go :
          (o : Option ℕ)
          → and_then
              (asked o not_inherited w)
              (λ flags. call (h.set_fd fd (flags / 2 * 2)) not_inherited)
            ≡ (ok tt, w')
          → Locked w' fd path × Kept w' fd
      go none e = cc
      go (some flags) e =
          let set = answer-ok (h.set_fd fd (flags / 2 * 2) w) not_inherited (ap (λ r. r.0) e) in
          let done = set ∙ ap (λ r. (some tt, r.1)) e in
          (
            p.stays fd (flags / 2 * 2) path w w' l done,
            p.keeps fd (flags / 2 * 2) w w' (omega arith) done,
          )

  claim-Kept :
      (fd got : ℕ) (path : Text) (w w' : W) (r : Flock × W)
      → h.flock fd w ≡ r
      → Opened w fd path
      → claim h fd r ≡ (ok got, w')
      → Locked w' got path × Kept w' got
  claim-Kept fd got path w w' (locked, v) f o e =
      let (_, cleared, same) = and_then-ok (clear_cloexec h fd v) _ e in
      let is : fd ≡ got = cc in
      let done = whole (clear_cloexec h fd v) cleared ∙ ap (λ r. (ok tt, r.1)) same in
      subst (λ x. Locked w' x path × Kept w' x) is
        (clear_cloexec-Kept fd path v w' done (p.locks fd path w v o f))
  claim-Kept fd got path w w' (would_block, v) f o e = cc
  claim-Kept fd got path w w' (failed, v) f o e = cc

  acquire_named-Kept :
      (name : Text) (fd : ℕ) (w w' : W)
      → acquire_named h root name w ≡ (ok fd, w')
      → Locked w' fd (join_path root name) × Kept w' fd
  unfolding acquire_named
  acquire_named-Kept name fd w w' e =
      let path = join_path root name in
      let (_, _, e1) = and_then-ok (call (h.create_dir_all root) no_directory w) _ e in
      let v = (call (h.create_dir_all root) no_directory w).1 in
      let (got, opened, e2) = and_then-ok (call (h.open_lock path) no_lock_file v) _ e1 in
      let u = (call (h.open_lock path) no_lock_file v).1 in
      let o = p.opens got path v u (answer-ok (h.open_lock path v) no_lock_file opened) in
      claim-Kept got fd path u w' (h.flock got u) refl o e2

  spawn-Held :
      (id target firmware : Text) (skip : Bool) (log_target : Option Text) (fd : ℕ) (path : Text)
      (pid : I32) (w w' : W)
      → spawn h root id target firmware skip log_target fd w ≡ (ok pid, w')
      → Locked w fd path
      → Kept w fd
      → Held w' pid path
  unfolding spawn
  spawn-Held id target firmware skip log_target fd path pid w w' e l k =
      let found = asked (h.current_exe w) not_spawned w in
      let (exe, is, e1) = and_then-ok found _ e in
      let same = sym (asked-ok (h.current_exe w) not_spawned w is).1 in
      let v = found.1 in
      let args = proxy_args root id target firmware skip log_target in
      let env = proxy_env fd (h.env (codes "RUNTT_TRACE") v) (h.env (codes "RUST_LOG") v) in
      let run = answer-ok (h.exec exe args env v) not_spawned (ap (λ r. r.0) e1) in
      p.inherits fd path exe args env pid v w' (subst (λ u. Locked u fd path) same l)
        (subst (λ u. Kept u fd) same k) (run ∙ ap (λ r. (some pid, r.1)) e1)

  guarded-Held :
      (pid : I32) (path : Text) (r : Result VerbError (Unit {0}) × W) (w' : W)
      → guarded h root pid r ≡ (ok tt, w')
      → Held r.1 pid path
      → Held w' pid path
  guarded-Held pid path (ok a, v) w' e k = subst (λ u. Held u pid path) (ap (λ r. r.1) e) k
  guarded-Held pid path (err x, v) w' e k = cc

  -- The part of `create` from the claim of the label on.
  claimed-Held :
      (id bundle target firmware : Text) (pid_file : Option Text) (skip : Bool)
      (log_target : Option Text) (w w' : W)
      → and_then (acquire_named h root (lock_name target) w) (λ fd.
        spawn h root id target firmware skip log_target fd >>= λ pid v.
        guarded h root pid (record_created h root id bundle pid_file target firmware pid v))
        ≡ (ok tt, w')
      → (pid : I32) × Held w' pid (join_path root (lock_name target))
  claimed-Held id bundle target firmware pid_file skip log_target w w' e =
      let path = join_path root (lock_name target) in
      let claim_of = acquire_named h root (lock_name target) w in
      let (fd, claims, e1) = and_then-ok claim_of _ e in
      let mine = acquire_named-Kept (lock_name target) fd w claim_of.1 (whole claim_of claims) in
      let spawn_of = spawn h root id target firmware skip log_target fd claim_of.1 in
      let (pid, spawns, e2) = and_then-ok spawn_of _ e1 in
      let held =
        spawn-Held id target firmware skip log_target fd path pid claim_of.1 spawn_of.1
          (whole spawn_of spawns) mine.0 mine.1 in
      let kept =
        record_created-Keeps h root (λ v. Held v pid path) (p.lasts pid path) id bundle pid_file
          target firmware pid spawn_of.1 held in
      (
        pid,
        guarded-Held pid path
            (record_created h root id bundle pid_file target firmware pid spawn_of.1) w' e2 kept,
      )

  -- What a `create` has left: the lock of the label that the spec gives, held by a process.
  pub record Claimed (bundle : Text) (w w' : W) : Type 0 where
    pub spec : Spec
    pub target : Text
    pub pid : I32
    pub given : h.read_spec (join_path bundle (codes "config.json")) w ≡ some spec
    pub named : lookup spec_target spec.annotations ≡ some target
    pub held : Held w' pid (join_path root (lock_name target))

  -- Where descriptors without FD_CLOEXEC pass to the processes that are started, with their locks: after
  -- a `create` that succeeds, a process has the lock of the label in the container's spec, although the
  -- `create` that took the lock is over.
  pub create_holds :
      (id bundle : Text) (pid_file : Option Text) (w w' : W)
      → create h root id bundle pid_file w ≡ (ok tt, w')
      → Claimed bundle w w'
  unfolding create
  create_holds id bundle pid_file w w' e =
      let config = join_path bundle (codes "config.json") in
      let (_, _, e1) = and_then-ok (known (validate_container_id id) w) _ e in
      let read = asked (h.read_spec config w) no_spec w in
      let (spec, reads_spec, e2) = and_then-ok read _ e1 in
      let label = ok_or (lookup spec_target spec.annotations) no_target in
      let (target, names, e3) = and_then-ok (known label read.1) _ e2 in
      let (_, _, e4) = and_then-ok (known (is_target (parse_target target)) read.1) _ e3 in
      let located = locate_firmware h root spec bundle read.1 in
      let (firmware, _, e5) = and_then-ok located _ e4 in
      let log = lookup spec_log_target spec.annotations in
      let (_, _, e6) = and_then-ok (known (is_log_target log) located.1) _ e5 in
      let (pid, held) =
        claimed-Held id bundle target firmware pid_file
          (keeps_image (lookup spec_skip_if_same spec.annotations)) log located.1 w' e6 in
      record {
        spec = spec;
        target = target;
        pid = pid;
        given = (asked-ok (h.read_spec config w) no_spec w reads_spec).0;
        named = ground arith;
        held = held;
      }
