-- ===== src/Occupancy/Acquire.antt =====
-- What taking a lock file does to the locks that processes hold.
use runtt.Shared.{
  ℕ, ◌≡◌, refl, sym, subst, ◌∙◌, ◌⊎◌, inl, inr, true, Option, none, some, Result, ok, err,
}
use runtt.Shared.{◌*◌, ◌/◌}
use runtt.Shared.Stateful.{and_then, call, answer, Triple, Triple->>=, Keeps, Keeps->>=, Keeps-call}
use runtt.Shared.Text.{Text}
use runtt.Container.{VerbError, join_path, no_directory, no_lock_file, not_inherited}
use runtt.Container.Host.{Flock, locked, would_block, failed, ask, Keeps-ask}
use runtt.Container.Lock.{claim, clear_cloexec, acquire_named}
use runtt.Occupancy.{Kernel, granted}

-- What is known of flock(2) and open(2). `Opened w p fd path` says that the descriptor `fd` of the
-- process `p` is open on `path`, and `Holds w p path` that `p` has a lock on `path`: a lock that is granted
-- is held, was held by no other process, and is the only one that is new; no other call takes or drops
-- a lock; and the end of a process takes none and drops only its own.
pub record Locks {W : Type 0} (k : Kernel W) (Opened : W → ℕ → ℕ → Text → Type 0)
    (Holds : W → ℕ → Text → Type 0) : Type 0 where
  pub opens :
      (p fd : ℕ) (path : Text) (w w' : W)
      → (k.host p).open_lock path w ≡ (some fd, w')
      → Opened w' p fd path
  pub grants :
      (p fd : ℕ) (path : Text) (w w' : W)
      → Opened w p fd path
      → (k.host p).flock fd w ≡ (locked, w')
      → Holds w' p path
  pub excludes :
      (p q fd : ℕ) (path : Text) (w w' : W)
      → Opened w p fd path
      → (k.host p).flock fd w ≡ (locked, w')
      → Holds w q path
      → q ≡ p
  pub only :
      (p q fd : ℕ) (path path' : Text) (w w' : W)
      → Opened w p fd path
      → (k.host p).flock fd w ≡ (locked, w')
      → Holds w' q path'
      → Holds w q path' ⊎ ((q ≡ p) × (path' ≡ path))
  pub refuses :
      (p q fd : ℕ) (path : Text) (w w' : W) (f : Flock)
      → (k.host p).flock fd w ≡ (f, w')
      → (f ≡ would_block) ⊎ (f ≡ failed)
      → Holds w' q path
      → Holds w q path
  pub flock_keeps :
      (p q fd : ℕ) (path : Text) (w : W) → Holds w q path → Holds ((k.host p).flock fd w).1 q path
  pub dir_keeps :
      (p q : ℕ) (dir path : Text) (w : W)
      → Holds w q path
      → Holds ((k.host p).create_dir_all dir w).1 q path
  pub dir_only :
      (p q : ℕ) (dir path : Text) (w : W)
      → Holds ((k.host p).create_dir_all dir w).1 q path
      → Holds w q path
  pub open_keeps :
      (p q : ℕ) (file path : Text) (w : W)
      → Holds w q path
      → Holds ((k.host p).open_lock file w).1 q path
  pub open_only :
      (p q : ℕ) (file path : Text) (w : W)
      → Holds ((k.host p).open_lock file w).1 q path
      → Holds w q path
  pub flags_keep :
      (p q fd flags : ℕ) (path : Text) (w : W)
      → Holds w q path
      → Holds ((k.host p).set_fd fd flags w).1 q path
  pub flags_only :
      (p q fd flags : ℕ) (path : Text) (w : W)
      → Holds ((k.host p).set_fd fd flags w).1 q path
      → Holds w q path
  pub exit_keeps :
      (p q : ℕ) (path : Text) (w : W) → (q ≡ p → ⊥) → Holds w q path → Holds (k.exits p w) q path
  pub exit_only : (p q : ℕ) (path : Text) (w : W) → Holds (k.exits p w) q path → Holds w q path

module _ {W : Type 0} (Holds : W → ℕ → Text → Type 0) where
  -- No lock has two holders.
  abbrev pub Sole : W → Type 0
  Sole w = (p q : ℕ) (path : Text) → Holds w p path → Holds w q path → p ≡ q

  -- A world with the locks of `w₀` at least, each with one holder.
  pub record Grown (w₀ w : W) : Type 0 where
    pub sole : Sole w
    pub old : (q : ℕ) (path : Text) → Holds w₀ q path → Holds w q path

  -- What a claim of `path` by `p` that ended so has left of the world `w₀`.
  pub record Claimed (w₀ : W) (p : ℕ) (path : Text) (r : Result VerbError ℕ) (w : W) : Type 0 where
    pub grown : Grown w₀ w
    pub held : granted r ≡ true → Holds w p path

module _ {W : Type 0} (k : Kernel W) (root : Text) (Opened : W → ℕ → ℕ → Text → Type 0)
    (Holds : W → ℕ → Text → Type 0) (l : Locks k Opened Holds) (w₀ : W) (p : ℕ) where
  abbrev G : W → Type 0
  G = Grown Holds w₀

  -- A call that neither takes nor drops a lock.
  same :
      (w w' : W)
      → ((q : ℕ) (path : Text) → Holds w q path → Holds w' q path)
      → ((q : ℕ) (path : Text) → Holds w' q path → Holds w q path)
      → G w
      → G w'
  same w w' keeps only g = record {
    sole = λ q q' path a b. g.sole q q' path (only q path a) (only q' path b);
    old = λ q path a. keeps q path (g.old q path a);
  }

  clear_cloexec-Keeps :
      (P : W → Type 0)
      → ((fd flags : ℕ) (w : W) → P w → P ((k.host p).set_fd fd flags w).1)
      → (fd : ℕ) → Keeps P (clear_cloexec (k.host p) fd)
  unfolding clear_cloexec
  clear_cloexec-Keeps P keep fd =
      Keeps->>= P (ask ((k.host p).get_fd fd) not_inherited) _
        (Keeps-ask P ((k.host p).get_fd fd) not_inherited)
        (λ flags. Keeps-call P _ _ (keep fd (flags / 2 * 2)))

  abbrev Open : Text → Result VerbError ℕ → W → Type 0
  Open path (ok fd) w = G w × Opened w p fd path
  Open path (err e) w = G w

  open_lock-Open :
      (path : Text) → Triple G (call ((k.host p).open_lock path) no_lock_file) (Open path)
  open_lock-Open path w g =
      go ((k.host p).open_lock path w) refl
        (same w _ (λ q f. l.open_keeps p q path f w) (λ q f. l.open_only p q path f w) g)
    where
      go :
          (r : Option ℕ × W)
          → (k.host p).open_lock path w ≡ r
          → G r.1
          → Open path (answer r no_lock_file).0 (answer r no_lock_file).1
      go (some fd, w') e g' = (g', l.opens p fd path w w' e)
      go (none, w') e g' = g'

  -- A lock that is granted has one holder, the process itself.
  grown-locked :
      (fd : ℕ) (path : Text) (w w' : W)
      → G w
      → Opened w p fd path
      → (k.host p).flock fd w ≡ (locked, w')
      → G w'
  grown-locked fd path w w' g o e = record {
    sole = λ q q' f a b.
        one q q' f (l.only p q fd path f w w' o e a) (l.only p q' fd path f w w' o e b);
    old = λ q f a. subst (λ r. Holds r.1 q f) e (l.flock_keeps p q fd f w (g.old q f a));
  }
    where
      one :
          (q q' : ℕ) (f : Text)
          → Holds w q f ⊎ ((q ≡ p) × (f ≡ path))
          → Holds w q' f ⊎ ((q' ≡ p) × (f ≡ path))
          → q ≡ q'
      one q q' f (inl a) (inl b) = g.sole q q' f a b
      one q q' f (inl a) (inr (mine, at)) =
          l.excludes p q fd path w w' o e (subst (Holds w q) at a) ∙ sym mine
      one q q' f (inr (mine, at)) (inl b) =
          mine ∙ sym (l.excludes p q' fd path w w' o e (subst (Holds w q') at b))
      one q q' f (inr (mine, at)) (inr (mine', at')) = mine ∙ sym mine'

  refused :
      (fd : ℕ) (w w' : W) (f : Flock)
      → G w
      → (k.host p).flock fd w ≡ (f, w')
      → (f ≡ would_block) ⊎ (f ≡ failed)
      → G w'
  refused fd w w' f g e kind =
      same w w' (λ q path a. subst (λ r. Holds r.1 q path) e (l.flock_keeps p q fd path w a))
        (λ q path a. l.refuses p q fd path w w' f e kind a) g

  failed_claim : {path : Text} (e : VerbError) (w : W) → G w → Claimed Holds w₀ p path (err e) w
  failed_claim e w g = record { grown = g; held = λ x. cc }

  claim-Claimed :
      (fd : ℕ) (path : Text) (w : W) (r : Flock × W)
      → G w
      → Opened w p fd path
      → (k.host p).flock fd w ≡ r
      → Claimed Holds w₀ p path (claim (k.host p) fd r).0 (claim (k.host p) fd r).1
  claim-Claimed fd path w (locked, w') g o e = kept (clear_cloexec (k.host p) fd w') (
      clear_cloexec-Keeps (λ v. G v × Holds v p path)
        (λ d flags v h. (
          same v _ (λ q f. l.flags_keep p q d flags f v) (λ q f. l.flags_only p q d flags f v) h.0,
          l.flags_keep p p d flags path v h.1,
        ))
        fd w' (grown-locked fd path w w' g o e, l.grants p fd path w w' o e))
    where
      kept :
          (r : Result VerbError (Unit {0}) × W)
          → G r.1 × Holds r.1 p path
          → Claimed Holds w₀ p path
              (and_then r (λ _ v. (ok fd, v))).0
              (and_then r (λ _ v. (ok fd, v))).1
      kept (ok a, v) h = record { grown = h.0; held = λ _. h.1 }
      kept (err x, v) h = failed_claim x v h.0
  claim-Claimed fd path w (would_block, w') g o e =
      failed_claim _ w' (refused fd w w' would_block g e (inl refl))
  claim-Claimed fd path w (failed, w') g o e =
      failed_claim _ w' (refused fd w w' failed g e (inr refl))

  -- Taking the lock file `name`: no lock is lost, none has two holders, and on success it is held.
  pub acquire_named-Claimed :
      (name : Text)
      → Triple G (acquire_named (k.host p) root name) (Claimed Holds w₀ p (join_path root name))
  unfolding acquire_named
  acquire_named-Claimed name =
      let path = join_path root name in
      let Post = Claimed Holds w₀ p path in
      Triple->>= Post (call ((k.host p).create_dir_all root) no_directory) _ (λ _ w. G w)
        (Keeps-call G _ _
          (λ w g. same w _ (λ q f. l.dir_keeps p q root f w) (λ q f. l.dir_only p q root f w) g))
        (λ _.
          Triple->>= Post (call ((k.host p).open_lock path) no_lock_file) _ (Open path)
            (open_lock-Open path)
            (λ fd w h. claim-Claimed fd path w ((k.host p).flock fd w) h.0 h.1 refl) failed_claim)
        failed_claim
