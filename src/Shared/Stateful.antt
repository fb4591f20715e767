-- ===== src/Shared/Stateful.antt =====
-- Fallible code over a state.
use mathlib.Core.Path.{◌≡◌, refl}
use mathlib.Core.Option.{Option, none, some}
use runtt.Shared.Results.{Result, ok, err}

abbrev pub M : Type 0 → Type 0 → Type 0 → Type 0
M E S A = S → Result E A × S

-- What follows a step.
abbrev pub and_then : {E S A B : Type 0} → Result E A × S → (A → M E S B) → Result E B × S
and_then (ok a, s) f = f a s
and_then (err e, s) f = (err e, s)

infixl 5 ◌>>=◌ ◌>>◌
abbrev pub ◌>>=◌ : {E S A B : Type 0} → M E S A → (A → M E S B) → M E S B
◌>>=◌ m f s = and_then (m s) f

abbrev pub ◌>>◌ : {E S A B : Type 0} → M E S A → M E S B → M E S B
◌>>◌ m k = m >>= λ _. k

abbrev pub pure : {E S A : Type 0} → A → M E S A
pure a s = (ok a, s)

abbrev pub fail : {E S A : Type 0} → E → M E S A
fail e s = (err e, s)

abbrev pub answer : {E S A : Type 0} → Option A × S → E → Result E A × S
answer (some a, s) e = (ok a, s)
answer (none, s) e = (err e, s)

-- A request to the board; a failure is the error `e`.
abbrev pub call : {E S A : Type 0} → (S → Option A × S) → E → M E S A
call op e s = answer (op s) e

-- What a step did that ended well: the two steps of a sequence, and a request.
pub and_then-ok :
    {E S A B : Type 0} (r : Result E A × S) (f : A → M E S B) {b : B} {s' : S}
    → and_then r f ≡ (ok b, s')
    → (a : A) × (r.0 ≡ ok a) × (f a r.1 ≡ (ok b, s'))
and_then-ok (ok a, s) f e = (a, refl, e)
and_then-ok (err x, s) f e = cc

pub answer-ok :
    {E S A : Type 0} (r : Option A × S) (e : E) {a : A}
    → (answer r e).0 ≡ ok a
    → r ≡ (some a, (answer r e).1)
answer-ok (some a, s) e h = cc
answer-ok (none, s) e h = cc

-- From a state with `Pre`, the step ends in a state and with a result as `Post` says.
abbrev pub Triple : {E S A : Type 0} → (S → Type 0) → M E S A → (Result E A → S → Type 0) → Type 0
Triple {S = S} Pre m Post = (s : S) → Pre s → Post (m s).0 (m s).1

-- The rule for a sequence: `Mid` is what the first step ensures.
module _ {E S A B : Type 0} {Pre : S → Type 0} (Post : Result E B → S → Type 0) where
  pub Triple->>= :
      (m : M E S A) (f : A → M E S B) (Mid : Result E A → S → Type 0)
      → Triple Pre m Mid
      → ((a : A) → Triple (Mid (ok a)) (f a) Post)
      → ((e : E) (s : S) → Mid (err e) s → Post (err e) s)
      → Triple Pre (m >>= f) Post
  Triple->>= m f Mid first later failed s h = go (m s) (first s h)
    where
      go : (r : Result E A × S) → Mid r.0 r.1 → Post (and_then r f).0 (and_then r f).1
      go (ok a, s') k = later a s' k
      go (err e, s') k = failed e s' k

-- A step that keeps an invariant, whether it succeeds or fails.
abbrev pub Keeps : {E S A : Type 0} → (S → Type 0) → M E S A → Type 0
Keeps {S = S} I m = (s : S) → I s → I (m s).1

module _ {E S A B : Type 0} (I : S → Type 0) where
  pub Keeps->>= :
      (m : M E S A) (f : A → M E S B) → Keeps I m → ((a : A) → Keeps I (f a)) → Keeps I (m >>= f)
  Keeps->>= m f first later s h = go (m s) (first s h)
    where
      go : (r : Result E A × S) → I r.1 → I (and_then r f).1
      go (ok a, s') k = later a s' k
      go (err e, s') k = k

module _ {E S A : Type 0} (I : S → Type 0) where
  pub Keeps-call :
      (op : S → Option A × S) (e : E) → ((s : S) → I s → I (op s).1) → Keeps I (call op e)
  Keeps-call op e h s k = go (op s) (h s k)
    where
      go : (r : Option A × S) → I r.1 → I (answer r e).1
      go (some a, s') i = i
      go (none, s') i = i

-- What is dropped where the rest of a function fails.
abbrev pub undone : {E S A : Type 0} → (S → S) → Result E A × S → Result E A × S
undone undo (ok a, s) = (ok a, s)
undone undo (err e, s) = (err e, undo s)

abbrev pub on_error : {E S A : Type 0} → (S → S) → M E S A → M E S A
on_error undo m s = undone undo (m s)

module _ {E S A : Type 0} {Pre : S → Type 0} (Post : Result E A → S → Type 0) where
  pub Triple-on_error :
      (undo : S → S) (m : M E S A) (Mid : Result E A → S → Type 0)
      → Triple Pre m Mid
      → ((a : A) (s : S) → Mid (ok a) s → Post (ok a) s)
      → ((e : E) (s : S) → Mid (err e) s → Post (err e) (undo s))
      → Triple Pre (on_error undo m) Post
  Triple-on_error undo m Mid first well failed s h = go (m s) (first s h)
    where
      go : (r : Result E A × S) → Mid r.0 r.1 → Post (undone undo r).0 (undone undo r).1
      go (ok a, s') k = well a s' k
      go (err e, s') k = failed e s' k

  -- A call, by its two answers.
  pub Triple-call :
      (op : S → Option A × S) (e : E)
      → ((s s' : S) (a : A) → Pre s → op s ≡ (some a, s') → Post (ok a) s')
      → ((s s' : S) → Pre s → op s ≡ (none, s') → Post (err e) s')
      → Triple Pre (call op e) Post
  Triple-call op e well failed s h = go (op s) refl
    where
      go : (r : Option A × S) → op s ≡ r → Post (answer r e).0 (answer r e).1
      go (some a, s') is = well s s' a h is
      go (none, s') is = failed s s' h is
