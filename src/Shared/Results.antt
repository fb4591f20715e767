-- ===== src/Shared/Results.antt =====
-- What fallible code returns, and what code returns that may also panic or not return at all.
use mathlib.Core.Path.{◌≡◌, refl, subst}
use mathlib.Core.Logic.{◌⊎◌, inl, inr}
use mathlib.Core.Option.{Option, none, some}
use mathlib.Core.Bool.{Bool, true, false}
use runtt.Shared.Tests.{if◌then◌else◌}

pub data Result {ℓ κ} (E : Type ℓ) (A : Type κ) : Type (ℓ ⊔ κ) where
  ok : A → Result E A
  err : E → Result E A

pub Result-cases {ℓ κ} :
    {E : Type ℓ} {A : Type κ} (r : Result E A) → ((a : A) × (r ≡ ok a)) ⊎ ((e : E) × (r ≡ err e))
Result-cases (ok a) = inl (a, refl)
Result-cases (err e) = inr (e, refl)

-- A computation that returns, that panics, or that has no result within the fuel given.
pub data Run {ℓ} (A : Type ℓ) : Type ℓ where
  ret : A → Run A
  panic : Run A
  stuck : Run A

infixl 5 ◌>>=◌
abbrev pub ◌>>=◌ {ℓ κ} : {A : Type ℓ} {B : Type κ} → Run A → (A → Run B) → Run B
ret a >>= f = f a
panic >>= f = panic
stuck >>= f = stuck

pub Run-cases {ℓ} : {A : Type ℓ} (r : Run A) → ((a : A) × (r ≡ ret a)) ⊎ ((r ≡ panic) ⊎ (r ≡ stuck))
Run-cases (ret a) = inl (a, refl)
Run-cases panic = inr (inl refl)
Run-cases stuck = inr (inr refl)

-- `option.context(e)?`, and `option.or_else(next)`.
abbrev pub context {ℓ κ μ} :
    {A : Type ℓ} {E : Type κ} {B : Type μ}
    → Option A
    → E
    → (A → Run (Result E B))
    → Run (Result E B)
context none e k = ret (err e)
context (some a) e k = k a

abbrev pub or_else {ℓ} : {A : Type ℓ} → Option A → Run (Option A) → Run (Option A)
or_else none next = next
or_else (some a) next = ret (some a)

abbrev pub Returns {ℓ} : {A : Type ℓ} → Run A → Type ℓ
Returns {A} r = (a : A) × (r ≡ ret a)

-- How code that returns is composed.
module _ {ℓ} {A : Type ℓ} where
  pub Returns-if :
      (b : Bool) {x y : Run A}
      → (b ≡ true → Returns x)
      → (b ≡ false → Returns y)
      → Returns (if b then x else y)
  Returns-if true f g = f refl
  Returns-if false f g = g refl

  pub Returns->>= {κ} :
      {B : Type κ} (m : Run A) (f : A → Run B)
      → Returns m
      → ((a : A) → m ≡ ret a → Returns (f a))
      → Returns (m >>= f)
  Returns->>= (ret a) f h k = k a refl
  Returns->>= panic f h k = cc (h.1)
  Returns->>= stuck f h k = cc (h.1)

-- What code ensures of the value that it returns, and how that is composed.
module _ {ℓ κ} {A : Type ℓ} (P : A → Type κ) where
  abbrev pub Ensures : Run A → Type (ℓ ⊔ κ)
  Ensures r = (a : A) → r ≡ ret a → P a

  pub Ensures-ret : {a : A} → P a → Ensures (ret a)
  Ensures-ret p b e = subst P (cc) p

  pub Ensures-panic : Ensures panic
  Ensures-panic b e = cc

  pub Ensures-stuck : Ensures stuck
  Ensures-stuck b e = cc

  pub Ensures-if :
      (b : Bool) {x y : Run A}
      → (b ≡ true → Ensures x)
      → (b ≡ false → Ensures y)
      → Ensures (if b then x else y)
  Ensures-if true f g = f refl
  Ensures-if false f g = g refl

  pub Ensures->>= {μ} :
      {B : Type μ} (m : Run B) (f : B → Run A)
      → ((b : B) → m ≡ ret b → Ensures (f b))
      → Ensures (m >>= f)
  Ensures->>= (ret b) f k = k b refl
  Ensures->>= panic f k = Ensures-panic
  Ensures->>= stuck f k = Ensures-stuck

module _ {ℓ κ μ} {A : Type ℓ} {E : Type κ} {B : Type μ} where
  pub Returns-context :
      (o : Option A) (e : E) (k : A → Run (Result E B))
      → ((a : A) → o ≡ some a → Returns (k a))
      → Returns (context o e k)
  Returns-context none e k h = (err e, refl)
  Returns-context (some a) e k h = h a refl

  pub Ensures-context {ν} :
      (P : Result E B → Type ν) (o : Option A) (e : E) (k : A → Run (Result E B))
      → P (err e)
      → ((a : A) → o ≡ some a → Ensures P (k a))
      → Ensures P (context o e k)
  Ensures-context P none e k p h = Ensures-ret P p
  Ensures-context P (some a) e k p h = h a refl

module _ {ℓ} {A : Type ℓ} where
  pub Returns-or_else :
      (o : Option A) (next : Run (Option A)) → Returns next → Returns (or_else o next)
  Returns-or_else none next h = h
  Returns-or_else (some a) next h = (some a, refl)

  pub Ensures-or_else {κ} :
      (P : Option A → Type κ) (o : Option A) (next : Run (Option A))
      → P o
      → Ensures P next
      → Ensures P (or_else o next)
  Ensures-or_else P none next p h = h
  Ensures-or_else P (some a) next p h = Ensures-ret P p
