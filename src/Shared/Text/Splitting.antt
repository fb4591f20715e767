-- ===== src/Shared/Text/Splitting.antt =====
-- What `split_once` and `split` return, and how it determines the text.
use runtt.Shared.Tests.{◌==◌, Bool-cases, Option-cases}
use runtt.Shared.Lists.{All}
use runtt.Shared.Text.{Text, split_once, split, split-append, cons_head}
use Prim.Native.Nat.{ℕ}
use mathlib.Core.Bool.{false}
use mathlib.Core.Option.{some}
use mathlib.Core.List.{List, [], ◌∷◌, ◌++◌}
use mathlib.Core.Path.{◌≡◌, refl, ap, ◌∙◌}
use mathlib.Core.Logic.{◌≢◌, inl, inr}
use native.Mathlib.Omega.{arith}

-- A text without a separator.
abbrev pub Free : ℕ → Text → Type 0
Free sep = All (λ c. c ≢ sep)

pub split_once-append :
    (sep : ℕ) (a b : Text) → Free sep a → split_once sep (a ++ (sep ∷ b)) ≡ some (a, b)
unfolding split_once
split_once-append sep [] b h = ground arith
split_once-append sep (c ∷ cs) b (h, hs) =
    let other : (c == sep) ≡ false = ground arith in rw (other, split_once-append sep cs b hs) refl

pub split_once_sound :
    (sep : ℕ) (s a b : Text) → split_once sep s ≡ some (a, b) → (s ≡ a ++ (sep ∷ b)) × Free sep a
unfolding split_once
split_once_sound sep [] a b e = cc
split_once_sound sep (c ∷ cs) a b e = elim (Bool-cases (c == sep)) [
  | inl same ↦
      let found : some ([], cs) ≡ some (a, b) = rw same at e in
      let at : c ≡ sep = ground arith in
      let front : [] ≡ a = cc in let back : cs ≡ b = cc in rw (← front, ← back, at) (refl, tt)
  | inr other ↦ elim (Option-cases (split_once sep cs)) [
    | inl absent ↦ cc (rw (other, absent) at e)
    | inr ((x, y), found) ↦
        let both : some (c ∷ x, y) ≡ some (a, b) = rw (other, found) at e in
        let front : c ∷ x ≡ a = cc in
        let back : y ≡ b = cc in
        let (whole, free) = split_once_sound sep cs x y found in
        rw (← front, ← back) (ap (λ l. c ∷ l) whole, (ground arith, free))
  ]
]

-- The parts with separators between them.
unfoldable pub join : ℕ → List Text → Text
join sep [] = []
join sep (p ∷ []) = p
join sep (p ∷ q ∷ ps) = p ++ (sep ∷ join sep (q ∷ ps))

pub split-Free : (sep : ℕ) (p : Text) → Free sep p → split sep p ≡ p ∷ []
unfolding split
split-Free sep [] h = refl
split-Free sep (c ∷ cs) (h, hs) =
    let other : (c == sep) ≡ false = ground arith in rw (other, split-Free sep cs hs) refl

pub split-join :
    (sep : ℕ) (p : Text) (ps : List Text)
    → All (Free sep) (p ∷ ps)
    → split sep (join sep (p ∷ ps)) ≡ p ∷ ps
unfolding join
split-join sep p [] (h, hs) = split-Free sep p h
split-join sep p (q ∷ ps) (h, hs) =
    split-append sep p (join sep (q ∷ ps)) h ∙ ap (λ l. p ∷ l) (split-join sep q ps hs)

join-cons_head : (sep c : ℕ) (ps : List Text) → join sep (cons_head c ps) ≡ c ∷ join sep ps
unfolding join
join-cons_head sep c [] = refl
join-cons_head sep c (p ∷ []) = refl
join-cons_head sep c (p ∷ q ∷ ps) = refl

pub split_nonempty : (sep : ℕ) (s : Text) → split sep s ≢ []
unfolding split
split_nonempty sep [] e = cc
split_nonempty sep (c ∷ cs) e = elim (Bool-cases (c == sep)) [
  | inl same ↦ cc (rw same at e)
  | inr other ↦ not_empty (split sep cs) (rw other at e)
]
  where
    not_empty : (ps : List Text) → cons_head c ps ≡ [] → ⊥
    not_empty [] z = cc
    not_empty (p ∷ ps) z = cc

join-empty : (sep : ℕ) (ps : List Text) → ps ≢ [] → join sep ([] ∷ ps) ≡ sep ∷ join sep ps
unfolding join
join-empty sep [] h = absurd (h refl)
join-empty sep (p ∷ ps) h = refl

pub join-split : (sep : ℕ) (s : Text) → join sep (split sep s) ≡ s
unfolding split join
join-split sep [] = refl
join-split sep (c ∷ cs) = elim (Bool-cases (c == sep)) [
  | inl same ↦
      let at : c ≡ sep = ground arith in
      rw same
        (join-empty sep (split sep cs) (split_nonempty sep cs) ∙ rw (at, join-split sep cs) refl)
  | inr other ↦ rw other (join-cons_head sep c (split sep cs) ∙ ap (λ l. c ∷ l) (join-split sep cs))
]
