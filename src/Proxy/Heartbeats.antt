-- ===== src/Proxy/Heartbeats.antt =====
-- When the resident loop gives the board up.
use runtt.Shared.{
  ℕ, ◌+◌, ◌≡◌, refl, sym, ap, subst, ◌∙◌, ◌⊎◌, ◌↔◌, arith, true, false, List, [], ◌∷◌, ◌++◌, some,
  err,
}
use runtt.Shared.{All, Bool-cases, inl, inr, leb, if◌then◌else◌}
use runtt.Proxy.{Beat, stay_resident, lost}

-- A round without a request to stop, and such a round whose heartbeat fails.
abbrev pub GoesOn : Beat → Type 0
GoesOn b = (b.stop_before ≡ false) × (b.stop_after ≡ false)

abbrev pub Misses : Beat → Type 0
Misses b = GoesOn b × (b.echoed ≡ false)

module _ (failures : ℕ) (b : Beat) (bs : List Beat) where
  stay_resident-Misses :
      Misses b
      → stay_resident failures (b ∷ bs)
        ≡ (if leb 2 (failures + 1) then some (err lost) else stay_resident (failures + 1) bs)
  unfolding stay_resident
  stay_resident-Misses ((before, after), silent) = rw (before, after, silent) refl

  stay_resident-well :
      GoesOn b → b.echoed ≡ true → stay_resident failures (b ∷ bs) ≡ stay_resident 0 bs
  unfolding stay_resident
  stay_resident-well (before, after) well = rw (before, after, well) refl

  -- How a round goes that leads to a failure.
  stay_resident-GoesOn : stay_resident failures (b ∷ bs) ≡ some (err lost) → GoesOn b
  unfolding stay_resident
  stay_resident-GoesOn e = elim (Bool-cases b.stop_before) [
    | inl stop ↦ cc (rw stop at e)
    | inr on ↦ elim (Bool-cases b.stop_after) [
      | inl stop ↦ cc (rw (on, stop) at e)
      | inr on_too ↦ (on, on_too)
    ]
  ]

-- Two missed heartbeats in a row end the loop with a failure, whatever was missed before, if no stop was
-- asked for until then.
stay_resident_lost :
    (failures : ℕ) (before : List Beat) (b c : Beat) (more : List Beat)
    → All GoesOn before
    → Misses b
    → Misses c
    → stay_resident failures (before ++ (b ∷ c ∷ more)) ≡ some (err lost)
stay_resident_lost failures [] b c more h mb mc =
    stay_resident-Misses failures b (c ∷ more) mb ∙ elim (Bool-cases (leb 2 (failures + 1))) [
      | inl enough ↦ rw enough refl
      | inr first ↦
          let second : leb 2 (failures + 1 + 1) ≡ true = ground arith in
          rw (first, stay_resident-Misses (failures + 1) c more mc, second) refl
    ]
stay_resident_lost failures (x ∷ before) b c more (hx, h) mb mc = elim (Bool-cases x.echoed) [
  | inl well ↦
      stay_resident-well failures x (before ++ (b ∷ c ∷ more)) hx well
      ∙ stay_resident_lost 0 before b c more h mb mc
  | inr missed ↦
      stay_resident-Misses failures x (before ++ (b ∷ c ∷ more)) (hx, missed)
      ∙ elim (Bool-cases (leb 2 (failures + 1))) [
        | inl enough ↦ rw enough refl
        | inr first ↦ rw first (stay_resident_lost (failures + 1) before b c more h mb mc)
      ]
]

-- Two missed heartbeats in a row, with no stop asked for until then.
pub record TwoMisses (beats : List Beat) : Type 0 where
  pub before : List Beat
  pub first : Beat
  pub second : Beat
  pub more : List Beat
  pub shape : beats ≡ before ++ (first ∷ second ∷ more)
  pub goes_on : All GoesOn before
  pub misses_first : Misses first
  pub misses_second : Misses second

later : (b : Beat) (bs : List Beat) → GoesOn b → TwoMisses bs → TwoMisses (b ∷ bs)
later b bs g t = record {
  before = b ∷ t.before;
  first = t.first;
  second = t.second;
  more = t.more;
  shape = ap (λ l. b ∷ l) t.shape;
  goes_on = (g, t.goes_on);
  misses_first = t.misses_first;
  misses_second = t.misses_second;
}

-- The rounds begin with one that misses.
record BeginsMissing (beats : List Beat) : Type 0 where
  beat : Beat
  rest : List Beat
  shape : beats ≡ beat ∷ rest
  misses : Misses beat

now : (b : Beat) (bs : List Beat) → Misses b → BeginsMissing bs → TwoMisses (b ∷ bs)
now b bs m t = record {
  before = [];
  first = b;
  second = t.beat;
  more = t.rest;
  shape = ap (λ l. b ∷ l) t.shape;
  goes_on = tt;
  misses_first = m;
  misses_second = t.misses;
}

-- One round more, from no missed heartbeat and from one.
module _ (b : Beat) (bs : List Beat)
    (from_none : stay_resident 0 bs ≡ some (err lost) → TwoMisses bs) where
  none_before :
      (stay_resident 1 bs ≡ some (err lost) → BeginsMissing bs ⊎ TwoMisses bs)
      → stay_resident 0 (b ∷ bs) ≡ some (err lost)
      → TwoMisses (b ∷ bs)
  none_before from_one e =
      let on = stay_resident-GoesOn 0 b bs e in
      elim (Bool-cases b.echoed) [
        | inl well ↦ later b bs on (from_none (sym (stay_resident-well 0 b bs on well) ∙ e))
        | inr missed ↦ elim (from_one (sym (stay_resident-Misses 0 b bs (on, missed)) ∙ e)) [
          | inl t ↦ now b bs (on, missed) t
          | inr t ↦ later b bs on t
        ]
      ]

  one_before :
      stay_resident 1 (b ∷ bs) ≡ some (err lost) → BeginsMissing (b ∷ bs) ⊎ TwoMisses (b ∷ bs)
  one_before e =
      let on = stay_resident-GoesOn 1 b bs e in
      elim (Bool-cases b.echoed) [
        | inl well ↦ inr (later b bs on (from_none (sym (stay_resident-well 1 b bs on well) ∙ e)))
        | inr missed ↦ inl (record { beat = b; rest = bs; shape = refl; misses = (on, missed) })
      ]

needs :
    (beats : List Beat)
    → (stay_resident 0 beats ≡ some (err lost) → TwoMisses beats)
      × (stay_resident 1 beats ≡ some (err lost) → BeginsMissing beats ⊎ TwoMisses beats)
needs [] = (unfold stay_resident in (λ e. cc), unfold stay_resident in (λ e. cc))
needs (b ∷ bs) =
    let (zero_missed, one_missed) = needs bs in
    (none_before b bs zero_missed one_missed, one_before b bs zero_missed)

-- The loop ends with a failure exactly when two heartbeats in a row are missed, with no stop asked for
-- until then, whatever comes after them.
pub stay_resident_iff :
    (beats : List Beat) → (stay_resident 0 beats ≡ some (err lost)) ↔ TwoMisses beats
stay_resident_iff beats = (
  (needs beats).0,
  λ t.
      subst (λ l. stay_resident 0 l ≡ some (err lost)) (sym t.shape)
        (stay_resident_lost 0 t.before t.first t.second t.more t.goes_on t.misses_first
          t.misses_second),
)
