-- ===== src/Proxy/Signals.antt =====
-- The wait for `start` against the signal handler: `handle_signal` may run between any two steps of the
-- loop of `run`.
use runtt.Shared.{
  ℕ, ◌≡◌, ◌≢◌, refl, sym, ap, subst, ◌∙◌, arith, Bool, true, false, List, [], ◌∷◌, ◌++◌, Option,
  none, some,
}
use runtt.Shared.{◌==◌, ◌||◌, if◌then◌else◌, any, inl, inr, ◌⊎◌}
use runtt.Container.{sigint, sigterm, sigusr1}
use runtt.Proxy.{await_start}
use mathlib.Core.List.{append-nil}

-- Where the loop stands: before the swap, between it and `pause`, in `pause`, or out of the loop, to
-- begin or to exit cleanly.
pub data Phase : Type 0 where
  at_swap at_pause asleep : Phase
  left : (begins : Bool) → Phase

-- SIGNAL_RECEIVED and the loop.
pub record Waiter : Type 0 where
  pub cell : ℕ
  pub phase : Phase

abbrev pub waiting : Waiter
waiting = record { cell = 0; phase = at_swap }

-- A signal that the handler takes also ends `pause`.
abbrev pub woken : Phase → Phase
woken asleep = at_swap
woken phase = phase

unfoldable pub handle_signal : ℕ → Waiter → Waiter
handle_signal sig w = record { cell = sig; phase = woken w.phase }

-- What the loop makes of the value that the swap gave.
abbrev pub matched : ℕ → Phase
matched sig =
    if sig == 0
    then at_pause
    else if sig == sigusr1
    then left true
    else if sig == sigterm || sig == sigint
    then left false
    else at_swap

unfoldable pub swap : Waiter → Waiter
swap w = record { cell = 0; phase = matched w.cell }

-- What happens: a signal comes, a swap gives a value, or `pause` begins.
pub data Event : Type 0 where
  comes : (sig : ℕ) → Event
  gives : (value : ℕ) → Event
  pauses : Event

-- A step of the process; no signal has number 0.
pub data Step (w : Waiter) : Event → Waiter → Type 0 where
  signalled : (sig : ℕ) → sig ≢ 0 → Step w (comes sig) (handle_signal sig w)
  swapped : w.phase ≡ at_swap → Step w (gives w.cell) (swap w)
  paused : w.phase ≡ at_pause → Step w pauses (record w { phase = asleep })

-- The states that the process can reach, and what has happened, in order.
pub data Reach : Waiter → List Event → Type 0 where
  here : Reach waiting []
  next :
      {w w' : Waiter} {es : List Event} {e : Event}
      → Reach w es
      → Step w e w'
      → Reach w' (es ++ (e ∷ []))

abbrev pub signals_of : List Event → List ℕ
signals_of [] = []
signals_of (comes sig ∷ es) = sig ∷ signals_of es
signals_of (gives value ∷ es) = signals_of es
signals_of (pauses ∷ es) = signals_of es

abbrev pub values_of : List Event → List ℕ
values_of [] = []
values_of (comes sig ∷ es) = values_of es
values_of (gives value ∷ es) = value ∷ values_of es
values_of (pauses ∷ es) = values_of es

abbrev verdict : Phase → Option Bool
verdict (left begins) = some begins
verdict _ = none

abbrev first_of : Option Bool → Option Bool → Option Bool
first_of (some b) later = some b
first_of none later = later

await_start-append :
    (xs : List ℕ) (x : ℕ)
    → await_start (xs ++ (x ∷ [])) ≡ first_of (await_start xs) (verdict (matched x))
unfolding await_start
await_start-append [] x = ground arith
await_start-append (y ∷ xs) x = ground (arith, await_start-append xs x)

abbrev pub Had : ℕ → List Event → Type 0
Had sig es = any (λ s. s == sig) (signals_of es) ≡ true

record Inv (w : Waiter) (es : List Event) : Type 0 where
  awaits : await_start (values_of es) ≡ verdict w.phase
  cell : (w.cell ≡ 0) ⊎ Had w.cell es
  begins : w.phase ≡ left true → Had sigusr1 es

values_of-append : (es fs : List Event) → values_of (es ++ fs) ≡ values_of es ++ values_of fs
values_of-append [] fs = refl
values_of-append (comes sig ∷ es) fs = values_of-append es fs
values_of-append (gives value ∷ es) fs = ap (λ xs. value ∷ xs) (values_of-append es fs)
values_of-append (pauses ∷ es) fs = values_of-append es fs

Had-append : (sig : ℕ) (es fs : List Event) → Had sig es → Had sig (es ++ fs)
Had-append sig [] fs h = cc
Had-append sig (comes s ∷ es) fs h = ground (arith, Had-append sig es fs)
Had-append sig (gives value ∷ es) fs h = Had-append sig es fs h
Had-append sig (pauses ∷ es) fs h = Had-append sig es fs h

Had-comes : (sig : ℕ) (es : List Event) → Had sig (es ++ (comes sig ∷ []))
Had-comes sig [] = ground arith
Had-comes sig (comes s ∷ es) = ground (arith, Had-comes sig es)
Had-comes sig (gives value ∷ es) = Had-comes sig es
Had-comes sig (pauses ∷ es) = Had-comes sig es

verdict-woken : (phase : Phase) → verdict (woken phase) ≡ verdict phase
verdict-woken at_swap = refl
verdict-woken at_pause = refl
verdict-woken asleep = refl
verdict-woken (left b) = refl

woken-left : (phase : Phase) → woken phase ≡ left true → phase ≡ left true
woken-left at_swap e = e
woken-left at_pause e = e
woken-left asleep e = cc
woken-left (left b) e = e

matched-begins : (sig : ℕ) → matched sig ≡ left true → sig ≡ sigusr1
matched-begins sig e = ground arith

begun : {cell : ℕ} (es : List Event) → cell ≡ sigusr1 → (cell ≡ 0) ⊎ Had cell es → Had sigusr1 es
begun es e (inl zero_) = absurd (omega (arith, e, zero_))
begun es e (inr had) = subst (λ c. Had c es) e had

Step-Inv :
    {w w' : Waiter} {e : Event} {es : List Event} → Inv w es → Step w e w' → Inv w' (es ++ (e ∷ []))
unfolding handle_signal swap
Step-Inv {w} {es = es} v (signalled sig n) = record {
  awaits =
      ap await_start (values_of-append es _ ∙ append-nil _)
      ∙ v.awaits
      ∙ sym (verdict-woken w.phase);
  cell = inr (Had-comes sig es);
  begins = λ e. Had-append sigusr1 es _ (v.begins (woken-left w.phase e));
}
Step-Inv {w} {es = es} v (swapped at) = record {
  awaits =
      ap await_start (values_of-append es (gives w.cell ∷ []))
      ∙ await_start-append (values_of es) w.cell
      ∙ ap (λ o. first_of o (verdict (matched w.cell))) (v.awaits ∙ ap verdict at);
  cell = inl refl;
  begins = λ e. Had-append sigusr1 es _ (begun es (matched-begins w.cell e) v.cell);
}
Step-Inv {w} {es = es} v (paused at) = record {
  awaits = ap await_start (values_of-append es _ ∙ append-nil _) ∙ v.awaits ∙ ap verdict at;
  cell = kept v.cell;
  begins = λ e. cc;
}
  where
    kept : (w.cell ≡ 0) ⊎ Had w.cell es → (w.cell ≡ 0) ⊎ Had w.cell (es ++ (pauses ∷ []))
    kept (inl e) = inl e
    kept (inr h) = inr (Had-append w.cell es _ h)

Reach-Inv : {w : Waiter} {es : List Event} → Reach w es → Inv w es
unfolding await_start
Reach-Inv here = record { awaits = refl; cell = inl refl; begins = λ e. cc }
Reach-Inv (next r step) = Step-Inv (Reach-Inv r) step

-- However signals and the steps of the loop interleave: when the loop has been left, `await_start`
-- makes of the values that the swaps gave what the loop did, to begin or to exit cleanly; and a proxy
-- that begins has been sent SIGUSR1.
pub Reach-left :
    {w : Waiter} {es : List Event} (begins : Bool)
    → Reach w es
    → w.phase ≡ left begins
    → (await_start (values_of es) ≡ some begins)
      × ((begins ≡ false) ⊎ (any (λ s. s == sigusr1) (signals_of es) ≡ true))
Reach-left {w} {es} begins r e = ((Reach-Inv r).awaits ∙ ap verdict e, go begins e)
  where
    go :
        (b : Bool)
        → w.phase ≡ left b
        → (b ≡ false) ⊎ (any (λ s. s == sigusr1) (signals_of es) ≡ true)
    go false e = inl refl
    go true e = inr ((Reach-Inv r).begins e)
