-- ===== src/Proxy/Window.antt =====
-- The window of the wait for `start` in which a signal is lost on it: between the swap and `pause`.
use mathlib.Core.List.{append-nil, append_assoc}
use runtt.Shared.{
  ℕ, ◌≡◌, ◌≢◌, ◌↔◌, refl, sym, ap, subst, ◌∙◌, arith, List, [], ◌∷◌, ◌++◌, All, All-append,
}
use runtt.Proxy.Signals.{
  Phase, at_swap, at_pause, asleep, left, Waiter, Event, comes, gives, pauses, Step, signalled,
  swapped, paused, Reach, here, next, handle_signal, swap, woken, matched,
}

abbrev pub comes_all : List ℕ → List Event
comes_all [] = []
comes_all (sig ∷ sigs) = comes sig ∷ comes_all sigs

-- The signal that came last, or what was there before.
abbrev pub last_or : ℕ → List ℕ → ℕ
last_or cell [] = cell
last_or cell (sig ∷ sigs) = last_or sig sigs

-- A history that ends with a swap that found nothing, and then any signals; their last is in the cell.
pub record Window (cell : ℕ) (es : List Event) : Type 0 where
  pub before : List Event
  pub at : Waiter
  pub sigs : List ℕ
  pub reached : Reach at before
  pub swapping : at.phase ≡ at_swap
  pub empty : at.cell ≡ 0
  pub signals : All (λ sig. sig ≢ 0) sigs
  pub since : es ≡ before ++ (gives 0 ∷ comes_all sigs)
  pub last : cell ≡ last_or 0 sigs

-- And then with `pause`.
pub record Missed (cell : ℕ) (es : List Event) : Type 0 where
  pub earlier : List Event
  pub window : Window cell earlier
  pub sleeps : es ≡ earlier ++ (pauses ∷ [])

comes_all-append :
    (xs : List ℕ) (sig : ℕ) → comes_all (xs ++ (sig ∷ [])) ≡ comes_all xs ++ (comes sig ∷ [])
comes_all-append [] sig = refl
comes_all-append (x ∷ xs) sig = ap (λ es. comes x ∷ es) (comes_all-append xs sig)

last_or-append : (cell : ℕ) (xs : List ℕ) (sig : ℕ) → last_or cell (xs ++ (sig ∷ [])) ≡ sig
last_or-append cell [] sig = refl
last_or-append cell (x ∷ xs) sig = last_or-append x xs sig

woken-pause : (phase : Phase) → woken phase ≡ at_pause → phase ≡ at_pause
woken-pause at_swap e = e
woken-pause at_pause e = e
woken-pause asleep e = cc
woken-pause (left b) e = e

woken-awake : (phase : Phase) → woken phase ≢ asleep
woken-awake at_swap e = cc
woken-awake at_pause e = cc
woken-awake asleep e = cc
woken-awake (left b) e = cc

matched-pause : (sig : ℕ) → matched sig ≡ at_pause → sig ≡ 0
matched-pause sig e = ground arith

matched-awake : (sig : ℕ) → matched sig ≢ asleep
matched-awake sig e = ground arith

-- Another signal in the window.
Window-comes :
    {cell : ℕ} {es : List Event} (sig : ℕ)
    → sig ≢ 0
    → Window cell es
    → Window sig (es ++ (comes sig ∷ []))
Window-comes {es = es} sig n v = record {
  before = v.before;
  at = v.at;
  sigs = v.sigs ++ (sig ∷ []);
  reached = v.reached;
  swapping = v.swapping;
  empty = v.empty;
  signals = All-append (λ s. s ≢ 0) v.sigs (sig ∷ []) v.signals (n, tt);
  since =
      ap (λ xs. xs ++ (comes sig ∷ [])) v.since
      ∙ append_assoc v.before _ _
      ∙ ap (λ xs. v.before ++ (gives 0 ∷ xs)) (sym (comes_all-append v.sigs sig));
  last = sym (last_or-append 0 v.sigs sig);
}

record Inv (w : Waiter) (es : List Event) : Type 0 where
  pausing : w.phase ≡ at_pause → Window w.cell es
  sleeping : w.phase ≡ asleep → Missed w.cell es

Step-Inv :
    {w w' : Waiter} {e : Event} {es : List Event}
    → Reach w es
    → Inv w es
    → Step w e w'
    → Inv w' (es ++ (e ∷ []))
unfolding handle_signal swap
Step-Inv {w} r v (signalled sig n) = record {
  pausing = λ e. Window-comes sig n (v.pausing (woken-pause w.phase e));
  sleeping = λ e. absurd (woken-awake w.phase e);
}
Step-Inv {w} {es = es} r v (swapped at) = record {
  pausing = λ e. record {
    before = es;
    at = w;
    sigs = [];
    reached = r;
    swapping = at;
    empty = matched-pause w.cell e;
    signals = tt;
    since = ap (λ c. es ++ (gives c ∷ [])) (matched-pause w.cell e);
    last = refl;
  };
  sleeping = λ e. absurd (matched-awake w.cell e);
}
Step-Inv {w} {es = es} r v (paused at) = record {
  pausing = λ e. cc;
  sleeping = λ e. record { earlier = es; window = v.pausing at; sleeps = refl };
}

Reach-Inv : {w : Waiter} {es : List Event} → Reach w es → Inv w es
Reach-Inv here = record { pausing = λ e. cc; sleeping = λ e. cc }
Reach-Inv (next r step) = Step-Inv r (Reach-Inv r) step

-- The way back.
signals_come :
    (sigs : List ℕ) (cell : ℕ) (es : List Event)
    → All (λ sig. sig ≢ 0) sigs
    → Reach (record { cell = cell; phase = at_pause }) es
    → Reach (record { cell = last_or cell sigs; phase = at_pause }) (es ++ comes_all sigs)
unfolding handle_signal
signals_come [] cell es n r =
    subst (Reach (record { cell = cell; phase = at_pause })) (sym (append-nil es)) r
signals_come (sig ∷ sigs) cell es (m, n) r =
    subst (Reach (record { cell = last_or sig sigs; phase = at_pause }))
      (append_assoc es (comes sig ∷ []) (comes_all sigs))
      (signals_come sigs sig (es ++ (comes sig ∷ [])) n (next r (signalled sig m)))

Window-Reach :
    {cell : ℕ} {es : List Event}
    → Window cell es
    → Reach (record { cell = cell; phase = at_pause }) es
unfolding swap
Window-Reach {cell} {es} v =
    let found : Reach (swap v.at) (v.before ++ (gives v.at.cell ∷ [])) =
      next v.reached (swapped v.swapping) in
    let empty : Reach (record { cell = 0; phase = at_pause }) (v.before ++ (gives 0 ∷ [])) =
      subst (λ c. Reach (record { cell = 0; phase = matched c }) (v.before ++ (gives c ∷ [])))
        v.empty found in
    let whole = signals_come v.sigs 0 _ v.signals empty in
    subst (λ c. Reach (record { cell = c; phase = at_pause }) es) (sym v.last)
      (subst (Reach (record { cell = last_or 0 v.sigs; phase = at_pause }))
        (append_assoc v.before (gives 0 ∷ []) (comes_all v.sigs) ∙ sym v.since) whole)

-- The process can sleep in `pause` with `cell` in its signal cell after the events `es` exactly when
-- these end so: a swap that found nothing, then any signals, and then `pause`, with the last of
-- these signals in the cell, or nothing where none came. And from every state that
-- can be reached before a swap that finds nothing, and with any signals, it does come about.
pub asleep_iff :
    (cell : ℕ) (es : List Event)
    → Reach (record { cell = cell; phase = asleep }) es ↔ Missed cell es
asleep_iff cell es = (
  λ r. (Reach-Inv r).sleeping refl,
  λ m.
      subst (Reach (record { cell = cell; phase = asleep })) (sym m.sleeps)
        (next (Window-Reach m.window) (paused refl)),
)
