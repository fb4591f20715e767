-- ===== src/Demux/Drop.antt =====
-- The drop of a shared link comes to its end, whatever the order of the turns of the two threads.
use runtt.Shared.{
  ◌-◌, ◌≤◌, ◌≡◌, refl, sym, subst, arith, Bool, true, false, List, [], ◌∷◌, All, length, any, inl,
  inr,
}
use runtt.Mcuboot.{Bytes}
use runtt.Demux.Lifecycle.{
  Reader, at_flag, at_read, returned, Client, using, storing, joining, dropping, dropped, Threads,
  spawned, Event, step, run_events, run_rounds,
}
-- How much is left of the drop, in turns of the one thread or the other.
use runtt.Demux.Turns.{
  reader_left, client_left, drop_left, awaits, serves, IsRound, has_begun, Holds, Inv, step-Inv,
  step-begun,
}
use runtt.Demux.Progress.{step-Moves}

-- Both handles on the port are closed.
pub record Closed (s : Threads) : Type 0 where
  pub client : s.client ≡ dropped
  pub reader : s.reader ≡ returned
  pub writer : s.writer_open ≡ false

module _ (accepts : List Bytes → Bool) where
  -- A drop that has begun, on the way.
  record Begun (s : Threads) : Type 0 where
    inv : Inv s
    has : has_begun s.client ≡ true

  step-Begun : (e : Event) (s : Threads) → Begun s → Begun (step accepts e s)
  step-Begun e s b = record { inv = step-Inv accepts e s b.inv; has = step-begun accepts e s b.has }

  run-Begun : (es : List Event) (s : Threads) → Begun s → Begun (run_events accepts es s)
  unfolding run_events
  run-Begun [] s b = b
  run-Begun (e ∷ es) s b = run-Begun es (step accepts e s) (step-Begun e s b)

  run-no_more :
      (es : List Event) (s : Threads) → Begun s → drop_left (run_events accepts es s) ≤ drop_left s
  unfolding run_events
  run-no_more [] s b = omega arith
  run-no_more (e ∷ es) s b =
      let later = run-no_more es (step accepts e s) (step-Begun e s b) in
      elim (step-Moves accepts e s b.inv b.has) [
        | inl less ↦ omega (arith, less, later)
        | inr m ↦ omega (arith, m.0, later)
      ]

  run-less :
      (es : List Event) (s : Threads)
      → Begun s
      → any (serves (awaits s.client s.reader)) es ≡ true
      → drop_left (run_events accepts es s) ≤ drop_left s - 1
  unfolding run_events
  run-less [] s b served = cc
  run-less (e ∷ es) s b served =
      let b' = step-Begun e s b in
      elim (step-Moves accepts e s b.inv b.has) [
        | inl less ↦ omega (arith, less, run-no_more es (step accepts e s) b')
        | inr (same, waits, other) ↦
            let rest : any (serves (awaits s.client s.reader)) es ≡ true =
              cc (rw other at served) in
            let later =
              run-less es (step accepts e s) b'
                (subst (λ a. any (serves a) es ≡ true) (sym waits) rest) in
            omega (arith, same, later)
      ]

  rounds-less :
      (rounds : List (List Event)) (s : Threads)
      → Begun s
      → All IsRound rounds
      → drop_left (run_rounds accepts rounds s) ≤ drop_left s - length rounds
  rounds-less [] s b fair = omega arith
  rounds-less (es ∷ rounds) s b ((reader, client), fair) =
      let later = rounds-less rounds (run_events accepts es s) (run-Begun es s b) fair in
      let now = run-less es s b (served (awaits s.client s.reader)) in omega (arith, later, now)
    where
      served : (a : Bool) → any (serves a) es ≡ true
      served true = reader
      served false = client

  rounds-Begun :
      (rounds : List (List Event)) (s : Threads) → Begun s → Begun (run_rounds accepts rounds s)
  rounds-Begun [] s b = b
  rounds-Begun (es ∷ rounds) s b = rounds-Begun rounds (run_events accepts es s) (run-Begun es s b)

  run-Inv : (es : List Event) (s : Threads) → Inv s → Inv (run_events accepts es s)
  unfolding run_events
  run-Inv [] s v = v
  run-Inv (e ∷ es) s v = run-Inv es (step accepts e s) (step-Inv accepts e s v)

  left-bound : (c : Client) (rd : Reader) → has_begun c ≡ true → client_left c (reader_left rd) ≤ 5
  left-bound using rd b = cc
  left-bound storing rd b = omega arith
  left-bound joining at_flag b = omega arith
  left-bound joining at_read b = omega arith
  left-bound joining returned b = omega arith
  left-bound dropping rd b = omega arith
  left-bound dropped rd b = omega arith

  none_left : (s : Threads) → Begun s → drop_left s ≤ 0 → Closed s
  none_left s b z = go s.client refl b.inv b.has z
    where
      go :
          (c : Client)
          → s.client ≡ c
          → Holds c s
          → has_begun c ≡ true
          → client_left c (reader_left s.reader) ≤ 0
          → Closed s
      go using e h b z = cc
      go storing e h b z = absurd (omega (arith, z))
      go joining e h b z = absurd (omega (arith, z))
      go dropping e h b z = absurd (omega (arith, z))
      go dropped e h b z = record { client = e; reader = h.0; writer = h.1 }

  -- After any schedule of the client and the reader thread in which the drop of the link has begun, and
  -- whatever the reads give: five rounds more, of any turns among which each of the two threads has
  -- at least one, and the drop is done, the reader thread has returned, which closes its handle on the
  -- port, and the writer's handle is closed too.
  pub drop_ends :
      (before : List Event) (rounds : List (List Event))
      → has_begun (run_events accepts before spawned).client ≡ true
      → All IsRound rounds
      → 5 ≤ length rounds
      → Closed (run_rounds accepts rounds (run_events accepts before spawned))
  drop_ends before rounds has fair enough =
      let s = run_events accepts before spawned in
      let b : Begun s = record { inv = run-Inv before spawned tt; has = has } in
      let less = rounds-less rounds s b fair in
      let bound = left-bound s.client s.reader has in
      none_left _ (rounds-Begun rounds s b) (omega (arith, less, bound, enough))
