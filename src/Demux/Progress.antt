-- ===== src/Demux/Progress.antt =====
-- Each turn that a drop waits for brings it nearer to its end.
use runtt.Shared.{◌-◌, ◌≤◌, ◌≡◌, refl, arith, Bool, true, false, List, inl, inr, ◌⊎◌}
use runtt.Mcuboot.{Bytes}
use runtt.Demux.{Link}
use runtt.Demux.Lifecycle.{
  Reader, at_flag, at_read, returned, Client, using, storing, joining, dropping, dropped, Threads,
  Event, reader_goes, client_goes, begins_drop, client_at, begun, reader_turn, client_turn, step,
}
-- How much is left of the drop, in turns of the one thread or the other.
use runtt.Demux.Turns.{
  reader_left, client_left, drop_left, awaits, serves, has_begun, Holds, Inv, state, Turned,
  reader_turn-Turned,
}

-- What an event does to what is left: it makes it less, or it is not the turn that is waited for.
abbrev pub Moves : Event → Threads → Threads → Type 0
Moves e s s' =
    (drop_left s' ≤ drop_left s - 1)
    ⊎ ((drop_left s' ≡ drop_left s)
        × (awaits s'.client s'.reader ≡ awaits s.client s.reader)
        × (serves (awaits s.client s.reader) e ≡ false))

module _ (accepts : List Bytes → Bool) where
  pub step-Moves :
      (e : Event) (s : Threads) → Inv s → has_begun s.client ≡ true → Moves e s (step accepts e s)
  unfolding step client_turn
  step-Moves (reader_goes r) s v b = go s.client s.reader v b t.client t.sooner t.stays
    where
      t : Turned r s (reader_turn accepts r s)
      t = reader_turn-Turned accepts r s

      s' : Threads
      s' = reader_turn accepts r s

      go :
          (c : Client) (rd : Reader)
          → Holds c s
          → has_begun c ≡ true
          → s'.client ≡ c
          → (s.stop ≡ true → reader_left s'.reader ≤ reader_left rd - 1)
          → (rd ≡ returned → s'.reader ≡ returned)
          → (client_left s'.client (reader_left s'.reader) ≤ client_left c (reader_left rd) - 1)
            ⊎ ((client_left s'.client (reader_left s'.reader) ≡ client_left c (reader_left rd))
                × (awaits s'.client s'.reader ≡ awaits c rd)
                × (serves (awaits c rd) (reader_goes r) ≡ false))
      go using rd h b e f g = cc
      go storing rd h b e f g = rw e (inr (refl, refl, refl))
      go joining returned h b e f g = rw (e, g refl) (inr (refl, refl, refl))
      go joining at_flag h b e f g = rw e (inl (omega (arith, f h)))
      go joining at_read h b e f g = rw e (inl (omega (arith, f h)))
      go dropping rd h b e f g = rw e (inr (refl, refl, refl))
      go dropped rd h b e f g = rw e (inr (refl, refl, refl))
  step-Moves client_goes s v b = go s.client s.stop s.reader s.link s.writer_open v b
    where
      go :
          (c : Client) (stop : Bool) (rd : Reader) (l : Link) (o : Bool)
          → Inv (state c stop rd l o)
          → has_begun c ≡ true
          → Moves client_goes (state c stop rd l o) (client_at accepts c (state c stop rd l o))
      go using stop rd l o h b = cc
      go storing stop returned l o h b = inl (omega arith)
      go storing stop at_flag l o h b = inl (omega arith)
      go storing stop at_read l o h b = inl (omega arith)
      go joining stop returned l o h b = inl (omega arith)
      go joining stop at_flag l o h b = inr (refl, refl, refl)
      go joining stop at_read l o h b = inr (refl, refl, refl)
      go dropping stop rd l o h b = inl (omega arith)
      go dropped stop rd l o h b = inl (omega arith)
  step-Moves begins_drop s v b = go s.client s.reader b
    where
      go :
          (c : Client) (rd : Reader)
          → has_begun c ≡ true
          → (client_left (begun accepts c) (reader_left rd) ≤ client_left c (reader_left rd) - 1)
            ⊎ ((client_left (begun accepts c) (reader_left rd) ≡ client_left c (reader_left rd))
                × (awaits (begun accepts c) rd ≡ awaits c rd)
                × (serves (awaits c rd) begins_drop ≡ false))
      go using rd b = cc
      go storing rd b = inr (refl, refl, refl)
      go joining at_flag b = inr (refl, refl, refl)
      go joining at_read b = inr (refl, refl, refl)
      go joining returned b = inr (refl, refl, refl)
      go dropping rd b = inr (refl, refl, refl)
      go dropped rd b = inr (refl, refl, refl)
