-- ===== src/Demux/Turns.antt =====
-- What a turn of one of the two threads of a shared link leaves of its drop.
use runtt.Shared.{
  ℕ, ◌+◌, ◌-◌, ◌≤◌, ◌≡◌, refl, ap, sym, subst, ◌∙◌, arith, Bool, true, false, List, [], ◌∷◌, any,
}
use runtt.Mcuboot.{Bytes}
use runtt.Demux.{Link, Reading, received, quiet, closed}
use runtt.Demux.Lifecycle.{
  Reader, at_flag, at_read, returned, Client, using, storing, joining, dropping, dropped, Threads,
  Event, reader_goes, client_goes, begins_drop, reader_at, client_at, begun, reader_turn,
  client_turn, step,
}

-- How much is left of the drop, in turns of the one thread or the other.
abbrev pub reader_left : Reader → ℕ
reader_left at_read = 2
reader_left at_flag = 1
reader_left returned = 0

abbrev pub client_left : Client → ℕ → ℕ
client_left using n = 6
client_left storing n = 5
client_left joining n = 2 + n
client_left dropping n = 1
client_left dropped n = 0

abbrev pub drop_left : Threads → ℕ
drop_left s = client_left s.client (reader_left s.reader)

-- The thread that the drop waits for: the reader, or the client itself.
abbrev pub awaits : Client → Reader → Bool
awaits joining at_flag = true
awaits joining at_read = true
awaits _ _ = false

abbrev pub serves : (reader : Bool) → Event → Bool
serves true (reader_goes r) = true
serves false client_goes = true
serves _ _ = false

-- Each of the two threads gets a turn.
abbrev pub IsRound : List Event → Type 0
IsRound es = (any (serves true) es ≡ true) × (any (serves false) es ≡ true)

abbrev pub has_begun : Client → Bool
has_begun using = false
has_begun _ = true

-- What holds on the way.
abbrev pub Holds : Client → Threads → Type 0
Holds joining s = s.stop ≡ true
Holds dropping s = s.reader ≡ returned
Holds dropped s = (s.reader ≡ returned) × (s.writer_open ≡ false)
Holds _ s = Unit

abbrev pub Inv : Threads → Type 0
Inv s = Holds s.client s

abbrev pub state : Client → Bool → Reader → Link → Bool → Threads
state c stop rd l open_ = record {
  client = c;
  stop = stop;
  reader = rd;
  link = l;
  writer_open = open_;
}

-- A turn of the reader leaves the client alone, and once the flag is set it goes on to the return.
pub record Turned (r : Reading) (s s' : Threads) : Type 0 where
  pub client : s'.client ≡ s.client
  pub stop : s'.stop ≡ s.stop
  pub writer : s'.writer_open ≡ s.writer_open
  pub sooner : s.stop ≡ true → reader_left s'.reader ≤ reader_left s.reader - 1
  pub stays : s.reader ≡ returned → s'.reader ≡ returned

module _ (accepts : List Bytes → Bool) where
  pub reader_turn-Turned : (r : Reading) (s : Threads) → Turned r s (reader_turn accepts r s)
  unfolding reader_turn
  reader_turn-Turned r s = go s.client s.stop s.reader s.link s.writer_open r
    where
      go :
          (c : Client) (stop : Bool) (rd : Reader) (l : Link) (o : Bool) (r : Reading)
          → Turned r (state c stop rd l o) (reader_at accepts rd r (state c stop rd l o))
      go c stop returned l o r = record {
        client = refl;
        stop = refl;
        writer = refl;
        sooner = λ e. omega arith;
        stays = λ e. refl;
      }
      go c true at_flag l o r = record {
        client = refl;
        stop = refl;
        writer = refl;
        sooner = λ e. omega arith;
        stays = λ e. cc;
      }
      go c false at_flag l o r = record {
        client = refl;
        stop = refl;
        writer = refl;
        sooner = λ e. cc;
        stays = λ e. cc;
      }
      go c stop at_read l o (received []) = record {
        client = refl;
        stop = refl;
        writer = refl;
        sooner = λ e. omega arith;
        stays = λ e. cc;
      }
      go c stop at_read l o (received (b ∷ bs)) = record {
        client = refl;
        stop = refl;
        writer = refl;
        sooner = λ e. ground arith;
        stays = λ e. cc;
      }
      go c stop at_read l o quiet = record {
        client = refl;
        stop = refl;
        writer = refl;
        sooner = λ e. omega arith;
        stays = λ e. cc;
      }
      go c stop at_read l o closed = record {
        client = refl;
        stop = refl;
        writer = refl;
        sooner = λ e. omega arith;
        stays = λ e. cc;
      }

  pub step-Inv : (e : Event) (s : Threads) → Inv s → Inv (step accepts e s)
  unfolding step client_turn
  step-Inv (reader_goes r) s v =
      subst (λ c. Holds c (reader_turn accepts r s)) (sym (reader_turn-Turned r s).client)
        (turned s.client v)
    where
      t : Turned r s (reader_turn accepts r s)
      t = reader_turn-Turned r s

      turned : (c : Client) → Holds c s → Holds c (reader_turn accepts r s)
      turned using h = tt
      turned storing h = tt
      turned joining h = t.stop ∙ h
      turned dropping h = t.stays h
      turned dropped h = (t.stays h.0, t.writer ∙ h.1)
  step-Inv client_goes s v = go s.client s.stop s.reader s.link s.writer_open v
    where
      go :
          (c : Client) (stop : Bool) (rd : Reader) (l : Link) (o : Bool)
          → Inv (state c stop rd l o)
          → Inv (client_at accepts c (state c stop rd l o))
      go using stop rd l o h = h
      go storing stop rd l o h = refl
      go joining stop returned l o h = refl
      go joining stop at_flag l o h = h
      go joining stop at_read l o h = h
      go dropping stop rd l o h = (h, refl)
      go dropped stop rd l o h = h
  step-Inv begins_drop s v = go s.client s.stop s.reader s.link s.writer_open v
    where
      go :
          (c : Client) (stop : Bool) (rd : Reader) (l : Link) (o : Bool)
          → Inv (state c stop rd l o)
          → Inv (state (begun accepts c) stop rd l o)
      go using stop rd l o h = tt
      go storing stop rd l o h = h
      go joining stop rd l o h = h
      go dropping stop rd l o h = h
      go dropped stop rd l o h = h

  pub step-begun :
      (e : Event) (s : Threads)
      → has_begun s.client ≡ true
      → has_begun (step accepts e s).client ≡ true
  unfolding step client_turn
  step-begun (reader_goes r) s b = ap has_begun (reader_turn-Turned r s).client ∙ b
  step-begun client_goes s b = go s.client s.stop s.reader s.link s.writer_open b
    where
      go :
          (c : Client) (stop : Bool) (rd : Reader) (l : Link) (o : Bool)
          → has_begun c ≡ true
          → has_begun (client_at accepts c (state c stop rd l o)).client ≡ true
      go using stop rd l o b = b
      go storing stop rd l o b = refl
      go joining stop returned l o b = refl
      go joining stop at_flag l o b = refl
      go joining stop at_read l o b = refl
      go dropping stop rd l o b = refl
      go dropped stop rd l o b = refl
  step-begun begins_drop s b = go s.client b
    where
      go : (c : Client) → has_begun c ≡ true → has_begun (begun accepts c) ≡ true
      go using b = refl
      go storing b = refl
      go joining b = refl
      go dropping b = refl
      go dropped b = refl
