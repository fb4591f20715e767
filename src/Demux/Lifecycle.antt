-- ===== src/Demux/Lifecycle.antt =====
-- `LogDemux::with_sink`, its `Drop`, and the reader thread that runs `pump`, turn by turn. A clone of the
-- channel is the writer; the thread owns the channel itself and closes it when it returns.
use runtt.Shared.{Bool, true, false, List, [], ◌∷◌}
use runtt.Shared.{if◌then◌else◌}
use runtt.Mcuboot.{Bytes}
use runtt.Demux.{Link, opened, Reading, received, quiet, closed, feed}

-- The reader thread: before it looks at the flag, in the read of the channel, or returned, with its
-- channel closed.
pub data Reader : Type 0 where
  at_flag at_read returned : Reader

-- The client: it uses the link; in `drop` it is to store the flag, then joins the thread, then drops the
-- fields, the writer with them; and it has dropped them.
pub data Client : Type 0 where
  using storing joining dropping dropped : Client

pub record Threads : Type 0 where
  pub client : Client
  pub stop : Bool
  pub reader : Reader
  pub link : Link
  pub writer_open : Bool

-- `with_sink`.
abbrev pub spawned : Threads
spawned = record {
  client = using;
  stop = false;
  reader = at_flag;
  link = opened;
  writer_open = true;
}

abbrev pub looks : Bool → Reader
looks stop = if stop then returned else at_read

-- What happens: the reader goes on, where it is in the read with what the read gives; the client goes on,
-- or begins to drop the link.
pub data Event : Type 0 where
  reader_goes : Reading → Event
  client_goes begins_drop : Event

module _ (accepts : List Bytes → Bool) where
  abbrev pub fed : Threads → Link → Threads
  fed s link = record s { link = link; reader = (if link.client_gone then returned else at_flag) }

  abbrev pub gives : Reading → Threads → Threads
  gives (received []) s = record s { reader = returned }
  gives (received (b ∷ bs)) s = fed s (feed accepts s.link (b ∷ bs))
  gives quiet s = record s { reader = at_flag }
  gives closed s = record s { reader = returned }

  abbrev pub reader_at : Reader → Reading → Threads → Threads
  reader_at at_flag r s = record s { reader = looks s.stop }
  reader_at at_read r s = gives r s
  reader_at returned r s = s

  -- A turn of `pump`: the test of the loop, or the read with what follows it.
  unfoldable pub reader_turn : Reading → Threads → Threads
  reader_turn r s = reader_at s.reader r s

  -- `JoinHandle::join` returns once the thread has.
  abbrev pub joined : Reader → Threads → Threads
  joined returned s = record s { client = dropping }
  joined _ s = s

  abbrev pub client_at : Client → Threads → Threads
  client_at using s = s
  client_at storing s = record s { client = joining; stop = true }
  client_at joining s = joined s.reader s
  client_at dropping s = record s { client = dropped; writer_open = false }
  client_at dropped s = s

  -- `Drop::drop`, and after it the drop of the fields.
  unfoldable pub client_turn : Threads → Threads
  client_turn s = client_at s.client s

  abbrev pub begun : Client → Client
  begun using = storing
  begun c = c

  unfoldable pub step : Event → Threads → Threads
  step (reader_goes r) s = reader_turn r s
  step client_goes s = client_turn s
  step begins_drop s = record s { client = begun s.client }

  -- A schedule of the two threads.
  unfoldable pub run_events : List Event → Threads → Threads
  run_events [] s = s
  run_events (e ∷ es) s = run_events es (step e s)

  abbrev pub run_rounds : List (List Event) → Threads → Threads
  run_rounds [] s = s
  run_rounds (es ∷ rounds) s = run_rounds rounds (run_events es s)
