-- ===== src/Demux.antt =====
-- crates/runtt-smp/src/demux.rs: application logs and SMP frames on one link. The reader thread's
-- `pump` is a function of what it reads; `accepts` says whether the client still takes a line after
-- those sent so far. `LogDemux::read` hands the lines of the queue on.
pub mod Routing
pub mod Lifecycle
pub mod Turns
pub mod Progress
pub mod Drop
use runtt.Shared.{
  ℕ, Bool, true, false, not, ◌&&◌, ◌||◌, List, [], ◌∷◌, ◌++◌, Option, none, some, Result, ok, err,
}
use runtt.Shared.{◌==◌, if◌then◌else◌, is_empty, length, take, drop, min}
use runtt.Mcuboot.{Bytes}

abbrev pub marker_start : Bytes
marker_start = 0x06 ∷ 0x09 ∷ []

abbrev pub marker_cont : Bytes
marker_cont = 0x04 ∷ 0x14 ∷ []

-- `starts_with`, and `strip_suffix(b"\r")`.
unfoldable pub starts_with : Bytes → Bytes → Bool
starts_with [] line = true
starts_with (p ∷ ps) [] = false
starts_with (p ∷ ps) (c ∷ cs) = (p == c) && starts_with ps cs

unfoldable pub strip_cr : Bytes → Bytes
strip_cr [] = []
strip_cr (c ∷ []) = if c == 0x0d then [] else c ∷ []
strip_cr (c ∷ d ∷ cs) = c ∷ strip_cr (d ∷ cs)

unfoldable pub is_smp_line : Bytes → Bool
unfolding starts_with
is_smp_line line = starts_with marker_start line || starts_with marker_cont line

-- The line being read, the lines sent to the client, those that went to the log, and whether the client
-- is gone.
pub record Link : Type 0 where
  pub line : Bytes
  pub sent : List Bytes
  pub logged : List Bytes
  pub client_gone : Bool

abbrev pub opened : Link
opened = record { line = []; sent = []; logged = []; client_gone = false }

pub data Reading : Type 0 where
  received : Bytes → Reading
  quiet closed : Reading

abbrev pub log_line : Bytes → List Bytes → List Bytes
log_line end logged = if is_empty end then logged else logged ++ (end ∷ [])

module _ (accepts : List Bytes → Bool) where
  unfoldable pub route : Link → Link
  route s =
      if is_smp_line s.line
      then if accepts s.sent
        then record s { line = []; sent = s.sent ++ ((s.line ++ (b'\n' ∷ [])) ∷ []) }
        else record s { client_gone = true }
      else record s { line = []; logged = log_line (strip_cr s.line) s.logged }

  -- The loop over the bytes of one read.
  unfoldable pub feed : Link → Bytes → Link
  feed s [] = s
  feed s (byte ∷ bytes) =
      let longer = feed (record s { line = s.line ++ (byte ∷ []) }) bytes in
      let next = feed (route s) bytes in
      if s.client_gone then s else if not (byte == b'\n') then longer else next

  -- The loop over the reads, up to the end of the link, the loss of the client or a request to stop.
  unfoldable pub pump : Link → List Reading → Link
  pump s [] = s
  pump s (received [] ∷ more) = s
  pump s (received (b ∷ bs) ∷ more) =
      let later = pump (feed s (b ∷ bs)) more in
      if (feed s (b ∷ bs)).client_gone then feed s (b ∷ bs) else later
  pump s (quiet ∷ more) = pump s more
  pump s (closed ∷ more) = s

-- The answers of the queue, and the results of a read.
pub data Queue : Type 0 where
  next_line : Bytes → Queue
  timeout disconnected : Queue

abbrev pub hand_over : ℕ → Bytes → Bytes × Result (Unit {0}) Bytes
hand_over size pending = let n = min size (length pending) in (drop n pending, ok (take n pending))

-- `Read::read` of `LogDemux` with a buffer of `size` bytes: what is pending afterwards, and the bytes.
unfoldable pub read : ℕ → Queue → Bytes → Bytes × Result (Unit {0}) Bytes
read size queue (p ∷ ps) = hand_over size (p ∷ ps)
read size (next_line line) [] = hand_over size line
read size timeout [] = ([], err tt)
read size disconnected [] = ([], ok [])
