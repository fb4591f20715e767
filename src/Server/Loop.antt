-- ===== src/Server/Loop.antt =====
-- The loop of `Server::serve`: the bytes read, the lines, and what each packet gets.
use runtt.Shared.{
  ℕ, ◌+◌, ◌%◌, ◌^◌, Bool, true, false, ◌&&◌, List, [], ◌∷◌, ◌++◌, Option, none, some,
}
use runtt.Shared.{Result, ok, err, Run, ret, ◌>>=◌, ltb, ◌==◌, if◌then◌else◌, ◌||◌}
use runtt.Shared.Text.{Text, codes}
use runtt.Shared.Text.Numbers.{show_dec}
use runtt.Mcuboot.{Bytes}
use runtt.Cbor.{Cbor}
use runtt.Codec.{Frame, Base64, Decoder_default, CodecError, parse_frame, encode, push_line}
use runtt.Device.{Fault, timeout, provisioned}
use runtt.Server.{Server, chatter_every, max_line, dispatch}

pub data ReadError : Type 0 where
  timed_out interrupted other_error : ReadError

-- What one turn of the loop would meet: the clock in milliseconds, what a read gives (`ok []` is the
-- end of the stream), and whether writes succeed.
pub record Turn : Type 0 where
  pub now : ℕ
  pub read : Result ReadError Bytes
  pub writable : Bool

-- The loop's variables: the server, the line so far, and the bytes read but not yet looked at.
pub record Loop : Type 0 where
  pub server : Server
  pub line : Bytes
  pub pending : Bytes

pub data ServeError : Type 0 where
  not_encodable : CodecError → ServeError
  write_failed : ServeError

-- What the loop has written, and that of a later part after it.
abbrev pub Served : Type 0
Served = Result ServeError Loop × Bytes

abbrev pub then_serve : (Loop → Run Served) → Served → Run Served
then_serve more (err e, out) = ret (err e, out)
then_serve more (ok l, out) = do served ← more l; ret (served.0, out ++ served.1)

abbrev pub Server_new : (Bytes → Bytes) → ℕ → Fault → Run Server
Server_new sha256 now fault = do
  dev ← provisioned sha256 fault
  ret (record {
    dev = dev;
    decoder = Decoder_default;
    silent = false;
    contract = codes "2.0.0";
    chatter = none;
    next_chatter = now;
    chatter_seq = 0;
  })

abbrev pub with_contract : Server → Text → Server
with_contract s version = record s { contract = version }

abbrev pub with_chatter : Server → Bytes → Server
with_chatter s message = record s { chatter = some message }

-- `speak`: the log line, if it is due. A failed write loses it.
abbrev pub said : Turn → Server → Bytes → Server × Bytes
said t s message = if ltb t.now s.next_chatter then (s, []) else (
  record s { next_chatter = t.now + chatter_every; chatter_seq = (s.chatter_seq + 1) % 2 ^ 32 },
  if t.writable then message ++ (b' ' ∷ show_dec s.chatter_seq ++ (b'\r' ∷ b'\n' ∷ [])) else [],
)

abbrev pub speak_of : Turn → Server → Option Bytes → Server × Bytes
speak_of t s none = (s, [])
speak_of t s (some message) = said t s message

unfoldable pub speak : Turn → Server → Server × Bytes
speak t s = speak_of t s s.chatter

-- The fault that withholds the answer to one command.
abbrev pub withholds : Fault → Frame → Bool
withholds (timeout group cmd) req = (req.group == group) && (req.cmd == cmd)
withholds _ req = false

-- The client went away.
abbrev pub hang_up : Loop → Loop
hang_up l = record {
  server = record l.server { decoder = Decoder_default };
  line = [];
  pending = l.pending;
}

module _ (sha256 : Bytes → Bytes) (cbor : Cbor) where
  unfoldable pub answer_request : Server → Result CodecError Frame → Run (Server × Option Frame)
  answer_request s (err e) = ret (s, none)
  answer_request s (ok req) =
      if s.silent || withholds s.dev.fault req then ret (s, none) else dispatch sha256 cbor s req

  -- A line with an error is dropped.
  unfoldable pub respond : Server → Result CodecError (Option Bytes) → Run (Server × Option Frame)
  respond s (ok (some body)) = answer_request s (parse_frame body)
  respond s (ok none) = ret (s, none)
  respond s (err e) = ret (s, none)

abbrev pub encoded : Bool → Result CodecError Bytes → Loop → Bytes → Served
encoded writable (err e) l out = (err (not_encodable e), out)
encoded true (ok wire) l out = (ok l, out ++ wire)
encoded false (ok wire) l out = (err write_failed, out)

module _ (crc : Bytes → ℕ) (b64 : Base64) where
  -- `codec::encode`, `write_all` and `flush`, after `out` has been written.
  abbrev pub send : Bool → Option Frame → Loop → Bytes → Served
  send writable none l out = (ok l, out)
  send writable (some resp) l out = encoded writable (encode crc b64 resp max_line) l out

module _ (crc : Bytes → ℕ) (b64 : Base64) (sha256 : Bytes → Bytes) (cbor : Cbor) where
  -- One byte of `pending`.
  unfoldable pub take_byte : Bool → Loop → ℕ → Bytes → Run Served
  take_byte writable l b out =
      if b == b'\n'
      then (let pushed = push_line crc b64 l.server.decoder l.line in
          do
            done ← respond sha256 cbor (record l.server { decoder = pushed.0 }) pushed.1
            ret (send crc b64 writable done.1 (record l { server = done.0; line = [] }) out))
      else ret (ok (record l { line = l.line ++ (b ∷ []) }), out)

  abbrev pub refilled : Turn → Loop → Result ReadError Bytes → Bytes → Run Served
  refilled t l (ok []) out = ret (ok (hang_up l), out)
  refilled t l (ok (b ∷ bs)) out = take_byte t.writable (record l { pending = bs }) b out
  refilled t l (err timed_out) out = ret (ok l, out)
  refilled t l (err interrupted) out = ret (ok l, out)
  refilled t l (err other_error) out = ret (ok (hang_up l), out)

  abbrev pub filled : Turn → Loop → Bytes → Bytes → Run Served
  filled t l [] out = refilled t l t.read out
  filled t l (b ∷ bs) out = take_byte t.writable (record l { pending = bs }) b out

  -- One turn of the loop.
  unfoldable pub turn : Turn → Loop → Run Served
  turn t l =
      let spoken = speak t l.server in filled t (record l { server = spoken.0 }) l.pending spoken.1

  -- The loop has no end of its own: it runs for as many turns as there are.
  unfoldable pub serve : List Turn → Loop → Run Served
  serve [] l = ret (ok l, [])
  serve (t ∷ ts) l = turn t l >>= then_serve (serve ts)
