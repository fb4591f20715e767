-- ===== src/Server/Attend.antt =====
-- What the loop of the server is compared with: each packet gets its answer, in order.
use runtt.Shared.{ℕ, ◌≡◌, true, Option, none, some}
use runtt.Shared.{List, [], ◌∷◌, ◌++◌, Result, ok, err, Run, ret, ◌>>=◌}
use runtt.Mcuboot.{Bytes}
use runtt.Cbor.{Cbor}
use runtt.Codec.{Frame, Base64, Decoder_default, CodecError, encode}
use runtt.Server.{Server, max_line}
use runtt.Server.Loop.{Turn, Served, ServeError, respond, timed_out}

-- A server without the packet in its decoder.
abbrev pub plain : Server → Server
plain s = record s { decoder = Decoder_default }

abbrev pub map_run {ℓ κ} : {A : Type ℓ} {B : Type κ} → (A → B) → Run A → Run B
map_run f m = m >>= λ a. ret (f a)

abbrev pub plainly : Server × Option Frame → Server × Option Frame
plainly (s, o) = (plain s, o)

-- The turns `ts` on which the bytes `pending` and then what reads give make up the stream: one byte is
-- looked at a turn, reads happen when none is pending, and may time out.
pub data Schedule : List Turn → (pending stream : Bytes) → Type 0 where
  idle : Schedule [] [] []
  looks :
      {ts : List Turn} {bs stream : Bytes} (t : Turn) (b : ℕ)
      → t.writable ≡ true
      → Schedule ts bs stream
      → Schedule (t ∷ ts) (b ∷ bs) (b ∷ stream)
  reads :
      {ts : List Turn} {stream : Bytes} (t : Turn) (b : ℕ) (bs : Bytes)
      → t.writable ≡ true
      → t.read ≡ ok (b ∷ bs)
      → Schedule ts bs stream
      → Schedule (t ∷ ts) [] (b ∷ stream)
  waits :
      {ts : List Turn} {stream : Bytes} (t : Turn)
      → t.read ≡ err timed_out
      → Schedule ts [] stream
      → Schedule (t ∷ ts) [] stream

abbrev pub after : {A : Type 0} → Bytes → Run (A × Bytes) → Run (A × Bytes)
after out = map_run (λ r. (r.0, out ++ r.1))

-- The loop's result without the decoder and the line.
abbrev pub as_served : Server × Bytes → Result ServeError Server × Bytes
as_served (s, out) = (ok s, out)

abbrev pub viewed : Served → Result ServeError Server × Bytes
viewed (ok l, out) = (ok (plain l.server), out)
viewed (err e, out) = (err e, out)

-- The bytes of an answer.
abbrev pub wire_of : Result CodecError Bytes → Bytes
wire_of (ok wire) = wire
wire_of (err e) = []

module _ (crc : Bytes → ℕ) (b64 : Base64) where
  abbrev pub packet_of : Option Frame → Bytes
  packet_of none = []
  packet_of (some f) = wire_of (encode crc b64 f max_line)

module _ (crc : Bytes → ℕ) (b64 : Base64) (sha256 : Bytes → Bytes) (cbor : Cbor) where
  abbrev pub answered :
      (Server → Run (Server × Bytes)) → Server × Option Frame → Run (Server × Bytes)
  answered more (s, resp) = map_run (λ r. (r.0, packet_of crc b64 resp ++ r.1)) (more s)

  -- What the server is to do with a sequence of packets: each gets its answer, in order.
  unfoldable pub attend : List Bytes → Server → Run (Server × Bytes)
  attend [] s = ret (s, [])
  attend (body ∷ later) s = respond sha256 cbor s (ok (some body)) >>= answered (attend later)
