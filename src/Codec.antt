-- ===== src/Codec.antt =====
-- crates/runtt-mock/src/codec.rs: SMP frames and their console framing, and the byte loop of server.rs
-- that feeds the decoder. CRC-16 and base64 are crates: `crc` and the two functions of `Base64` are
-- parameters. A byte is a number below 256.
pub mod Frames
pub mod Lines
pub mod Stream
pub mod RoundTrip
use runtt.Shared.{
  ℕ, zero, suc, ◌+◌, ◌-◌, ◌*◌, ◌/◌, ◌%◌, ◌^◌, ◌<◌, ◌≡◌, ◌≢◌, Bool, true, false, not, ◌&&◌,
}
use runtt.Shared.{List, [], ◌∷◌, ◌++◌, Option, none, some, Result, ok, err, length, take, drop, All}
use runtt.Shared.{ltb, ◌==◌, if◌then◌else◌}
use runtt.Mcuboot.{Bytes}

pub record Frame : Type 0 where
  pub op : ℕ
  pub version : ℕ
  pub flags : ℕ
  pub group : ℕ
  pub seq : ℕ
  pub cmd : ℕ
  pub payload : Bytes

pub data CodecError : Type 0 where
  body_too_short length_mismatch max_line_too_small packet_too_short crc_mismatch : CodecError

-- `to_be_bytes` of a `u16`.
abbrev pub be16 : ℕ → Bytes
be16 n = n / 256 % 256 ∷ n % 256 ∷ []

-- The bits of `op` and `version` do not overlap, so `|` is a sum.
unfoldable pub header_bytes : Frame → Bytes
header_bytes f =
    let len = length f.payload % 2 ^ 16 in
    (f.op % 8 + f.version % 4 * 8)
    ∷ f.flags
    ∷ len / 256
    ∷ len % 256
    ∷ f.group / 256 % 256
    ∷ f.group % 256
    ∷ f.seq
    ∷ f.cmd
    ∷ []

-- `Frame::parse`.
unfoldable pub parse_frame : Bytes → Result CodecError Frame
parse_frame (b0 ∷ b1 ∷ b2 ∷ b3 ∷ b4 ∷ b5 ∷ b6 ∷ b7 ∷ payload) =
    if length payload == b2 * 256 + b3
    then ok (record {
      op = b0 % 8;
      version = b0 / 8 % 4;
      flags = b1;
      group = b4 * 256 + b5;
      seq = b6;
      cmd = b7;
      payload = payload;
    })
    else err length_mismatch
parse_frame _ = err body_too_short

abbrev pub op_read : ℕ
op_read = 0

abbrev pub op_read_rsp : ℕ
op_read_rsp = 1

abbrev pub op_write : ℕ
op_write = 2

abbrev pub op_write_rsp : ℕ
op_write_rsp = 3

unfoldable pub response_op : Frame → ℕ
response_op f =
    if f.op == op_read then op_read_rsp else if f.op == op_write then op_write_rsp else f.op

abbrev pub marker_start : Bytes
marker_start = 0x06 ∷ 0x09 ∷ []

abbrev pub marker_cont : Bytes
marker_cont = 0x04 ∷ 0x14 ∷ []

-- `chunks(n)`; one round takes `n` elements, so as many rounds as elements are enough for a positive n.
unfoldable pub chunks : ℕ → ℕ → Bytes → List Bytes
chunks zero n xs = []
chunks (suc fuel) n [] = []
chunks (suc fuel) n (x ∷ xs) = take n (x ∷ xs) ∷ chunks fuel n (drop n (x ∷ xs))

-- The loop of `encode` over the chunks.
unfoldable pub write_lines : Bytes → List Bytes → Bytes
write_lines marker [] = []
write_lines marker (c ∷ cs) = marker ++ (c ++ (b'\n' ∷ write_lines marker_cont cs))

pub record Decoder : Type 0 where
  pub acc : Bytes
  pub in_packet : Bool

abbrev pub Decoder_default : Decoder
Decoder_default = record { acc = []; in_packet = false }

-- `u16::from_be_bytes` of the first two bytes.
abbrev pub read16 : Bytes → ℕ
read16 (hi ∷ lo ∷ _) = hi * 256 + lo
read16 _ = 0

-- What the code relies on in the `base64` crate's STANDARD engine, which insists on canonical padding:
-- decoding undoes encoding, a decodable proper prefix of an encoding is a proper prefix of the bytes,
-- and the text has no newline.
pub record Base64 : Type 0 where
  pub encode : Bytes → Bytes
  pub decode : Bytes → Option Bytes
  pub decode-encode : (x : Bytes) → decode (encode x) ≡ some x
  pub decode_prefix :
      (x p q d : Bytes)
      → encode x ≡ p ++ q
      → q ≢ []
      → decode p ≡ some d
      → (e : Bytes) × (x ≡ d ++ e) × (e ≢ [])
  pub no_newline : (x : Bytes) → All (λ c. c ≢ b'\n') (encode x)

module _ (crc : Bytes → ℕ) (b64 : Base64) where
  unfoldable pub inner_bytes : Frame → Bytes
  inner_bytes frame =
      let body = header_bytes frame ++ frame.payload in
      be16 ((length body + 2) % 2 ^ 16) ++ (body ++ be16 (crc body))

  unfoldable pub encode : Frame → ℕ → Result CodecError Bytes
  encode frame max_line =
      if ltb max_line 16
      then err max_line_too_small
      else (let encoded = b64.encode (inner_bytes frame) in
          ok (write_lines marker_start (chunks (length encoded) (max_line - 3) encoded)))

  -- The CRC check at the end of `push_line`, over what the length prefix covers.
  unfoldable pub check_crc : Bytes → Result CodecError (Option Bytes)
  check_crc payload_and_crc =
      if ltb (length payload_and_crc) 2
      then err packet_too_short
      else (let split = length payload_and_crc - 2 in
          let body = take split payload_and_crc in
          if read16 (drop split payload_and_crc) == crc body
          then ok (some body)
          else err crc_mismatch)

  abbrev pub decoded : Decoder → Option Bytes → Decoder × Result CodecError (Option Bytes)
  decoded d (some (hi ∷ lo ∷ rest)) =
      if ltb (length rest) (hi * 256 + lo)
      then (d, ok none)
      else (record d { in_packet = false }, check_crc (take (hi * 256 + lo) rest))
  decoded d _ = (d, ok none)

  abbrev pub assemble : Decoder → Decoder × Result CodecError (Option Bytes)
  assemble d = decoded d (b64.decode d.acc)

  unfoldable pub push_line : Decoder → Bytes → Decoder × Result CodecError (Option Bytes)
  push_line d (m0 ∷ m1 ∷ rest) =
      if (m0 == 0x06) && (m1 == 0x09)
      then assemble (record d { acc = rest; in_packet = true })
      else if (m0 == 0x04) && (m1 == 0x14)
      then if d.in_packet then assemble (record d { acc = d.acc ++ rest }) else (d, ok none)
      else (d, ok none)
  push_line d _ = (d, ok none)

  abbrev pub deliver : Result CodecError (Option Bytes) → List Bytes → List Bytes
  deliver (ok (some body)) later = body ∷ later
  deliver (ok none) later = later
  deliver (err _) later = later

  -- The byte loop of `Server::serve`: the bodies that it obtains from a stream, `line` being the part of
  -- a line already read. A line with an error is dropped.
  unfoldable pub receive : Decoder → Bytes → Bytes → List Bytes
  receive d line [] = []
  receive d line (b ∷ bs) =
      let pushed = push_line d line in
      let next = deliver pushed.1 (receive pushed.0 [] bs) in
      let longer = receive d (line ++ (b ∷ [])) bs in if b == b'\n' then next else longer
