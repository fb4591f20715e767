-- ===== src/Tests/Servers.antt =====
-- The server of the emulated board, with a toy CBOR: a map is the text of an echo or the bytes of a chunk.
use runtt.Shared.{ℕ, ◌≡◌, refl, arith, true, false, List, [], ◌∷◌, Option, none, some, ok, err, ret}
use runtt.Shared.Text.{codes}
use runtt.Mcuboot.{Bytes}
use runtt.Mcuboot.{u16le, byte}
use runtt.Mcuboot.Termination.{HasNoEmptyArea}
use runtt.Server.Termination.{dispatch_total}
use runtt.Shared.{zero, suc, Returns}
use runtt.Cbor.{
  get_bytes, Cbor, Value, map, entry, text, end_entries, encode_map, decode_map, get_str, lookup,
}
use runtt.Codec.{Frame, Decoder_default}
use runtt.Codec.{receive, response_op}
use runtt.Shared.{◌=ₗ◌, ◌==◌, if◌then◌else◌}
use runtt.Device.Invariant.{Unconfirmed, IsSound}
use runtt.Server.{Server, dispatch}
use runtt.Server.Loop.{Turn, Loop, timed_out, serve, turn, speak, take_byte}
use runtt.Server.Replies.{Accounted, dispatch-Accounted}
use runtt.Server.Service.{Endures, serve-Endures, serve-Unconfirmed}
use runtt.Server.Attend.{Schedule, idle, reads, waits, map_run, viewed, as_served, attend}
use runtt.Server.Attend.{packet_of}
use runtt.Server.Requests.{serve-attend, serve-encode}
use runtt.Tests.Frames.{toy, sum_crc, echo, echo_Fits, wire, encodes}
use runtt.Tests.Boards.{staged, no_sha, old, new}

abbrev toy_writer : Value → Bytes
toy_writer (map (entry k (text t) m)) = 0xa1 ∷ t
toy_writer _ = 0xa0 ∷ []

abbrev toy_reader : Bytes → Option Value
toy_reader (tag ∷ t) =
    if tag == 0xa1
    then some (map (entry (text (codes "d")) (text t) end_entries))
    else if tag == 0xa2
    then some (map (entry (text (codes "data")) (Value.bytes t) end_entries))
    else none
toy_reader _ = none

abbrev toy_cbor : Cbor
toy_cbor = record { into_writer = toy_writer; from_reader = toy_reader }

abbrev server : Server
server = record {
  dev = staged;
  decoder = Decoder_default;
  silent = false;
  contract = codes "2.0.0";
  chatter = none;
  next_chatter = 0;
  chatter_seq = 0;
}

-- The answer to the echo, which says what the request said.
abbrev reply : Frame
reply = record {
  op = 3;
  version = 1;
  flags = 0;
  group = 0;
  seq = 7;
  cmd = 0;
  payload = 0xa1 ∷ 0x61 ∷ 0x64 ∷ [];
}

echoes : dispatch no_sha toy_cbor server echo ≡ ret (server, some reply)
unfolding dispatch encode_map decode_map get_str lookup response_op ◌=ₗ◌
echoes = refl

dispatch-Accounted_example : Accounted no_sha echo server (server, some reply)
dispatch-Accounted_example =
    dispatch-Accounted no_sha toy_cbor server echo (server, some reply) echoes

-- A byte arrives every other turn.
abbrev a_wait : Turn
a_wait = record { now = 0; read = err timed_out; writable = true }

abbrev a_byte : ℕ → Turn
a_byte b = record { now = 0; read = ok (b ∷ []); writable = true }

arrivals : Bytes → List Turn
arrivals [] = []
arrivals (b ∷ bs) = a_wait ∷ a_byte b ∷ arrivals bs

arrivals-Schedule : (bs : Bytes) → Schedule (arrivals bs) [] bs
unfolding arrivals
arrivals-Schedule [] = idle
arrivals-Schedule (b ∷ bs) =
    waits a_wait refl (reads (a_byte b) b [] refl refl (arrivals-Schedule bs))

abbrev ready : Loop
ready = record { server = server; line = []; pending = [] }

serve-encode_example :
    map_run viewed (serve sum_crc toy no_sha toy_cbor (arrivals wire) ready)
    ≡ ret (ok server, packet_of sum_crc toy (some reply))
serve-encode_example =
    serve-encode sum_crc toy no_sha toy_cbor (λ x. omega arith) (arrivals wire) echo 16 wire server
      server (some reply) echo_Fits encodes (arrivals-Schedule wire) refl refl refl echoes

serve-attend_example :
    map_run viewed (serve sum_crc toy no_sha toy_cbor (arrivals wire) ready)
    ≡ map_run as_served
        (attend sum_crc toy no_sha toy_cbor (receive sum_crc toy Decoder_default [] wire) server)
serve-attend_example =
    serve-attend sum_crc toy no_sha toy_cbor (arrivals wire) wire [] server (arrivals-Schedule wire)
      refl

-- The client hangs up in the middle of a line, on a board that waits for a confirmation.
abbrev waiting : Loop
waiting = record ready {
  server = record server {
    dev = record staged { slot0 = some new; slot1 = some old; awaiting_confirm = true };
  };
}

abbrev hang_up_turns : List Turn
hang_up_turns = a_byte 6 ∷ record a_wait { read = ok [] } ∷ []

hangs_up : serve sum_crc toy no_sha toy_cbor hang_up_turns waiting ≡ ret (ok waiting, [])
unfolding serve turn speak take_byte
hangs_up = refl

serve-Endures_example : Endures no_sha waiting (ok waiting, [])
serve-Endures_example =
    serve-Endures sum_crc toy no_sha toy_cbor hang_up_turns waiting (ok waiting, []) hangs_up

waiting-IsSound : IsSound waiting.server.dev
waiting-IsSound = record { reboots = λ e. cc; probation = λ e. refl }

serve-Unconfirmed_example : Unconfirmed waiting.server.dev.slot0
serve-Unconfirmed_example =
    serve-Unconfirmed sum_crc toy no_sha toy_cbor hang_up_turns waiting waiting [] waiting-IsSound
      hangs_up refl

-- An upload of one byte.
abbrev chunk_of_one : Frame
chunk_of_one = record {
  op = 2;
  version = 1;
  flags = 0;
  group = 1;
  seq = 8;
  cmd = 1;
  payload = 0xa2 ∷ 7 ∷ [];
}

one_byte-HasNoEmptyArea : HasNoEmptyArea (7 ∷ [])
unfolding u16le byte
one_byte-HasNoEmptyArea zero magic = cc
one_byte-HasNoEmptyArea (suc n) magic = cc

dispatch_total_example : Returns (dispatch no_sha toy_cbor server chunk_of_one)
unfolding decode_map get_bytes lookup ◌=ₗ◌
dispatch_total_example =
    dispatch_total no_sha toy_cbor server chunk_of_one
      (λ _. (one_byte-HasNoEmptyArea, one_byte-HasNoEmptyArea))
