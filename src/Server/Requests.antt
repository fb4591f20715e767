-- ===== src/Server/Requests.antt =====
-- The loop of the server against the requests it gets: how the bytes arrive does not matter.
use runtt.Shared.{
  ℕ, ◌≡◌, ap, subst, ◌∙◌, false, Option, none, List, [], ◌∷◌, ok, ret, ◌||◌, ◌<◌, ◌^◌,
}
use runtt.Mcuboot.{Bytes}
use runtt.Cbor.{Cbor}
use runtt.Codec.{Frame, Base64, parse_frame, encode, receive}
use runtt.Codec.Frames.{Fits}
use runtt.Codec.RoundTrip.{receive-encode, body_of}
use runtt.Server.{Server, dispatch}
use runtt.Server.Arrival.{serve-Schedule}
use runtt.Server.Attend.{plain, map_run, Schedule, packet_of, attend, as_served, viewed}
use runtt.Server.Loop.{Turn, withholds, answer_request, respond, serve}
use mathlib.Core.List.{append-nil}

module _ (crc : Bytes → ℕ) (b64 : Base64) (sha256 : Bytes → Bytes) (cbor : Cbor) where
  -- For a server without chatter, and any turns on which the bytes of a stream arrive and are looked
  -- at, cut into reads in any way, with reads that time out between them, and with writes that succeed:
  -- the loop ends up as if the server had been given the packets that the decoder finds in the stream,
  -- one after the other, and what it has written is their answers in order. The result is compared
  -- without the decoder and the line.
  pub serve-attend :
      (ts : List Turn) (stream line : Bytes) (s : Server)
      → Schedule ts [] stream
      → s.chatter ≡ none
      → map_run viewed
          (serve crc b64 sha256 cbor ts (record { server = s; line = line; pending = [] }))
        ≡ map_run as_served
            (attend crc b64 sha256 cbor (receive crc b64 s.decoder line stream) (plain s))
  serve-attend ts stream line s schedule quiet =
      serve-Schedule crc b64 sha256 cbor schedule s line quiet

  attend_one :
      (body : Bytes) (req : Frame) (s s' : Server) (o : Option Frame)
      → parse_frame body ≡ ok req
      → (s.silent || withholds s.dev.fault req) ≡ false
      → dispatch sha256 cbor s req ≡ ret (s', o)
      → attend crc b64 sha256 cbor (body ∷ []) s ≡ ret (s', packet_of crc b64 o)
  unfolding attend respond answer_request
  attend_one body req s s' o parses awake answers = simp (parses, awake, answers, append-nil)

  -- For a CRC that fits 16 bits, the assumed base64, and a server without chatter that is neither
  -- silent nor at fault for the command: when the wire text of a request that fits the format, encoded
  -- at any line limit, arrives in any such turns at the start of a line, whatever the decoder holds,
  -- then the server ends up as `dispatch` leaves it, and has written the wire text of the answer that
  -- `dispatch` gives, or nothing where it gives none. The decoder and the line are left aside.
  pub serve-encode :
      (crc_fits : (x : Bytes) → crc x < 2 ^ 16)
      → (ts : List Turn) (req : Frame) (limit : ℕ) (wire : Bytes) (s s' : Server) (o : Option Frame)
      → Fits req
      → encode crc b64 req limit ≡ ok wire
      → Schedule ts [] wire
      → s.chatter ≡ none
      → s.silent ≡ false
      → withholds s.dev.fault req ≡ false
      → dispatch sha256 cbor (plain s) req ≡ ret (s', o)
      → map_run viewed
          (serve crc b64 sha256 cbor ts (record { server = s; line = []; pending = [] }))
        ≡ ret (ok s', packet_of crc b64 o)
  serve-encode crc_fits ts req limit wire s s' o fits encodes schedule quiet awake fair answers =
      let (bodies, parses) =
        receive-encode crc b64 crc_fits req limit wire [] s.decoder fits encodes in
      let one : receive crc b64 s.decoder [] wire ≡ body_of crc b64 crc_fits req ∷ [] =
        unfold receive in
        subst (λ w. receive crc b64 s.decoder [] w ≡ body_of crc b64 crc_fits req ∷ [])
          (append-nil wire) bodies in
      let on_duty : (s.silent || withholds s.dev.fault req) ≡ false = simp (awake, fair) in
      serve-Schedule crc b64 sha256 cbor schedule s [] quiet
      ∙ ap (λ bodies. map_run as_served (attend crc b64 sha256 cbor bodies (plain s))) one
      ∙ ap (map_run as_served) (attend_one _ req (plain s) s' o parses on_duty answers)
