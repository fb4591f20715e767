-- ===== src/Tests/Frames.antt =====
-- Frames on the wire, with a toy text encoding: each byte raised by 11, and a 0 at the end.
use runtt.Shared.{
  ℕ, ◌+◌, ◌-◌, ◌%◌, ◌^◌, ◌≤◌, ◌≡◌, ◌≢◌, refl, arith, [], ◌∷◌, ◌++◌, Option, none, some,
}
use runtt.Shared.{ok, All, Option-cases, inl, inr, false, ◌==◌, if◌then◌else◌, length}
use runtt.Shared.Text.{split}
use runtt.Mcuboot.{Bytes}
use runtt.Codec.{
  Frame, Base64, Decoder_default, header_bytes, parse_frame, encode, inner_bytes, chunks,
  write_lines, receive, marker_start,
}
use runtt.Codec.Frames.{Fits, IsTyped, Encodes, parse_frame-header_bytes, parse_frame-Encodes}
use runtt.Codec.Lines.{encode_bounded}
use runtt.Codec.RoundTrip.{receive-encode}
use mathlib.Core.Option

pub toy_encode : Bytes → Bytes
toy_encode [] = 0 ∷ []
toy_encode (x ∷ xs) = (x + 11) ∷ toy_encode xs

pub toy_decode : Bytes → Option Bytes
toy_decode [] = none
toy_decode (c ∷ cs) =
    if c == 0
    then (if length cs == 0 then some [] else none)
    else Option.map (λ d. (c - 11) ∷ d) (toy_decode cs)

pub toy_decode-encode : (x : Bytes) → toy_decode (toy_encode x) ≡ some x
unfolding toy_encode toy_decode
toy_decode-encode [] = refl
toy_decode-encode (x ∷ xs) = ground (arith, toy_decode-encode xs)

pub toy_prefix : (x p q d : Bytes) → toy_encode x ≡ p ++ q → q ≢ [] → toy_decode p ≡ some d → ⊥
unfolding toy_encode toy_decode
toy_prefix x [] q d e ne h = cc
toy_prefix [] (c ∷ []) q d e ne h = let empty : q ≡ [] = cc in ne empty
toy_prefix [] (c ∷ z ∷ p) q d e ne h = cc
toy_prefix (y ∷ x) (c ∷ p) q d e ne h =
    let head : y + 11 ≡ c = cc in
    let tail : toy_encode x ≡ p ++ q = cc in
    let other : (c == 0) ≡ false = ground (arith, head) in
    elim (Option-cases (toy_decode p)) [
      | inl none_left ↦ cc (rw (other, none_left) at h)
      | inr (d0, some_left) ↦ toy_prefix x p q d0 tail ne some_left
    ]

pub toy_no_newline : (x : Bytes) → All (λ c. c ≢ b'\n') (toy_encode x)
unfolding toy_encode
toy_no_newline [] = (omega arith, tt)
toy_no_newline (x ∷ xs) = (omega arith, toy_no_newline xs)

abbrev pub toy : Base64
toy = record {
  encode = toy_encode;
  decode = toy_decode;
  decode-encode = toy_decode-encode;
  decode_prefix = λ x p q d e ne h. absurd (toy_prefix x p q d e ne h);
  no_newline = toy_no_newline;
}

abbrev pub sum_crc : Bytes → ℕ
sum_crc x = length x % 2 ^ 16

abbrev pub echo : Frame
echo = record {
  op = 2;
  version = 1;
  flags = 0;
  group = 0;
  seq = 7;
  cmd = 0;
  payload = 0xa1 ∷ 0x61 ∷ 0x64 ∷ [];
}

pub echo_Fits : Fits echo
echo_Fits = record {
  op = omega arith;
  version = omega arith;
  group = omega arith;
  payload = omega arith;
}

parse_frame-Encodes_example : Encodes (header_bytes echo ++ echo.payload) echo × IsTyped echo
unfolding header_bytes
parse_frame-Encodes_example =
    parse_frame-Encodes (header_bytes echo ++ echo.payload) echo
      (
        omega arith,
        (
          omega arith,
          (
            omega arith,
            (
              omega arith,
              (
                omega arith,
                (
                  omega arith,
                  (omega arith, (omega arith, (omega arith, (omega arith, (omega arith, tt))))),
                ),
              ),
            ),
          ),
        ),
      )
      (parse_frame-header_bytes echo echo_Fits)

-- At a limit of 16 bytes a line, the echo takes two lines.
abbrev pub wire : Bytes
wire = write_lines marker_start (chunks 16 13 (toy.encode (inner_bytes sum_crc toy echo)))

pub encodes : encode sum_crc toy echo 16 ≡ ok wire
unfolding encode inner_bytes header_bytes toy_encode
encodes = refl

encode_bounded_example : All (λ l. length l + 1 ≤ 16) (split b'\n' wire)
encode_bounded_example = encode_bounded sum_crc toy echo 16 wire encodes

receive-encode_example :
    (receive sum_crc toy Decoder_default [] (wire ++ [])
      ≡ (header_bytes echo ++ echo.payload)
        ∷ receive sum_crc toy
            (record { acc = toy.encode (inner_bytes sum_crc toy echo); in_packet = false })
            []
            [])
    × (parse_frame (header_bytes echo ++ echo.payload) ≡ ok echo)
receive-encode_example =
    receive-encode sum_crc toy (λ x. omega arith) echo 16 wire [] Decoder_default echo_Fits encodes
