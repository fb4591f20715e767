-- ===== src/Codec/Frames.antt =====
-- The header and its parser.
use runtt.Shared.{ℕ, ◌+◌, ◌^◌, ◌<◌, ◌≡◌, arith, ◌++◌, ok, length}
use runtt.Shared.{◌*◌, ◌/◌, ◌%◌, [], ◌∷◌, Result, All, Bool-cases, inl, inr, subst, ◌==◌}
use runtt.Mcuboot.{Bytes}
use runtt.Codec.{CodecError}
use runtt.Codec.{Frame, header_bytes, parse_frame}

-- A frame that fits the wire format.
pub record Fits (f : Frame) : Type 0 where
  pub op : f.op < 8
  pub version : f.version < 4
  pub group : f.group < 2 ^ 16
  pub payload : length f.payload + 10 < 2 ^ 16

-- Parsing the header and the payload of a frame that fits gives the frame back.
pub parse_frame-header_bytes :
    (f : Frame) → Fits f → parse_frame (header_bytes f ++ f.payload) ≡ ok f
unfolding parse_frame header_bytes
parse_frame-header_bytes f h = ground arith

-- The types of the fields in the source: three and two bits of the first byte, bytes, and a `u16`.
pub record IsTyped (f : Frame) : Type 0 where
  pub op : f.op < 8
  pub version : f.version < 4
  pub flags : f.flags < 256
  pub group : f.group < 2 ^ 16
  pub seq : f.seq < 256
  pub cmd : f.cmd < 256
  pub payload : All (λ b. b < 256) f.payload
  pub length_ : length f.payload < 2 ^ 16

-- A header with the three bits that the format reserves at the top of its first byte.
abbrev pub with_reserved : (reserved : ℕ) → Bytes → Bytes
with_reserved reserved [] = []
with_reserved reserved (b ∷ bs) = (b + reserved * 32) ∷ bs

-- The bytes that a frame stands for, whatever the reserved bits are.
pub record Encodes (body : Bytes) (f : Frame) : Type 0 where
  pub reserved : ℕ
  pub reserved_bits : reserved < 8
  pub bytes : body ≡ with_reserved reserved (header_bytes f) ++ f.payload

-- For bytes below 256, parsing loses nothing but the reserved bits: the bytes that parse to a frame are the header that
-- `header_bytes` makes of the frame, with some value in the three reserved bits, and then its payload;
-- and the fields have the ranges of their types.
pub parse_frame-Encodes :
    (body : Bytes) (f : Frame)
    → All (λ b. b < 256) body
    → parse_frame body ≡ ok f
    → Encodes body f × IsTyped f
unfolding parse_frame header_bytes
parse_frame-Encodes (b0 ∷ b1 ∷ b2 ∷ b3 ∷ b4 ∷ b5 ∷ b6 ∷ b7 ∷ payload) f
      (h0, (h1, (h2, (h3, (h4, (h5, (h6, (h7, h)))))))) e =
    elim (Bool-cases (length payload == b2 * 256 + b3)) [
      | inl whole ↦
          let parsed : record {
            op = b0 % 8;
            version = b0 / 8 % 4;
            flags = b1;
            group = b4 * 256 + b5;
            seq = b6;
            cmd = b7;
            payload = payload;
          }
              ≡ f =
            ok_injective (rw whole at e) in
          let len : length payload ≡ b2 * 256 + b3 = ground arith in
          let e0 : b0 ≡ b0 % 8 % 8 + b0 / 8 % 4 % 4 * 8 + b0 / 32 * 32 = omega (arith, h0) in
          let e2 : b2 ≡ length payload % 2 ^ 16 / 256 = omega (arith, h2, h3, len) in
          let e3 : b3 ≡ length payload % 2 ^ 16 % 256 = omega (arith, h2, h3, len) in
          let e4 : b4 ≡ (b4 * 256 + b5) / 256 % 256 = omega (arith, h4, h5) in
          let e5 : b5 ≡ (b4 * 256 + b5) % 256 = omega (arith, h4, h5) in
          subst
            (λ (x : Frame). Encodes (b0 ∷ b1 ∷ b2 ∷ b3 ∷ b4 ∷ b5 ∷ b6 ∷ b7 ∷ payload) x × IsTyped x)
            parsed
            (
              record {
                reserved = b0 / 32;
                reserved_bits = omega (arith, h0);
                bytes = same e0 e2 e3 e4 e5;
              },
              record {
                op = omega arith;
                version = omega arith;
                flags = h1;
                group = omega (arith, h4, h5);
                seq = h6;
                cmd = h7;
                payload = h;
                length_ = omega (arith, h2, h3, len);
              },
            )
      | inr other ↦ cc (rw other at e)
    ]
  where
    same :
        {x0 x2 x3 x4 x5 : ℕ}
        → b0 ≡ x0
        → b2 ≡ x2
        → b3 ≡ x3
        → b4 ≡ x4
        → b5 ≡ x5
        → ◌≡◌ {A = Bytes}
            (b0 ∷ b1 ∷ b2 ∷ b3 ∷ b4 ∷ b5 ∷ b6 ∷ b7 ∷ payload)
            (x0 ∷ b1 ∷ x2 ∷ x3 ∷ x4 ∷ x5 ∷ b6 ∷ b7 ∷ payload)
    same z0 z2 z3 z4 z5 = cc

    ok_injective : {x y : Frame} → ◌≡◌ {A = Result CodecError Frame} (ok x) (ok y) → x ≡ y
    ok_injective z = cc
parse_frame-Encodes [] f h e = cc
parse_frame-Encodes (b0 ∷ []) f h e = cc
parse_frame-Encodes (b0 ∷ b1 ∷ []) f h e = cc
parse_frame-Encodes (b0 ∷ b1 ∷ b2 ∷ []) f h e = cc
parse_frame-Encodes (b0 ∷ b1 ∷ b2 ∷ b3 ∷ []) f h e = cc
parse_frame-Encodes (b0 ∷ b1 ∷ b2 ∷ b3 ∷ b4 ∷ []) f h e = cc
parse_frame-Encodes (b0 ∷ b1 ∷ b2 ∷ b3 ∷ b4 ∷ b5 ∷ []) f h e = cc
parse_frame-Encodes (b0 ∷ b1 ∷ b2 ∷ b3 ∷ b4 ∷ b5 ∷ b6 ∷ []) f h e = cc
