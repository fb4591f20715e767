-- ===== src/Codec/Stream.antt =====
-- How the byte loop takes whole lines.
use runtt.Shared.{ℕ, ◌≡◌, ◌≢◌, ◌∙◌, arith, [], ◌∷◌, ◌++◌, All, false, ◌==◌}
use runtt.Mcuboot.{Bytes}
use runtt.Codec.{Base64, Decoder, push_line, deliver, receive}
use mathlib.Core.List.{append-nil, append_assoc}

module _ (crc : Bytes → ℕ) (b64 : Base64) where
  -- A line of the stream goes to the decoder as a whole.
  pub receive_line :
      (d : Decoder) (line l bs : Bytes)
      → All (λ b. b ≢ b'\n') l
      → receive crc b64 d line (l ++ (b'\n' ∷ bs)) ≡ (
          let pushed = push_line crc b64 d (line ++ l) in
          deliver crc b64 pushed.1 (receive crc b64 pushed.0 [] bs))
  unfolding receive
  receive_line d line [] bs h = rw append-nil
  receive_line d line (b ∷ l) bs (n, h) =
      let other : (b == b'\n') ≡ false = ground arith in
      rw other (receive_line d (line ++ (b ∷ [])) l bs h ∙ rw append_assoc)
