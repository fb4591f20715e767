-- ===== src/Codec/Lines.antt =====
-- Chunks, and the lines that `encode` writes.
use runtt.Shared.{
  ℕ, zero, suc, ◌+◌, ◌-◌, ◌≤◌, ◌<◌, ◌≡◌, ◌≢◌, refl, ap, ◌∙◌, arith, List, [], ◌∷◌, ◌++◌,
}
use runtt.Shared.{
  length, length-take, length-drop, take, drop, take-append-drop, All, All-append, length-append,
  subst, ok,
}
use runtt.Shared.{ltb, Bool-cases, inl, inr}
use runtt.Shared.Text.{split, split-append}
use runtt.Mcuboot.{Bytes}
use runtt.Codec.{chunks, write_lines, marker_start, marker_cont, Frame, Base64, encode, inner_bytes}
use mathlib.Core.List.{append_assoc}

abbrev pub concat : List Bytes → Bytes
concat [] = []
concat (c ∷ cs) = c ++ concat cs

-- A chunk of text: not empty, not longer than `n`, and without a newline.
abbrev pub IsChunk : ℕ → Bytes → Type 0
IsChunk n c = (0 < length c) × (length c ≤ n) × All (λ b. b ≢ b'\n') c

All-take {ℓ} : (P : ℕ → Type ℓ) (n : ℕ) (xs : Bytes) → All P xs → All P (take n xs)
All-take P zero xs h = tt
All-take P (suc n) [] h = tt
All-take P (suc n) (x ∷ xs) (p, h) = (p, All-take P n xs h)

All-drop {ℓ} : (P : ℕ → Type ℓ) (n : ℕ) (xs : Bytes) → All P xs → All P (drop n xs)
All-drop P zero xs h = h
All-drop P (suc n) [] h = tt
All-drop P (suc n) (x ∷ xs) (p, h) = All-drop P n xs h

All-weaken {ℓ κ} :
    (P : List ℕ → Type ℓ) (Q : List ℕ → Type κ)
    → ((x : List ℕ) → P x → Q x)
    → (xs : List Bytes) → All P xs
    → All Q xs
All-weaken P Q f [] h = tt
All-weaken P Q f (x ∷ xs) (p, h) = (f x p, All-weaken P Q f xs h)

module _ (n : ℕ) (positive : 0 < n) where
  pub chunks-IsChunk :
      (fuel : ℕ) (xs : Bytes) → All (λ b. b ≢ b'\n') xs → All (IsChunk n) (chunks fuel n xs)
  unfolding chunks
  chunks-IsChunk zero xs h = tt
  chunks-IsChunk (suc fuel) [] h = tt
  chunks-IsChunk (suc fuel) (x ∷ xs) h = (
    (
      omega (arith, length-take n (x ∷ xs)),
      omega (arith, length-take n (x ∷ xs)),
      All-take _ n (x ∷ xs) h,
    ),
    chunks-IsChunk fuel (drop n (x ∷ xs)) (All-drop _ n (x ∷ xs) h),
  )

  pub concat-chunks : (fuel : ℕ) (xs : Bytes) → length xs ≤ fuel → concat (chunks fuel n xs) ≡ xs
  unfolding chunks
  concat-chunks zero [] h = refl
  concat-chunks zero (x ∷ xs) h = absurd (omega arith)
  concat-chunks (suc fuel) [] h = refl
  concat-chunks (suc fuel) (x ∷ xs) h =
      ap (λ ys. take n (x ∷ xs) ++ ys)
        (concat-chunks fuel (drop n (x ∷ xs)) (omega (arith, length-drop n (x ∷ xs))))
      ∙ take-append-drop n (x ∷ xs)

-- Each line of the text is the marker and a chunk.
write_lines_bounded :
    (n : ℕ) (marker : Bytes) (cs : List Bytes)
    → length marker ≡ 2
    → All (λ b. b ≢ b'\n') marker
    → All (IsChunk n) cs
    → All (λ l. length l ≤ n + 2) (split b'\n' (write_lines marker cs))
unfolding write_lines
write_lines_bounded n marker [] hm hn h = unfold split in (omega arith, tt)
write_lines_bounded n marker (c ∷ cs) hm hn ((_, short, plain), h) =
    rw
      (
        ← append_assoc marker c (b'\n' ∷ write_lines marker_cont cs),
        split-append b'\n' (marker ++ c) (write_lines marker_cont cs)
            (All-append _ marker c hn plain),
      )
      (
        omega (arith, length-append marker c),
        write_lines_bounded n marker_cont cs refl (omega arith) h,
      )

-- Each line that `encode` writes, when it succeeds, holds at most `max_line` bytes, its newline
-- included, for any CRC and base64 without newlines.
pub encode_bounded :
    (crc : Bytes → ℕ) (b64 : Base64) (frame : Frame) (max_line : ℕ) (wire : Bytes)
    → encode crc b64 frame max_line ≡ ok wire
    → All (λ l. length l + 1 ≤ max_line) (split b'\n' wire)
unfolding encode
encode_bounded crc b64 frame max_line wire e = elim (Bool-cases (ltb max_line 16)) [
  | inl small ↦ cc (rw small at e)
  | inr wide ↦
      let big : 16 ≤ max_line = ground arith in
      let text = b64.encode (inner_bytes crc b64 frame) in
      let cs = chunks (length text) (max_line - 3) text in
      let bounded =
        write_lines_bounded (max_line - 3) marker_start cs refl (omega arith)
          (chunks-IsChunk (max_line - 3) (omega arith) (length text) text (b64.no_newline _)) in
      All-weaken _ _ (λ l h. omega arith) _
        (subst (λ w. All (λ l. length l ≤ max_line - 3 + 2) (split b'\n' w)) (ground arith) bounded)
]
