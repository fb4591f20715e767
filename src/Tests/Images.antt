-- ===== src/Tests/Images.antt =====
-- Images: one that `parse` accepts, and one on which the search for the digest does not end.
use runtt.Shared.{
  ℕ, ◌≡◌, ◌≢◌, refl, arith, zero, suc, ◌≤◌, ◌<◌, Bool, true, false, not, ◌&&◌, Bool-cases, inl, inr,
  ◌==◌, ltb, Run, panic, get_elem?, [], ◌∷◌, ◌++◌, ok, err, ret, stuck, Returns, none,
}
use runtt.Shared.{length}
use runtt.Shared.Text.{codes}
use runtt.Shared.Text.Numbers.{show_dec}
use runtt.Mcuboot.{
  Bytes, byte, u16le, u32le, walk, find_sha256, find_digest, parse, version_text, ImageInfo,
}
use runtt.Mcuboot.{too_short, tlv_prot_info_magic}
use runtt.Mcuboot.Termination.{HasNoEmptyArea, parse_total, find_sha256_diverges}
use runtt.Mcuboot.Digest.{Describes, parse-Describes}

abbrev header : Bytes
header =
    0x3d ∷ 0xb8 ∷ 0xf3 ∷ 0x96 ∷ 0 ∷ 0 ∷ 0 ∷ 0 ∷ 32 ∷ 0 ∷ 0 ∷ 0 ∷ 0 ∷ 0 ∷ 0 ∷ 0 ∷ 0 ∷ 0 ∷ 0 ∷ 0 ∷ 1
    ∷ 2 ∷ 3 ∷ 0 ∷ 4 ∷ 0 ∷ 0 ∷ 0 ∷ 0 ∷ 0 ∷ 0 ∷ 0 ∷ []

abbrev digest : Bytes
digest =
    1 ∷ 2 ∷ 3 ∷ 4 ∷ 5 ∷ 6 ∷ 7 ∷ 8 ∷ 9 ∷ 10 ∷ 11 ∷ 12 ∷ 13 ∷ 14 ∷ 15 ∷ 16 ∷ 17 ∷ 18 ∷ 19 ∷ 20 ∷ 21
    ∷ 22 ∷ 23 ∷ 24 ∷ 25 ∷ 26 ∷ 27 ∷ 28 ∷ 29 ∷ 30 ∷ 31 ∷ 32 ∷ []

-- No body, then an unprotected area with one SHA-256 entry.
abbrev signed : Bytes
signed = header ++ (0x07 ∷ 0x69 ∷ 40 ∷ 0 ∷ 0x10 ∷ 0 ∷ 32 ∷ 0 ∷ digest)

abbrev signed_info : ImageInfo
signed_info = record {
  digest = digest;
  version = codes "1.2.3+4";
  header_size = 32;
  image_size = 0;
}

signed_parses : parse 80 signed ≡ ret (ok signed_info)
unfolding parse find_digest find_sha256 walk byte u16le u32le version_text show_dec
signed_parses = refl

parse-Describes_example : Describes signed signed_info
parse-Describes_example = parse-Describes 80 signed signed_info signed_parses

short_refused : parse 9 (codes "nope") ≡ ret (err too_short)
unfolding parse
short_refused = refl

is_prot : Run ℕ → Bool
is_prot (ret magic) = magic == tlv_prot_info_magic
is_prot _ = false

-- No protected area starts below `n`.
none_below : ℕ → Bytes → Bool
none_below zero image = true
none_below (suc n) image = not (is_prot (u16le image n)) && none_below n image

none_below_sound :
    (n : ℕ) (image : Bytes) (at : ℕ)
    → none_below n image ≡ true
    → at < n
    → u16le image at ≢ ret tlv_prot_info_magic
unfolding none_below is_prot
none_below_sound zero image at h l e = elim l [ ]
none_below_sound (suc n) image at h l e = elim (Bool-cases (at == n)) [
  | inl same ↦
      let eq : at ≡ n = ground arith in
      let here : u16le image n ≡ ret tlv_prot_info_magic = rw (← eq) e in cc (rw here at h)
  | inr other ↦ none_below_sound n image at (ground arith) (ground arith) e
]

get_elem?-ge : (xs : Bytes) (i : ℕ) → length xs ≤ i → get_elem? xs i ≡ none
get_elem?-ge [] i h = refl
get_elem?-ge (x ∷ xs) zero h = absurd (omega arith)
get_elem?-ge (x ∷ xs) (suc i) h = get_elem?-ge xs i (omega arith)

byte-ge : (image : Bytes) (i : ℕ) → length image ≤ i → byte image i ≡ panic
unfolding byte
byte-ge image i h = rw (byte, get_elem?-ge image i h)

u16le-ge : (image : Bytes) (i : ℕ) → length image ≤ i → u16le image i ≡ panic
unfolding u16le
u16le-ge image i h = rw (byte-ge image i h)

signed-HasNoEmptyArea : HasNoEmptyArea signed
signed-HasNoEmptyArea at magic = elim (Bool-cases (ltb at 72)) [
  | inl below ↦ absurd (
      none_below_sound 72 signed at (unfold none_below is_prot u16le byte in refl) (ground arith)
        magic)
  | inr above ↦ cc (u16le-ge signed at (ground arith), magic)
]

parse_total_example : Returns (parse 73 signed)
parse_total_example = parse_total 73 signed signed-HasNoEmptyArea (omega arith)

-- A protected area of declared length 0 right after the header.
abbrev looping : Bytes
looping = header ++ (0x08 ∷ 0x69 ∷ 0 ∷ 0 ∷ [])

find_sha256_diverges_example : find_sha256 1000 looping 32 ≡ stuck
unfolding u16le byte
find_sha256_diverges_example = find_sha256_diverges 1000 looping 32 (omega arith) refl refl
