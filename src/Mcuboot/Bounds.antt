-- ===== src/Mcuboot/Bounds.antt =====
-- Reads of an image stay within its bounds.
use runtt.Shared.{
  ℕ, ◌+◌, ◌*◌, ◌^◌, ◌<◌, ◌≡◌, ◌≢◌, refl, arith, length, ret, get_elem?-lt, get_elem?,
}
use runtt.Shared.{
  All, All-get_elem?, Option-cases, inl, inr, subst, true, not, ltb, ◌==◌, lt→ltb, err,
}
use runtt.Shared.{Result, Ensures, Ensures-ret, Ensures-if, Ensures->>=, Ensures-context}
use runtt.Mcuboot.{Bytes, byte, u16le, u32le, ParseError, ImageInfo, sizes_overflow, too_short}
use runtt.Mcuboot.{bad_magic, no_sha256, header_len, image_magic, find_digest, parse}

pub byte-lt : (image : Bytes) (i : ℕ) → i < length image → (x : ℕ) × (byte image i ≡ ret x)
unfolding byte
byte-lt image i h = let (x, e) = get_elem?-lt image i h in (x, rw (e, byte))

pub u16le-lt : (image : Bytes) (i : ℕ) → i + 1 < length image → (x : ℕ) × (u16le image i ≡ ret x)
unfolding u16le
u16le-lt image i h =
    let (lo, e) = byte-lt image i (omega arith) in
    let (hi, f) = byte-lt image (i + 1) (omega arith) in (lo + hi * 256, rw (e, f))

pub u32le-lt : (image : Bytes) (i : ℕ) → i + 3 < length image → (x : ℕ) × (u32le image i ≡ ret x)
unfolding u32le
u32le-lt image i h =
    let (b0, e0) = byte-lt image i (omega arith) in
    let (b1, e1) = byte-lt image (i + 1) (omega arith) in
    let (b2, e2) = byte-lt image (i + 2) (omega arith) in
    let (b3, e3) = byte-lt image (i + 3) (omega arith) in
    (b0 + b1 * 256 + b2 * 256 ^ 2 + b3 * 256 ^ 3, rw (e0, e1, e2, e3))

abbrev pub IsByte : ℕ → Type 0
IsByte b = b < 256

module _ (image : Bytes) (bytes : All IsByte image) where
  byte-IsByte : (i x : ℕ) → byte image i ≡ ret x → IsByte x
  unfolding byte
  byte-IsByte i x e = elim (Option-cases (get_elem? image i)) [
    | inl missing ↦ cc (missing)
    | inr (y, there) ↦ subst IsByte (cc (there)) (All-get_elem? IsByte image i bytes there)
  ]

  u16le-lt_2^16 : (i : ℕ) → Ensures (λ n. n < 2 ^ 16) (u16le image i)
  unfolding u16le
  u16le-lt_2^16 i =
      Ensures->>= (λ n. n < 2 ^ 16) (byte image i) _
        λ lo e.
          Ensures->>= (λ n. n < 2 ^ 16) (byte image (i + 1)) _
            λ hi f.
              Ensures-ret (λ n. n < 2 ^ 16)
                (omega (arith, byte-IsByte i lo e, byte-IsByte (i + 1) hi f))

  u32le-lt_2^32 : (i : ℕ) → Ensures (λ n. n < 2 ^ 32) (u32le image i)
  unfolding u32le
  u32le-lt_2^32 i =
      Ensures->>= (λ n. n < 2 ^ 32) (byte image i) _
        λ b0 e0.
          Ensures->>= (λ n. n < 2 ^ 32) (byte image (i + 1)) _
            λ b1 e1.
              Ensures->>= (λ n. n < 2 ^ 32) (byte image (i + 2)) _
                λ b2 e2.
                  Ensures->>= (λ n. n < 2 ^ 32) (byte image (i + 3)) _
                    λ b3 e3.
                      Ensures-ret (λ n. n < 2 ^ 32)
                        (omega (
                          arith,
                          byte-IsByte i b0 e0,
                          byte-IsByte (i + 1) b1 e1,
                          byte-IsByte (i + 2) b2 e2,
                          byte-IsByte (i + 3) b3 e3,
                        ))

  abbrev NoOverflow : Result ParseError ImageInfo → Type 0
  NoOverflow r = r ≢ err sizes_overflow

  parse-NoOverflow : (fuel : ℕ) → Ensures NoOverflow (parse fuel image)
  unfolding parse
  parse-NoOverflow fuel =
      Ensures-if NoOverflow (ltb (length image) header_len) (λ _. refuse too_short (λ e. cc))
        λ _. Ensures->>= NoOverflow (u32le image 0) _ λ magic _.
          Ensures-if NoOverflow (not (magic == image_magic)) (λ _. refuse bad_magic (λ e. cc))
            λ _. Ensures->>= NoOverflow (u16le image 8) _ λ header_size eh.
              Ensures->>= NoOverflow (u16le image 10) _ λ protect ep.
                Ensures->>= NoOverflow (u32le image 12) _ λ image_size ei.
                  Ensures->>= NoOverflow (byte image 20) _ λ major _.
                    Ensures->>= NoOverflow (byte image 21) _ λ minor _.
                      Ensures->>= NoOverflow (u16le image 22) _ λ revision _.
                        Ensures->>= NoOverflow (u32le image 24) _ λ build_num _.
                          let fits : ltb (header_size + image_size + protect) (2 ^ 64) ≡ true =
                            lt→ltb _ _ (
                              omega (
                                arith,
                                u16le-lt_2^16 8 header_size eh,
                                u16le-lt_2^16 10 protect ep,
                                u32le-lt_2^32 12 image_size ei,
                              )) in
                          rw fits (
                            Ensures->>= NoOverflow (find_digest fuel image _ protect _) _
                              λ digest _.
                                Ensures-context NoOverflow digest no_sha256 _ (λ e. cc)
                                  λ d _. Ensures-ret NoOverflow (λ e. cc))
    where
      refuse : (e : ParseError) → e ≢ sizes_overflow → Ensures NoOverflow (ret (err e))
      refuse e h = Ensures-ret NoOverflow (λ p. h (cc))

-- On a list of bytes `parse` never answers that the header's sizes overflow: on a 64-bit `usize` the
-- sum of a `u16`, a `u32` and a `u16` always fits.
parse-ne-sizes_overflow :
    (fuel : ℕ) (image : Bytes) → All IsByte image → parse fuel image ≢ ret (err sizes_overflow)
parse-ne-sizes_overflow fuel image bytes e =
    parse-NoOverflow image bytes fuel (err sizes_overflow) e refl
