-- ===== src/Mcuboot/Termination.antt =====
-- When the search for the digest ends, and when it does not.
use runtt.Shared.{
  ℕ, zero, suc, ◌+◌, ◌-◌, ◌≤◌, ◌<◌, ◌≡◌, ◌≢◌, refl, arith, length, min, true, false, not, ◌&&◌, leb,
  ltb, ◌==◌,
}
use runtt.Shared.{Run, ret, stuck, Returns, Returns-if, Returns->>=, Option, none, some, take, drop}
use runtt.Shared.{Returns-context, Returns-or_else, err}
use runtt.Mcuboot.{Bytes, u16le, Walk, found, overrun, finished, walk, after_walk, find_sha256}
use runtt.Mcuboot.{tlv_sha256, tlv_info_magic, tlv_prot_info_magic}
use runtt.Mcuboot.{find_digest, parse, header_len, image_magic, checked_add}
use runtt.Mcuboot.{too_short, bad_magic, sizes_overflow, no_sha256}
use runtt.Mcuboot.Bounds.{byte-lt, u16le-lt, u32le-lt}

walk_total :
    (fuel : ℕ) (image : Bytes) (at area_end : ℕ)
    → area_end ≤ length image
    → area_end - at < fuel
    → Returns (walk fuel image at area_end)
unfolding walk
walk_total zero image at area_end hb hf = elim hf [ ]
walk_total (suc fuel) image at area_end hb hf =
    Returns-if (leb (at + 4) area_end)
      (λ more. Returns->>= _ _ (byte-lt image at (ground arith)) (λ kind ek.
        Returns->>= _ _ (u16le-lt image (at + 2) (ground arith)) (λ len el.
          Returns-if (ltb (length image) (at + 4 + len)) (λ _. (overrun, refl))
            (λ _.
              Returns-if ((kind == tlv_sha256) && (len == 32))
                (λ _. (found (take 32 (drop (at + 4) image)), refl))
                (λ _. walk_total fuel image (at + 4 + len) area_end hb (ground arith))))))
      (λ _. (finished, refl))

-- Every protected TLV area of the image declares a length other than 0.
abbrev pub HasNoEmptyArea : Bytes → Type 0
HasNoEmptyArea image =
    (at : ℕ) → u16le image at ≡ ret tlv_prot_info_magic → u16le image (at + 2) ≢ ret 0

Returns-after_walk :
    (w : Walk) (rest : Run (Option Bytes)) → Returns rest → Returns (after_walk w rest)
Returns-after_walk (found digest) rest h = (some digest, refl)
Returns-after_walk overrun rest h = (none, refl)
Returns-after_walk finished rest h = h

-- If every protected TLV area of the image declares a length other than 0, the search for the digest
-- returns from every start, found or not: it reads nothing out of bounds, and fuel above the number
-- of bytes from the start to the end of the image is enough.
find_sha256_total :
    (fuel : ℕ) (image : Bytes) (start : ℕ)
    → HasNoEmptyArea image
    → length image - start < fuel
    → Returns (find_sha256 fuel image start)
unfolding find_sha256
find_sha256_total zero image start ha hf = elim hf [ ]
find_sha256_total (suc fuel) image start ha hf =
    Returns-if (ltb (length image) (start + 4)) (λ _. (none, refl))
      (λ within. Returns->>= _ _ (u16le-lt image start (ground arith)) (λ magic em.
        Returns->>= _ _ (u16le-lt image (start + 2) (ground arith)) (λ total et.
          Returns-if (not (magic == tlv_info_magic) && not (magic == tlv_prot_info_magic))
            (λ _. (none, refl))
            (λ _.
              Returns->>= _ _
                (walk_total (suc (length image)) image (start + 4) _ (omega arith) (omega arith))
                (λ w ew. Returns-after_walk w _ (
                  Returns-if (magic == tlv_prot_info_magic)
                    (λ prot.
                      find_sha256_total fuel image (min (start + total) (length image)) ha
                        (ground (arith, positive magic total prot em et)))
                    (λ _. (none, refl))))))))
  where
    positive :
        (magic total : ℕ)
        → (magic == tlv_prot_info_magic) ≡ true
        → u16le image start ≡ ret magic
        → u16le image (start + 2) ≡ ret total
        → 0 < total
    positive magic zero e em et = absurd (ha start (ground arith) et)
    positive magic (suc total) e em et = omega arith

walk_past : (fuel : ℕ) (image : Bytes) (at : ℕ) → walk (suc fuel) image (at + 4) at ≡ ret finished
unfolding walk
walk_past fuel image at = ground arith

-- If a protected TLV area starts inside the image and declares length 0, then the search for the
-- digest from its start calls itself with the same start for ever: no amount of fuel is enough.
pub find_sha256_diverges :
    (fuel : ℕ) (image : Bytes) (start : ℕ)
    → start + 4 ≤ length image
    → u16le image start ≡ ret tlv_prot_info_magic
    → u16le image (start + 2) ≡ ret 0
    → find_sha256 fuel image start ≡ stuck
unfolding find_sha256
find_sha256_diverges zero image start h em et = refl
find_sha256_diverges (suc fuel) image start h em et =
    let again = find_sha256_diverges fuel image start h em et in
    let here : min (start + 0) (length image) ≡ start = omega arith in
    let inside : ltb (length image) (start + 4) ≡ false = ground arith in
    rw (inside, em, et, here, walk_past, again)

find_digest_total :
    (fuel : ℕ) (image : Bytes) (body_end protect_tlv_size cursor : ℕ)
    → HasNoEmptyArea image
    → length image < fuel
    → Returns (find_digest fuel image body_end protect_tlv_size cursor)
unfolding find_digest
find_digest_total fuel image body_end protect_tlv_size cursor ha hf =
    Returns->>= _ _ (find_sha256_total fuel image cursor ha (omega arith)) λ first _.
      Returns-or_else first _ (
        Returns-if (protect_tlv_size == 0) (λ _. (none, refl))
          (λ _. find_sha256_total fuel image body_end ha (omega arith)))

-- If every protected TLV area of the image declares a length other than 0, `parse` returns on it, with
-- an image description or an error: it neither panics nor runs out of fuel, if the fuel is above the
-- image's length.
pub parse_total :
    (fuel : ℕ) (image : Bytes)
    → HasNoEmptyArea image
    → length image < fuel
    → Returns (parse fuel image)
unfolding parse
parse_total fuel image ha hf =
    Returns-if (ltb (length image) header_len) (λ _. (err too_short, refl))
      λ long.
        let h : 32 ≤ length image = ground arith in
        Returns->>= _ _ (u32le-lt image 0 (omega arith)) λ magic _.
          Returns-if (not (magic == image_magic)) (λ _. (err bad_magic, refl))
            λ _. Returns->>= _ _ (u16le-lt image 8 (omega arith)) λ header_size _.
              Returns->>= _ _ (u16le-lt image 10 (omega arith)) λ protect _.
                Returns->>= _ _ (u32le-lt image 12 (omega arith)) λ image_size _.
                  Returns->>= _ _ (byte-lt image 20 (omega arith)) λ major _.
                    Returns->>= _ _ (byte-lt image 21 (omega arith)) λ minor _.
                      Returns->>= _ _ (u16le-lt image 22 (omega arith)) λ revision _.
                        Returns->>= _ _ (u32le-lt image 24 (omega arith)) λ build_num _.
                          Returns-context (checked_add (header_size + image_size) protect)
                            sizes_overflow _
                            λ sum _.
                              Returns->>= _ _ (find_digest_total fuel image _ protect _ ha hf)
                                λ digest _. Returns-context digest no_sha256 _ λ d _. (_, refl)
