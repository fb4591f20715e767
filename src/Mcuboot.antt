-- ===== src/Mcuboot.antt =====
-- crates/runtt-smp/src/mcuboot.rs: the identity of an MCUboot image. The image is its list of
-- bytes; `usize` is taken as 64 bits wide. A read out of bounds is `panic`, and a search that has
-- not ended within its fuel is `stuck`.
pub mod Bounds
pub mod Termination
pub mod Digest
use runtt.Shared.{
  ℕ, zero, suc, ◌+◌, ◌*◌, ◌^◌, ◌≡◌, Bool, true, false, not, ◌&&◌, List, [], ◌∷◌, ◌++◌,
}
use runtt.Shared.{
  Option, none, some, Result, ok, err, Run, ret, panic, stuck, ◌>>=◌, context, or_else, length, min,
}
use runtt.Shared.{ltb, leb, ◌==◌, if◌then◌else◌, get_elem?, take, drop}
use runtt.Shared.Text.{Text}
use runtt.Shared.Text.Numbers.{show_dec}

abbrev pub Bytes : Type 0
Bytes = List ℕ

abbrev pub image_magic : ℕ
image_magic = 0x96f3b83d

abbrev pub tlv_info_magic : ℕ
tlv_info_magic = 0x6907

abbrev pub tlv_prot_info_magic : ℕ
tlv_prot_info_magic = 0x6908

abbrev pub tlv_sha256 : ℕ
tlv_sha256 = 0x10

abbrev pub header_len : ℕ
header_len = 32

pub record ImageInfo : Type 0 where
  pub digest : Bytes
  pub version : Text
  pub header_size : ℕ
  pub image_size : ℕ

pub data ParseError : Type 0 where
  too_short bad_magic sizes_overflow no_sha256 : ParseError

-- `b[at]`.
unfoldable pub byte : Bytes → ℕ → Run ℕ
byte b at = elim (get_elem? b at) [ none ↦ panic | some x ↦ ret x ]

unfoldable pub u16le : Bytes → ℕ → Run ℕ
unfolding byte
u16le b at = do lo ← byte b at; hi ← byte b (at + 1); ret (lo + hi * 256)

unfoldable pub u32le : Bytes → ℕ → Run ℕ
unfolding byte
u32le b at = do
  b0 ← byte b at
  b1 ← byte b (at + 1)
  b2 ← byte b (at + 2)
  b3 ← byte b (at + 3)
  ret (b0 + b1 * 256 + b2 * 256 ^ 2 + b3 * 256 ^ 3)

-- How a walk over the entries of one TLV area ends: at a SHA-256 entry, at an entry that reaches
-- past the image, or at the end of the area.
pub data Walk : Type 0 where
  found : Bytes → Walk
  overrun finished : Walk

-- The `while` loop of `find_sha256`.
unfoldable pub walk : ℕ → Bytes → ℕ → ℕ → Run Walk
walk zero image at area_end = stuck
walk (suc fuel) image at area_end =
    if leb (at + 4) area_end
    then (do
      kind ← byte image at
      len ← u16le image (at + 2)
      let data_at = at + 4
      let next = walk fuel image (data_at + len) area_end
      if ltb (length image) (data_at + len)
          then ret overrun
          else if (kind == tlv_sha256) && (len == 32)
          then ret (found (take 32 (drop data_at image)))
          else next)
    else ret finished

-- What `find_sha256` does after its loop; `rest` is what follows the area.
abbrev pub after_walk : Walk → Run (Option Bytes) → Run (Option Bytes)
after_walk (found digest) rest = ret (some digest)
after_walk overrun rest = ret none
after_walk finished rest = rest

unfoldable pub find_sha256 : ℕ → Bytes → ℕ → Run (Option Bytes)
find_sha256 zero image start = stuck
find_sha256 (suc fuel) image start = if ltb (length image) (start + 4) then ret none else (do
  magic ← u16le image start
  total ← u16le image (start + 2)
  let area_end = min (start + total) (length image)
  let next = find_sha256 fuel image area_end
  if not (magic == tlv_info_magic) && not (magic == tlv_prot_info_magic) then ret none else (do
    walked ← walk (suc (length image)) image (start + 4) area_end
    after_walk walked (if magic == tlv_prot_info_magic then next else ret none)))

-- `a.checked_add(b)` on `usize`.
abbrev pub checked_add : ℕ → ℕ → Option ℕ
checked_add a b = if ltb (a + b) (2 ^ 64) then some (a + b) else none

-- The two searches of `parse`: from the end of the protected area as the header gives it, and, if
-- there is one, from the end of the body.
unfoldable pub find_digest : ℕ → Bytes → ℕ → ℕ → ℕ → Run (Option Bytes)
find_digest fuel image body_end protect_tlv_size cursor = do
  first ← find_sha256 fuel image cursor
  or_else first (if protect_tlv_size == 0 then ret none else find_sha256 fuel image body_end)

-- `format!("{}.{}.{}+{}", ..)` over the header's `image_version`.
unfoldable pub version_text : ℕ → ℕ → ℕ → ℕ → Text
version_text major minor revision build_num =
    show_dec major
    ++ (b'.' ∷ (show_dec minor ++ (b'.' ∷ (show_dec revision ++ (b'+' ∷ show_dec build_num)))))

unfoldable pub parse : ℕ → Bytes → Run (Result ParseError ImageInfo)
parse fuel image = if ltb (length image) header_len then ret (err too_short) else (do
  magic ← u32le image 0
  if not (magic == image_magic) then ret (err bad_magic) else (do
    header_size ← u16le image 8
    protect_tlv_size ← u16le image 10
    image_size ← u32le image 12
    major ← byte image 20
    minor ← byte image 21
    revision ← u16le image 22
    build_num ← u32le image 24
    let body_end = header_size + image_size
    context (checked_add body_end protect_tlv_size) sizes_overflow λ sum. do
      digest ←
          find_digest fuel image body_end protect_tlv_size
            (if protect_tlv_size == 0 then body_end else sum)
      context digest no_sha256 λ d. ret (
          ok (record {
            digest = d;
            version = version_text major minor revision build_num;
            header_size = header_size;
            image_size = image_size;
          }))))
