-- ===== src/Mcuboot/Digest.antt =====
-- What the digest is that the search finds, and what `parse` returns.
use runtt.Shared.{ℕ, zero, suc, ◌+◌, ◌≤◌, ◌≡◌, refl, arith, length, take, drop, min, Run, ret}
use runtt.Shared.{Option, none, some, Result, ok, err, leb, ltb, ◌==◌, ◌&&◌, not, subst}
use runtt.Shared.{
  Ensures, Ensures-ret, Ensures-stuck, Ensures-if, Ensures->>=, Ensures-context, Ensures-or_else,
}
use runtt.Mcuboot.{Bytes, byte, u16le, u32le, Walk, found, overrun, finished, walk, after_walk}
use runtt.Mcuboot.{tlv_sha256, tlv_info_magic, tlv_prot_info_magic, find_sha256, find_digest}
use runtt.Mcuboot.{image_magic, header_len, checked_add, ImageInfo, parse, version_text}
use runtt.Shared.{◌++◌}
use runtt.Shared.Text.{Text, codes}
use runtt.Shared.Text.Numbers.{show_dec}
use runtt.Mcuboot.{ParseError, too_short, bad_magic, sizes_overflow, no_sha256}

-- A SHA-256 entry of 32 bytes stands whole in the image, and `d` is its value.
pub record IsSha256Entry (image d : Bytes) : Type 0 where
  pub at : ℕ
  pub kind : byte image at ≡ ret tlv_sha256
  pub len : u16le image (at + 2) ≡ ret 32
  pub within : at + 36 ≤ length image
  pub same : d ≡ take 32 (drop (at + 4) image)

module _ (image : Bytes) where
  abbrev FoundIsEntry : Walk → Type 0
  FoundIsEntry w = (d : Bytes) → w ≡ found d → IsSha256Entry image d

  abbrev SomeIsEntry : Option Bytes → Type 0
  SomeIsEntry o = (d : Bytes) → o ≡ some d → IsSha256Entry image d

  walk_sound : (fuel at area_end : ℕ) → Ensures FoundIsEntry (walk fuel image at area_end)
  unfolding walk
  walk_sound zero at area_end = Ensures-stuck FoundIsEntry
  walk_sound (suc fuel) at area_end =
      Ensures-if FoundIsEntry (leb (at + 4) area_end)
        (λ more. Ensures->>= FoundIsEntry (byte image at) _ λ kind ek.
          Ensures->>= FoundIsEntry (u16le image (at + 2)) _ λ len el.
            Ensures-if FoundIsEntry (ltb (length image) (at + 4 + len))
              (λ _. Ensures-ret FoundIsEntry (λ d e. cc))
              (λ fits.
                Ensures-if FoundIsEntry ((kind == tlv_sha256) && (len == 32))
                  (λ hit. Ensures-ret FoundIsEntry (λ d e. record {
                    at = at;
                    kind = ground arith;
                    len = ground arith;
                    within = ground arith;
                    same = ground arith;
                  }))
                  (λ _. walk_sound fuel (at + 4 + len) area_end)))
        (λ _. Ensures-ret FoundIsEntry (λ d e. cc))

  after_walk_sound :
      (w : Walk) (rest : Run (Option Bytes))
      → FoundIsEntry w
      → Ensures SomeIsEntry rest
      → Ensures SomeIsEntry (after_walk w rest)
  after_walk_sound (found d) rest h k =
      Ensures-ret SomeIsEntry (λ d' e. subst (IsSha256Entry image) (cc) (h d refl))
  after_walk_sound overrun rest h k = Ensures-ret SomeIsEntry (λ d' e. cc)
  after_walk_sound finished rest h k = k

  nothing : Ensures SomeIsEntry (ret none)
  nothing = Ensures-ret SomeIsEntry (λ d e. cc)

  find_sha256_sound : (fuel start : ℕ) → Ensures SomeIsEntry (find_sha256 fuel image start)
  unfolding find_sha256
  find_sha256_sound zero start = Ensures-stuck SomeIsEntry
  find_sha256_sound (suc fuel) start =
      Ensures-if SomeIsEntry (ltb (length image) (start + 4)) (λ _. nothing)
        (λ _. Ensures->>= SomeIsEntry (u16le image start) _ λ magic _.
          Ensures->>= SomeIsEntry (u16le image (start + 2)) _ λ total _.
            Ensures-if SomeIsEntry
              (not (magic == tlv_info_magic) && not (magic == tlv_prot_info_magic)) (λ _. nothing)
              (λ _.
                Ensures->>= SomeIsEntry
                  (walk (suc (length image)) image (start + 4) (min (start + total) (length image)))
                  _
                  λ w ew. after_walk_sound w _ (walk_sound _ (start + 4) _ w ew) (
                    Ensures-if SomeIsEntry (magic == tlv_prot_info_magic)
                      (λ _. find_sha256_sound fuel (min (start + total) (length image)))
                      (λ _. nothing))))

  find_digest_sound :
      (fuel body_end protect_tlv_size cursor : ℕ)
      → Ensures SomeIsEntry (find_digest fuel image body_end protect_tlv_size cursor)
  unfolding find_digest
  find_digest_sound fuel body_end protect_tlv_size cursor =
      Ensures->>= SomeIsEntry (find_sha256 fuel image cursor) _ λ first e.
        Ensures-or_else SomeIsEntry first _ (find_sha256_sound fuel cursor first e) (
          Ensures-if SomeIsEntry (protect_tlv_size == 0) (λ _. nothing)
            (λ _. find_sha256_sound fuel body_end))

  -- The version of the header, as it is shown: two bytes, a `u16` and a `u32`, from offset 20.
  pub record IsVersion (version : Text) : Type 0 where
    pub major : ℕ
    pub minor : ℕ
    pub revision : ℕ
    pub build_num : ℕ
    pub major_at : byte image 20 ≡ ret major
    pub minor_at : byte image 21 ≡ ret minor
    pub revision_at : u16le image 22 ≡ ret revision
    pub build_num_at : u32le image 24 ≡ ret build_num
    pub shown :
        version
        ≡ show_dec major
          ++ (codes "."
              ++ (show_dec minor
                  ++ (codes "." ++ (show_dec revision ++ (codes "+" ++ show_dec build_num)))))

  -- What an `ImageInfo` says is in the image.
  pub record Describes (info : ImageInfo) : Type 0 where
    pub long : header_len ≤ length image
    pub magic : u32le image 0 ≡ ret image_magic
    pub header_size : u16le image 8 ≡ ret info.header_size
    pub image_size : u32le image 12 ≡ ret info.image_size
    pub version : IsVersion info.version
    pub digest : IsSha256Entry image info.digest

  abbrev OkDescribes : Result ParseError ImageInfo → Type 0
  OkDescribes r = (info : ImageInfo) → r ≡ ok info → Describes info

  refused : (e : ParseError) → Ensures OkDescribes (ret (err e))
  refused e = Ensures-ret OkDescribes (λ info p. cc)

  parse_sound : (fuel : ℕ) → Ensures OkDescribes (parse fuel image)
  unfolding parse version_text
  parse_sound fuel =
      Ensures-if OkDescribes (ltb (length image) header_len) (λ _. refused too_short)
        (λ long. Ensures->>= OkDescribes (u32le image 0) _ λ magic em.
          Ensures-if OkDescribes (not (magic == image_magic)) (λ _. refused bad_magic)
            (λ same. Ensures->>= OkDescribes (u16le image 8) _ λ header_size eh.
              Ensures->>= OkDescribes (u16le image 10) _ λ protect _.
                Ensures->>= OkDescribes (u32le image 12) _ λ image_size ei.
                  Ensures->>= OkDescribes (byte image 20) _ λ major ej.
                    Ensures->>= OkDescribes (byte image 21) _ λ minor en.
                      Ensures->>= OkDescribes (u16le image 22) _ λ revision er.
                        Ensures->>= OkDescribes (u32le image 24) _ λ build_num eb.
                          Ensures-context OkDescribes
                            (checked_add (header_size + image_size) protect) sizes_overflow _
                            (λ info p. cc)
                            (λ sum _.
                              Ensures->>= OkDescribes (find_digest fuel image _ protect _) _
                                λ digest ed.
                                  Ensures-context OkDescribes digest no_sha256 _ (λ info p. cc)
                                    (λ d es. Ensures-ret OkDescribes (λ info p. record {
                                      long = ground arith;
                                      magic = ground arith;
                                      header_size = ground arith;
                                      image_size = ground arith;
                                      version = record {
                                        major = major;
                                        minor = minor;
                                        revision = revision;
                                        build_num = build_num;
                                        major_at = ej;
                                        minor_at = en;
                                        revision_at = er;
                                        build_num_at = eb;
                                        shown = cc;
                                      };
                                      digest =
                                          subst (IsSha256Entry image) (ground arith)
                                            (find_digest_sound fuel _ protect _ digest ed d es);
                                    })))))

-- When `parse` accepts an image, the image has a header with the magic number, the sizes are those of
-- the header, the version is that of the header, written major.minor.revision+build_num, and the digest is the value of a 32-byte SHA-256 entry that stands whole in the image.
pub parse-Describes :
    (fuel : ℕ) (image : Bytes) (info : ImageInfo)
    → parse fuel image ≡ ret (ok info)
    → Describes image info
parse-Describes fuel image info e = parse_sound image fuel (ok info) e info refl
