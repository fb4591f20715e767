-- ===== src/Device/Transfer.antt =====
-- Uploads: what a chunk changes, and when an image is staged.
use runtt.Shared.{ℕ, ◌≡◌, ◌≢◌, refl, arith, true, not, ◌&&◌, Option, some, ret}
use runtt.Shared.{Ensures, Ensures-ret, Ensures-if, Ensures->>=, length, ◌==◌, ltb, leb, is_some_of}
use runtt.Shared.{is_some_of_iff}
use runtt.Shared.Text.{codes}
use runtt.Device.{Device, Image, Upload, UploadOutcome, complete, from_bytes, verify}
use runtt.Device.{accept_chunk, upload_chunk, demands_restart, disconnects, is_bad_hash, extended}
use runtt.Device.{bad_hash, restarted}
use runtt.Mcuboot.{Bytes}

-- The fields that an upload has no business with.
pub record SameBoard (dev dev' : Device) : Type 0 where
  pub slot0 : dev'.slot0 ≡ dev.slot0
  pub fault : dev'.fault ≡ dev.fault
  pub failed_digests : dev'.failed_digests ≡ dev.failed_digests
  pub resets : dev'.resets ≡ dev.resets
  pub awaiting_confirm : dev'.awaiting_confirm ≡ dev.awaiting_confirm

module _ (sha256 : Bytes → Bytes) where
  -- What an outcome says about slot 1.
  abbrev pub Staging : Device → Device → UploadOutcome → Type 0
  Staging dev dev' (complete off true) =
      (dev'.upload.declared_sha ≡ some (sha256 dev'.upload.received))
      × (dev.fault ≢ bad_hash)
      × ((img : Image) × (from_bytes sha256 dev'.upload.received (codes "2.0.0+staged") ≡ ret img)
          × (dev'.slot1 ≡ some img))
  Staging dev dev' _ = dev'.slot1 ≡ dev.slot1

  abbrev pub Accounted : Device → Device × UploadOutcome → Type 0
  Accounted dev r = SameBoard dev r.0 × Staging dev r.0 r.1

  -- Only the upload in progress differs.
  Accounted-upload :
      (dev : Device) (u : Upload) (r : Device × UploadOutcome)
      → Accounted (record dev { upload = u }) r
      → Accounted dev r
  Accounted-upload dev u (d, complete off true) (same, staged) = (ground arith, staged)
  Accounted-upload dev u (d, _) (same, staged) = (ground arith, staged)

  verify-Accounted : (dev : Device) → Ensures (Accounted dev) (verify sha256 dev)
  unfolding verify
  verify-Accounted dev =
      Ensures-if (Accounted dev)
        (not (is_bad_hash dev.fault)
          && is_some_of dev.upload.declared_sha (sha256 dev.upload.received))
        (λ hit. Ensures->>= (Accounted dev) (from_bytes sha256 dev.upload.received _) _ λ img e.
          Ensures-ret (Accounted dev) (
            record {
              slot0 = refl;
              fault = refl;
              failed_digests = refl;
              resets = refl;
              awaiting_confirm = refl;
            },
            (
              ground (arith, is_some_of_iff dev.upload.declared_sha (sha256 dev.upload.received)),
              ground arith,
              (img, e, refl),
            ),
          ))
        (λ _. Ensures-ret (Accounted dev) (ground arith))

  accept_chunk-Accounted :
      (dev : Device) (off : ℕ) (chunk : Bytes)
      → Ensures (Accounted dev) (accept_chunk sha256 dev off chunk)
  unfolding accept_chunk
  accept_chunk-Accounted dev off chunk =
      let dev' = record dev { upload = extended chunk dev.upload } in
      Ensures-if (Accounted dev) (demands_restart dev.fault off dev.upload.restart_demanded)
        (λ _. Ensures-ret (Accounted dev) (ground arith))
        (λ _.
          Ensures-if (Accounted dev) (disconnects dev.fault dev'.upload.chunks)
            (λ _. Ensures-ret (Accounted dev) (ground arith))
            (λ _.
              Ensures-if (Accounted dev)
                (ltb 0 dev.upload.expected_len
                  && leb dev.upload.expected_len (length dev'.upload.received))
                ((λ _ r e. Accounted-upload dev _ r (verify-Accounted dev' r e)))
                (λ _. Ensures-ret (Accounted dev) (ground arith))))

  upload_chunk-Accounted :
      (dev : Device) (off : ℕ) (len : Option ℕ) (sha : Option Bytes) (chunk : Bytes)
      → Ensures (Accounted dev) (upload_chunk sha256 dev off len sha chunk)
  unfolding upload_chunk
  upload_chunk-Accounted dev off len sha chunk =
      Ensures-if (Accounted dev) (off == 0)
        (λ _ r e. Accounted-upload dev _ r (
          accept_chunk-Accounted (record dev { upload = restarted len sha dev.upload }) off chunk r
            e))
        (λ _.
          Ensures-if (Accounted dev) (not (off == length dev.upload.received))
            (λ _. Ensures-ret (Accounted dev) (ground arith))
            (λ _. accept_chunk-Accounted dev off chunk))

-- Whatever chunk arrives, the running image, the fault, the failed digests, the count of resets and the
-- wait for a confirmation stay as they are. Slot 1 changes only when the upload is complete and the
-- SHA-256 of all that was received is the one declared, and then it holds the image received.
pub upload_chunk_accounted :
    (sha256 : Bytes → Bytes) (dev : Device) (off : ℕ) (len : Option ℕ) (sha : Option Bytes)
    (chunk : Bytes) (dev' : Device) (outcome : UploadOutcome)
    → upload_chunk sha256 dev off len sha chunk ≡ ret (dev', outcome)
    → SameBoard dev dev' × Staging sha256 dev dev' outcome
upload_chunk_accounted sha256 dev off len sha chunk dev' outcome e =
    upload_chunk-Accounted sha256 dev off len sha chunk (dev', outcome) e
