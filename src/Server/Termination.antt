-- ===== src/Server/Termination.antt =====
-- Every request comes to an end.
use runtt.Shared.{ℕ, ◌≡◌, refl, arith, true, not, ◌&&◌, Option, ◌++◌, suc}
use runtt.Shared.{Result-cases, inl, inr, Returns, Returns-if, Returns->>=, ◌==◌, length, ltb, leb}
use runtt.Shared.{is_some_of}
use runtt.Shared.Text.{Text, codes}
use runtt.Mcuboot.{Bytes}
use runtt.Mcuboot.Termination.{HasNoEmptyArea, parse_total}
use runtt.Cbor.{Cbor, decode_map, get_bytes}
use runtt.Codec.{Frame, op_read}
use runtt.Device.{Device, from_bytes, verify, accept_chunk, upload_chunk, extended}
use runtt.Device.{demands_restart, disconnects, is_bad_hash}
use runtt.Server.{
  Server, dispatch, is_for, group_os, os_echo, os_mcumgr_params, os_reset, group_img, img_state,
  img_upload, img_erase, group_peruser, describe, opt_text,
}

module _ (sha256 : Bytes → Bytes) where
  from_bytes_total :
      (content : Bytes) (version : Text)
      → HasNoEmptyArea content
      → Returns (from_bytes sha256 content version)
  unfolding from_bytes
  from_bytes_total content version h =
      let (parsed, e) = parse_total (suc (length content)) content h (omega arith) in
      elim (Result-cases parsed) [
        | inl (info, good) ↦ rw (e, good) (_, refl)
        | inr (error, bad) ↦ rw (e, bad) (_, refl)
      ]

  verify_total : (dev : Device) → HasNoEmptyArea dev.upload.received → Returns (verify sha256 dev)
  unfolding verify
  verify_total dev h =
      Returns-if
        (not (is_bad_hash dev.fault)
          && is_some_of dev.upload.declared_sha (sha256 dev.upload.received))
        (λ _. Returns->>= _ _ (from_bytes_total dev.upload.received _ h) (λ img _. (_, refl)))
        (λ _. (_, refl))

  accept_chunk_total :
      (dev : Device) (off : ℕ) (chunk : Bytes)
      → HasNoEmptyArea (dev.upload.received ++ chunk)
      → Returns (accept_chunk sha256 dev off chunk)
  unfolding accept_chunk
  accept_chunk_total dev off chunk h =
      let dev' = record dev { upload = extended chunk dev.upload } in
      Returns-if (demands_restart dev.fault off dev.upload.restart_demanded) (λ _. (_, refl))
        λ _.
          Returns-if (disconnects dev.fault dev'.upload.chunks) (λ _. (_, refl))
            λ _.
              Returns-if
                (ltb 0 dev.upload.expected_len
                  && leb dev.upload.expected_len (length dev'.upload.received))
                (λ _. verify_total dev' h) (λ _. (_, refl))

  upload_chunk_total :
      (dev : Device) (off : ℕ) (len : Option ℕ) (sha : Option Bytes) (chunk : Bytes)
      → HasNoEmptyArea chunk
      → HasNoEmptyArea (dev.upload.received ++ chunk)
      → Returns (upload_chunk sha256 dev off len sha chunk)
  unfolding upload_chunk
  upload_chunk_total dev off len sha chunk first later =
      Returns-if (off == 0) (λ _. accept_chunk_total _ off chunk first)
        λ _.
          Returns-if (not (off == length dev.upload.received)) (λ _. (_, refl))
            (λ _. accept_chunk_total dev off chunk later)

module _ (sha256 : Bytes → Bytes) (cbor : Cbor) where
  -- `dispatch` returns on every request, without a panic, if the bytes that an upload would have
  -- received with the request's data, and these data alone, hold no protected area declared empty:
  -- on such an image the digest is never found.
  pub dispatch_total :
      (s : Server) (req : Frame)
      → (let chunk = opt_text (get_bytes (decode_map cbor req.payload) (codes "data")) in
          is_for group_img img_upload req ≡ true
          → HasNoEmptyArea chunk × HasNoEmptyArea (s.dev.upload.received ++ chunk))
      → Returns (dispatch sha256 cbor s req)
  unfolding dispatch
  dispatch_total s req h =
      Returns-if (is_for group_os os_echo req) (λ _. (_, refl))
        λ _.
          Returns-if (is_for group_os os_mcumgr_params req) (λ _. (_, refl))
            λ _.
              Returns-if (is_for group_os os_reset req) (λ _. (_, refl))
                λ _.
                  Returns-if (is_for group_img img_state req)
                    (λ _. Returns-if (req.op == op_read) (λ _. (_, refl)) (λ _. (_, refl)))
                    λ _.
                      Returns-if (is_for group_img img_upload req)
                        (λ hit.
                          let (first, later) = h hit in
                          Returns->>= _ _ (upload_chunk_total sha256 s.dev _ _ _ _ first later)
                            (λ done _. (_, refl)))
                        λ _.
                          Returns-if (is_for group_img img_erase req) (λ _. (_, refl))
                            λ _.
                              Returns-if (is_for group_peruser describe req) (λ _. (_, refl))
                                (λ _. (_, refl))
