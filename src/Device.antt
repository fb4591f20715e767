-- ===== src/Device.antt =====
-- crates/runtt-mock/src/device.rs and faults.rs: the emulated board, its two image slots and the
-- upload in progress. A method on `&mut self` returns the new device; SHA-256, a crate's function,
-- is the parameter `sha256`.
pub mod Slots
pub mod Transfer
pub mod Invariant
use runtt.Shared.{ℕ, suc, ◌+◌, ◌%◌, ◌^◌, Bool, true, false, not, ◌&&◌, List, [], ◌∷◌, ◌++◌}
use runtt.Shared.{Option, none, some, Result, ok, err, Run, ret, ◌>>=◌, length, any}
use runtt.Shared.{ltb, leb, ◌==◌, ◌=ₗ◌, is_some_of, if◌then◌else◌}
use runtt.Shared.Text.{Text, codes}
use runtt.Mcuboot.{Bytes, parse}

pub data Fault : Type 0 where
  no_fault : Fault
  disconnect_mid_upload : (after_chunks : ℕ) → Fault
  bad_hash : Fault
  restart_upload : (at_offset : ℕ) → Fault
  timeout : (group cmd : ℕ) → Fault
  revert_on_boot digest_already_failed : Fault

pub record Image : Type 0 where
  pub version : Text
  pub hash : Bytes
  pub bytes : ℕ
  pub bootable : Bool
  pub pending : Bool
  pub confirmed : Bool
  pub permanent : Bool

pub record Upload : Type 0 where
  pub expected_len : ℕ
  pub declared_sha : Option Bytes
  pub received : Bytes
  pub chunks : ℕ
  pub restart_demanded : Bool

abbrev pub Upload_default : Upload
Upload_default = record {
  expected_len = 0;
  declared_sha = none;
  received = [];
  chunks = 0;
  restart_demanded = false;
}

pub record Device : Type 0 where
  pub slot0 : Option Image
  pub slot1 : Option Image
  pub upload : Upload
  pub fault : Fault
  pub failed_digests : List Bytes
  pub resets : ℕ
  pub awaiting_confirm : Bool

pub data UploadOutcome : Type 0 where
  continue : (off : ℕ) → UploadOutcome
  complete : (off : ℕ) (matches : Bool) → UploadOutcome
  go_silent : UploadOutcome

pub data SetStateError : Type 0 where
  no_running_image already_failed no_such_image : SetStateError

pub record SlotReport : Type 0 where
  pub slot : ℕ
  pub active : Bool
  pub img : Image

abbrev pub opt_or : Option ℕ → ℕ → ℕ
opt_or none d = d
opt_or (some n) d = n

abbrev pub is_bad_hash : Fault → Bool
is_bad_hash bad_hash = true
is_bad_hash _ = false

abbrev pub is_revert_on_boot : Fault → Bool
is_revert_on_boot revert_on_boot = true
is_revert_on_boot _ = false

abbrev pub is_digest_already_failed : Fault → Bool
is_digest_already_failed digest_already_failed = true
is_digest_already_failed _ = false

-- The tests of the two upload faults.
abbrev pub demands_restart : Fault → ℕ → Bool → Bool
demands_restart (restart_upload at_offset) off demanded =
    not demanded && leb at_offset off && ltb 0 off
demands_restart _ off demanded = false

abbrev pub disconnects : Fault → ℕ → Bool
disconnects (disconnect_mid_upload after_chunks) chunks = leb after_chunks chunks
disconnects _ chunks = false

-- The upload that an offset of 0 starts, and the one that a chunk is added to.
abbrev pub restarted : Option ℕ → Option Bytes → Upload → Upload
restarted len sha u = record {
  expected_len = opt_or len 0;
  declared_sha = sha;
  received = [];
  chunks = 0;
  restart_demanded = u.restart_demanded;
}

abbrev pub extended : Bytes → Upload → Upload
extended chunk u = record u { received = u.received ++ chunk; chunks = (u.chunks + 1) % 2 ^ 32 }

module _ (sha256 : Bytes → Bytes) where
  abbrev pub fresh : Text → Bytes → ℕ → Image
  fresh version hash bytes = record {
    version = version;
    hash = hash;
    bytes = bytes;
    bootable = true;
    pending = false;
    confirmed = false;
    permanent = false;
  }

  -- `Image::from_bytes`: the digest of the image, or the hash of the bytes where they are no image.
  unfoldable pub from_bytes : Bytes → Text → Run Image
  from_bytes content fallback_version = do
    parsed ← parse (suc (length content)) content
    elim parsed [
      | ok info ↦ ret (fresh info.version info.digest (length content))
      | err e ↦ ret (fresh fallback_version (sha256 content) (length content))
    ]

  unfoldable pub provisioned : Fault → Run Device
  provisioned fault = do
    img ← from_bytes (codes "factory-image") (codes "1.0.0+factory")
    ret (record {
      slot0 = some (record img { confirmed = true; permanent = true });
      slot1 = none;
      upload = Upload_default;
      fault = fault;
      failed_digests = [];
      resets = 0;
      awaiting_confirm = false;
    })

  -- The end of `upload_chunk`: the digest is checked, and a matching image is staged.
  unfoldable pub verify : Device → Run (Device × UploadOutcome)
  verify dev =
      let matches =
        not (is_bad_hash dev.fault)
        && is_some_of dev.upload.declared_sha (sha256 dev.upload.received) in
      if matches
      then (do
        img ← from_bytes dev.upload.received (codes "2.0.0+staged")
        ret (record dev { slot1 = some img }, complete (length dev.upload.received) true))
      else ret (dev, complete (length dev.upload.received) false)

  -- `upload_chunk` once the offset is accepted.
  unfoldable pub accept_chunk : Device → ℕ → Bytes → Run (Device × UploadOutcome)
  accept_chunk dev off chunk =
      if demands_restart dev.fault off dev.upload.restart_demanded
      then ret (
        record dev { upload = record dev.upload { restart_demanded = true; received = [] } },
        continue 0,
      )
      else let dev' = record dev { upload = extended chunk dev.upload } in
        let n = length dev'.upload.received in
        if disconnects dev.fault dev'.upload.chunks
        then ret (dev', go_silent)
        else if ltb 0 dev.upload.expected_len && leb dev.upload.expected_len n
        then verify dev'
        else ret (dev', continue n)

  unfoldable pub upload_chunk :
      Device → ℕ → Option ℕ → Option Bytes → Bytes → Run (Device × UploadOutcome)
  upload_chunk dev off len sha chunk =
      if off == 0
      then accept_chunk (record dev { upload = restarted len sha dev.upload }) off chunk
      else if not (off == length dev.upload.received)
      then ret (dev, continue (length dev.upload.received))
      else accept_chunk dev off chunk

abbrev confirm_image : Image → Image
confirm_image img = record img { confirmed = true; permanent = true }

-- The end of `set_state`: an image in slot 1 is marked.
abbrev mark_staged : Device → Option Image → Bytes → Bool → Device × Result SetStateError (Unit {0})
mark_staged dev none hash confirm = (dev, err no_such_image)
mark_staged dev (some s1) hash confirm =
    if s1.hash =ₗ hash
    then (record dev { slot1 = some (record s1 { pending = true; permanent = confirm }) }, ok tt)
    else (dev, err no_such_image)

abbrev confirm_running : Device → Image → Device
confirm_running dev s0 = record dev { slot0 = some (confirm_image s0); awaiting_confirm = false }

abbrev mark : Device → Option Image → Bytes → Bool → Device × Result SetStateError (Unit {0})
mark dev none hash confirm = mark_staged dev dev.slot1 hash confirm
mark dev (some s0) hash confirm =
    if s0.hash =ₗ hash
    then (confirm_running dev s0, ok tt)
    else mark_staged dev dev.slot1 hash confirm

abbrev confirm_current : Device → Option Image → Device × Result SetStateError (Unit {0})
confirm_current dev none = (dev, err no_running_image)
confirm_current dev (some s0) = (confirm_running dev s0, ok tt)

unfoldable pub set_state : Device → Option Bytes → Bool → Device × Result SetStateError (Unit {0})
set_state dev none confirm = confirm_current dev dev.slot0
set_state dev (some hash) confirm =
    if is_digest_already_failed dev.fault && any (λ d. d =ₗ hash) dev.failed_digests
    then (dev, err already_failed)
    else mark dev dev.slot0 hash confirm

-- The revert of `reset`, and the swap.
abbrev revert : Device → Option Image → Device
revert dev none = record dev { awaiting_confirm = false }
revert dev (some bad) = record dev {
  slot0 = dev.slot1;
  slot1 = some bad;
  failed_digests = dev.failed_digests ++ (bad.hash ∷ []);
  awaiting_confirm = false;
}

abbrev swap : Device → Option Image → Device
swap dev none = dev
swap dev (some incoming) =
    if incoming.pending
    then record dev {
      slot0 = some (record incoming { pending = false; confirmed = incoming.permanent });
      slot1 = dev.slot0;
      awaiting_confirm = if is_revert_on_boot dev.fault then true else not incoming.permanent;
    }
    else dev

unfoldable pub reset : Device → Device
reset dev =
    let dev' = record dev { resets = (dev.resets + 1) % 2 ^ 32 } in
    if dev.awaiting_confirm then revert dev' dev'.slot0 else swap dev' dev'.slot1

abbrev report : ℕ → Bool → Option Image → List SlotReport
report slot active none = []
report slot active (some img) = record { slot = slot; active = active; img = img } ∷ []

unfoldable pub image_states : Device → List SlotReport
image_states dev = report 0 true dev.slot0 ++ report 1 false dev.slot1

-- `IMG_ERASE` in server.rs.
unfoldable pub erase : Device → Device
erase dev = record dev { slot1 = none }
