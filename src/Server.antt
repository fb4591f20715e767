-- ===== src/Server.antt =====
-- crates/runtt-mock/src/server.rs: the server of the emulated board. `dispatch` takes a request to an
-- answer and the new server; `serve` is the loop, a turn of which is told what the clock, a read and
-- a write would give. SHA-256, CRC-16, base64 and CBOR are crates, and parameters.
pub mod Loop
pub mod Replies
pub mod Service
pub mod Attend
pub mod Decoders
pub mod Arrival
pub mod Requests
pub mod Termination
use runtt.Shared.{ℕ, Bool, true, false, ◌&&◌, List, [], ◌∷◌, Option, none, some}
use runtt.Shared.{Result, ok, err, Run, ret, ◌>>=◌, leb, ◌==◌, if◌then◌else◌}
use runtt.Shared.Text.{Text, codes}
use runtt.Mcuboot.{Bytes}
use runtt.Cbor.{
  Cbor, Value, Values, end_values, element, text, bool, integer, array, map, pos, as_i64,
  text_entries, encode_map, decode_map, get_str, get_bool, get_u64, get_bytes,
}
use runtt.Codec.{Frame, Decoder, response_op, op_read}
use runtt.Device.{Device, SlotReport, UploadOutcome, continue, complete, go_silent}
use runtt.Device.{SetStateError, upload_chunk, set_state, reset, erase, image_states}
use runtt.Device.{opt_or}

abbrev pub os_echo : ℕ
os_echo = 0

abbrev pub os_reset : ℕ
os_reset = 5

abbrev pub os_mcumgr_params : ℕ
os_mcumgr_params = 6

abbrev pub img_state : ℕ
img_state = 0

abbrev pub img_upload : ℕ
img_upload = 1

abbrev pub img_erase : ℕ
img_erase = 5

abbrev pub describe : ℕ
describe = 0

abbrev pub err_einval : ℕ
err_einval = 3

abbrev pub err_enotsup : ℕ
err_enotsup = 8

abbrev pub group_os : ℕ
group_os = 0

abbrev pub group_img : ℕ
group_img = 1

abbrev pub group_peruser : ℕ
group_peruser = 64

abbrev pub max_line : ℕ
max_line = 127

-- `CHATTER_EVERY`, in milliseconds.
abbrev pub chatter_every : ℕ
chatter_every = 200

pub record Server : Type 0 where
  pub dev : Device
  pub decoder : Decoder
  pub silent : Bool
  pub contract : Text
  pub chatter : Option Bytes
  pub next_chatter : ℕ
  pub chatter_seq : ℕ

abbrev number : ℕ → Value
number n = integer (pos n)

abbrev pub opt_text : Option Text → Text
opt_text none = []
opt_text (some t) = t

abbrev pub opt_bool : Option Bool → Bool
opt_bool none = false
opt_bool (some b) = b

-- One entry of the image listing.
abbrev pub state_entry : SlotReport → Value
state_entry r = map (
    text_entries (
      (codes "image", number 0)
      ∷ (codes "slot", number r.slot)
      ∷ (codes "version", text r.img.version)
      ∷ (codes "hash", Value.bytes r.img.hash)
      ∷ (codes "bootable", bool r.img.bootable)
      ∷ (codes "pending", bool r.img.pending)
      ∷ (codes "confirmed", bool r.img.confirmed)
      ∷ (codes "active", bool r.active)
      ∷ (codes "permanent", bool r.img.permanent)
      ∷ []))

abbrev pub state_entries : List SlotReport → Values
state_entries [] = end_values
state_entries (r ∷ rs) = element (state_entry r) (state_entries rs)

-- The test of `dispatch`'s match.
abbrev pub is_for : ℕ → ℕ → Frame → Bool
is_for group cmd req = (req.group == group) && (req.cmd == cmd)

-- The answer to a request: its header is the request's, but for the operation and the flags.
abbrev pub response : Frame → Bytes → Frame
response req out = record {
  op = response_op req;
  version = req.version;
  flags = 0;
  group = req.group;
  seq = req.seq;
  cmd = req.cmd;
  payload = out;
}

abbrev pub replied : Frame → Server → Bytes → Server × Option Frame
replied req s out = (s, some (response req out))

module _ (cbor : Cbor) where
  unfoldable pub error_payload : ℕ → ℕ → ℕ → Bytes
  error_payload version group rc =
      if leb 1 version
      then encode_map cbor (
          (
            codes "err",
            map (text_entries ((codes "group", number group) ∷ (codes "rc", number rc) ∷ [])),
          )
          ∷ [])
      else encode_map cbor ((codes "rc", number rc) ∷ [])

  unfoldable pub state_payload : Device → Bytes
  state_payload dev =
      encode_map cbor ((codes "images", array (state_entries (image_states dev))) ∷ [])

  abbrev pub marked :
      Server → Frame → Device × Result SetStateError (Unit {0}) → Server × Option Frame
  marked s req (dev, ok _) = (record s { dev = dev }, some (response req (state_payload dev)))
  marked s req (dev, err e) =
      (record s { dev = dev }, some (response req (error_payload req.version req.group err_einval)))

  abbrev pub uploaded : Server → Frame → Device × UploadOutcome → Server × Option Frame
  uploaded s req (dev, go_silent) = (record s { dev = dev; silent = true }, none)
  uploaded s req (dev, continue off) = (
    record s { dev = dev },
    some (response req (encode_map cbor ((codes "off", integer (as_i64 off)) ∷ []))),
  )
  uploaded s req (dev, complete off matches) = (
    record s { dev = dev },
    some (
        response req (
          encode_map cbor
            ((codes "off", integer (as_i64 off)) ∷ (codes "match", bool matches) ∷ []))),
  )

  abbrev description : Server → List (Text × Value)
  description s =
      (codes "contract", text s.contract)
      ∷ (codes "board", text (codes "runtt-mock"))
      ∷ (codes "app_version", text (codes "0.1.0"))
      ∷ (codes "channels", number 2)
      ∷ (codes "img", bool true)
      ∷ (codes "idle", bool false)
      ∷ []

module _ (sha256 : Bytes → Bytes) (cbor : Cbor) where
  unfoldable pub dispatch : Server → Frame → Run (Server × Option Frame)
  dispatch s req =
      let payload = decode_map cbor req.payload in
      if is_for group_os os_echo req
      then ret (
          replied req s
            (encode_map cbor ((codes "r", text (opt_text (get_str payload (codes "d")))) ∷ [])))
      else if is_for group_os os_mcumgr_params req
      then ret (
          replied req s
            (encode_map cbor ((codes "buf_size", number 384) ∷ (codes "buf_count", number 4) ∷ [])))
      else if is_for group_os os_reset req
      then ret (replied req (record s { dev = reset s.dev }) (encode_map cbor []))
      else if is_for group_img img_state req
      then (if req.op == op_read
          then ret (replied req s (state_payload cbor s.dev))
          else ret (
              marked cbor s req (
                set_state s.dev (get_bytes payload (codes "hash"))
                  (opt_bool (get_bool payload (codes "confirm"))))))
      else if is_for group_img img_upload req
      then (do
        done ←
            upload_chunk sha256 s.dev (opt_or (get_u64 payload (codes "off")) 0)
              (get_u64 payload (codes "len")) (get_bytes payload (codes "sha"))
              (opt_text (get_bytes payload (codes "data")))
        ret (uploaded cbor s req done))
      else if is_for group_img img_erase req
      then ret (replied req (record s { dev = erase s.dev }) (encode_map cbor []))
      else if is_for group_peruser describe req
      then ret (replied req s (encode_map cbor (description cbor s)))
      else ret (replied req s (error_payload cbor req.version req.group err_enotsup))
