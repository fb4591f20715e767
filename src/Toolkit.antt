-- ===== src/Toolkit.antt =====
-- crates/runtt-smp/src/toolkit.rs, and `connect` of crates/runtt/src/flash.rs: the client that a deploy
-- uses, over the `mcumgr-toolkit` crate. The crate's client and the opening of channels are the
-- parameter `McuMgrClient`, over the state of the world, `none` being an error; times are in
-- milliseconds. SHA-256 is a parameter. Progress reports are left out.

pub mod Settings
use runtt.Shared.{ℕ, Bool, true, false, List, Option, none, some, map}
use runtt.Shared.Text.{Text}
use runtt.Mcuboot.{Bytes}
use runtt.Client.{ImageSlot, Describe, SmpClient}
use runtt.Resolve.{Resolved}

-- `ImageState` of the crate.
pub record ImageState : Type 0 where
  pub image : ℕ
  pub slot : ℕ
  pub version : Text
  pub hash : Option Bytes
  pub bootable : Bool
  pub pending : Bool
  pub confirmed : Bool
  pub active : Bool
  pub permanent : Bool

abbrev pub Answer : Type 0 → Type 0 → Type 0
Answer W A = W → Option A × W

-- The crate's client. `attach_serial` opens a serial channel and makes a client on it, through the log
-- demultiplexer or not, and `attach_can` does so over ISO-TP; the first is in runtt.Serial.Link.
pub record McuMgrClient (W : Type 0) : Type 0 where
  pub attach_serial : (path : Text) (baud timeout : ℕ) (demux_logs : Bool) → Answer W (Unit {0})
  pub attach_can : (iface : Text) (node_id timeout : ℕ) → Answer W (Unit {0})
  pub set_timeout : ℕ → Answer W (Unit {0})
  pub set_retries : ℕ → W → W
  pub use_auto_frame_size : Answer W ℕ
  pub image_upload :
      Bytes
      → (slot : Option ℕ) (checksum : Option Bytes) (upgrade_only : Bool) → Answer W (Unit {0})
  pub os_echo : Text → Answer W Text
  pub image_get_state : Answer W (List ImageState)
  pub os_system_reset : (force : Bool) (boot_mode : Option ℕ) → Answer W (Unit {0})
  pub image_set_state : Option Bytes → (confirm : Bool) → Answer W (List ImageState)
  pub describe_command : Answer W Describe

abbrev pub default_retries : ℕ
default_retries = 3

abbrev pub baud : ℕ
baud = 115200

abbrev pub smp_timeout : ℕ
smp_timeout = 10000

abbrev pub probe_timeout : ℕ
probe_timeout = 1500

abbrev pub convert : ImageState → ImageSlot
convert s = record {
  image = some s.image;
  slot = s.slot;
  version = s.version;
  hash = s.hash;
  bootable = s.bootable;
  pending = s.pending;
  confirmed = s.confirmed;
  active = s.active;
  permanent = s.permanent;
}

-- A step after an answer, an answer's value replaced, and an answer thrown away.
abbrev pub and_next : {W A B : Type 0} → Option A × W → (W → Option B × W) → Option B × W
and_next (none, w) k = (none, w)
and_next (some a, w) k = k w

abbrev pub answered : {W A B : Type 0} → (A → B) → Option A × W → Option B × W
answered f (none, w) = (none, w)
answered f (some a, w) = (some (f a), w)

abbrev pub ignored : {W A : Type 0} → Option A × W → Option (Unit {0}) × W
ignored (_, w) = (some tt, w)

module _ {W : Type 0} (inner : McuMgrClient W) where
  -- `new` and `from_transport` on a channel that `attach` opens, then `tune_frame_size`, whose failure
  -- is no error.
  unfoldable pub tuned : Answer W (Unit {0}) → Answer W (Unit {0})
  tuned attach w =
      and_next (and_next (attach w) (inner.set_timeout smp_timeout))
        (λ w'. ignored (inner.use_auto_frame_size w'))

  -- `connect`. The log lines of a board with no log channel of its own come with the SMP traffic.
  unfoldable pub connect : Resolved → Answer W (Unit {0})
  connect (Resolved.serial mgmt none) = tuned (inner.attach_serial mgmt baud smp_timeout true)
  connect (Resolved.serial mgmt (some log)) =
      tuned (inner.attach_serial mgmt baud smp_timeout false)
  connect (Resolved.can iface node_id log) = tuned (inner.attach_can iface node_id smp_timeout)

  -- The drop of a `ProbeGuard`, and `probe_settings` around a request.
  abbrev pub restored : {A : Type 0} → ℕ → Option A × W → Option A × W
  restored timeout (a, w) = (a, inner.set_retries default_retries (inner.set_timeout timeout w).1)

  unfoldable pub probed : {A : Type 0} → (timeout retries : ℕ) → Answer W A → Answer W A
  probed timeout retries request w =
      restored smp_timeout (request (inner.set_retries retries (inner.set_timeout timeout w).1))

  -- The methods of `ToolkitClient`, `describe` as `identify` and `confirm_contract_matches` ask it.
  abbrev pub toolkit_client : (Bytes → Bytes) → Resolved → SmpClient W
  toolkit_client digest resolved = record {
    connect = connect resolved;
    flash = λ image. inner.image_upload image none (some (digest image)) false;
    echo = inner.os_echo;
    image_list = λ w. answered (map convert) (inner.image_get_state w);
    reset = inner.os_system_reset false none;
    set_state = λ hash confirm w. answered (λ _. tt) (inner.image_set_state (some hash) confirm w);
    describe = probed probe_timeout 1 inner.describe_command;
  }
