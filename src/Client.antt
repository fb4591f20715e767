-- ===== src/Client.antt =====
-- crates/runtt-smp/src/lib.rs and describe.rs: what the runtime asks of a board over SMP. The
-- operations act on a state `W`, which holds all that the board and the link may depend on, and an
-- answer of `none` is a failed request. The SMP client library behind them is not modelled.
use runtt.Shared.{ℕ, Bool, List, Option}
use runtt.Shared.Text.{Text}
use runtt.Mcuboot.{Bytes}

pub record ImageSlot : Type 0 where
  pub image : Option ℕ
  pub slot : ℕ
  pub version : Text
  pub hash : Option Bytes
  pub bootable : Bool
  pub pending : Bool
  pub confirmed : Bool
  pub active : Bool
  pub permanent : Bool

pub record Describe : Type 0 where
  pub contract : Text
  pub board : Text
  pub app_version : Text
  pub channels : ℕ
  pub img : Option Bool
  pub idle : Option Bool
  pub app_healthy : Option Bool
  pub provisioned : Option Bool
  pub serial : Option Text
  pub can_node_id : Option ℕ

-- `connect` of flash.rs opens the channel; the others are the methods of `SmpClient` and `describe`.
pub record SmpClient (W : Type 0) : Type 0 where
  pub connect : W → Option (Unit {0}) × W
  pub flash : Bytes → W → Option (Unit {0}) × W
  pub echo : Text → W → Option Text × W
  pub image_list : W → Option (List ImageSlot) × W
  pub reset : W → Option (Unit {0}) × W
  pub set_state : Bytes → Bool → W → Option (Unit {0}) × W
  pub describe : W → Option Describe × W
