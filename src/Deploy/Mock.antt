-- ===== src/Deploy/Mock.antt =====
-- A deploy to the emulated board: `deploy` of flash.rs over the device of device.rs, with the answers
-- of server.rs. The SMP client library uploads the image, so `flash` is a parameter.
use runtt.Shared.{
  ℕ, suc, ◌≡◌, ◌≢◌, refl, arith, true, false, List, [], ◌∷◌, ◌++◌, Option, none, some,
}
use runtt.Shared.{Result, ok, err, map, ◌=ₗ◌, ◌==◌, =ₗ_iff, find, ◌+◌, ◌%◌, ◌^◌}
use runtt.Shared.Text.{Text, codes}
use runtt.Mcuboot.{Bytes}
use runtt.Client.{ImageSlot, Describe, SmpClient}
use runtt.Device.{Device, Image, Upload, no_fault, SetStateError, SlotReport, set_state, reset}
use runtt.Device.{image_states}
use runtt.Deploy.{deploy, major_of, contract_major, confirmed, identify, stage, reconnect}
use runtt.Deploy.{try_out, attempt, confirm_contract_matches}
use runtt.Deploy.Errors.{wrong_contract}

-- One entry of `state_payload`, as the client reads it.
abbrev to_slot : SlotReport → ImageSlot
to_slot r = record {
  image = some 0;
  slot = r.slot;
  version = r.img.version;
  hash = some r.img.hash;
  bootable = r.img.bootable;
  pending = r.img.pending;
  confirmed = r.img.confirmed;
  active = r.active;
  permanent = r.img.permanent;
}

abbrev answered : Device × Result SetStateError (Unit {0}) → Option (Unit {0}) × Device
answered (dev, ok _) = (some tt, dev)
answered (dev, err _) = (none, dev)

abbrev mock_describe : Text → Describe
mock_describe contract = record {
  contract = contract;
  board = codes "runtt-mock";
  app_version = codes "0.1.0";
  channels = 2;
  img = some true;
  idle = some false;
  app_healthy = none;
  provisioned = none;
  serial = none;
  can_node_id = none;
}

abbrev pub mock_client : Text → (Bytes → Device → Option (Unit {0}) × Device) → SmpClient Device
mock_client contract flash = record {
  connect = λ dev. (some tt, dev);
  flash = flash;
  echo = λ payload dev. (some payload, dev);
  image_list = λ dev. (some (map to_slot (image_states dev)), dev);
  reset = λ dev. (some tt, reset dev);
  set_state = λ hash confirm dev. answered (set_state dev (some hash) confirm);
  describe = λ dev. (some (mock_describe contract), dev);
}

module _ (contract : Text) (flash : Bytes → Device → Option (Unit {0}) × Device) (image : Bytes)
    (old new : Image) (u u' : Upload) (failed : List Bytes) (resets rounds : ℕ) where
  -- The board before the deploy, running `old` with nothing staged, and after the upload of `new`.
  abbrev pub before : Device
  before = record {
    slot0 = some old;
    slot1 = none;
    upload = u;
    fault = no_fault;
    failed_digests = failed;
    resets = resets;
    awaiting_confirm = false;
  }

  abbrev pub uploaded_board : Device
  uploaded_board = record before { slot1 = some new; upload = u' }

  module _ (distinct : old.hash ≢ new.hash)
      (uploads : flash image before ≡ (some tt, uploaded_board)) where
    abbrev pub client : SmpClient Device
    client = mock_client contract flash

    differs : (old.hash =ₗ new.hash) ≡ false
    differs = ground (arith, =ₗ_iff old.hash new.hash)

    same : (new.hash =ₗ new.hash) ≡ true
    same = ground (arith, =ₗ_iff new.hash new.hash)

    -- On the emulated board, which has no fault, runs an image, has nothing staged and waits for
    -- no confirmation, and on which the upload of the image succeeds and stages an image of
    -- another digest, with at least one round for the reconnection: if the firmware speaks the
    -- runtime's contract, the deploy ends confirmed, and the board then runs the new image,
    -- confirmed and permanent, with the old image in slot 1, after one reset.
    pub deploy_confirms :
        major_of contract ≡ some contract_major
        → deploy client (suc rounds) true image new.hash before ≡ (
          ok confirmed,
          record uploaded_board {
            slot0 = some (record new { pending = false; confirmed = true; permanent = true });
            slot1 = some old;
            resets = (resets + 1) % 2 ^ 32;
          },
        )
    unfolding deploy identify stage reconnect attempt try_out confirm_contract_matches set_state
        reset image_states find
    deploy_confirms speaks =
        rw (speaks, differs, uploads, differs, same, differs, same, same, speaks, same) refl

    -- On the emulated board, which has no fault, runs an image, has nothing staged and waits for
    -- no confirmation, and on which the upload of the image succeeds and stages an image of
    -- another digest, with at least one round for the reconnection: if the firmware speaks another
    -- major version of the contract, the deploy fails for that reason, and the next reset brings
    -- the old image back, with the digest of the new one recorded as failed.
    pub deploy_reverts :
        (major : ℕ)
        → major_of contract ≡ some major
        → major ≢ contract_major
        → let (result, dev) = deploy client (suc rounds) true image new.hash before in
          (result ≡ err wrong_contract)
          × ((reset dev).slot0 ≡ some old)
          × ((reset dev).failed_digests ≡ failed ++ (new.hash ∷ []))
    unfolding deploy identify stage reconnect attempt try_out confirm_contract_matches set_state
        reset image_states find
    deploy_reverts major speaks other =
        let wrong : (major == contract_major) ≡ false = ground arith in
        rw (speaks, differs, uploads, differs, same, differs, same, same, speaks, wrong)
          (refl, refl, refl)
