-- ===== src/Tests/Boards.antt =====
-- The emulated board, and deploys to it.
use runtt.Shared.{◌≡◌, refl, arith, true, false, [], ◌∷◌, ◌++◌, Option, none, some}
use runtt.Shared.{ok, err, ret, Result, find, ◌=ₗ◌}
use runtt.Client.{SmpClient, ImageSlot}
use runtt.Shared.Text.{codes}
use runtt.Mcuboot.{Bytes}
use runtt.Device.{
  Device, Image, Upload_default, no_fault, reset, upload_chunk, accept_chunk, continue,
}
use runtt.Device.Transfer.{SameBoard, Staging, upload_chunk_accounted}
use runtt.Device.Invariant.{IsSound}
use runtt.Deploy.{
  Ending, deploy, stage, try_out, identify, reconnect, attempt, confirm_contract_matches, major_of,
  contract_major, confirmed,
}
use runtt.Deploy.Attest.{Attested, deploy_attests}
use runtt.Deploy.Errors.{DeployError, wrong_contract}
use runtt.Deploy.History.{traced, Gated, History}
use runtt.Deploy.Gate.{deploy_gates_confirm}
use runtt.Deploy.Mock.{mock_client, before, deploy_confirms, deploy_reverts}

abbrev pub old : Image
old = record {
  version = codes "1.0.0";
  hash = 1 ∷ [];
  bytes = 13;
  bootable = true;
  pending = false;
  confirmed = true;
  permanent = true;
}

abbrev pub new : Image
new = record {
  version = codes "2.0.0";
  hash = 2 ∷ [];
  bytes = 20;
  bootable = true;
  pending = false;
  confirmed = false;
  permanent = false;
}

abbrev pub staged : Device
staged = record {
  slot0 = some old;
  slot1 = some new;
  upload = Upload_default;
  fault = no_fault;
  failed_digests = [];
  resets = 0;
  awaiting_confirm = false;
}

abbrev pub no_sha : Bytes → Bytes
no_sha x = []

abbrev after_chunk : Device
after_chunk = record staged {
  upload = record {
    expected_len = 4;
    declared_sha = none;
    received = 7 ∷ 8 ∷ [];
    chunks = 1;
    restart_demanded = false;
  };
}

first_chunk :
    upload_chunk no_sha staged 0 (some 4) none (7 ∷ 8 ∷ []) ≡ ret (after_chunk, continue 2)
unfolding upload_chunk accept_chunk
first_chunk = refl

upload_chunk_accounted_example :
    SameBoard staged after_chunk × Staging no_sha staged after_chunk (continue 2)
upload_chunk_accounted_example =
    upload_chunk_accounted no_sha staged 0 (some 4) none (7 ∷ 8 ∷ []) after_chunk (continue 2)
      first_chunk

staged-IsSound : IsSound staged
staged-IsSound = record { reboots = λ e. cc; probation = λ e. cc }

-- The client library's upload, as far as these runs need it.
abbrev stage_new : Bytes → Device → Option (Unit {0}) × Device
stage_new image dev = (some tt, record dev { slot1 = some new })

abbrev board : Device
board = before (codes "2.0.0") stage_new [] old new Upload_default Upload_default [] 0 3

two_speaks : major_of (codes "2.0.0") ≡ some contract_major
unfolding major_of
two_speaks = refl

three_speaks : major_of (codes "3.1.0") ≡ some 3
unfolding major_of
three_speaks = refl

deploy_confirms_example :
    deploy (mock_client (codes "2.0.0") stage_new) 4 true [] new.hash board ≡ (
      ok confirmed,
      record staged {
        slot0 = some (record new { pending = false; confirmed = true; permanent = true });
        slot1 = some old;
        resets = 1;
      },
    )
deploy_confirms_example =
    deploy_confirms (codes "2.0.0") stage_new [] old new Upload_default Upload_default [] 0 3
      (λ e. cc) refl two_speaks

deploy_reverts_example :
    let (result, dev) = deploy (mock_client (codes "3.1.0") stage_new) 4 true [] new.hash board in
    (result ≡ err wrong_contract)
    × ((reset dev).slot0 ≡ some old)
    × ((reset dev).failed_digests ≡ [] ++ (new.hash ∷ []))
deploy_reverts_example =
    deploy_reverts (codes "3.1.0") stage_new [] old new Upload_default Upload_default [] 0 3
      (λ e. cc) refl 3 three_speaks (omega arith)

deploy_gates_confirm_example :
    Gated [] new.hash
      (deploy (traced (mock_client (codes "2.0.0") stage_new)) 4 true [] new.hash (board, [])).1.1
deploy_gates_confirm_example =
    deploy_gates_confirm (mock_client (codes "2.0.0") stage_new) [] new.hash 4 true board

-- A board that runs the image for a test at once, and does not tell its contract.
abbrev tested_slot : ImageSlot
tested_slot = record {
  image = some 0;
  slot = 0;
  version = codes "2.0.0";
  hash = some new.hash;
  bootable = true;
  pending = false;
  confirmed = false;
  active = true;
  permanent = false;
}

abbrev obliging : SmpClient Unit
obliging = record {
  connect = λ w. (some tt, w);
  flash = λ image w. (some tt, w);
  echo = λ payload w. (some payload, w);
  image_list = λ w. (some (tested_slot ∷ []), w);
  reset = λ w. (some tt, w);
  set_state = λ hash confirm w. (some tt, w);
  describe = λ w. (none, w);
}

abbrev deployed : Result DeployError Ending × (Unit {0} × History)
deployed = deploy (traced obliging) 4 true [] new.hash (tt, [])

deploys : deployed ≡ (ok confirmed, (tt, deployed.1.1))
unfolding deploy stage try_out identify reconnect attempt confirm_contract_matches ◌=ₗ◌ find
deploys = refl

deploy_attests_example : Attested [] new.hash true confirmed deployed.1.1
deploy_attests_example =
    deploy_attests obliging [] new.hash true 4 confirmed tt tt deployed.1.1 deploys
