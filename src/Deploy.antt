-- ===== src/Deploy.antt =====
-- crates/runtt/src/flash.rs: the deploy sequence. `W` is the state of the world behind the client;
-- `rounds` is how many times `reconnect` comes round before its deadline, which the clock decides.
-- Log and console output is left out.
pub mod Errors
pub mod History
pub mod Reboot
pub mod Gate
pub mod Mock
pub mod Keeping
pub mod Attest
use runtt.Shared
use runtt.Shared.{
  ℕ, zero, suc, ◌+◌, ◌≡◌, Bool, true, false, not, ◌&&◌, List, [], ◌∷◌, Option, none, some,
}
use runtt.Shared.{Result, ok, err, Run, ret, length, any, find, ◌==◌, is_some_of, if◌then◌else◌}
use runtt.Shared.Text.{Text, codes, split}
use runtt.Shared.Text.Numbers.{parse_unsigned, u32_limit}
use runtt.Mcuboot.{Bytes, ImageInfo, ParseError, parse}
use runtt.Client.{ImageSlot, Describe, SmpClient}
use runtt.Shared.Stateful.{M, ◌>>=◌, ◌>>◌, pure, fail, call}
use runtt.Deploy.Errors.{
  DeployError, unreadable, not_mcuboot, not_connected, no_echo, unparseable_contract,
  no_image_management, list_failed, unbootable, upload_failed, not_landed, reset_failed, not_back,
  mark_failed, staged_not_swapped, upload_lost, other_running, wrong_contract, confirm_failed,
}

abbrev pub contract_major : ℕ
contract_major = 2

-- Which of its three successful ends a deploy came to.
pub data Ending : Type 0 where
  already_running written_directly confirmed : Ending

-- `d.contract.split('.').next().and_then(|m| m.parse::<u32>().ok())`.
abbrev pub first_number : List Text → Option ℕ
first_number [] = none
first_number (m ∷ _) = parse_unsigned 10 u32_limit m

unfoldable pub major_of : Text → Option ℕ
unfolding split parse_unsigned
major_of contract = first_number (split b'.' contract)

abbrev pub has_hash : Bytes → ImageSlot → Bool
has_hash digest s = is_some_of s.hash digest

abbrev pub is_false : Option Bool → Bool
is_false (some false) = true
is_false _ = false

abbrev pub runs_already : Bytes → Option ImageSlot → Bool
runs_already digest none = false
runs_already digest (some active) = has_hash digest active && active.confirmed

module _ {W : Type 0} (c : SmpClient W) where
  abbrev pub require_major : Option ℕ → M DeployError W (Unit {0})
  require_major none = fail unparseable_contract
  require_major (some major) = if major == contract_major then pure tt else fail wrong_contract

  abbrev pub check_describe : Option Describe → M DeployError W (Unit {0})
  check_describe none = pure tt
  check_describe (some d) = require_major (major_of d.contract)

  abbrev pub ask_describe :
      (Option Describe → M DeployError W (Unit {0})) → M DeployError W (Unit {0})
  ask_describe k w = let (d, w') = c.describe w in k d w'

  -- No answer to `describe` is let through, here and in `identify`.
  unfoldable pub confirm_contract_matches : M DeployError W (Unit {0})
  confirm_contract_matches = ask_describe check_describe

  abbrev pub identify_parsed : Option ℕ → Describe → M DeployError W (Unit {0})
  identify_parsed none d = fail unparseable_contract
  identify_parsed (some major) d = if is_false d.img then fail no_image_management else pure tt

  abbrev pub identify_described : Option Describe → M DeployError W (Unit {0})
  identify_described none = pure tt
  identify_described (some d) = identify_parsed (major_of d.contract) d

  unfoldable pub identify : M DeployError W (Unit {0})
  identify = ask_describe identify_described

  -- One attempt of `reconnect`.
  unfoldable pub attempt : M DeployError W Text
  attempt = do call c.connect not_connected; call (c.echo (codes "runtt")) no_echo

  abbrev pub retry :
      Result DeployError Text × W → M DeployError W (Unit {0}) → Result DeployError (Unit {0}) × W
  retry (ok _, w) again = (ok tt, w)
  retry (err _, w) again = again w

  unfoldable pub reconnect : ℕ → M DeployError W (Unit {0})
  reconnect zero = fail not_back
  reconnect (suc rounds) = λ w. retry (attempt w) (reconnect rounds)

  -- The end of `run`, from the second `image_list` on.
  abbrev pub confirm_running : Bytes → M DeployError W Ending
  confirm_running digest = do
    confirm_contract_matches
    call (c.set_state digest true) confirm_failed
    pure confirmed

  abbrev pub judge : Bytes → List ImageSlot → Option ImageSlot → M DeployError W Ending
  judge digest slots none =
      fail (
        if any (λ s. has_hash digest s && s.pending) slots then staged_not_swapped else upload_lost)
  judge digest slots (some active) =
      if has_hash digest active then confirm_running digest else fail other_running

  unfoldable pub try_out : Bytes → M DeployError W Ending
  try_out digest = do
    slots ← call c.image_list list_failed
    judge digest slots (find (λ s. s.active) slots)

  -- A bootloader wrote the image to the running slot: nothing is left to stage.
  abbrev pub reboot_directly : ℕ → M DeployError W Ending
  reboot_directly rounds = do call c.reset reset_failed; reconnect rounds; pure written_directly

  -- Mark TEST, never confirm; then reboot and judge.
  abbrev pub test_image : ℕ → Bytes → M DeployError W Ending
  test_image rounds digest = do
    call (c.set_state digest false) mark_failed
    call c.reset reset_failed
    reconnect rounds
    try_out digest

  -- The cross-check of what landed.
  abbrev pub settle : ℕ → Bytes → Option ImageSlot → M DeployError W Ending
  settle rounds digest none = fail not_landed
  settle rounds digest (some landed) =
      if landed.active && landed.confirmed then reboot_directly rounds else test_image rounds digest

  unfoldable pub stage : ℕ → Bytes → Bytes → M DeployError W Ending
  stage rounds image digest = do
    call (c.flash image) upload_failed
    slots ← call c.image_list list_failed
    settle rounds digest (find (has_hash digest) slots)

  -- Nothing to do, a digest that the board has rejected, or an upload.
  abbrev pub decide_upload : ℕ → Bool → Bytes → Bytes → List ImageSlot → M DeployError W Ending
  decide_upload rounds skip_if_same image digest slots =
      if skip_if_same && runs_already digest (find (λ s. s.active) slots)
      then pure already_running
      else if any (λ s. has_hash digest s && not s.bootable) slots
      then fail unbootable
      else stage rounds image digest

  -- `Deploy::run` once the image is read and parsed.
  unfoldable pub deploy : ℕ → Bool → Bytes → Bytes → M DeployError W Ending
  deploy rounds skip_if_same image digest = do
    call c.connect not_connected
    call (c.echo (codes "runtt")) no_echo
    identify
    slots ← call c.image_list list_failed
    decide_upload rounds skip_if_same image digest slots

  abbrev run_parsed : ℕ → Bool → Bytes → Result ParseError ImageInfo → M DeployError W Ending
  run_parsed rounds skip_if_same image (ok info) = deploy rounds skip_if_same image info.digest
  run_parsed rounds skip_if_same image (err e) = fail not_mcuboot

  -- `Deploy::run`. The file is its bytes, or `none` where it cannot be read; like `parse`, it may not
  -- return.
  unfoldable pub run : ℕ → Bool → Option Bytes → W → Run (Result DeployError Ending × W)
  run rounds skip_if_same none w = ret (err unreadable, w)
  run rounds skip_if_same (some image) w =
      Shared.◌>>=◌ (parse (suc (length image)) image)
        (λ parsed. ret (run_parsed rounds skip_if_same image parsed w))
