-- ===== src/Deploy/Keeping.antt =====
-- What every request keeps, a deploy keeps.
use runtt.Shared.{
  ℕ, zero, suc, Bool, List, Option, none, some, Result, ok, err, find, any, not, ◌&&◌,
}
use runtt.Shared.{if◌then◌else◌, true, false, ◌==◌}
use runtt.Shared.Text.{Text, codes}
use runtt.Shared.Stateful.{M, Keeps, Keeps->>=, Keeps-call, call, pure, fail, ◌>>=◌}
use runtt.Mcuboot.{Bytes}
use runtt.Client.{ImageSlot, Describe, SmpClient}
use runtt.Deploy.{
  deploy, identify, attempt, reconnect, confirm_contract_matches, try_out, stage, settle, judge,
  confirm_running, test_image, reboot_directly, decide_upload, check_describe, identify_described,
  require_major, identify_parsed, major_of, is_false, has_hash, runs_already, retry, contract_major,
  already_running,
}
use runtt.Deploy.Errors.{
  DeployError, not_connected, no_echo, no_image_management, list_failed, unbootable, upload_failed,
  reset_failed, mark_failed, other_running, wrong_contract, confirm_failed,
}

-- Each request keeps `I`, answered or not.
pub record Preserves {W : Type 0} (I : W → Type 0) (c : SmpClient W) : Type 0 where
  pub connect : (w : W) → I w → I (c.connect w).1
  pub flash : (image : Bytes) (w : W) → I w → I (c.flash image w).1
  pub echo : (payload : Text) (w : W) → I w → I (c.echo payload w).1
  pub image_list : (w : W) → I w → I (c.image_list w).1
  pub reset : (w : W) → I w → I (c.reset w).1
  pub set_state : (hash : Bytes) (confirm : Bool) (w : W) → I w → I (c.set_state hash confirm w).1
  pub describe : (w : W) → I w → I (c.describe w).1

module _ {W : Type 0} (I : W → Type 0) (c : SmpClient W) (p : Preserves I c) where
  if-Keeps :
      {A : Type 0} (b : Bool) (m n : M DeployError W A)
      → Keeps I m
      → Keeps I n
      → Keeps I (if b then m else n)
  if-Keeps true m n h k = h
  if-Keeps false m n h k = k

  require_major-Keeps : (major : Option ℕ) → Keeps I (require_major c major)
  require_major-Keeps none w h = h
  require_major-Keeps (some major) w h =
      if-Keeps (major == contract_major) (pure tt) (fail wrong_contract) (λ w h. h) (λ w h. h) w h

  confirm_contract_matches-Keeps : Keeps I (confirm_contract_matches c)
  unfolding confirm_contract_matches
  confirm_contract_matches-Keeps w h = go (c.describe w) (p.describe w h)
    where
      go : (r : Option Describe × W) → I r.1 → I (check_describe c r.0 r.1).1
      go (none, w') k = k
      go (some d, w') k = require_major-Keeps (major_of d.contract) w' k

  identify-Keeps : Keeps I (identify c)
  unfolding identify
  identify-Keeps w h = go (c.describe w) (p.describe w h)
    where
      parsed : (major : Option ℕ) (d : Describe) → Keeps I (identify_parsed c major d)
      parsed none d w' k = k
      parsed (some major) d w' k =
          if-Keeps (is_false d.img) (fail no_image_management) (pure tt) (λ w' k. k) (λ w' k. k) w'
            k

      go : (r : Option Describe × W) → I r.1 → I (identify_described c r.0 r.1).1
      go (none, w') k = k
      go (some d, w') k = parsed (major_of d.contract) d w' k

  attempt-Keeps : Keeps I (attempt c)
  unfolding attempt
  attempt-Keeps =
      Keeps->>= I (call c.connect _) _ (Keeps-call I _ _ p.connect)
        λ _. Keeps-call I _ _ (p.echo (codes "runtt"))

  retry-Keeps :
      (again : M DeployError W (Unit {0})) (r : Result DeployError Text × W)
      → I r.1
      → Keeps I again
      → I (retry c r again).1
  retry-Keeps again (ok _, w) h k = h
  retry-Keeps again (err _, w) h k = k w h

  reconnect-Keeps : (rounds : ℕ) → Keeps I (reconnect c rounds)
  unfolding reconnect
  reconnect-Keeps zero w h = h
  reconnect-Keeps (suc rounds) w h =
      retry-Keeps (reconnect c rounds) (attempt c w) (attempt-Keeps w h) (reconnect-Keeps rounds)

  confirm_running-Keeps : (digest : Bytes) → Keeps I (confirm_running c digest)
  confirm_running-Keeps digest =
      Keeps->>= I (confirm_contract_matches c) _ confirm_contract_matches-Keeps λ _.
        Keeps->>= I (call (c.set_state digest true) confirm_failed) _
          (Keeps-call I _ _ (p.set_state digest true)) (λ _ w h. h)

  judge-Keeps :
      (digest : Bytes) (slots : List ImageSlot) (active : Option ImageSlot)
      → Keeps I (judge c digest slots active)
  judge-Keeps digest slots none w h = h
  judge-Keeps digest slots (some active) w h =
      if-Keeps (has_hash digest active) (confirm_running c digest) (fail other_running)
        (confirm_running-Keeps digest) (λ w h. h) w h

  try_out-Keeps : (digest : Bytes) → Keeps I (try_out c digest)
  unfolding try_out
  try_out-Keeps digest =
      Keeps->>= I (call c.image_list list_failed) _ (Keeps-call I _ _ p.image_list)
        λ slots. judge-Keeps digest slots (find (λ s. s.active) slots)

  reset-Keeps :
      {A : Type 0} (k : Unit {0} → M DeployError W A)
      → ((u : Unit {0}) → Keeps I (k u))
      → Keeps I (call c.reset reset_failed >>= k)
  reset-Keeps k h = Keeps->>= I (call c.reset reset_failed) k (Keeps-call I _ _ p.reset) h

  settle-Keeps :
      (rounds : ℕ) (digest : Bytes) (landed : Option ImageSlot)
      → Keeps I (settle c rounds digest landed)
  settle-Keeps rounds digest none w h = h
  settle-Keeps rounds digest (some landed) w h =
      if-Keeps (landed.active && landed.confirmed) (reboot_directly c rounds)
        (test_image c rounds digest)
        (reset-Keeps _
          λ _. Keeps->>= I (reconnect c rounds) _ (reconnect-Keeps rounds) (λ _ w h. h))
        (Keeps->>= I (call (c.set_state digest false) mark_failed) _
          (Keeps-call I _ _ (p.set_state digest false))
          λ _. reset-Keeps _ λ _.
            Keeps->>= I (reconnect c rounds) _ (reconnect-Keeps rounds) λ _. try_out-Keeps digest)
        w h

  stage-Keeps : (rounds : ℕ) (image digest : Bytes) → Keeps I (stage c rounds image digest)
  unfolding stage
  stage-Keeps rounds image digest =
      Keeps->>= I (call (c.flash image) upload_failed) _ (Keeps-call I _ _ (p.flash image)) λ _.
        Keeps->>= I (call c.image_list list_failed) _ (Keeps-call I _ _ p.image_list)
          λ slots. settle-Keeps rounds digest (find (has_hash digest) slots)

  decide_upload-Keeps :
      (rounds : ℕ) (skip_if_same : Bool) (image digest : Bytes) (slots : List ImageSlot)
      → Keeps I (decide_upload c rounds skip_if_same image digest slots)
  decide_upload-Keeps rounds skip_if_same image digest slots =
      if-Keeps (skip_if_same && runs_already digest (find (λ s. s.active) slots))
        (pure already_running) _ (λ w h. h)
        (if-Keeps (any (λ s. has_hash digest s && not s.bootable) slots) (fail unbootable)
          (stage c rounds image digest) (λ w h. h) (stage-Keeps rounds image digest))

  pub deploy-Keeps :
      (rounds : ℕ) (skip_if_same : Bool) (image digest : Bytes)
      → Keeps I (deploy c rounds skip_if_same image digest)
  unfolding deploy
  deploy-Keeps rounds skip_if_same image digest =
      Keeps->>= I (call c.connect not_connected) _ (Keeps-call I _ _ p.connect) λ _.
        Keeps->>= I (call (c.echo (codes "runtt")) no_echo) _
          (Keeps-call I _ _ (p.echo (codes "runtt")))
          λ _. Keeps->>= I (identify c) _ identify-Keeps λ _.
            Keeps->>= I (call c.image_list list_failed) _ (Keeps-call I _ _ p.image_list)
              λ slots. decide_upload-Keeps rounds skip_if_same image digest slots
