-- ===== src/Deploy/Errors.antt =====
-- The errors of a deploy.

pub data DeployError : Type 0 where
  unreadable not_mcuboot not_connected no_echo unparseable_contract no_image_management :
      DeployError
  list_failed unbootable upload_failed not_landed reset_failed not_back mark_failed : DeployError
  staged_not_swapped upload_lost other_running wrong_contract confirm_failed : DeployError
