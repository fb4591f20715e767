-- ===== src/Device/Slots.antt =====
-- Marking, swapping, confirming and reverting: `set_state` and `reset` in sequence.
use runtt.Shared.{◌≡◌, ◌≢◌, arith, Bool, true, false, [], ◌∷◌, ◌++◌, some, ok, =ₗ_iff}
use runtt.Device.{Device, Image, revert_on_boot, digest_already_failed, set_state, reset}
use runtt.Mcuboot.{Bytes}

-- A board that runs `old`, which is not itself marked for a swap, and has `new` staged, with no test
-- in progress, and whose fault setting is neither of the two that change marking and booting.
pub record IsStaged (dev : Device) (old new : Image) : Type 0 where
  pub running : dev.slot0 ≡ some old
  pub staged : dev.slot1 ≡ some new
  pub unmarked : old.pending ≡ false
  pub distinct : old.hash ≢ new.hash
  pub settled : dev.awaiting_confirm ≡ false
  pub reboots : dev.fault ≢ revert_on_boot
  pub accepts : dev.fault ≢ digest_already_failed

abbrev pub mark_test : Device → Bytes → Device
mark_test dev hash = (set_state dev (some hash) false).0

abbrev pub mark_confirmed : Device → Bytes → Device
mark_confirmed dev hash = (set_state dev (some hash) true).0

module _ (dev : Device) (old new : Image) (h : IsStaged dev old new) where
  -- On a board that runs an unmarked image and has one of another digest staged, with no test in
  -- progress and neither of the faults that change marking and booting: after the staged image is
  -- marked for test and the board is reset, the board runs that image with its test mark cleared
  -- and unconfirmed, the previous image stands in slot 1, and the board waits for a confirmation.
  test_boots :
      let dev' = reset (mark_test dev new.hash) in
      (dev'.slot0 ≡ some (record new { pending = false; permanent = false; confirmed = false }))
      × (dev'.slot1 ≡ some old)
      × (dev'.awaiting_confirm ≡ true)
  unfolding set_state reset
  test_boots = ground (arith, =ₗ_iff old.hash new.hash, =ₗ_iff new.hash new.hash)

  -- On a board that runs an unmarked image and has one of another digest staged, with no test in
  -- progress and neither of the faults that change marking and booting: after the staged image is
  -- marked for test and the board is reset twice, with no confirmation between, it runs the
  -- previous image, unchanged, and the digest of the tested image is recorded as failed.
  test_reverts :
      let dev' = reset (reset (mark_test dev new.hash)) in
      (dev'.slot0 ≡ some old)
      × (dev'.failed_digests ≡ dev.failed_digests ++ (new.hash ∷ []))
      × (dev'.awaiting_confirm ≡ false)
  unfolding set_state reset
  test_reverts = ground (arith, =ₗ_iff old.hash new.hash, =ₗ_iff new.hash new.hash)

  -- On a board that runs an unmarked image and has one of another digest staged, with no test in
  -- progress and neither of the faults that change marking and booting: if the staged image is
  -- marked for test, booted by a reset and then confirmed, it runs, confirmed and permanent, after
  -- the next reset too, with no failure recorded.
  test_confirm_sticks :
      let dev' = reset (mark_confirmed (reset (mark_test dev new.hash)) new.hash) in
      (dev'.slot0 ≡ some (record new { pending = false; permanent = true; confirmed = true }))
      × (dev'.failed_digests ≡ dev.failed_digests)
      × (dev'.awaiting_confirm ≡ false)
  unfolding set_state reset
  test_confirm_sticks = ground (arith, =ₗ_iff old.hash new.hash, =ₗ_iff new.hash new.hash)

-- For the image that is running, on a board without the fault that refuses failed digests,
-- `set_state` ignores `confirm`: a test mark confirms the image as a confirmation does.
set_state-running :
    (dev : Device) (s0 : Image) (confirm : Bool)
    → dev.slot0 ≡ some s0
    → dev.fault ≢ digest_already_failed
    → set_state dev (some s0.hash) confirm ≡ (
      record dev {
        slot0 = some (record s0 { confirmed = true; permanent = true });
        awaiting_confirm = false;
      },
      ok tt,
    )
unfolding set_state
set_state-running dev s0 confirm e f = ground (arith, =ₗ_iff s0.hash s0.hash)
