-- ===== src/Deploy/History.antt =====
-- The history of a deploy: each request to the board with its answer, the newest first. `traced`
-- turns any client into one that also keeps its history.
use runtt.Shared.{◌≡◌, Bool, true, false, List, [], ◌∷◌, Option, none, some, find}
use runtt.Shared.Text.{Text}
use runtt.Mcuboot.{Bytes}
use runtt.Client.{ImageSlot, Describe, SmpClient}
use runtt.Deploy.{has_hash, major_of, contract_major}

pub data Event : Type 0 where
  connected : Option (Unit {0}) → Event
  echoed : Option Text → Event
  described : Option Describe → Event
  listed : Option (List ImageSlot) → Event
  flashed : Bytes → Option (Unit {0}) → Event
  marked : Bytes → Bool → Option (Unit {0}) → Event
  was_reset : Option (Unit {0}) → Event

abbrev pub History : Type 0
History = List Event

-- A request that is noted with its answer.
abbrev pub observe :
    {W A : Type 0}
    → (Option A → Event)
    → (W → Option A × W)
    → W × History
    → Option A × (W × History)
observe event op (w, h) = let (a, w') = op w in (a, (w', event a ∷ h))

abbrev pub traced : {W : Type 0} → SmpClient W → SmpClient (W × History)
traced c = record {
  connect = observe connected c.connect;
  flash = λ image. observe (flashed image) (c.flash image);
  echo = λ payload. observe echoed (c.echo payload);
  image_list = observe listed c.image_list;
  reset = observe was_reset c.reset;
  set_state = λ hash confirm. observe (marked hash confirm) (c.set_state hash confirm);
  describe = observe described c.describe;
}

-- The board's account of itself does not rule out this runtime's contract: it gave none, or it gave
-- the major version that the runtime implements.
abbrev pub Speaks : Option Describe → Type 0
Speaks none = Unit
Speaks (some d) = major_of d.contract ≡ some contract_major

-- A reboot, from a history with `Base` on.
module _ (Base : History → Type 0) where
  mutual
    -- The board was reset, and every attempt to reach it since has failed.
    pub data Waiting : History → Type 0 where
      rebooting : {h : History} {a : Unit {0}} → Base h → Waiting (was_reset (some a) ∷ h)
      no_port : {h : History} → Waiting h → Waiting (connected none ∷ h)
      no_answer : {h : History} → Opened h → Waiting (echoed none ∷ h)

    -- So far, and the channel to the board has just been opened again.
    pub data Opened : History → Type 0 where
      opened : {h : History} {a : Unit {0}} → Waiting h → Opened (connected (some a) ∷ h)

  -- After that the board answered an echo.
  pub data Rebooted : History → Type 0 where
    answered : {h : History} (reply : Text) → Opened h → Rebooted (echoed (some reply) ∷ h)

-- What a history must hold, step by step, before a confirmation of `digest`. Each family names its
-- newest event, and through its argument the ones before.
module _ (image digest : Bytes) where
  -- The image was uploaded.
  pub data Uploaded : History → Type 0 where
    uploaded : {h : History} {a : Unit {0}} → Uploaded (flashed image (some a) ∷ h)

  -- Then the board listed its slots.
  pub data Landed (slots : List ImageSlot) : History → Type 0 where
    landed : {h : History} → Uploaded h → Landed slots (listed (some slots) ∷ h)

  -- The digest is among them, and it was marked for test.
  pub data Tested : History → Type 0 where
    tested :
        {slots : List ImageSlot} {at : ImageSlot} {h : History} {a : Unit {0}}
        → find (has_hash digest) slots ≡ some at
        → Landed slots h
        → Tested (marked digest false (some a) ∷ h)

  -- Then it was reset and reached again, and listed its slots again.
  pub data Relisted (slots : List ImageSlot) : History → Type 0 where
    relisted : {h : History} → Rebooted Tested h → Relisted slots (listed (some slots) ∷ h)

  -- The active one has the digest, and the contract was checked.
  pub data Proven : History → Type 0 where
    proven :
        {slots : List ImageSlot} {active : ImageSlot} {d : Option Describe} {h : History}
        → find (λ s. s.active) slots ≡ some active
        → active.hash ≡ some digest
        → Speaks d
        → Relisted slots h
        → Proven (described d ∷ h)

  -- Each confirmation in the history is of `digest`, and what stands before it proves the image.
  abbrev pub Gated : History → Type 0
  Gated [] = Unit
  Gated (marked hash true a ∷ h) = (hash ≡ digest) × Proven h × Gated h
  Gated (_ ∷ h) = Gated h
