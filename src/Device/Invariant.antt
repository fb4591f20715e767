-- ===== src/Device/Invariant.antt =====
-- What holds of the board after any sequence of operations.
use runtt.Shared.{ℕ, ◌≡◌, ◌≢◌, arith, Bool, true, false, Option, none, some, ret}
use runtt.Device.{Device, Image, revert_on_boot, UploadOutcome, upload_chunk}
use runtt.Device.{set_state, reset, erase}
use runtt.Device.Transfer.{upload_chunk_accounted}
use runtt.Mcuboot.{Bytes}

-- One operation of the board, as a request or a power cycle brings it about.
pub data Step (sha256 : Bytes → Bytes) : Device → Device → Type 0 where
  uploads :
      {dev dev' : Device} (off : ℕ) (len : Option ℕ) (sha : Option Bytes) (chunk : Bytes)
      (outcome : UploadOutcome)
      → upload_chunk sha256 dev off len sha chunk ≡ ret (dev', outcome)
      → Step sha256 dev dev'
  marks :
      (dev : Device) (hash : Option Bytes) (confirm : Bool)
      → Step sha256 dev (set_state dev hash confirm).0
  resets : (dev : Device) → Step sha256 dev (reset dev)
  erases : (dev : Device) → Step sha256 dev (erase dev)

pub data Reach (sha256 : Bytes → Bytes) (dev : Device) : Device → Type 0 where
  here : Reach sha256 dev dev
  next : {d d' : Device} → Reach sha256 dev d → Step sha256 d d' → Reach sha256 dev d'

pub Reach-trans :
    {sha256 : Bytes → Bytes} {a b c : Device}
    → Reach sha256 a b
    → Reach sha256 b c
    → Reach sha256 a c
Reach-trans r here = r
Reach-trans r (next s st) = next (Reach-trans r s) st

-- An image is there, and it is unconfirmed.
abbrev pub Unconfirmed : Option Image → Type 0
Unconfirmed none = ⊥
Unconfirmed (some img) = img.confirmed ≡ false

pub record IsSound (dev : Device) : Type 0 where
  pub reboots : dev.fault ≢ revert_on_boot
  pub probation : dev.awaiting_confirm ≡ true → Unconfirmed dev.slot0

set_state-IsSound :
    (dev : Device) (hash : Option Bytes) (confirm : Bool)
    → IsSound dev
    → IsSound (set_state dev hash confirm).0
unfolding set_state
set_state-IsSound dev none confirm s = ground arith
set_state-IsSound dev (some hash) confirm s = ground arith

reset-IsSound : (dev : Device) → IsSound dev → IsSound (reset dev)
unfolding reset
reset-IsSound dev s = ground arith

Step-IsSound :
    {sha256 : Bytes → Bytes} {dev dev' : Device} → Step sha256 dev dev' → IsSound dev → IsSound dev'
Step-IsSound {sha256} {dev} (uploads {dev' = d'} off len sha chunk outcome e) s =
    let (same, _) = upload_chunk_accounted sha256 dev off len sha chunk d' outcome e in ground arith
Step-IsSound (marks dev hash confirm) s = set_state-IsSound dev hash confirm s
Step-IsSound (resets dev) s = reset-IsSound dev s
Step-IsSound (erases dev) s = unfold erase in ground arith

Reach-IsSound :
    {sha256 : Bytes → Bytes} {dev dev' : Device}
    → IsSound dev
    → Reach sha256 dev dev'
    → IsSound dev'
Reach-IsSound s here = s
Reach-IsSound s (next r st) = Step-IsSound st (Reach-IsSound s r)

-- From a board without the fault that forces reverts, on which an awaited confirmation is that of
-- an unconfirmed running image, through uploads, marks, resets and erasures in any order: a board
-- that waits for a confirmation runs an image, and that image is unconfirmed.
pub Reach-Unconfirmed :
    {sha256 : Bytes → Bytes} {dev dev' : Device}
    → IsSound dev
    → Reach sha256 dev dev'
    → dev'.awaiting_confirm ≡ true
    → Unconfirmed dev'.slot0
Reach-Unconfirmed s r waits = (Reach-IsSound s r).probation waits
