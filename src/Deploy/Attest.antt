-- ===== src/Deploy/Attest.antt =====
-- What the history of a deploy that succeeds says of the board.
use runtt.Shared.{
  ℕ, ◌≡◌, refl, Bool, true, false, ◌&&◌, not, List, ◌∷◌, [], Option, none, some, Result, ok, subst,
}
use runtt.Shared.{arith, find, any, is_some_of_iff, Bool-cases, inl, inr}
use runtt.Shared.Text.{codes}
use runtt.Shared.Stateful.{M, ◌>>=◌, pure, call, Triple, Triple->>=}
use runtt.Mcuboot.{Bytes}
use runtt.Client.{ImageSlot, SmpClient}
use runtt.Deploy.{
  Ending, already_running, written_directly, confirmed, has_hash, runs_already, deploy, stage,
  settle, decide_upload, identify, reconnect, try_out, judge, confirm_running,
}
use runtt.Deploy.Errors.{
  DeployError, not_connected, no_echo, list_failed, upload_failed, mark_failed, reset_failed,
  confirm_failed,
}
use runtt.Deploy.History.{
  History, Event, connected, echoed, listed, flashed, marked, was_reset, observe, traced, Waiting,
  rebooting, Rebooted, Uploaded, uploaded, Landed, landed, Tested, tested, Relisted, relisted,
  Proven,
}
use runtt.Deploy.Reboot.{
  Either, Triple-ask, Back, reconnect_reaches, Checked, confirm_contract_checks,
}

module _ (image digest : Bytes) where
  -- The image was uploaded, and then the board listed it as active and confirmed.
  pub data Written : History → Type 0 where
    written :
        {slots : List ImageSlot} {at : ImageSlot} {h : History}
        → find (has_hash digest) slots ≡ some at
        → at.active ≡ true
        → at.confirmed ≡ true
        → Landed image digest slots h
        → Written h

  -- The newest events, for each of the three ends: the board listed the image as active and confirmed; it
  -- did so after an upload, and was then reset and reached again; or it accepted the confirmation of
  -- the image that was proven.
  pub data Attested (skip_if_same : Bool) : Ending → History → Type 0 where
    ran :
        {slots : List ImageSlot} {active : ImageSlot} {h : History}
        → skip_if_same ≡ true
        → find (λ s. s.active) slots ≡ some active
        → active.hash ≡ some digest
        → active.confirmed ≡ true
        → Attested skip_if_same already_running (listed (some slots) ∷ h)
    rebooted : {h : History} → Rebooted Written h → Attested skip_if_same written_directly h
    accepted :
        {h : History} {a : Unit {0}}
        → Proven image digest h
        → Attested skip_if_same confirmed (marked digest true (some a) ∷ h)

module _ {W : Type 0} (c : SmpClient W) (image digest : Bytes) (skip_if_same : Bool) where
  abbrev Good : Result DeployError Ending → W × History → Type 0
  Good r s = Either (Attested image digest skip_if_same) (λ h. Unit) r s.1

  -- A request, and what goes on where it is answered.
  asking :
      {A : Type 0} (Pre : History → Type 0) (Q : A → History → Type 0) (event : Option A → Event)
      (op : W → Option A × W) (e : DeployError) (k : A → M DeployError (W × History) Ending)
      → ((a : A) (h : History) → Pre h → Q a (event (some a) ∷ h))
      → ((a : A) → Triple (λ (s : W × History). Q a s.1) (k a) Good)
      → Triple (λ (s : W × History). Pre s.1) (call (observe event op) e >>= k) Good
  asking Pre Q event op e k here =
      Triple-ask Good (λ h. Unit) (λ e s p. tt) Pre Q event op e k here (λ h p. tt)

  confirm_running-Good :
      (slots : List ImageSlot) (active : ImageSlot)
      → find (λ s. s.active) slots ≡ some active
      → active.hash ≡ some digest
      → Triple
          (λ (s : W × History). Relisted image digest slots s.1)
          (confirm_running (traced c) digest)
          Good
  confirm_running-Good slots active ef eh =
      Triple->>= Good _ _ (λ r s. Checked c image digest (λ h. Unit) (λ d h u. tt) r s.1)
        (λ s p.
          confirm_contract_checks c image digest (λ h. Unit) (λ d h u. tt) slots active ef eh s
            (p, tt))
        (λ _.
          asking (λ h. Proven image digest h × Unit {0})
            (λ a. Attested image digest skip_if_same confirmed) (marked digest true)
            (c.set_state digest true) confirm_failed _ (λ a h p. accepted p.0) (λ a s p. p))
        (λ e s p. tt)

  judge-Good :
      (slots : List ImageSlot) (o : Option ImageSlot)
      → find (λ s. s.active) slots ≡ o
      → Triple
          (λ (s : W × History). Relisted image digest slots s.1)
          (judge (traced c) digest slots o)
          Good
  judge-Good slots none e = λ s p. tt
  judge-Good slots (some active) e = elim (Bool-cases (has_hash digest active)) [
    | inl same ↦
        rw same (confirm_running-Good slots active e ((is_some_of_iff active.hash digest).0 same))
    | inr other ↦ rw other (λ s p. tt)
  ]

  try_out-Good :
      Triple
        (λ (s : W × History). Rebooted (Tested image digest) s.1)
        (try_out (traced c) digest)
        Good
  unfolding try_out
  try_out-Good =
      asking (Rebooted (Tested image digest)) (Relisted image digest) listed c.image_list
        list_failed _ (λ slots h p. relisted p) (λ slots. judge-Good slots _ refl)

  -- `reset` and `reconnect`, from a history with `Base` on.
  rebooting-Good :
      (Base : History → Type 0) (rounds : ℕ) (k : Unit {0} → M DeployError (W × History) Ending)
      → ((a : Unit {0}) → Triple (λ (s : W × History). Rebooted Base s.1) (k a) Good)
      → Triple
          (λ (s : W × History). Base s.1)
          (call (traced c).reset reset_failed >>= λ _. reconnect (traced c) rounds >>= k)
          Good
  rebooting-Good Base rounds k later =
      asking Base (λ _. Waiting Base) was_reset c.reset reset_failed _ (λ a h p. rebooting p)
        (λ _.
          Triple->>= Good (reconnect (traced c) rounds) k (λ r s. Back c Base r s.1)
            (reconnect_reaches c Base rounds) later (λ e s p. tt))

  settle-Good :
      (rounds : ℕ) (slots : List ImageSlot) (o : Option ImageSlot)
      → find (has_hash digest) slots ≡ o
      → Triple
          (λ (s : W × History). Landed image digest slots s.1)
          (settle (traced c) rounds digest o)
          Good
  settle-Good rounds slots none e = λ s p. tt
  settle-Good rounds slots (some l) e = elim (Bool-cases (l.active && l.confirmed)) [
    | inl direct ↦ rw direct (λ s p.
        rebooting-Good (Written image digest) rounds (λ _. pure written_directly)
          (λ a t q. rebooted q) s (written e (ground arith) (ground arith) p))
    | inr staged ↦ rw staged (
        asking (Landed image digest slots) (λ _. Tested image digest) (marked digest false)
          (c.set_state digest false) mark_failed _ (λ a h p. tested e p)
          (λ a. rebooting-Good (Tested image digest) rounds _ (λ _. try_out-Good)))
  ]

  stage-Good :
      (rounds : ℕ)
      → Triple (λ (s : W × History). Unit {0}) (stage (traced c) rounds image digest) Good
  unfolding stage
  stage-Good rounds =
      asking (λ _. Unit) (λ _. Uploaded image digest) (flashed image) (c.flash image) upload_failed
        _ (λ a h p. uploaded)
        (λ _.
          asking (Uploaded image digest) (Landed image digest) listed c.image_list list_failed _
            (λ slots h p. landed p) (λ slots. settle-Good rounds slots _ refl))

  -- The board has just listed these slots.
  data Lists (slots : List ImageSlot) : History → Type 0 where
    lists : {h : History} → Lists slots (listed (some slots) ∷ h)

  running-Good :
      (slots : List ImageSlot) (o : Option ImageSlot) (h : History)
      → find (λ s. s.active) slots ≡ o
      → skip_if_same ≡ true
      → runs_already digest o ≡ true
      → Lists slots h
      → Attested image digest skip_if_same already_running h
  running-Good slots none h e skip runs l = cc
  running-Good slots (some active) h e skip runs lists =
      ran skip e ((is_some_of_iff active.hash digest).0 (ground arith)) (ground arith)

  decide_upload-Good :
      (rounds : ℕ) (slots : List ImageSlot)
      → Triple
          (λ (s : W × History). Lists slots s.1)
          (decide_upload (traced c) rounds skip_if_same image digest slots)
          Good
  decide_upload-Good rounds slots s p =
      elim (Bool-cases (skip_if_same && runs_already digest (find (λ s. s.active) slots))) [
        | inl same ↦ rw same (running-Good slots _ s.1 refl (ground arith) (ground arith) p)
        | inr other ↦ elim (Bool-cases (any (λ s. has_hash digest s && not s.bootable) slots)) [
          | inl bad ↦ rw (other, bad) tt
          | inr fine ↦ rw (other, fine) (stage-Good rounds s tt)
        ]
      ]

  deploy-Good :
      (rounds : ℕ)
      → Triple
          (λ (s : W × History). Unit {0})
          (deploy (traced c) rounds skip_if_same image digest)
          Good
  unfolding deploy
  deploy-Good rounds =
      asking (λ _. Unit) (λ _ _. Unit) connected c.connect not_connected _ (λ a h p. tt)
        λ _.
          asking (λ _. Unit) (λ _ _. Unit) echoed (c.echo (codes "runtt")) no_echo _ (λ a h p. tt)
            λ _.
              Triple->>= Good (identify (traced c)) _ (λ r s. Unit) (λ s p. tt)
                (λ _.
                  asking (λ _. Unit) Lists listed c.image_list list_failed _ (λ slots h p. lists)
                    (decide_upload-Good rounds))
                (λ e s p. tt)

  -- For every board and link, whatever they answer: a deploy that succeeds has the board's word for it. At
  -- the end of its history the board has either listed the image with the digest as active and
  -- confirmed, where the upload may be skipped; or it did so after an upload, and was then reset and
  -- reached again; or it was uploaded to, marked for test, reset and reached again, listed the image as
  -- active, was asked for its contract, and then accepted the confirmation.
  pub deploy_attests :
      (rounds : ℕ) (ending : Ending) (w w' : W) (h : History)
      → deploy (traced c) rounds skip_if_same image digest (w, []) ≡ (ok ending, (w', h))
      → Attested image digest skip_if_same ending h
  deploy_attests rounds ending w w' h e =
      subst (λ (r : Result DeployError Ending × (W × History)). Good r.0 r.1) e
        (deploy-Good rounds (w, []) tt)
