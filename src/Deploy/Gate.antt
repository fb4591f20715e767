-- ===== src/Deploy/Gate.antt =====
-- The confirm gate: a confirmation is requested only when the history proves the image.
use runtt.Shared.{
  ℕ, zero, suc, ◌≡◌, refl, Bool, true, false, ◌&&◌, not, List, [], ◌∷◌, Option, none, some,
}
use runtt.Shared.{Result, ok, err, find, any, is_some_of_iff, Bool-cases, inl, inr}
use runtt.Mcuboot.{Bytes}
use runtt.Client.{ImageSlot, Describe, SmpClient}
use runtt.Deploy.{has_hash, reconnect, try_out, judge, settle, confirm_running}
use runtt.Deploy.{stage, deploy, identify, runs_already}
use runtt.Deploy.{identify_described, attempt, retry, reboot_directly, test_image}
use runtt.Deploy.{identify_parsed, is_false, major_of, decide_upload}
use runtt.Shared.Text.{Text, codes}
use runtt.Deploy.Errors.{DeployError, upload_failed, list_failed}
use runtt.Shared.Stateful.{M, ◌>>=◌, call, Triple, Triple->>=}
use runtt.Deploy.Errors.{confirm_failed, mark_failed, reset_failed, not_connected, no_echo}
use runtt.Deploy.History.{
  Event, observe, connected, echoed, described, listed, flashed, marked, was_reset, History, traced,
  Waiting, Rebooted, Uploaded, uploaded, Landed, landed, Tested, tested, rebooting, relisted,
  Proven, Gated,
}
use runtt.Deploy.Reboot.{Triple-ask, Triple-call, Back, Checked, IsRelisted}
use runtt.Deploy.Reboot.{reconnect_reaches, confirm_contract_checks}

module _ {W : Type 0} (c : SmpClient W) (image digest : Bytes) where
  abbrev G : History → Type 0
  G h = Gated image digest h

  record Safe {A : Type 0} (r : Result DeployError A) (s : W × History) : Type 0 where
    gated : Gated image digest s.1

  safe : {A : Type 0} {r : Result DeployError A} {s : W × History} → G s.1 → Safe r s
  safe g = record { gated = g }

  -- A request after `Pre`, and what goes on where it is answered.
  asking :
      {A B : Type 0} (Pre : History → Type 0) (Q : A → History → Type 0) (event : Option A → Event)
      (op : W → Option A × W) (e : DeployError) (k : A → M DeployError (W × History) B)
      → ((a : A) (h : History) → Pre h → Q a (event (some a) ∷ h))
      → ((h : History) → Pre h → G (event none ∷ h))
      → ((a : A) → Triple (λ (s : W × History). Q a s.1) (k a) Safe)
      → Triple (λ (s : W × History). Pre s.1) (call (observe event op) e >>= k) Safe
  asking = Triple-ask Safe G (λ e s p. safe p)

  -- A request that is no confirmation keeps the gate.
  asking_G :
      {A B : Type 0} (event : Option A → Event) (op : W → Option A × W) (e : DeployError)
      (k : A → M DeployError (W × History) B)
      → ((o : Option A) (h : History) → G h → G (event o ∷ h))
      → ((a : A) → Triple (λ (s : W × History). G s.1) (k a) Safe)
      → Triple (λ (s : W × History). G s.1) (call (observe event op) e >>= k) Safe
  asking_G event op e k keeps = asking G (λ _. G) event op e k (λ a. keeps (some a)) (keeps none)

  confirm_running-Safe :
      (slots : List ImageSlot) (active : ImageSlot)
      → find (λ s. s.active) slots ≡ some active
      → active.hash ≡ some digest
      → Triple
          (λ (s : W × History). IsRelisted c image digest G (λ d h g. g) slots s.1)
          (confirm_running (traced c) digest)
          Safe
  confirm_running-Safe slots active ef eh =
      Triple->>= Safe _ _ (λ r s. Checked c image digest G (λ d h g. g) r s.1)
        (confirm_contract_checks c image digest G (λ d h g. g) slots active ef eh)
        (λ _.
          asking (λ h. Proven image digest h × G h) (λ _. G) (marked digest true)
            (c.set_state digest true) confirm_failed _ (λ a h p. (refl, p.0, p.1))
            (λ h p. (refl, p.0, p.1)) (λ a s p. safe p))
        (λ e s p. safe p)

  judge-Safe :
      (slots : List ImageSlot) (o : Option ImageSlot)
      → find (λ s. s.active) slots ≡ o
      → Triple
          (λ (s : W × History). IsRelisted c image digest G (λ d h g. g) slots s.1)
          (judge (traced c) digest slots o)
          Safe
  judge-Safe slots none e = λ s p. safe p.1
  judge-Safe slots (some active) e = elim (Bool-cases (has_hash digest active)) [
    | inl same ↦
        rw same (confirm_running-Safe slots active e ((is_some_of_iff active.hash digest).0 same))
    | inr other ↦ rw other (λ s p. safe p.1)
  ]

  -- A history after the reboot, or after an error.
  abbrev IsBack : Result DeployError (Unit {0}) → History → Type 0
  IsBack (ok _) h = Rebooted (Tested image digest) h × G h
  IsBack (err _) h = G h

  is_back :
      (r : Result DeployError (Unit {0})) (s : W × History)
      → Back c (Tested image digest) r s.1
      → Safe r s
      → IsBack r s.1
  is_back (ok _) s b safely = (b, safely.gated)
  is_back (err _) s b safely = safely.gated

  try_out-Safe : Triple (λ (s : W × History). IsBack (ok tt) s.1) (try_out (traced c) digest) Safe
  unfolding try_out
  try_out-Safe =
      asking (IsBack (ok tt)) (IsRelisted c image digest G (λ d h g. g)) listed c.image_list
        list_failed _ (λ slots h p. (relisted p.0, p.1)) (λ h p. p.1)
        (λ slots. judge-Safe slots _ refl)

  attempt-Safe : Triple (λ (s : W × History). G s.1) (attempt (traced c)) Safe
  unfolding attempt
  attempt-Safe s g =
      asking_G connected c.connect not_connected _ (λ o h g. g)
        (λ a t k.
          safe (Triple-call G (λ r h. G h) echoed (c.echo _) no_echo (λ a h g. g) (λ h g. g) t k))
        s g

  reconnect-Safe :
      (rounds : ℕ) → Triple (λ (s : W × History). G s.1) (reconnect (traced c) rounds) Safe
  unfolding reconnect
  reconnect-Safe zero s g = safe g
  reconnect-Safe (suc rounds) s g =
      go (attempt (traced c) s) (attempt-Safe s g) (reconnect-Safe rounds)
    where
      go :
          (r : Result DeployError Text × (W × History))
          → Safe r.0 r.1
          → Triple (λ (s : W × History). G s.1) (reconnect (traced c) rounds) Safe
          → Safe
              (retry (traced c) r (reconnect (traced c) rounds)).0
              (retry (traced c) r (reconnect (traced c) rounds)).1
      go (ok a, t) q again = safe q.gated
      go (err e, t) q again = again t q.gated

  reboot_directly-Safe :
      (rounds : ℕ) → Triple (λ (s : W × History). G s.1) (reboot_directly (traced c) rounds) Safe
  reboot_directly-Safe rounds =
      asking_G was_reset c.reset reset_failed _ (λ o h g. g)
        (λ a.
          Triple->>= Safe _ _ Safe (reconnect-Safe rounds) (λ a s p. safe p.gated)
            (λ e s p. safe p.gated))

  test_image-Safe :
      (rounds : ℕ) (slots : List ImageSlot) (l : ImageSlot)
      → find (has_hash digest) slots ≡ some l
      → Triple
          (λ (s : W × History). Landed image digest slots s.1 × G s.1)
          (test_image (traced c) rounds digest)
          Safe
  test_image-Safe rounds slots l ef =
      asking (λ h. Landed image digest slots h × G h) (λ _ h. Tested image digest h × G h)
        (marked digest false) (c.set_state digest false) mark_failed _
        (λ a h p. (tested ef p.0, p.1)) (λ h p. p.1)
        (λ a.
          asking (λ h. Tested image digest h × G h) (λ _ h. Waiting (Tested image digest) h × G h)
            was_reset c.reset reset_failed _ (λ b h p. (rebooting p.0, p.1)) (λ h p. p.1)
            (λ b.
              Triple->>= Safe (reconnect (traced c) rounds) _ (λ r s. IsBack r s.1)
                (λ s p.
                  is_back _ _ (reconnect_reaches c (Tested image digest) rounds s p.0)
                    (reconnect-Safe rounds s p.1))
                (λ _. try_out-Safe) (λ e s p. safe p)))

  settle-Safe :
      (rounds : ℕ) (slots : List ImageSlot) (o : Option ImageSlot)
      → find (has_hash digest) slots ≡ o
      → Triple
          (λ (s : W × History). Landed image digest slots s.1 × G s.1)
          (settle (traced c) rounds digest o)
          Safe
  settle-Safe rounds slots none e = λ s p. safe p.1
  settle-Safe rounds slots (some l) e = elim (Bool-cases (l.active && l.confirmed)) [
    | inl direct ↦ rw direct (λ s p. reboot_directly-Safe rounds s p.1)
    | inr staged ↦ rw staged (test_image-Safe rounds slots l e)
  ]

  stage-Safe :
      (rounds : ℕ) → Triple (λ (s : W × History). G s.1) (stage (traced c) rounds image digest) Safe
  unfolding stage
  stage-Safe rounds =
      asking G (λ _ h. Uploaded image digest h × G h) (flashed image) (c.flash image) upload_failed
        _ (λ a h g. (uploaded, g)) (λ h g. g)
        (λ a.
          asking (λ h. Uploaded image digest h × G h) (λ slots h. Landed image digest slots h × G h)
            listed c.image_list list_failed _ (λ slots h p. (landed p.0, p.1)) (λ h p. p.1)
            (λ slots. settle-Safe rounds slots _ refl))

  identify-Safe : Triple (λ (s : W × History). G s.1) (identify (traced c)) Safe
  unfolding identify
  identify-Safe (w, h) g = let (d, w') = c.describe w in safe (unchanged d (w', described d ∷ h) g)
    where
      parsed :
          (m : Option ℕ) (d : Describe) (s : W × History)
          → G s.1
          → G (identify_parsed (traced c) m d s).1.1
      parsed none d s k = k
      parsed (some major) d s k = elim (Bool-cases (is_false d.img)) [
        | inl bad ↦ rw bad k
        | inr fine ↦ rw fine k
      ]

      unchanged :
          (d : Option Describe) (s : W × History)
          → G s.1
          → G (identify_described (traced c) d s).1.1
      unchanged none s k = k
      unchanged (some d) s k = parsed (major_of d.contract) d s k

  deploy-Safe :
      (rounds : ℕ) (skip_if_same : Bool)
      → Triple
          (λ (s : W × History). G s.1)
          (deploy (traced c) rounds skip_if_same image digest)
          Safe
  unfolding deploy
  deploy-Safe rounds skip_if_same =
      asking_G connected c.connect not_connected _ (λ o h g. g)
        λ _.
          asking_G echoed (c.echo (codes "runtt")) no_echo _ (λ o h g. g)
            λ _.
              Triple->>= Safe (identify (traced c)) _ Safe identify-Safe
                (λ _ s p.
                  asking_G listed c.image_list list_failed _ (λ o h g. g) (λ slots. decide slots) s
                    p.gated)
                (λ e s p. safe p.gated)
    where
      decide :
          (slots : List ImageSlot)
          → Triple
              (λ (s : W × History). G s.1)
              (decide_upload (traced c) rounds skip_if_same image digest slots)
              Safe
      decide slots s g =
          elim (Bool-cases (skip_if_same && runs_already digest (find (λ s. s.active) slots))) [
            | inl same ↦ rw same (safe g)
            | inr other ↦ elim (Bool-cases (any (λ s. has_hash digest s && not s.bootable) slots)) [
              | inl bad ↦ rw (other, bad) (safe g)
              | inr fine ↦ rw (other, fine) (stage-Safe rounds s g)
            ]
          ]

  -- For every board and link, whatever they answer: in the history of a deploy each request that
  -- confirms an image is for the digest deployed, and right before it, in this order, the image was
  -- uploaded, the board listed the digest, it was marked for test, the board was reset, the board was
  -- reached again and answered an echo, it listed the image with that digest as its active one, and it
  -- was asked for its contract, which it either did not tell or told with the runtime's major version.
  pub deploy_gates_confirm :
      (rounds : ℕ) (skip_if_same : Bool) (w : W)
      → Gated image digest (deploy (traced c) rounds skip_if_same image digest (w, [])).1.1
  deploy_gates_confirm rounds skip_if_same w = (deploy-Safe rounds skip_if_same (w, []) tt).gated
