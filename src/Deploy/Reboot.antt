-- ===== src/Deploy/Reboot.antt =====
-- The history that `reconnect` and the check of the contract leave behind.
use runtt.Shared.{ℕ, zero, suc, ◌≡◌, refl, arith, ◌∷◌, Option, none, some, Result, ok, err}
use runtt.Shared.{List, find, Bool-cases, inl, inr, ◌==◌}
use runtt.Shared.Text.{Text}
use runtt.Mcuboot.{Bytes}
use runtt.Client.{ImageSlot, Describe, SmpClient}
use runtt.Deploy.{
  major_of, contract_major, attempt, reconnect, retry, check_describe, require_major,
}
use runtt.Deploy.{confirm_contract_matches}
use runtt.Deploy.Errors.{DeployError}
use runtt.Shared.Stateful.{M, ◌>>=◌, call, answer, Triple, Triple->>=}
use runtt.Deploy.History.{
  Event, connected, echoed, described, History, observe, traced, Waiting, no_port, no_answer,
  Opened, opened, Rebooted, answered, Relisted, Speaks, Proven, proven,
}

-- The rule for one noted request.
module _ {W A : Type 0} (Pre : History → Type 0)
    (Post : Result DeployError A → History → Type 0) where
  pub Triple-call :
      (event : Option A → Event) (op : W → Option A × W) (e : DeployError)
      → ((a : A) (h : History) → Pre h → Post (ok a) (event (some a) ∷ h))
      → ((h : History) → Pre h → Post (err e) (event none ∷ h))
      → Triple (λ (s : W × History). Pre s.1) (call (observe event op) e) (λ r s. Post r s.1)
  Triple-call event op e yes_ no_ (w, h) p = go (op w)
    where
      noted : Option A × W → Result DeployError A × (W × History)
      noted r = answer (r.0, (r.1, event r.0 ∷ h)) e

      go : (r : Option A × W) → Post (noted r).0 (noted r).1.1
      go (some a, w') = yes_ a h p
      go (none, w') = no_ h p

-- A property of a history by the result: `P` after a success, `E` after an error.
abbrev pub Either :
    {A : Type 0}
    → (A → History → Type 0)
    → (History → Type 0)
    → Result DeployError A
    → History
    → Type 0
Either P E (ok a) h = P a h
Either P E (err e) h = E h

-- A noted request, and what follows where it is answered.
module _ {W A B : Type 0} (Good : Result DeployError B → W × History → Type 0)
    (E : History → Type 0)
    (fails : (e : DeployError) (s : W × History) → E s.1 → Good (err e) s) where
  pub Triple-ask :
      (Pre : History → Type 0) (Q : A → History → Type 0) (event : Option A → Event)
      (op : W → Option A × W) (e : DeployError) (k : A → M DeployError (W × History) B)
      → ((a : A) (h : History) → Pre h → Q a (event (some a) ∷ h))
      → ((h : History) → Pre h → E (event none ∷ h))
      → ((a : A) → Triple (λ (s : W × History). Q a s.1) (k a) Good)
      → Triple (λ (s : W × History). Pre s.1) (call (observe event op) e >>= k) Good
  Triple-ask Pre Q event op e k here failed later =
      Triple->>= Good (call (observe event op) e) k (λ r s. Either Q E r s.1)
        (Triple-call Pre (Either Q E) event op e here failed) later fails

module _ {W : Type 0} (c : SmpClient W) (Base : History → Type 0) where
  -- Where the board stands in the reboot.
  abbrev Reached : Result DeployError Text → History → Type 0
  Reached (ok _) h = Rebooted Base h
  Reached (err _) h = Waiting Base h

  abbrev IsOpen : Result DeployError (Unit {0}) → History → Type 0
  IsOpen (ok _) h = Opened Base h
  IsOpen (err _) h = Waiting Base h

  attempt_reaches :
      Triple (λ (s : W × History). Waiting Base s.1) (attempt (traced c)) (λ r s. Reached r s.1)
  unfolding attempt
  attempt_reaches =
      Triple->>= (λ r s. Reached r s.1) _ _ (λ r s. IsOpen r s.1)
        (Triple-call (Waiting Base) IsOpen connected c.connect _ (λ a h p. opened p)
          (λ h p. no_port p))
        (λ a.
          Triple-call (Opened Base) Reached echoed (c.echo _) _ (λ reply h p. answered reply p)
            (λ h p. no_answer p))
        (λ e s p. p)

  -- The reboot is over where `reconnect` succeeds.
  abbrev pub Back : Result DeployError (Unit {0}) → History → Type 0
  Back (ok _) h = Rebooted Base h
  Back (err _) h = Unit

  pub reconnect_reaches :
      (rounds : ℕ)
      → Triple
          (λ (s : W × History). Waiting Base s.1)
          (reconnect (traced c) rounds)
          (λ r s. Back r s.1)
  unfolding reconnect
  reconnect_reaches zero s p = tt
  reconnect_reaches (suc rounds) s p =
      go (attempt (traced c) s) (attempt_reaches s p) (reconnect_reaches rounds)
    where
      go :
          (r : Result DeployError Text × (W × History))
          → Reached r.0 r.1.1
          → Triple
              (λ (s : W × History). Waiting Base s.1)
              (reconnect (traced c) rounds)
              (λ r s. Back r s.1)
          → Back
              (retry (traced c) r (reconnect (traced c) rounds)).0
              (retry (traced c) r (reconnect (traced c) rounds)).1.1
      go (ok a, t) q again = q
      go (err e, t) q again = again t q

-- `K` is what else is known of the history.
module _ {W : Type 0} (c : SmpClient W) (image digest : Bytes) (K : History → Type 0)
    (keeps : (d : Option Describe) (h : History) → K h → K (described d ∷ h)) where
  abbrev State : Type 0
  State = W × History

  abbrev pub Checked : Result DeployError (Unit {0}) → History → Type 0
  Checked (ok _) h = Proven image digest h × K h
  Checked (err _) h = K h

  abbrev pub IsRelisted : List ImageSlot → History → Type 0
  IsRelisted slots h = Relisted image digest slots h × K h

  abbrev Accept : Option Describe → Result DeployError (Unit {0}) → Type 0
  Accept d (ok _) = Speaks d
  Accept d (err _) = Unit

  check_describe-Accept :
      (d : Option Describe) (s : State) → Accept d (check_describe (traced c) d s).0
  check_describe-Accept none s = tt
  check_describe-Accept (some d) s = go (major_of d.contract) refl
    where
      go :
          (m : Option ℕ)
          → major_of d.contract ≡ m
          → Accept (some d) (require_major (traced c) m s).0
      go none e = tt
      go (some major) e = elim (Bool-cases (major == contract_major)) [
        | inl same ↦ rw same (ground arith)
        | inr other ↦ rw other tt
      ]

  check_describe-history : (d : Option Describe) (s : State) → (check_describe (traced c) d s).1 ≡ s
  check_describe-history none s = refl
  check_describe-history (some d) s = ground arith

  pub confirm_contract_checks :
      (slots : List ImageSlot) (active : ImageSlot)
      → find (λ s. s.active) slots ≡ some active
      → active.hash ≡ some digest
      → Triple
          (λ (s : State). IsRelisted slots s.1)
          (confirm_contract_matches (traced c))
          (λ r s. Checked r s.1)
  unfolding confirm_contract_matches
  confirm_contract_checks slots active ef eh (w, h) p =
      let (d, w') = c.describe w in
      let s : State = (w', described d ∷ h) in
      rw (check_describe-history d s)
        (go (check_describe (traced c) d s).0 d (check_describe-Accept d s))
    where
      go :
          (r : Result DeployError (Unit {0})) (d : Option Describe)
          → Accept d r
          → Checked r (described d ∷ h)
      go (ok _) d a = (proven ef eh a p.0, keeps d h p.1)
      go (err _) d a = keeps d h p.1
