-- ===== src/Toolkit/Settings.antt =====
-- A probe leaves the client's timeout and retries as they were.
use runtt.Shared.{ℕ, ◌≡◌, ◌∙◌, map, Bool, true, false, Option, none, some}
use runtt.Shared.Text.{Text}
use runtt.Mcuboot.{Bytes}
use runtt.Resolve.{Resolved}
use runtt.Toolkit.{
  McuMgrClient, Answer, default_retries, smp_timeout, probe_timeout, baud, connect, tuned, probed,
  restored, toolkit_client, and_next, ignored, answered, convert,
}
use runtt.Deploy.{deploy}
use runtt.Deploy.Keeping.{Preserves, deploy-Keeps}

-- A timeout and a number of retries, as seen in a state.
pub record View (W : Type 0) : Type 0 where
  pub timeout_of : W → ℕ
  pub retries_of : W → ℕ

module _ {W : Type 0} (v : View W) where
  pub record Same (w w' : W) : Type 0 where
    pub timeout : v.timeout_of w' ≡ v.timeout_of w
    pub retries : v.retries_of w' ≡ v.retries_of w

  -- The settings of a client in normal operation.
  pub record Patient (w : W) : Type 0 where
    pub timeout : v.timeout_of w ≡ smp_timeout
    pub retries : v.retries_of w ≡ default_retries

  -- A new client has the crate's number of retries; where there is none, nothing changes.
  abbrev pub Attached : W → Option (Unit {0}) × W → Type 0
  Attached w (none, w') = Same w w'
  Attached w (some _, w') = v.retries_of w' ≡ default_retries

  -- What the code relies on in the `mcumgr-toolkit` crate: only the setters and a new client change the
  -- settings, and a timeout can be set.
  pub record Settings (inner : McuMgrClient W) : Type 0 where
    pub settable : (t : ℕ) (w : W) → (inner.set_timeout t w).0 ≡ some tt
    pub timeout_set : (t : ℕ) (w : W) → v.timeout_of (inner.set_timeout t w).1 ≡ t
    pub timeout_only : (t : ℕ) (w : W) → v.retries_of (inner.set_timeout t w).1 ≡ v.retries_of w
    pub retries_set : (n : ℕ) (w : W) → v.retries_of (inner.set_retries n w) ≡ n
    pub retries_only : (n : ℕ) (w : W) → v.timeout_of (inner.set_retries n w) ≡ v.timeout_of w
    pub serial :
        (path : Text) (b t : ℕ) (demux : Bool) (w : W)
        → Attached w (inner.attach_serial path b t demux w)
    pub can :
        (iface : Text) (node_id t : ℕ) (w : W) → Attached w (inner.attach_can iface node_id t w)
    pub auto : (w : W) → Same w (inner.use_auto_frame_size w).1
    pub upload :
        (image : Bytes) (slot : Option ℕ) (sha : Option Bytes) (upgrade : Bool) (w : W)
        → Same w (inner.image_upload image slot sha upgrade w).1
    pub echo : (payload : Text) (w : W) → Same w (inner.os_echo payload w).1
    pub get_state : (w : W) → Same w (inner.image_get_state w).1
    pub reset :
        (force : Bool) (mode : Option ℕ) (w : W) → Same w (inner.os_system_reset force mode w).1
    pub set_state :
        (hash : Option Bytes) (confirm : Bool) (w : W)
        → Same w (inner.image_set_state hash confirm w).1

  Patient-Same : {w w' : W} → Patient w → Same w w' → Patient w'
  Patient-Same p s = record { timeout = s.timeout ∙ p.timeout; retries = s.retries ∙ p.retries }

  answered-Patient :
      {A B : Type 0} (f : A → B) (r : Option A × W) → Patient r.1 → Patient (answered f r).1
  answered-Patient f (none, w) p = p
  answered-Patient f (some a, w) p = p

  module _ (inner : McuMgrClient W) (laws : Settings inner) where
    -- Whatever the request does to the state.
    probed-Patient :
        {A : Type 0} (t retries : ℕ) (request : Answer W A) (w : W)
        → Patient (probed inner t retries request w).1
    unfolding probed
    probed-Patient {A} t retries request w =
        go (request (inner.set_retries retries (inner.set_timeout t w).1))
      where
        go : (r : Option A × W) → Patient (restored inner smp_timeout r).1
        go (a, w') = record {
          timeout = laws.retries_only _ _ ∙ laws.timeout_set _ _;
          retries = laws.retries_set _ _;
        }

    tuned-Patient :
        (attach : Answer W (Unit {0})) (w : W)
        → Attached w (attach w)
        → Patient w
        → Patient (tuned inner attach w).1
    unfolding tuned
    tuned-Patient attach w h p = go (attach w) h
      where
        last :
            (r : Option (Unit {0}) × W)
            → r.0 ≡ some tt
            → Patient r.1
            → Patient (and_next r (λ w'. ignored (inner.use_auto_frame_size w'))).1
        last (none, w') e k = cc
        last (some _, w') e k = Patient-Same k (laws.auto w')

        go :
            (r : Option (Unit {0}) × W)
            → Attached w r
            → Patient
                (and_next
                  (and_next r (inner.set_timeout smp_timeout))
                  (λ w'. ignored (inner.use_auto_frame_size w'))).1
        go (none, w') s = Patient-Same p s
        go (some _, w') retries =
            last (inner.set_timeout smp_timeout w') (laws.settable _ _)
              (record { timeout = laws.timeout_set _ _; retries = laws.timeout_only _ _ ∙ retries })

    connect-Patient :
        (resolved : Resolved) (w : W) → Patient w → Patient (connect inner resolved w).1
    unfolding connect
    connect-Patient (Resolved.serial mgmt none) w p =
        tuned-Patient _ w (laws.serial mgmt baud smp_timeout true w) p
    connect-Patient (Resolved.serial mgmt (some log)) w p =
        tuned-Patient _ w (laws.serial mgmt baud smp_timeout false w) p
    connect-Patient (Resolved.can iface node_id log) w p =
        tuned-Patient _ w (laws.can iface node_id smp_timeout w) p

    toolkit_client-Patient :
        (digest : Bytes → Bytes) (resolved : Resolved)
        → Preserves Patient (toolkit_client inner digest resolved)
    toolkit_client-Patient digest resolved = record {
      connect = connect-Patient resolved;
      flash = λ image w p. Patient-Same p (laws.upload _ _ _ _ w);
      echo = λ payload w p. Patient-Same p (laws.echo payload w);
      image_list = λ w p.
          answered-Patient (map convert) (inner.image_get_state w)
            (Patient-Same p (laws.get_state w));
      reset = λ w p. Patient-Same p (laws.reset _ _ w);
      set_state = λ hash confirm w p.
          answered-Patient (λ _. tt) (inner.image_set_state (some hash) confirm w)
            (Patient-Same p (laws.set_state _ _ w));
      describe = λ w p. probed-Patient probe_timeout 1 inner.describe_command w;
    }

    -- For a client library that keeps its settings but for the setters and new clients, in which a
    -- timeout can be set: a deploy that starts with the normal timeout and number of retries ends with
    -- them, whatever the board answers and wherever the deploy fails: the short timeout and the single
    -- attempt of the probes for `describe` are not left behind.
    pub deploy-Patient :
        (digest : Bytes → Bytes) (resolved : Resolved) (rounds : ℕ) (skip_if_same : Bool)
        (image hash : Bytes) (w : W)
        → Patient w
        → Patient (deploy (toolkit_client inner digest resolved) rounds skip_if_same image hash w).1
    deploy-Patient digest resolved rounds skip_if_same image hash w p =
        deploy-Keeps Patient (toolkit_client inner digest resolved)
          (toolkit_client-Patient digest resolved) rounds skip_if_same image hash w p
