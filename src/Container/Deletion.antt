-- ===== src/Container/Deletion.antt =====
-- What a `delete` leaves of a container: neither its state nor, if it can be killed in time, its proxy.
use runtt.Shared.{
  ℕ, zero, suc, ◌≤◌, ◌≡◌, refl, ap, subst, arith, Bool, true, false, not, ◌&&◌, Bool-cases, inl,
  inr, some, Result, ok,
}
use runtt.Shared.Stateful.{and_then-ok, answer-ok}
use runtt.Shared.Text.{Text}
use runtt.Shared.Text.Numbers.{I32}
use runtt.Container.{State, VerbError, state_dir, validate_container_id, not_removed, sigkill}
use runtt.Container.Host.{Host, known}
use runtt.Container.Verbs.{
  read_state, remove_state, delete, delete_found, stop_proxy, some_alive, is_running, is_alive,
  await_exit,
}

-- What `delete` relies on in the file system: a directory that was removed is not there.
pub record Removes {W : Type 0} (h : Host W) : Type 0 where
  pub gone :
      (path : Text) (w w' : W) → h.remove_dir_all path w ≡ (some tt, w') → h.exists path w' ≡ false

module _ {W : Type 0} (h : Host W) (root : Text) (removes : Removes h) where
  unchanged : (w w' : W) → ◌≡◌ {A = Result VerbError (Unit {0}) × W} (ok tt, w) (ok tt, w') → w ≡ w'
  unchanged w w' e = ap (λ p. p.1) e

  exists-remove_state :
      (id : Text) (w w' : W)
      → remove_state h root id w ≡ (ok tt, w')
      → h.exists (state_dir root id) w' ≡ false
  unfolding remove_state
  exists-remove_state id w w' e =
      let (_, _, e1) = and_then-ok (known (validate_container_id id) w) _ e in
      elim (Bool-cases (h.exists (state_dir root id) w)) [
        | inr absent ↦
            subst (λ v. h.exists (state_dir root id) v ≡ false) (unchanged w w' (rw absent at e1))
              absent
        | inl there ↦
            let removed = rw there at e1 in
            let end = ap (λ p. p.1) removed in
            let done =
              answer-ok (h.remove_dir_all (state_dir root id) w) not_removed
                (ap (λ p. p.0) removed) in
            subst (λ v. h.exists (state_dir root id) v ≡ false) end
              (removes.gone (state_dir root id) w _ done)
      ]

  -- What `delete` did when it succeeded for a container whose state is read.
  delete-ok :
      (rounds : ℕ) (id : Text) (force : Bool) (st : State) (w w' : W)
      → read_state h root id w ≡ (ok st, w)
      → delete h root rounds id force w ≡ (ok tt, w')
      → remove_state h root id (stop_proxy h root rounds st.pid w) ≡ (ok tt, w')
  unfolding delete
  delete-ok rounds id force st w w' r e =
      let found : delete_found h root rounds id force st w ≡ (ok tt, w') = rw r at e in
      elim (Bool-cases (is_running st.status && some_alive h st.pid w && not force)) [
        | inl refused ↦ cc (rw refused at found)
        | inr goes ↦ rw goes at found
      ]

-- What `delete` relies on in a process `pid`: `Dying n w` says that it is gone after `n` sleeps, and work
-- on the state directory does not bring it back.
pub record Reaps {W : Type 0} (h : Host W) (pid : I32) (Dying : ℕ → W → Type 0) : Type 0 where
  pub later : (n : ℕ) (w : W) → Dying (suc n) w → Dying n (h.sleep w)
  pub dead : (w : W) → Dying zero w → is_alive h pid w ≡ false
  pub stays :
      (path : Text) (w w' : W)
      → h.remove_dir_all path w ≡ (some tt, w')
      → is_alive h pid w ≡ false
      → is_alive h pid w' ≡ false

module _ {W : Type 0} (h : Host W) (pid : I32) (Dying : ℕ → W → Type 0)
    (reaps : Reaps h pid Dying) where
  -- The poll sees the end of a process that ends in time.
  await_exit-dead :
      (rounds n : ℕ) (w : W)
      → n ≤ rounds
      → Dying n w
      → ((await_exit h rounds pid w).0 ≡ true)
        × (is_alive h pid (await_exit h rounds pid w).1 ≡ false)
  unfolding await_exit
  await_exit-dead zero zero w le d = let dead = reaps.dead w d in (rw dead refl, dead)
  await_exit-dead zero (suc n) w le d = absurd (omega arith)
  await_exit-dead (suc rounds) zero w le d = let dead = reaps.dead w d in rw dead (refl, dead)
  await_exit-dead (suc rounds) (suc n) w le d = elim (Bool-cases (is_alive h pid w)) [
    | inr dead ↦ rw dead (refl, dead)
    | inl alive ↦ rw alive (await_exit-dead rounds n (h.sleep w) (omega arith) (reaps.later n w d))
  ]

  module _ (root : Text) where
    dead-remove_state :
        (id : Text) (w w' : W)
        → remove_state h root id w ≡ (ok tt, w')
        → is_alive h pid w ≡ false
        → is_alive h pid w' ≡ false
    unfolding remove_state
    dead-remove_state id w w' e dead =
        let (_, _, e1) = and_then-ok (known (validate_container_id id) w) _ e in
        elim (Bool-cases (h.exists (state_dir root id) w)) [
          | inr absent ↦
              subst (λ v. is_alive h pid v ≡ false) (ap (λ p. p.1) (rw absent at e1)) dead
          | inl there ↦
              let removed = rw there at e1 in
              let done =
                answer-ok (h.remove_dir_all (state_dir root id) w) not_removed
                  (ap (λ p. p.0) removed) in
              subst (λ v. is_alive h pid v ≡ false) (ap (λ p. p.1) removed)
                (reaps.stays (state_dir root id) w _ done dead)
        ]

    -- The proxy after `stop_proxy`, where SIGKILL ends it within `n` of the polls.
    stop_proxy-dead :
        (rounds n : ℕ) (w : W)
        → n ≤ rounds
        → Dying n (h.kill pid sigkill w).1
        → is_alive h pid (stop_proxy h root rounds (some pid) w) ≡ false
    stop_proxy-dead rounds n w le d = elim (Bool-cases (is_alive h pid w)) [
      | inl alive ↦ rw alive (await_exit-dead rounds n (h.kill pid sigkill w).1 le d).1
      | inr dead ↦ rw dead dead
    ]

    -- On a file system that removes what it says it removes, for a container whose state is read and names
    -- a process, and which SIGKILL ends within as many polls as `await_exit` makes before its deadline,
    -- whatever the recorded status: after a `delete` that succeeds, forced or not, neither the process nor
    -- the container's state directory is there.
    pub delete_ends :
        Removes h
        → (rounds n : ℕ) (id : Text) (force : Bool) (st : State) (w w' : W) → n ≤ rounds
        → read_state h root id w ≡ (ok st, w)
        → st.pid ≡ some pid
        → Dying n (h.kill pid sigkill w).1
        → delete h root rounds id force w ≡ (ok tt, w')
        → (is_alive h pid w' ≡ false) × (h.exists (state_dir root id) w' ≡ false)
    delete_ends removes rounds n id force st w w' le r names d e =
        let removed = delete-ok h root removes rounds id force st w w' r e in
        (
          dead-remove_state id _ w' removed (rw names (stop_proxy-dead rounds n w le d)),
          exists-remove_state h root removes id _ w' removed,
        )
