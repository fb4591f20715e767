-- ===== src/Container/Lifecycle.antt =====
-- What the verbs leave for each other in the state file.
use runtt.Shared.{
  ℕ, zero, suc, ap, subst, ◌&&◌, ◌≡◌, refl, sym, ◌∙◌, arith, true, false, not, Option, none, some,
  Result, ok, err,
}
use runtt.Shared.{Bool-cases, Option-cases, Result-cases, inl, inr}
use runtt.Shared.Stateful.{call, and_then-ok, answer-ok}
use runtt.Shared.Text.{Text}
use runtt.Shared.Text.Numbers.{I32}
use runtt.Container.{
  State, VerbError, running, stopped, validate_container_id, state_dir, state_file, tmp_path,
  not_created, no_pid, not_signalled, sigusr1, no_directory, not_written, parse_signal,
}
use runtt.Container.Host.{Host, known, ok_or}
use runtt.Container.Verbs.{
  write_state, read_state, is_alive, await_exit, start, print_state, kill, ends, is_created,
  reconciled, renamed, is_running, send, gone,
}

-- The wait for a process ends either because the process is gone, and then says so, or at its deadline
-- with the process still there, and then says that.
await_exit_sound :
    {W : Type 0} (h : Host W) (rounds : ℕ) (pid : I32) (w : W)
    → let (exited, w') = await_exit h rounds pid w in is_alive h pid w' ≡ not exited
unfolding await_exit
await_exit_sound h zero pid w = elim (Bool-cases (is_alive h pid w)) [
  | inl e ↦ rw e refl
  | inr e ↦ rw e refl
]
await_exit_sound h (suc rounds) pid w = elim (Bool-cases (is_alive h pid w)) [
  | inl there ↦ rw there (await_exit_sound h rounds pid (h.sleep w))
  | inr gone ↦ rw (gone, gone) refl
]

-- What the verbs rely on in the file system: a file renamed into place is read back.
pub record Stores {W : Type 0} (h : Host W) : Type 0 where
  pub reads_back :
      (tmp path : Text) (st : State) (w w' w'' : W)
      → h.write tmp st w ≡ (some tt, w')
      → h.rename tmp path w' ≡ (some tt, w'')
      → h.load path w'' ≡ some st

module _ {W : Type 0} (h : Host W) (root : Text) (stores : Stores h) where
  renamed-ok :
      (tmp : Text) (r : Option (Unit {0}) × W) (w' : W)
      → renamed h root tmp r ≡ (ok tt, w')
      → r ≡ (some tt, w')
  renamed-ok tmp (some x, w) w' e = cc
  renamed-ok tmp (none, w) w' e = cc

  -- A state that is written is read back.
  read-write :
      (st : State) (w w' : W)
      → write_state h root st w ≡ (ok tt, w')
      → read_state h root st.id w' ≡ (ok st, w')
  unfolding write_state read_state
  read-write st w w' e =
      let (_, valid, e1) = and_then-ok (known (validate_container_id st.id) w) _ e in
      let (_, made, e2) =
        and_then-ok (call (h.create_dir_all (state_dir root st.id)) no_directory w) _ e1 in
      let w1 = (call {E = VerbError} (h.create_dir_all (state_dir root st.id)) no_directory w).1 in
      let (_, written, e3) =
        and_then-ok (call (h.write (tmp_path root st.id) st) not_written w1) _ e2 in
      let w2 = (call {E = VerbError} (h.write (tmp_path root st.id) st) not_written w1).1 in
      let loaded : h.load (state_file root st.id) w' ≡ some st =
        stores.reads_back (tmp_path root st.id) (state_file root st.id) st w1 w2 w'
          (answer-ok (h.write (tmp_path root st.id) st w1) not_written written)
          (renamed-ok (tmp_path root st.id)
            (h.rename (tmp_path root st.id) (state_file root st.id) w2) w' e3) in
      rw (valid, loaded) refl

  -- The state read, and an accepted id, before what follows.
  read-ok :
      (id : Text) (st : State) (w : W)
      → validate_container_id id ≡ ok tt
      → h.load (state_file root id) w ≡ some st
      → read_state h root id w ≡ (ok st, w)
  unfolding read_state
  read-ok id st w valid loaded = rw (valid, loaded) refl

  -- What a `start` that succeeds leaves in the state file.
  pub read-start :
      (id : Text) (st : State) (w w' : W)
      → read_state h root id w ≡ (ok st, w)
      → st.id ≡ id
      → start h root id w ≡ (ok tt, w')
      → read_state h root id w' ≡ (ok (record st { status = running }), w')
  unfolding start
  read-start id st w w' r same e = elim (Bool-cases (is_created st.status)) [
    | inr other ↦ cc (rw (r, other) at e)
    | inl fits ↦
        let begun = rw (r, fits) at e in
        let (pid, _, e1) = and_then-ok (known (ok_or st.pid no_pid) w) _ begun in
        let (_, _, e2) = and_then-ok (call (h.kill pid sigusr1) not_signalled w) _ e1 in
        let saved = read-write (record st { status = running }) _ w' e2 in rw (← same) saved
  ]

  -- On a file system that reads back what is renamed into place, and for a container whose state
  -- file is read and holds its id: after a `start` that succeeds, a second `start` is refused, and
  -- changes nothing.
  start-start :
      (id : Text) (st : State) (w w' : W)
      → read_state h root id w ≡ (ok st, w)
      → st.id ≡ id
      → start h root id w ≡ (ok tt, w')
      → start h root id w' ≡ (err not_created, w')
  unfolding start
  start-start id st w w' r same e = rw (read-start id st w w' r same e) refl

  -- On a file system that reads back what is renamed into place, and for a container whose state
  -- file is read and holds its id: after a `kill` with INT, KILL or TERM that succeeds, `state`
  -- prints the container as stopped, and `start` is refused.
  kill-print_state :
      (id signal : Text) (sig : ℕ) (st : State) (w w' : W)
      → read_state h root id w ≡ (ok st, w)
      → st.id ≡ id
      → parse_signal signal ≡ ok sig
      → ends sig ≡ true
      → kill h root id signal w ≡ (ok tt, w')
      → (print_state h root id w' ≡ (ok (record st { status = stopped }), w'))
        × (start h root id w' ≡ (err not_created, w'))
  unfolding kill print_state start
  kill-print_state id signal sig st w w' r same named final e =
      let sent = rw (r, named) at e in
      let (_, _, e1) = and_then-ok (send h root st.pid sig w) _ sent in
      let saved = read-write (record st { status = stopped }) _ w' (rw final at e1) in
      rw (← same, saved) (refl, refl)

module _ {W : Type 0} (h : Host W) (root : Text) where
  reconciled-running :
      (st0 st : State) (pid : I32) (w : W)
      → reconciled h root st0 w ≡ st
      → st.status ≡ running
      → st.pid ≡ some pid
      → is_alive h pid w ≡ true
  reconciled-running st0 st pid w e runs has =
      elim (Bool-cases (is_running st0.status && gone h st0.pid w)) [
        | inl dead ↦
            let is : record st0 { status = stopped } ≡ st = rw dead at e in
            let bad : stopped ≡ running = ap (λ (s : State). s.status) is ∙ runs in cc
        | inr fine ↦
            let is : st0 ≡ st = rw fine at e in
            let status : st0.status ≡ running = ap (λ (s : State). s.status) is ∙ runs in
            let pids : st0.pid ≡ some pid = ap (λ (s : State). s.pid) is ∙ has in
            let alive : not (is_alive h pid w) ≡ false = rw (status, pids) at fine in ground arith
      ]

  read_state-same : (id : Text) (w : W) → (read_state h root id w).1 ≡ w
  unfolding read_state
  read_state-same id w = elim (Result-cases (validate_container_id id)) [
    | inr (x, bad) ↦ rw bad refl
    | inl (u, good) ↦ elim (Option-cases (h.load (state_file root id) w)) [
      | inl missing ↦ rw (good, missing) refl
      | inr (st, found) ↦ rw (good, found) refl
    ]
  ]

  printed :
      (st0 st : State) (w0 w' : W)
      → ◌≡◌ {A = Result VerbError State × W} (ok (reconciled h root st0 w0), w0) (ok st, w')
      → reconciled h root st0 w' ≡ st
  printed st0 st w0 w' e =
      let state : reconciled h root st0 w0 ≡ st = cc in
      let world : w0 ≡ w' = ap (λ p. p.1) e in subst (λ v. reconciled h root st0 v ≡ st) world state

  -- What `state` prints as running, with a process on record, is alive; printing changes nothing.
  print_state_sound :
      (id : Text) (st : State) (pid : I32) (w w' : W)
      → print_state h root id w ≡ (ok st, w')
      → st.status ≡ running
      → st.pid ≡ some pid
      → (is_alive h pid w' ≡ true) × (w' ≡ w)
  unfolding print_state
  print_state_sound id st pid w w' e runs has =
      let (st0, _, e1) = and_then-ok (read_state h root id w) _ e in
      let end : (read_state h root id w).1 ≡ w' = ap (λ p. p.1) e1 in
      let same : w' ≡ w = sym end ∙ read_state-same id w in
      let printed : reconciled h root st0 w' ≡ st = printed st0 st _ w' e1 in
      (reconciled-running st0 st pid w' printed runs has, same)
