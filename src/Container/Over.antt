-- ===== src/Container/Over.antt =====
-- No verb makes a container wait for its start again, but `create`.
use runtt.Shared.{ℕ, zero, suc, ◌*◌, ◌/◌, ◌≡◌, ◌≢◌, refl, sym, ◌∙◌, Bool, not, ◌&&◌}
use runtt.Shared.{Bool-cases, inl, inr, Option, none, some, Result, ok, err, List, [], ◌∷◌}
use runtt.Shared.Stateful.{call, Keeps, Keeps->>=, Keeps-call}
use runtt.Shared.Text.{Text, codes}
use runtt.Shared.Text.Numbers.{I32}
use runtt.Target.{parse_target}
use runtt.Container.{
  State, VerbError, running, stopped, validate_container_id, state_dir, state_file, join_path,
  sigkill, sigusr1, parse_signal, lookup, set_annotation, spec_target, spec_log_target,
  unreadable_state, no_spec, no_target, no_pid, not_signalled, no_directory, no_lock_file,
  not_inherited, not_spawned, not_removed, no_pid_file,
}
use runtt.Container.Host.{
  Spec, Host, Flock, locked, would_block, failed, known, ask, ok_or, Keeps-ask,
}
use runtt.Container.Lock.{claim, clear_cloexec, acquire_named, lock_name}
use runtt.Container.Spawn.{spawn, proxy_args, proxy_env}
use runtt.Container.Files.{Less, Files, IsOver, kept, write_state-IsOver}
use runtt.Container.Verbs.{
  read_state, write_state, remove_state, start, kill, delete, create, print_state, is_created,
  is_alive, await_exit, stop_proxy, send, ends, delete_found, delete_read, locate_firmware,
  firmware_in, record_created, created_state, guarded, is_target, is_log_target, some_alive,
  is_running, write_pid_file,
}

module _ {W : Type 0} (h : Host W) (root : Text) (files : Files h) (id : Text)
    (v : validate_container_id id ≡ ok tt) where
  abbrev pub O : W → Type 0
  O = IsOver h root files id v

  pub lesser : {w w' : W} → Less h w w' → O w → O w'
  lesser l = kept h root files id v (l (state_file root id))

  read_state-Keeps : (id' : Text) → Keeps O (read_state h root id')
  unfolding read_state
  read_state-Keeps id' =
      Keeps->>= O (known (validate_container_id id')) _ (λ w o. o)
        (λ _. Keeps-ask O (h.load (state_file root id')) unreadable_state)

  pub start-Keeps : (id' : Text) → Keeps O (start h root id')
  unfolding start
  start-Keeps id' = Keeps->>= O (read_state h root id') _ (read_state-Keeps id') (λ st w o.
      elim (Bool-cases (is_created st.status)) [
        | inr other ↦ rw other o
        | inl fits ↦ rw fits (
            Keeps->>= O (known (ok_or st.pid no_pid)) _ (λ w o. o)
              (λ pid.
                Keeps->>= O (call (h.kill pid sigusr1) not_signalled) _
                  (Keeps-call O _ _ (λ w o. lesser (files.kills pid sigusr1 w) o))
                  (λ _.
                    write_state-IsOver h root files id v (record st { status = running })
                      (inl refl)))
              w o)
      ])

  send-Keeps : (pid : Option I32) (sig : ℕ) → Keeps O (send h root pid sig)
  send-Keeps none sig w o = o
  send-Keeps (some pid) sig w o = elim (Bool-cases (is_alive h pid w)) [
    | inl there ↦
        rw there (
          Keeps-call O (h.kill pid sig) not_signalled (λ w o. lesser (files.kills pid sig w) o) w o)
    | inr gone ↦ rw gone o
  ]

  pub kill-Keeps : (id' signal : Text) → Keeps O (kill h root id' signal)
  unfolding kill
  kill-Keeps id' signal = Keeps->>= O (read_state h root id') _ (read_state-Keeps id') (λ st.
      Keeps->>= O (known (parse_signal signal)) _ (λ w o. o)
        (λ sig. Keeps->>= O (send h root st.pid sig) _ (send-Keeps st.pid sig) (λ _ w o.
          elim (Bool-cases (ends sig)) [
            | inl ending ↦ rw ending (
                write_state-IsOver h root files id v (record st { status = stopped }) (inl refl) w
                  o)
            | inr other ↦ rw other o
          ])))

  await_exit-Keeps : (rounds : ℕ) (pid : I32) (w : W) → O w → O (await_exit h rounds pid w).1
  unfolding await_exit
  await_exit-Keeps zero pid w o = o
  await_exit-Keeps (suc rounds) pid w o = elim (Bool-cases (is_alive h pid w)) [
    | inl there ↦ rw there (await_exit-Keeps rounds pid (h.sleep w) (lesser (files.sleeps w) o))
    | inr gone ↦ rw gone o
  ]

  stop_proxy-Keeps :
      (rounds : ℕ) (pid : Option I32) (w : W) → O w → O (stop_proxy h root rounds pid w)
  stop_proxy-Keeps rounds none w o = o
  stop_proxy-Keeps rounds (some pid) w o = elim (Bool-cases (is_alive h pid w)) [
    | inl there ↦ rw there (await_exit-Keeps rounds pid _ (lesser (files.kills pid sigkill w) o))
    | inr gone ↦ rw gone o
  ]

  remove_state-Keeps : (id' : Text) → Keeps O (remove_state h root id')
  unfolding remove_state
  remove_state-Keeps id' =
      Keeps->>= O (known (validate_container_id id')) _ (λ w o. o)
        (λ _ w o. elim (Bool-cases (h.exists (state_dir root id') w)) [
          | inl there ↦ rw there (
              Keeps-call O (h.remove_dir_all (state_dir root id')) not_removed
                (λ w o. lesser (files.remove_dir (state_dir root id') w) o) w o)
          | inr absent ↦ rw absent o
        ])

  pub print_state-Keeps : (id' : Text) → Keeps O (print_state h root id')
  unfolding print_state
  print_state-Keeps id' = Keeps->>= O (read_state h root id') _ (read_state-Keeps id') (λ st w o. o)

  pub delete-Keeps :
      (rounds : ℕ) (id' : Text) (force : Bool) → Keeps O (delete h root rounds id' force)
  unfolding delete
  delete-Keeps rounds id' force w o = go (read_state h root id' w) (read_state-Keeps id' w o)
    where
      found : (st : State) (u : W) → O u → O (delete_found h root rounds id' force st u).1
      found st u p =
          elim (Bool-cases (is_running st.status && some_alive h st.pid u && not force)) [
            | inl refused ↦ rw refused p
            | inr goes ↦ rw goes (remove_state-Keeps id' _ (stop_proxy-Keeps rounds st.pid u p))
          ]

      go : (r : Result VerbError State × W) → O r.1 → O (delete_read h root rounds id' force r).1
      go (ok st, u) p = found st u p
      go (err e, u) p = elim (Bool-cases force) [
        | inl forced ↦ rw forced p
        | inr plain ↦ rw plain p
      ]

  acquire_named-Keeps : (name : Text) → Keeps O (acquire_named h root name)
  unfolding acquire_named clear_cloexec
  acquire_named-Keeps name =
      Keeps->>= O (call (h.create_dir_all root) no_directory) _
        (Keeps-call O _ _ (λ w o. lesser (files.dir root w) o))
        (λ _.
          Keeps->>= O (call (h.open_lock (join_path root name)) no_lock_file) _
            (Keeps-call O _ _ (λ w o. lesser (files.lock_file (join_path root name) w) o))
            (λ fd w o. claimed fd (h.flock fd w) (lesser (files.locks fd w) o)))
    where
      cleared : (fd : ℕ) → Keeps O (clear_cloexec h fd)
      cleared fd =
          Keeps->>= O (ask (h.get_fd fd) not_inherited) _ (Keeps-ask O (h.get_fd fd) not_inherited)
            (λ flags. Keeps-call O _ _ (λ w o. lesser (files.flags fd (flags / 2 * 2) w) o))

      claimed : (fd : ℕ) (r : Flock × W) → O r.1 → O (claim h fd r).1
      claimed fd (locked, w) o = Keeps->>= O (clear_cloexec h fd) _ (cleared fd) (λ _ w' k. k) w o
      claimed fd (would_block, w) o = o
      claimed fd (failed, w) o = o

  spawn-Keeps :
      (id' target firmware : Text) (skip : Bool) (log_target : Option Text) (fd : ℕ)
      → Keeps O (spawn h root id' target firmware skip log_target fd)
  unfolding spawn
  spawn-Keeps id' target firmware skip log_target fd =
      Keeps->>= O (ask h.current_exe not_spawned) _ (Keeps-ask O h.current_exe not_spawned)
        (λ exe w.
          let args = proxy_args root id' target firmware skip log_target in
          let env = proxy_env fd (h.env (codes "RUNTT_TRACE") w) (h.env (codes "RUST_LOG") w) in
          Keeps-call O (h.exec exe args env) not_spawned
            (λ w o. lesser (files.execs exe args env w) o) w)

  locate_firmware-Keeps :
      (spec : Spec) (bundle : Text) → Keeps O (locate_firmware h root spec bundle)
  unfolding locate_firmware
  locate_firmware-Keeps spec bundle = go spec.args spec.root
    where
      go :
          (args : List Text) (rootfs : Option Text)
          → Keeps O (firmware_in h root args rootfs bundle)
      go [] rootfs w o = o
      go (arg ∷ []) none w o = o
      go (arg ∷ []) (some dir) w o =
          elim (Bool-cases (h.exists (join_path (join_path bundle dir) arg) w)) [
            | inl there ↦ rw there o
            | inr absent ↦ rw absent o
          ]
      go (arg ∷ arg2 ∷ more) rootfs w o = o

  created_state-id :
      (id' bundle target firmware : Text) (pid : I32)
      → (created_state h root id' bundle target firmware pid).id ≡ id'
  unfolding set_annotation
  created_state-id id' bundle target firmware pid = refl

  recorded :
      (id' bundle : Text) (pid_file : Option Text) (target firmware : Text) (pid : I32)
      → id' ≢ id
      → Keeps O (record_created h root id' bundle pid_file target firmware pid)
  recorded id' bundle pid_file target firmware pid other =
      let st = created_state h root id' bundle target firmware pid in
      Keeps->>= O (write_state h root st) _
        (write_state-IsOver h root files id v st
          (inr (λ same. other (sym (created_state-id id' bundle target firmware pid) ∙ same))))
        (λ _. pid_written pid_file)
    where
      pid_written : (path : Option Text) → Keeps O (write_pid_file h root path pid)
      pid_written none w o = o
      pid_written (some path) w o =
          Keeps-call O (h.write_pid path pid) no_pid_file
            (λ w o. lesser (files.pid_file path pid w) o) w o

  guarded-Keeps :
      (pid : I32) (r : Result VerbError (Unit {0}) × W) → O r.1 → O (guarded h root pid r).1
  guarded-Keeps pid (ok a, w) o = o
  guarded-Keeps pid (err e, w) o = lesser (files.kills pid sigkill w) o

  pub create-Keeps :
      (id' bundle : Text) (pid_file : Option Text)
      → id' ≢ id
      → Keeps O (create h root id' bundle pid_file)
  unfolding create
  create-Keeps id' bundle pid_file other =
      Keeps->>= O (known (validate_container_id id')) _ (λ w o. o)
        λ _.
          Keeps->>= O (ask (h.read_spec (join_path bundle (codes "config.json"))) no_spec) _
            (Keeps-ask O _ no_spec)
            λ spec.
              Keeps->>= O (known (ok_or (lookup spec_target spec.annotations) no_target)) _
                (λ w o. o)
                λ target.
                  Keeps->>= O (known (is_target (parse_target target))) _ (λ w o. o)
                    λ _.
                      Keeps->>= O (locate_firmware h root spec bundle) _
                        (locate_firmware-Keeps spec bundle)
                        λ firmware.
                          Keeps->>= O
                            (known (is_log_target (lookup spec_log_target spec.annotations))) _
                            (λ w o. o)
                            λ _.
                              Keeps->>= O (acquire_named h root (lock_name target)) _
                                (acquire_named-Keeps (lock_name target))
                                λ fd.
                                  Keeps->>= O (spawn h root id' target firmware _ _ fd) _
                                    (spawn-Keeps id' target firmware _ _ fd)
                                    λ pid w o.
                                      guarded-Keeps pid _
                                        (recorded id' bundle pid_file target firmware pid other w o)
