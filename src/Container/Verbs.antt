-- ===== src/Container/Verbs.antt =====
-- crates/runtt/src/verbs.rs, with `write`, `read` and `remove` of state.rs, and `is_alive` and
-- `await_exit` of proxy.rs. Trace and log output is left out.
use runtt.Shared.{
  ℕ, zero, suc, Bool, true, false, not, ◌&&◌, ◌||◌, List, [], ◌∷◌, Option, none, some,
}
use runtt.Shared.{Result, ok, err, ◌==◌, if◌then◌else◌}
use runtt.Shared.Stateful.{M, ◌>>=◌, ◌>>◌, pure, fail, call}
use runtt.Shared.Text.{Text, codes}
use runtt.Shared.Text.Numbers.{I32, plus}
use runtt.Target.{Target, LabelError, parse_target}
use runtt.Container.{
  State, Status, VerbError, created, running, stopped, validate_container_id, lookup,
  set_annotation, new_state, join_path, state_dir, state_file, tmp_path, sigint, sigkill, sigusr1,
  sigterm, parse_signal, keeps_image, spec_target, spec_skip_if_same, spec_log_target,
  state_firmware_path,
}
use runtt.Container.{
  no_directory, not_written, not_renamed, unreadable_state, not_removed, no_spec, no_target,
  bad_target, bad_args, no_root, no_firmware, no_pid_file, not_created, no_pid, not_signalled,
  still_running,
}
use runtt.Container.Lock.{acquire}
use runtt.Container.Spawn.{spawn}
use runtt.Container.Host.{Spec, Host, ask, known, ok_or}

abbrev pub is_created : Status → Bool
is_created created = true
is_created _ = false

abbrev pub is_running : Status → Bool
is_running running = true
is_running _ = false

-- The signals after which the container counts as stopped.
abbrev pub ends : ℕ → Bool
ends sig = sig == sigkill || sig == sigterm || sig == sigint

abbrev pub is_target : Result LabelError Target → Result VerbError (Unit {0})
is_target (ok t) = ok tt
is_target (err e) = err bad_target

abbrev pub is_log_target : Option Text → Result VerbError (Unit {0})
is_log_target none = ok tt
is_log_target (some label) = is_target (parse_target label)

module _ {W : Type 0} (h : Host W) where
  unfoldable pub is_alive : I32 → W → Bool
  is_alive (plus (suc n)) w = h.probe (plus (suc n)) w
  is_alive _ w = false

  abbrev pub some_alive : Option I32 → W → Bool
  some_alive none w = false
  some_alive (some pid) w = is_alive pid w

  abbrev pub gone : Option I32 → W → Bool
  gone none w = false
  gone (some pid) w = not (is_alive pid w)

  -- `rounds` is how often the loop comes round before its deadline.
  unfoldable pub await_exit : ℕ → I32 → W → Bool × W
  await_exit zero pid w = (not (is_alive pid w), w)
  await_exit (suc rounds) pid w =
      let later = await_exit rounds pid (h.sleep w) in
      if not (is_alive pid w) then (true, w) else later

module _ {W : Type 0} (h : Host W) (root : Text) where
  abbrev pub renamed : Text → Option (Unit {0}) × W → Result VerbError (Unit {0}) × W
  renamed tmp (some _, w) = (ok tt, w)
  renamed tmp (none, w) = (err not_renamed, h.remove_file tmp w)

  unfoldable pub write_state : State → M VerbError W (Unit {0})
  write_state st = do
    known (validate_container_id st.id)
    call (h.create_dir_all (state_dir root st.id)) no_directory
    call (h.write (tmp_path root st.id) st) not_written
    λ w. renamed (tmp_path root st.id) (h.rename (tmp_path root st.id) (state_file root st.id) w)

  unfoldable pub read_state : Text → M VerbError W State
  read_state id = do
    known (validate_container_id id)
    ask (h.load (state_file root id)) unreadable_state

  unfoldable pub remove_state : Text → M VerbError W (Unit {0})
  remove_state id = do
    known (validate_container_id id)
    λ w.
        if h.exists (state_dir root id) w
        then call (h.remove_dir_all (state_dir root id)) not_removed w
        else (ok tt, w)

  abbrev pub located : Text → W → Result VerbError Text × W
  located path w = if h.exists path w then (ok path, w) else (err no_firmware, w)

  abbrev pub firmware_in : List Text → Option Text → Text → M VerbError W Text
  firmware_in (arg ∷ []) none bundle = fail no_root
  firmware_in (arg ∷ []) (some rootfs) bundle = located (join_path (join_path bundle rootfs) arg)
  firmware_in _ _ bundle = fail bad_args

  unfoldable pub locate_firmware : Spec → Text → M VerbError W Text
  locate_firmware spec bundle = firmware_in spec.args spec.root bundle

  abbrev pub write_pid_file : Option Text → I32 → M VerbError W (Unit {0})
  write_pid_file none pid = pure tt
  write_pid_file (some path) pid = call (h.write_pid path pid) no_pid_file

  -- The state that `create` records.
  abbrev pub created_state : Text → Text → Text → Text → I32 → State
  created_state id bundle target firmware pid =
      set_annotation
        (set_annotation (record (new_state id bundle) { status = created; pid = some pid })
          spec_target target)
        state_firmware_path firmware

  abbrev pub record_created :
      Text → Text → Option Text → Text → Text → I32 → M VerbError W (Unit {0})
  record_created id bundle pid_file target firmware pid = do
    write_state (created_state id bundle target firmware pid)
    write_pid_file pid_file pid

  -- `SpawnGuard`: a failure after the spawn kills the proxy.
  abbrev pub guarded : I32 → Result VerbError (Unit {0}) × W → Result VerbError (Unit {0}) × W
  guarded pid (ok a, w) = (ok a, w)
  guarded pid (err e, w) = (err e, (h.kill pid sigkill w).1)

  unfoldable pub create : Text → Text → Option Text → M VerbError W (Unit {0})
  create id bundle pid_file = do
    known (validate_container_id id)
    spec ← ask (h.read_spec (join_path bundle (codes "config.json"))) no_spec
    target ← known (ok_or (lookup spec_target spec.annotations) no_target)
    known (is_target (parse_target target))
    firmware ← locate_firmware spec bundle
    known (is_log_target (lookup spec_log_target spec.annotations))
    lock_fd ← acquire h root target
    pid ←
        spawn h root id target firmware (keeps_image (lookup spec_skip_if_same spec.annotations))
          (lookup spec_log_target spec.annotations) lock_fd
    λ w. guarded pid (record_created id bundle pid_file target firmware pid w)

  unfoldable pub start : Text → M VerbError W (Unit {0})
  start id = do
    st ← read_state id
    if not (is_created st.status) then fail not_created else (do
      pid ← known (ok_or st.pid no_pid)
      call (h.kill pid sigusr1) not_signalled
      write_state (record st { status = running }))

  abbrev pub reconciled : State → W → State
  reconciled st w =
      if is_running st.status && gone h st.pid w then record st { status = stopped } else st

  -- The state that is printed.
  unfoldable pub print_state : Text → M VerbError W State
  print_state id = do st ← read_state id; λ w. (ok (reconciled st w), w)

  abbrev pub send : Option I32 → ℕ → M VerbError W (Unit {0})
  send none sig w = (ok tt, w)
  send (some pid) sig w =
      if is_alive h pid w then call (h.kill pid sig) not_signalled w else (ok tt, w)

  unfoldable pub kill : Text → Text → M VerbError W (Unit {0})
  kill id signal = do
    st ← read_state id
    sig ← known (parse_signal signal)
    send st.pid sig
    if ends sig then write_state (record st { status = stopped }) else pure tt

  -- The proxy is killed whenever it is alive, and waited for.
  abbrev pub stop_proxy : ℕ → Option I32 → W → W
  stop_proxy rounds none w = w
  stop_proxy rounds (some pid) w =
      if is_alive h pid w then (await_exit h rounds pid (h.kill pid sigkill w).1).1 else w

  abbrev pub delete_found : ℕ → Text → Bool → State → M VerbError W (Unit {0})
  delete_found rounds id force st w =
      if is_running st.status && some_alive h st.pid w && not force
      then (err still_running, w)
      else remove_state id (stop_proxy rounds st.pid w)

  abbrev pub delete_read :
      ℕ → Text → Bool → Result VerbError State × W → Result VerbError (Unit {0}) × W
  delete_read rounds id force (ok st, w) = delete_found rounds id force st w
  delete_read rounds id force (err e, w) = if force then (ok tt, w) else (err e, w)

  unfoldable pub delete : ℕ → Text → Bool → M VerbError W (Unit {0})
  delete rounds id force w = delete_read rounds id force (read_state id w)
