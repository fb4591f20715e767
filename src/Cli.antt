-- ===== src/Cli.antt =====
-- crates/runtt/src/main.rs, `state_root` of crates/runtt/src/state.rs, and crates/runtt-mock/src/main.rs:
-- from the parsed command line to the verbs, and to the emulated board. Parsing is a library's; log and
-- trace output is left out.
pub mod Inert
pub mod Once
use runtt.Shared.{ℕ, Bool, true, false, not, List, [], ◌∷◌, Option, none, some, Result, ok, err}
use runtt.Shared.{is_empty, if◌then◌else◌}
use runtt.Shared.Text.{Text, codes}
use runtt.Container.{join_path, VerbError, State}
use runtt.Container.Host.{Host}
use runtt.Container.Verbs.{create, start, print_state, kill, delete}
use runtt.Device.{
  Fault, no_fault, disconnect_mid_upload, bad_hash, restart_upload, timeout, revert_on_boot,
  digest_already_failed,
}

pub data Command : Type 0 where
  create_cmd : (container_id bundle : Text) (pid_file : Option Text) → Command
  start_cmd state_cmd : (container_id : Text) → Command
  kill_cmd : (container_id signal : Text) (all : Bool) → Command
  delete_cmd : (container_id : Text) (force : Bool) → Command
  proxy_cmd :
      (container_id target firmware : Text) (force_reflash : Bool) (log_target : Option Text)
      → Command

-- `state_root` of `--root` and XDG_RUNTIME_DIR.
unfoldable pub state_root : Option Text → Option Text → Text
state_root (some root) xdg = root
state_root none none = codes "/run/runtt"
state_root none (some xdg) =
    if is_empty xdg then codes "/run/runtt" else join_path xdg (codes "runtt")

abbrev pub exit_of : {W A : Type 0} → Result VerbError A × W → ℕ × W
exit_of (ok a, w) = (0, w)
exit_of (err e, w) = (1, w)

-- What `proxy::run` ends with: the code that it returns, or an error.
abbrev pub proxy_exit : {W : Type 0} → Result VerbError ℕ × W → ℕ × W
proxy_exit (ok code, w) = (code, w)
proxy_exit (err e, w) = (1, w)

-- `real_main` and `main`: the exit code. `proxy_run` is `proxy::run`, of the id, the target, the firmware,
-- whether an upload may be skipped, and the log target; `rounds` is how often `delete` looks whether the
-- proxy is gone before its deadline.
module _ {W : Type 0} (h : Host W)
    (proxy_run : Text → Text → Text → Text → Bool → Option Text → W → Result VerbError ℕ × W)
    (rounds : ℕ) (root : Text) where
  unfoldable pub real_main : Command → W → ℕ × W
  real_main (create_cmd id bundle pid_file) w = exit_of (create h root id bundle pid_file w)
  real_main (start_cmd id) w = exit_of (start h root id w)
  real_main (state_cmd id) w = exit_of (print_state h root id w)
  real_main (kill_cmd id signal all) w = exit_of (kill h root id signal w)
  real_main (delete_cmd id force) w = exit_of (delete h root rounds id force w)
  real_main (proxy_cmd id target firmware force_reflash log_target) w =
      proxy_exit (proxy_run root id target firmware (not force_reflash) log_target w)

-- The arguments of the emulated board that choose its fault.
pub data FaultArg : Type 0 where
  none_arg disconnect_mid_upload_arg bad_hash_arg restart_upload_arg timeout_arg : FaultArg
  revert_on_boot_arg digest_already_failed_arg : FaultArg

pub record Args : Type 0 where
  pub fault : FaultArg
  pub after_chunks : ℕ
  pub at_offset : ℕ
  pub timeout_group : ℕ
  pub timeout_cmd : ℕ

abbrev fault_named : Args → FaultArg → Fault
fault_named args none_arg = no_fault
fault_named args disconnect_mid_upload_arg = disconnect_mid_upload args.after_chunks
fault_named args bad_hash_arg = bad_hash
fault_named args restart_upload_arg = restart_upload args.at_offset
fault_named args timeout_arg = timeout args.timeout_group args.timeout_cmd
fault_named args revert_on_boot_arg = revert_on_boot
fault_named args digest_already_failed_arg = digest_already_failed

abbrev pub fault_of : Args → Fault
fault_of args = fault_named args args.fault
