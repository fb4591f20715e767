-- ===== src/Container/Recorded.antt =====
-- What writing a container's state and pid file leaves alone.
use runtt.Shared.{Option, none, some}
use runtt.Shared.Stateful.{call, Keeps, Keeps->>=, Keeps-call}
use runtt.Shared.Text.{Text}
use runtt.Shared.Text.Numbers.{I32}
use runtt.Container.{
  State, validate_container_id, state_dir, state_file, tmp_path, no_directory, not_written,
}
use runtt.Container.Host.{Host, known}
use runtt.Container.Verbs.{write_state, renamed, record_created}

-- `P` is nothing that work on files and directories changes.
pub record Lasts {W : Type 0} (h : Host W) (P : W → Type 0) : Type 0 where
  pub dir : (path : Text) (w : W) → P w → P (h.create_dir_all path w).1
  pub write : (path : Text) (st : State) (w : W) → P w → P (h.write path st w).1
  pub rename : (a b : Text) (w : W) → P w → P (h.rename a b w).1
  pub remove : (path : Text) (w : W) → P w → P (h.remove_file path w)
  pub pid_file : (p : I32) (path : Text) (w : W) → P w → P (h.write_pid path p w).1

module _ {W : Type 0} (h : Host W) (root : Text) (P : W → Type 0) (l : Lasts h P) where
  write_state-Keeps : (st : State) → Keeps P (write_state h root st)
  unfolding write_state
  write_state-Keeps st =
      Keeps->>= P (known (validate_container_id st.id)) _ (λ w k. k)
        (λ _.
          Keeps->>= P (call (h.create_dir_all (state_dir root st.id)) no_directory) _
            (Keeps-call P _ _ (l.dir _))
            (λ _.
              Keeps->>= P (call (h.write (tmp_path root st.id) st) not_written) _
                (Keeps-call P _ _ (l.write _ st))
                (λ _ w k.
                  moved (h.rename (tmp_path root st.id) (state_file root st.id) w)
                    (l.rename _ _ w k))))
    where
      moved : (r : Option (Unit {0}) × W) → P r.1 → P (renamed h root (tmp_path root st.id) r).1
      moved (some a, w) k = k
      moved (none, w) k = l.remove _ w k

  pub record_created-Keeps :
      (id bundle : Text) (pid_file : Option Text) (target firmware : Text) (pid : I32)
      → Keeps P (record_created h root id bundle pid_file target firmware pid)
  record_created-Keeps id bundle none target firmware pid =
      Keeps->>= P (write_state h root _) _ (write_state-Keeps _) (λ _ w k. k)
  record_created-Keeps id bundle (some path) target firmware pid =
      Keeps->>= P (write_state h root _) _ (write_state-Keeps _)
        (λ _. Keeps-call P _ _ (l.pid_file pid path))
