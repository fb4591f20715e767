-- ===== src/Container/Lock.antt =====
-- crates/runtt/src/lock.rs: the lock files that claim a label or a board.
use runtt.Shared.{ℕ, ◌*◌, ◌/◌, ◌||◌, ◌++◌, Result, err, map, ◌==◌, if◌then◌else◌}
use runtt.Shared.Stateful.{M, ◌>>=◌, ◌>>◌, pure, call}
use runtt.Shared.Text.{Text, codes, is_ascii_alphanumeric}
use runtt.Container.{
  VerbError, join_path, no_directory, no_lock_file, already_claimed, flock_failed, not_inherited,
}
use runtt.Container.Host.{Host, Flock, locked, would_block, failed, ask}

-- `sanitise` and `lock_name` of lock.rs.
unfoldable pub sanitise : Text → Text
sanitise s = map (λ c. if is_ascii_alphanumeric c || c == b'-' || c == b'.' then c else b'_') s

abbrev pub lock_name : Text → Text
lock_name target = codes "occupancy-" ++ (sanitise target ++ codes ".lock")

module _ {W : Type 0} (h : Host W) where
  -- The flags without FD_CLOEXEC, which is bit 0.
  unfoldable pub clear_cloexec : ℕ → M VerbError W (Unit {0})
  clear_cloexec fd = do
    flags ← ask (h.get_fd fd) not_inherited
    call (h.set_fd fd (flags / 2 * 2)) not_inherited

  abbrev pub claim : ℕ → Flock × W → Result VerbError ℕ × W
  claim fd (locked, w) = (do clear_cloexec fd; pure fd) w
  claim fd (would_block, w) = (err already_claimed, w)
  claim fd (failed, w) = (err flock_failed, w)

module _ {W : Type 0} (h : Host W) (root : Text) where
  -- `acquire_named`, and `acquire` on a placement label.
  unfoldable pub acquire_named : Text → M VerbError W ℕ
  acquire_named name = do
    call (h.create_dir_all root) no_directory
    fd ← call (h.open_lock (join_path root name)) no_lock_file
    λ w. claim h fd (h.flock fd w)

  abbrev pub acquire : Text → M VerbError W ℕ
  acquire target = acquire_named (lock_name target)

  -- The lock of a resolved board, by its `lock_key`.
  abbrev pub acquire_resolved : Text → M VerbError W ℕ
  acquire_resolved resolved = acquire_named (codes "device-" ++ sanitise resolved)
