-- ===== src/Container/Files.antt =====
-- State files over the verbs: none becomes `created` again but by `create`.
use runtt.Shared.{
  ℕ, ◌≡◌, ◌≢◌, refl, sym, subst, ◌∙◌, ◌⊎◌, false, Bool-cases, Result-cases, inl, inr, Option, none,
  some, ok, List, ◌=ₗ◌, =ₗ_sound, =ₗ_refl,
}
use runtt.Shared.Stateful.{M, and_then, answer, Keeps}
use runtt.Shared.Text.{Text}
use runtt.Shared.Text.Numbers.{I32}
use runtt.Container.{
  State, VerbError, validate_container_id, state_dir, state_file, tmp_path, not_written,
  no_directory,
}
use runtt.Container.Host.{Host}
use runtt.Container.Paths.{state_file-inj, state_file-ne-tmp_path}
use runtt.Container.Verbs.{is_created, write_state, renamed}

-- The state files of `w'` are those of `w`, some of them gone or no longer readable.
abbrev pub Less : {W : Type 0} → Host W → W → W → Type 0
Less h w w' = (f : Text) → (h.load f w' ≡ h.load f w) ⊎ (h.load f w' ≡ none)

-- What is known of the file system: a state file is what was renamed into its place, and other calls leave
-- it as it is or destroy it.
pub record Files {W : Type 0} (h : Host W) : Type 0 where
  pub dir : (path : Text) (w : W) → Less h w (h.create_dir_all path w).1
  pub remove : (path : Text) (w : W) → Less h w (h.remove_file path w)
  pub remove_dir : (path : Text) (w : W) → Less h w (h.remove_dir_all path w).1
  pub pid_file : (path : Text) (p : I32) (w : W) → Less h w (h.write_pid path p w).1
  pub lock_file : (path : Text) (w : W) → Less h w (h.open_lock path w).1
  pub locks : (fd : ℕ) (w : W) → Less h w (h.flock fd w).1
  pub flags : (fd flags : ℕ) (w : W) → Less h w (h.set_fd fd flags w).1
  pub execs :
      (exe : Text) (args : List Text) (env : List (Text × Text)) (w : W)
      → Less h w (h.exec exe args env w).1
  pub kills : (pid : I32) (sig : ℕ) (w : W) → Less h w (h.kill pid sig w).1
  pub sleeps : (w : W) → Less h w (h.sleep w)
  pub write :
      (path f : Text) (st : State) (w : W)
      → f ≢ path
      → (h.load f (h.write path st w).1 ≡ h.load f w) ⊎ (h.load f (h.write path st w).1 ≡ none)
  pub rename :
      (a b f : Text) (w : W)
      → f ≢ b
      → (h.load f (h.rename a b w).1 ≡ h.load f w) ⊎ (h.load f (h.rename a b w).1 ≡ none)
  pub not_renamed : (a b : Text) (w w' : W) → h.rename a b w ≡ (none, w') → Less h w w'
  pub reads_back :
      (tmp path : Text) (st : State) (w w' w'' : W)
      → h.write tmp st w ≡ (some tt, w')
      → h.rename tmp path w' ≡ (some tt, w'')
      → h.load path w'' ≡ some st

module _ {W : Type 0} (h : Host W) (root : Text) (files : Files h) (id : Text)
    (v : validate_container_id id ≡ ok tt) where
  -- No container waits for its start in the state file of `id`.
  abbrev pub IsOver : W → Type 0
  IsOver w = (st : State) → h.load (state_file root id) w ≡ some st → is_created st.status ≡ false

  pub kept :
      {w w' : W}
      → (h.load (state_file root id) w' ≡ h.load (state_file root id) w)
        ⊎ (h.load (state_file root id) w' ≡ none)
      → IsOver w
      → IsOver w'
  kept (inl same) o st e = o st (sym same ∙ e)
  kept (inr gone) o st e = cc

  -- A state may be written that is not `created`, or is for another container.
  abbrev IsHarmless : State → Type 0
  IsHarmless st = (is_created st.status ≡ false) ⊎ (st.id ≢ id)

  moved :
      (st : State) (w w' w'' : W)
      → validate_container_id st.id ≡ ok tt
      → IsHarmless st
      → h.write (tmp_path root st.id) st w ≡ (some tt, w')
      → h.rename (tmp_path root st.id) (state_file root st.id) w' ≡ (some tt, w'')
      → IsOver w'
      → IsOver w''
  moved st w w' w'' ok_id harm written renamed_to o x e =
      elim (Bool-cases (state_file root id =ₗ state_file root st.id)) [
        | inr other ↦
            kept
              (subst
                (λ r.
                  (h.load (state_file root id) r.1 ≡ h.load (state_file root id) w')
                  ⊎ (h.load (state_file root id) r.1 ≡ none))
                renamed_to
                (files.rename (tmp_path root st.id) (state_file root st.id) (state_file root id) w'
                  (λ same. cc (other, same, =ₗ_refl (state_file root st.id)))))
              o x e
        | inl same ↦
            let path = =ₗ_sound (state_file root id) (state_file root st.id) same in
            let back =
              files.reads_back (tmp_path root st.id) (state_file root st.id) st w w' w'' written
                renamed_to in
            let is : st ≡ x = cc in harmless harm path is
      ]
    where
      harmless :
          IsHarmless st
          → state_file root id ≡ state_file root st.id
          → st ≡ x
          → is_created x.status ≡ false
      harmless (inl other) path is = subst (λ (y : State). is_created y.status ≡ false) is other
      harmless (inr other) path is =
          absurd (other (sym (state_file-inj root id st.id v ok_id path)))

  renamed-IsOver :
      (st : State) (w w' : W) (r : Option (Unit {0}) × W)
      → validate_container_id st.id ≡ ok tt
      → IsHarmless st
      → h.write (tmp_path root st.id) st w ≡ (some tt, w')
      → h.rename (tmp_path root st.id) (state_file root st.id) w' ≡ r
      → IsOver w'
      → IsOver (renamed h root (tmp_path root st.id) r).1
  renamed-IsOver st w w' (some tt, w'') ok_id harm written e o =
      moved st w w' w'' ok_id harm written e o
  renamed-IsOver st w w' (none, w'') ok_id harm written e o =
      kept (files.remove (tmp_path root st.id) w'' (state_file root id))
        (kept (files.not_renamed _ _ w' w'' e (state_file root id)) o)

  -- The parts of `write_state` after the directory is there, and after the file is written.
  abbrev rename_in : State → M VerbError W (Unit {0})
  rename_in st u =
      renamed h root (tmp_path root st.id)
        (h.rename (tmp_path root st.id) (state_file root st.id) u)

  abbrev write_in : State → M VerbError W (Unit {0})
  write_in st u =
      and_then (answer (h.write (tmp_path root st.id) st u) not_written) (λ _. rename_in st)

  written-IsOver :
      (st : State) (w : W) (r : Option (Unit {0}) × W)
      → validate_container_id st.id ≡ ok tt
      → IsHarmless st
      → h.write (tmp_path root st.id) st w ≡ r
      → IsOver r.1
      → IsOver (and_then (answer r not_written) (λ _. rename_in st)).1
  written-IsOver st w (some tt, w') ok_id harm e o =
      renamed-IsOver st w w' (h.rename (tmp_path root st.id) (state_file root st.id) w') ok_id harm
        e refl o
  written-IsOver st w (none, w') ok_id harm e o = o

  pub write_state-IsOver : (st : State) → IsHarmless st → Keeps IsOver (write_state h root st)
  unfolding write_state
  write_state-IsOver st harm w o = elim (Result-cases (validate_container_id st.id)) [
    | inr (x, bad) ↦ rw bad o
    | inl (y, fits) ↦ rw fits (after_id fits)
  ]
    where
      after_id :
          validate_container_id st.id ≡ ok tt
          → IsOver
              (and_then
                (answer (h.create_dir_all (state_dir root st.id) w) no_directory)
                (λ _. write_in st)).1
      after_id fits =
          made (h.create_dir_all (state_dir root st.id) w)
            (kept (files.dir (state_dir root st.id) w (state_file root id)) o)
        where
          made :
              (r : Option (Unit {0}) × W)
              → IsOver r.1
              → IsOver (and_then (answer r no_directory) (λ _. write_in st)).1
          made (none, u) p = p
          made (some tt, u) p =
              written-IsOver st u (h.write (tmp_path root st.id) st u) fits harm refl (
                kept
                  (files.write (tmp_path root st.id) (state_file root id) st u
                    (state_file-ne-tmp_path root id st.id v fits))
                  p)
