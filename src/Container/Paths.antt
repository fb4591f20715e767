-- ===== src/Container/Paths.antt =====
-- The files of two containers have different names.
use runtt.Shared.{◌≡◌, ◌≢◌, sym, ap, ◌∙◌, ◌∷◌, ◌++◌, Option, some, ok}
use runtt.Shared.Text.{Text, codes, split_once}
use runtt.Shared.Text.Splitting.{split_once-append}
use runtt.Container.{validate_container_id, state_file, tmp_path, join_path}
use runtt.Container.Ids.{validate-contained}
use mathlib.Core.List.{append_assoc, append_cancel_left}

module _ (root id : Text) (v : validate_container_id id ≡ ok tt) where
  abbrev within : Text → Text
  within name = (root ++ (b'/' ∷ id)) ++ (b'/' ∷ name)

  state_file-within : state_file root id ≡ within (codes "state.json")
  unfolding join_path
  state_file-within = ap (λ d. d ++ (b'/' ∷ codes "state.json")) (validate-contained root id v).0

  tmp_path-within : tmp_path root id ≡ within (codes "state.json.tmp")
  unfolding join_path
  tmp_path-within = ap (λ d. d ++ (b'/' ∷ codes "state.json.tmp")) (validate-contained root id v).0

module _ (root id id' : Text) (v : validate_container_id id ≡ ok tt)
    (v' : validate_container_id id' ≡ ok tt) where
  parts : (a b : Text) → within root id v a ≡ within root id' v' b → (id ≡ id') × (a ≡ b)
  parts a b e =
      let longer =
        sym (append_assoc root (b'/' ∷ id) (b'/' ∷ a))
        ∙ e
        ∙ append_assoc root (b'/' ∷ id') (b'/' ∷ b) in
      let tails : id ++ (b'/' ∷ a) ≡ id' ++ (b'/' ∷ b) = cc (append_cancel_left root _ _ longer) in
      let both : ◌≡◌ {A = Option (Text × Text)} (some (id, a)) (some (id', b)) =
        sym (split_once-append b'/' id a (validate-contained root id v).1)
        ∙ ap (split_once b'/') tails
        ∙ split_once-append b'/' id' b (validate-contained root id' v').1 in
      (cc, cc)

  pub state_file-inj : state_file root id ≡ state_file root id' → id ≡ id'
  state_file-inj e =
      (parts _ _ (sym (state_file-within root id v) ∙ e ∙ state_file-within root id' v')).0

  pub state_file-ne-tmp_path : state_file root id ≢ tmp_path root id'
  state_file-ne-tmp_path e =
      cc (parts _ _ (sym (state_file-within root id v) ∙ e ∙ tmp_path-within root id' v')).1
