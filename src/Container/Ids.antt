-- ===== src/Container/Ids.antt =====
-- Which ids and signals the verbs take.
use runtt.Shared.{ℕ, ◌≤◌, ◌≡◌, ◌≢◌, refl, arith, true, false, List, [], ◌∷◌, ◌++◌, some, ok}
use runtt.Shared.{All, all, ◌==◌, ◌=ₗ◌, Bool-cases, Option-cases, inl, inr}
use runtt.Shared.Text.{Text, codes, is_ascii_alphanumeric, trim}
use runtt.Shared.Text.Numbers.{plus, minus, parse_i32}
use runtt.Shared.Text.Splitting.{Free}
use runtt.Container.{
  validate_container_id, is_id_char, state_dir, join_path, parse_signal, signal_of, signal_named,
}
use runtt.Container.{signals}

id_char-Free : (cs : Text) → all is_id_char cs ≡ true → Free b'/' cs
id_char-Free [] h = tt
id_char-Free (c ∷ cs) h = (λ e. cc (e, h), id_char-Free cs (ground arith))

-- A container id that is accepted names a direct child of the state root: it is not empty, has no slash,
-- is neither `.` nor `..`, and is joined to the root by a single slash.
pub validate-contained :
    (root id : Text)
    → validate_container_id id ≡ ok tt
    → (state_dir root id ≡ root ++ (b'/' ∷ id))
      × Free b'/' id
      × (id ≢ [])
      × (id ≢ codes ".")
      × (id ≢ codes "..")
unfolding validate_container_id join_path
validate-contained root [] e = cc
validate-contained root (first ∷ chars) e =
    let plain : is_ascii_alphanumeric first ≡ true = ground arith in
    let slash : (first == b'/') ≡ false = ground arith in
    let clean : all is_id_char chars ≡ true = ground arith in
    rw slash (
      refl,
      (ground arith, id_char-Free chars clean),
      λ z. cc,
      λ z. cc (z, plain),
      λ z. cc (z, plain),
    )

signal_named-range :
    (name : Text) (table : List (Text × ℕ)) (n : ℕ)
    → All (λ (e : Text × ℕ). (1 ≤ e.1) × (e.1 ≤ 64)) table
    → signal_named name table ≡ ok n
    → (1 ≤ n) × (n ≤ 64)
unfolding signal_named
signal_named-range name [] n h e = cc
signal_named-range name ((m, sig) ∷ more) n ((lo, hi), h) e = elim (Bool-cases (m =ₗ name)) [
  | inl same ↦ let is : sig ≡ n = cc (rw same at e) in rw (← is) (lo, hi)
  | inr other ↦ signal_named-range name more n h (rw other at e)
]

-- A signal that is accepted has a number from 1 to 64, however it is written.
parse_signal-range : (input : Text) (n : ℕ) → parse_signal input ≡ ok n → (1 ≤ n) × (n ≤ 64)
unfolding parse_signal
parse_signal-range input n e = elim (Option-cases (parse_i32 (trim input))) [
  | inl word ↦ signal_named-range _ signals n (ground arith) (rw word at e)
  | inr (plus k, number) ↦
      let in_range : signal_of (trim input) (some (plus k)) ≡ ok n = rw number at e in ground arith
  | inr (minus k, number) ↦ cc (rw number at e)
]
