-- ===== src/Cbor.antt =====
-- The CBOR that crates/runtt-mock/src/server.rs reads and writes: the helpers at its end. The values are
-- those of the `ciborium` crate, whose writer and reader are the parameter `Cbor`.
use runtt.Shared.{ℕ, suc, ◌-◌, ◌^◌, Bool, List, [], ◌∷◌, Option, none, some, ltb, ◌=ₗ◌}
use runtt.Shared.{if◌then◌else◌}
use runtt.Shared.Text.{Text}
use runtt.Mcuboot.{Bytes}

pub data ℤ : Type 0 where
  pos : ℕ → ℤ
  negsuc : ℕ → ℤ

-- `ciborium::Value`; the variants that the server never asks for (floats, null, tags) are one here.
mutual
  pub data Value : Type 0 where
    integer : ℤ → Value
    bytes : Bytes → Value
    text : Text → Value
    bool : Bool → Value
    array : Values → Value
    map : Entries → Value
    other : Value

  pub data Values : Type 0 where
    end_values : Values
    element : Value → Values → Values

  pub data Entries : Type 0 where
    end_entries : Entries
    entry : (key item : Value) → Entries → Entries

-- `ciborium::into_writer` and `ciborium::from_reader`.
pub record Cbor : Type 0 where
  pub into_writer : Value → Bytes
  pub from_reader : Bytes → Option Value

-- `n as i64` of a `u64`.
abbrev pub as_i64 : ℕ → ℤ
as_i64 n = if ltb n (2 ^ 63) then pos n else negsuc (2 ^ 64 - suc n)

-- The entries under text keys that `map` writes.
abbrev pub text_entries : List (Text × Value) → Entries
text_entries [] = end_entries
text_entries ((k, v) ∷ kvs) = entry (text k) v (text_entries kvs)

abbrev entries_of : Option Value → Entries
entries_of (some (map m)) = m
entries_of _ = end_entries

module _ (cbor : Cbor) where
  -- The helper `map`.
  unfoldable pub encode_map : List (Text × Value) → Bytes
  encode_map kvs = cbor.into_writer (map (text_entries kvs))

  unfoldable pub decode_map : Bytes → Entries
  decode_map b = entries_of (cbor.from_reader b)

unfoldable pub lookup : Entries → Text → Option Value
lookup end_entries key = none
lookup (entry (text t) v m) key = if t =ₗ key then some v else lookup m key
lookup (entry _ v m) key = lookup m key

abbrev as_text : Option Value → Option Text
as_text (some (text t)) = some t
as_text _ = none

abbrev as_bool : Option Value → Option Bool
as_bool (some (bool b)) = some b
as_bool _ = none

-- `u64::try_from` of an integer.
abbrev as_u64 : Option Value → Option ℕ
as_u64 (some (integer (pos n))) = if ltb n (2 ^ 64) then some n else none
as_u64 _ = none

abbrev as_bytes : Option Value → Option Bytes
as_bytes (some (bytes b)) = some b
as_bytes _ = none

unfoldable pub get_str : Entries → Text → Option Text
get_str m key = as_text (lookup m key)

unfoldable pub get_bool : Entries → Text → Option Bool
get_bool m key = as_bool (lookup m key)

unfoldable pub get_u64 : Entries → Text → Option ℕ
get_u64 m key = as_u64 (lookup m key)

unfoldable pub get_bytes : Entries → Text → Option Bytes
get_bytes m key = as_bytes (lookup m key)
