-- ===== src/Shared/Text/Numbers.antt =====
-- Numbers as texts: `from_str_radix` for `u32` and `i32`, and the digits that `format!` writes.
use runtt.Shared.Tests.{ltb, leb, ◌==◌, if◌then◌else◌}
use runtt.Shared.Lists.{is_empty}
use Prim.Native.Nat.{ℕ, zero, suc, ◌+◌, ◌-◌, ◌*◌, ◌/◌, ◌%◌, ◌^◌}
use mathlib.Core.Bool.{◌&&◌}
use mathlib.Core.Option.{Option, none, some}
use mathlib.Core.List.{List, [], ◌∷◌}
use mathlib.Core.Option

-- `char::to_digit(radix)` for a radix up to 16.
abbrev pub hex_value : ℕ → ℕ
hex_value c =
    if leb b'0' c && leb c b'9'
    then c - b'0'
    else if leb b'a' c && leb c b'f'
    then c - b'a' + 10
    else if leb b'A' c && leb c b'F'
    then c - b'A' + 10
    else 16

abbrev pub to_digit : ℕ → ℕ → Option ℕ
to_digit radix c = if ltb (hex_value c) radix then some (hex_value c) else none

-- The digits of a number below `limit`; `none` on another character and on overflow.
unfoldable pub parse_digits : ℕ → ℕ → ℕ → List ℕ → Option ℕ
parse_digits radix limit acc [] = some acc
parse_digits radix limit acc (c ∷ cs) =
    let next = acc * radix + hex_value c in
    let rest = parse_digits radix limit next cs in
    if ltb (hex_value c) radix then if ltb next limit then rest else none else none

-- One leading `+` is allowed; a sign alone and the empty text are errors.
unfoldable pub parse_unsigned : ℕ → ℕ → List ℕ → Option ℕ
unfolding parse_digits
parse_unsigned radix limit [] = none
parse_unsigned radix limit (c ∷ cs) =
    if c == b'+'
    then if is_empty cs then none else parse_digits radix limit 0 cs
    else parse_digits radix limit 0 (c ∷ cs)

abbrev pub u32_limit : ℕ
u32_limit = 2 ^ 32

-- A signed number as its sign and its size.
pub data I32 : Type 0 where
  plus minus : ℕ → I32

unfoldable pub parse_i32 : List ℕ → Option I32
unfolding parse_unsigned parse_digits
parse_i32 [] = none
parse_i32 (c ∷ cs) =
    if c == b'-'
    then if is_empty cs then none else Option.map minus (parse_digits 10 (2 ^ 31 + 1) 0 cs)
    else Option.map plus (parse_unsigned 10 (2 ^ 31) (c ∷ cs))

abbrev pub digit_char : ℕ → ℕ
digit_char d = if ltb d 10 then d + b'0' else d - 10 + b'a'

-- The digits of `n`, written before `acc`; `fuel` bounds their number.
unfoldable pub show_from : ℕ → ℕ → ℕ → List ℕ → List ℕ
show_from radix zero n acc = acc
show_from radix (suc fuel) n acc =
    let longer = digit_char (n % radix) ∷ acc in
    let rest = show_from radix fuel (n / radix) longer in if n / radix == 0 then longer else rest

-- `{}` on a number below 10 ^ 10, and `{:#x}` on one below 16 ^ 8: all of `u32`.
unfoldable pub show_dec : ℕ → List ℕ
unfolding show_from
show_dec n = show_from 10 10 n []

unfoldable pub show_hex : ℕ → List ℕ
unfolding show_from
show_hex n = b'0' ∷ b'x' ∷ show_from 16 8 n []
