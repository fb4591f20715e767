-- ===== src/Logs.antt =====
-- `pump_logs` of crates/runtt/src/flash.rs: the log channel, line by line. The stream is a state with a
-- `read`; `BufReader` and `lines` of the standard library are written out.
pub mod Lines
use runtt.Shared.{ℕ, zero, suc, ◌-◌, ◌==◌, Bool, true, false, List, [], ◌∷◌, ◌++◌, Result, ok, err}
use runtt.Shared.{if◌then◌else◌, ltb}
use runtt.Shared.Text.{in_range}
use runtt.Mcuboot.{Bytes}
use runtt.Can.{IoKind, timed_out, interrupted, invalid_data}

-- `from_utf8`: `more` continuation bytes are due, the first of them from `lo` to `hi`.
unfoldable pub utf8_from : (more lo hi : ℕ) → Bytes → Bool
utf8_from zero lo hi [] = true
utf8_from (suc more) lo hi [] = false
utf8_from (suc more) lo hi (b ∷ bs) =
    let rest = utf8_from more 0x80 0xbf bs in if in_range lo hi b then rest else false
utf8_from zero lo hi (b ∷ bs) =
    let plain = utf8_from 0 0 0 bs in
    let one = utf8_from 1 0x80 0xbf bs in
    let two_e0 = utf8_from 2 0xa0 0xbf bs in
    let two_ed = utf8_from 2 0x80 0x9f bs in
    let two = utf8_from 2 0x80 0xbf bs in
    let three_f0 = utf8_from 3 0x90 0xbf bs in
    let three_f4 = utf8_from 3 0x80 0x8f bs in
    let three = utf8_from 3 0x80 0xbf bs in
    if ltb b 0x80
    then plain
    else if in_range 0xc2 0xdf b
    then one
    else if b == 0xe0
    then two_e0
    else if b == 0xed
    then two_ed
    else if in_range 0xe1 0xef b
    then two
    else if b == 0xf0
    then three_f0
    else if b == 0xf4
    then three_f4
    else if in_range 0xf1 0xf3 b
    then three
    else false

abbrev pub is_utf8 : Bytes → Bool
is_utf8 bs = utf8_from 0 0 0 bs

-- A line without the carriage return before its end.
unfoldable pub without_cr : Bytes → Bytes
without_cr [] = []
without_cr (c ∷ []) = if c == b'\r' then [] else c ∷ []
without_cr (c ∷ d ∷ bs) = c ∷ without_cr (d ∷ bs)

-- How the pump stands: it reads on, with the part of a line that it has, or it has returned.
pub data Pump : Type 0 where
  reading : (partial : Bytes) → Pump
  returned : Result IoKind (Unit {0}) → Pump

abbrev pub print : Bytes → Pump × List Bytes → Pump × List Bytes
print line (p, lines) = (p, line ∷ lines)

-- The bytes of one read, after the part `partial` of a line: each whole line is printed. A line that is
-- not UTF-8 is an error.
unfoldable pub scan : Bytes → Bytes → Pump × List Bytes
scan partial [] = (reading partial, [])
scan partial (b ∷ bs) =
    let longer = scan (partial ++ (b ∷ [])) bs in
    let next = scan [] bs in
    if b == b'\n'
    then (if is_utf8 partial
        then print (without_cr partial) next
        else (returned (err invalid_data), []))
    else longer

-- A read of nothing: what is left is a line, after which the loop reads on; where nothing is left, the
-- log has ended.
unfoldable pub finish : Bytes → Pump × List Bytes
finish [] = (returned (ok tt), [])
finish (b ∷ bs) =
    if is_utf8 (b ∷ bs) then (reading [], (b ∷ bs) ∷ []) else (returned (err invalid_data), [])

-- What one read means: an expired timeout loses the part of a line, and the reader tries again after
-- an interruption.
abbrev pub take_reading : Bytes → Result IoKind Bytes → Pump × List Bytes
take_reading partial (ok []) = finish partial
take_reading partial (ok (b ∷ bs)) = scan partial (b ∷ bs)
take_reading partial (err interrupted) = (reading partial, [])
take_reading partial (err timed_out) = (reading [], [])
take_reading partial (err e) = (returned (err e), [])

module _ {S : Type 0} (read : S → Result IoKind Bytes × S) where
  abbrev pub pumped :
      (Bytes → S → (Pump × List Bytes) × S) → (Pump × List Bytes) × S → (Pump × List Bytes) × S
  pumped more ((returned r, lines), s) = ((returned r, lines), s)
  pumped more ((reading partial, lines), s) =
      let next = more partial s in ((next.0.0, lines ++ next.0.1), next.1)

  -- The loop, for as many reads as `reads`, from the part `partial` of a line: how it then stands, and
  -- the lines printed.
  unfoldable pub pump_logs : (reads : ℕ) → Bytes → S → (Pump × List Bytes) × S
  pump_logs zero partial s = ((reading partial, []), s)
  pump_logs (suc n) partial s =
      let one = read s in pumped (pump_logs n) (take_reading partial one.0, one.1)
