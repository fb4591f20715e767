-- ===== src/Logs/Lines.antt =====
-- What of a log reaches the output, and what ends it.
use runtt.Shared.{ℕ, suc, ◌≡◌, ◌≢◌, refl, ap, sym, ◌∙◌, arith, true, false, Bool-cases, inl, inr}
use runtt.Shared.{
  List, [], ◌∷◌, ◌++◌, Result, ok, err, length, All, All-append, ◌==◌, if◌then◌else◌,
}
use runtt.Shared.Text.{split, split-append}
use runtt.Mcuboot.{Bytes}
use runtt.Can.{IoKind, CanLogReader, would_block, invalid_data}
use runtt.Can.Log.{CanFrame, payload_of, payloads, arrived, read_log, drain}
use runtt.Shared.{◌≤◌, ◌+◌, ◌-◌, min, take_all}
use runtt.Logs.{
  Pump, reading, returned, is_utf8, without_cr, print, scan, take_reading, pumped, pump_logs,
}
use mathlib.Core.List.{append-nil, append_assoc}

-- What the lines of a log are to give: each is printed, up to the first that is not UTF-8, and the last
-- is not a whole line yet.
unfoldable pub print_lines : List Bytes → Pump × List Bytes
print_lines [] = (reading [], [])
print_lines (partial ∷ []) = (reading partial, [])
print_lines (line ∷ next ∷ lines) =
    let rest = print_lines (next ∷ lines) in
    if is_utf8 line then print (without_cr line) rest else (returned (err invalid_data), [])

-- What comes after a part of the log.
abbrev pub and_on : (Bytes → Pump × List Bytes) → Pump × List Bytes → Pump × List Bytes
and_on more (returned r, lines) = (returned r, lines)
and_on more (reading partial, lines) = ((more partial).0, lines ++ (more partial).1)

scan-append :
    (partial xs ys : Bytes) → scan partial (xs ++ ys) ≡ and_on (λ q. scan q ys) (scan partial xs)
unfolding scan
scan-append partial [] ys = refl
scan-append partial (b ∷ xs) ys = elim (Bool-cases (b == b'\n')) [
  | inl newline ↦ elim (Bool-cases (is_utf8 partial)) [
    | inl good ↦ rw (newline, good, scan-append [] xs ys) (printed (scan [] xs))
    | inr bad ↦ rw (newline, bad) refl
  ]
  | inr other ↦ rw other (scan-append (partial ++ (b ∷ [])) xs ys)
]
  where
    printed :
        (r : Pump × List Bytes)
        → print (without_cr partial) (and_on (λ q. scan q ys) r)
          ≡ and_on (λ q. scan q ys) (print (without_cr partial) r)
    printed (returned r, lines) = refl
    printed (reading q, lines) = refl

split-Free : (xs : Bytes) → All (λ c. c ≢ b'\n') xs → split b'\n' xs ≡ xs ∷ []
unfolding split
split-Free [] h = refl
split-Free (c ∷ xs) (n, h) =
    let other : (c == b'\n') ≡ false = ground arith in rw (other, split-Free xs h) refl

-- A text has a first part.
split_cases : (xs : Bytes) → (p : Bytes) × (ps : List Bytes) × (split b'\n' xs ≡ p ∷ ps)
unfolding split
split_cases [] = ([], [], refl)
split_cases (c ∷ xs) =
    let (p, ps, e) = split_cases xs in
    elim (Bool-cases (c == b'\n')) [
      | inl newline ↦ rw newline ([], split b'\n' xs, refl)
      | inr other ↦ rw (other, e) (c ∷ p, ps, refl)
    ]

print_lines-cons :
    (line : Bytes) (xs : Bytes)
    → print_lines (line ∷ split b'\n' xs) ≡ (
        if is_utf8 line
        then print (without_cr line) (print_lines (split b'\n' xs))
        else (returned (err invalid_data), []))
print_lines-cons line xs = let (p, ps, e) = split_cases xs in rw e (unfold print_lines in refl)

scan-print_lines :
    (partial xs : Bytes)
    → All (λ c. c ≢ b'\n') partial
    → scan partial xs ≡ print_lines (split b'\n' (partial ++ xs))
unfolding scan print_lines
scan-print_lines partial [] h = rw (append-nil, split-Free partial h) refl
scan-print_lines partial (b ∷ xs) h = elim (Bool-cases (b == b'\n')) [
  | inl newline ↦
      let is_newline : b ≡ b'\n' = ground arith in
      let whole : print_lines (split b'\n' (partial ++ (b ∷ xs)))
          ≡ print_lines (partial ∷ split b'\n' xs) =
        ap (λ c. print_lines (split b'\n' (partial ++ (c ∷ xs)))) is_newline
        ∙ ap print_lines (split-append b'\n' partial xs h) in
      rw (newline, whole, print_lines-cons, ← scan-print_lines [] xs tt) refl
  | inr other ↦
      let plain : b ≢ b'\n' = ground arith in
      rw
        (
          other,
          scan-print_lines (partial ++ (b ∷ [])) xs
              (All-append (λ c. c ≢ b'\n') partial (b ∷ []) h (plain, tt)),
          append_assoc,
        )
        refl
]

-- `BufReader`'s buffer.
abbrev pub buf_size : ℕ
buf_size = 8192

-- A frame that carries something, and no more than the buffer takes.
abbrev pub Carries : CanFrame → Type 0
Carries frame = (payload_of frame ≢ []) × (length (payload_of frame) ≤ buf_size)

read_whole :
    (r : CanLogReader) (frame : CanFrame) (frames : List CanFrame)
    → r.at ≡ length r.pending
    → length (payload_of frame) ≤ buf_size
    → read_log arrived buf_size (r, frame ∷ frames) ≡ (
      ok (payload_of frame),
      (record r { pending = payload_of frame; at = length (payload_of frame) }, frames),
    )
unfolding read_log drain
read_whole r frame frames e h =
    let empty : (r.at == length r.pending) ≡ true = ground arith in
    let n : min (length (payload_of frame) - 0) buf_size ≡ length (payload_of frame) =
      omega (arith, h) in
    let at : 0 + length (payload_of frame) ≡ length (payload_of frame) = omega arith in
    rw (empty, n, at, take_all) refl

pumped-and_on :
    {S : Type 0} (read : S → Result IoKind Bytes × S) (n : ℕ) (r : Pump × List Bytes) (s : S)
    → (pumped read (pump_logs read n) (r, s)).0 ≡ and_on (λ q. (pump_logs read n q s).0) r
pumped-and_on read n (returned e, lines) s = refl
pumped-and_on read n (reading q, lines) s = refl

take_reading-some :
    (partial bytes : Bytes) → bytes ≢ [] → take_reading partial (ok bytes) ≡ scan partial bytes
take_reading-some partial [] h = absurd (h refl)
take_reading-some partial (b ∷ bs) h = refl

-- What an expired receive timeout makes of the CAN log.
abbrev pub expired : Bytes → Pump × List Bytes
expired q = (returned (err would_block), [])

and_on-and_on :
    (f g : Bytes → Pump × List Bytes) (r : Pump × List Bytes)
    → and_on (λ q. and_on g (f q)) r ≡ and_on g (and_on f r)
and_on-and_on f g (returned e, lines) = refl
and_on-and_on f g (reading q, lines) = go (f q)
  where
    go :
        (r : Pump × List Bytes)
        → ((and_on g r).0, lines ++ (and_on g r).1) ≡ and_on g (r.0, lines ++ r.1)
    go (returned e, more) = refl
    go (reading q', more) = ap (λ xs. ((g q').0, xs)) (sym (append_assoc lines more (g q').1))

pump_logs-expired :
    (frames : List CanFrame) (r : CanLogReader) (partial : Bytes)
    → All Carries frames
    → r.at ≡ length r.pending
    → (pump_logs (read_log arrived buf_size) (suc (length frames)) partial (r, frames)).0
      ≡ and_on expired (scan partial (payloads frames))
unfolding pump_logs read_log scan
pump_logs-expired [] r partial h e =
    let empty : (r.at == length r.pending) ≡ true = ground arith in rw empty refl
pump_logs-expired (frame ∷ frames) r partial ((some_, fits), h) e =
    let p = payload_of frame in
    let n = suc (length frames) in
    let r' = record r { pending = p; at = length p } in
    rw
      (
        read_whole r frame frames e fits,
        take_reading-some partial p some_,
        scan-append partial p (payloads frames),
      )
      (pumped-and_on (read_log arrived buf_size) n (scan partial p) (r', frames)
        ∙ ap (λ f. and_on f (scan partial p)) (λ i q. pump_logs-expired frames r' q h refl i)
        ∙ and_on-and_on (λ q. scan q (payloads frames)) expired (scan partial p))

-- The log of a CAN target: for a reader with nothing pending, and frames that each carry something and
-- fit the buffer, after which no frame arrives before the receive timeout expires: whatever way the
-- lines are cut into frames, the lines printed are the whole lines of the payloads put together, up to
-- the first that is not UTF-8; and then the pump has returned with an error, that of the first line
-- which is not UTF-8 where there is one, and otherwise `WouldBlock`, for the timeout.
pub pump_logs-can :
    (frames : List CanFrame) (r : CanLogReader)
    → All Carries frames
    → r.at ≡ length r.pending
    → (pump_logs (read_log arrived buf_size) (suc (length frames)) [] (r, frames)).0
      ≡ and_on expired (print_lines (split b'\n' (payloads frames)))
pump_logs-can frames r h e =
    pump_logs-expired frames r [] h e
    ∙ ap (and_on expired) (scan-print_lines [] (payloads frames) tt)
