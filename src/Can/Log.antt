-- ===== src/Can/Log.antt =====
-- `CanLogReader::read`: log frames as a stream of bytes. What a `read` of the raw socket gives is an
-- argument, over a state.
use runtt.Shared.{
  ℕ, zero, suc, ◌+◌, ◌-◌, ◌≡◌, ◌≤◌, refl, ap, sym, ◌∙◌, arith, List, [], ◌∷◌, ◌++◌, min,
}
use runtt.Shared.{Result, ok, err, length, take, drop, ◌==◌, if◌then◌else◌, Bool-cases, inl, inr}
use runtt.Shared.{take-append-drop}
use runtt.Mcuboot.{Bytes}
use runtt.Can.{CanLogReader, IoKind, would_block}
use mathlib.Core.List.{append_assoc}

-- `struct can_frame`; `payload` is its data, 8 bytes.
pub record CanFrame : Type 0 where
  pub can_id : ℕ
  pub len : ℕ
  pub payload : Bytes

-- The bytes that a frame carries.
abbrev pub payload_of : CanFrame → Bytes
payload_of frame = take (min frame.len (length frame.payload)) frame.payload

-- The end of `read`: as much of what is pending as the buffer takes.
unfoldable pub drain : CanLogReader → ℕ → CanLogReader × Bytes
drain r buf_len =
    let n = min (length r.pending - r.at) buf_len in
    (record r { at = r.at + n }, take n (drop r.at r.pending))

module _ {W : Type 0} (recv : W → Result IoKind CanFrame × W) where
  abbrev pub refilled :
      CanLogReader → ℕ → Result IoKind CanFrame × W → Result IoKind Bytes × (CanLogReader × W)
  refilled r buf_len (err e, w) = (err e, (r, w))
  refilled r buf_len (ok frame, w) =
      let drained = drain (record r { pending = payload_of frame; at = 0 }) buf_len in
      (ok drained.1, (drained.0, w))

  unfoldable pub read_log : ℕ → CanLogReader × W → Result IoKind Bytes × (CanLogReader × W)
  read_log buf_len (r, w) =
      if buf_len == 0
      then (ok [], (r, w))
      else if r.at == length r.pending
      then refilled r buf_len (recv w)
      else let drained = drain r buf_len in (ok drained.1, (drained.0, w))

-- The bytes that have been received and not read.
abbrev pub unread : CanLogReader → Bytes
unread r = drop r.at r.pending

abbrev pub payloads : List CanFrame → Bytes
payloads [] = []
payloads (frame ∷ frames) = payload_of frame ++ payloads frames

-- A socket that has received these frames; then its timeout expires.
abbrev pub arrived : List CanFrame → Result IoKind CanFrame × List CanFrame
arrived [] = (err would_block, [])
arrived (frame ∷ frames) = (ok frame, frames)

abbrev pub got : Result IoKind Bytes → Bytes
got (ok bytes) = bytes
got (err e) = []

-- Reads into buffers of these sizes: all that they give, and the reader and the frames left.
unfoldable pub read_all :
    List ℕ → CanLogReader × List CanFrame → Bytes × (CanLogReader × List CanFrame)
read_all [] s = ([], s)
read_all (size ∷ sizes) s =
    let one = read_log arrived size s in
    let rest = read_all sizes one.1 in (got one.0 ++ rest.0, rest.1)

-- The cursor stays within what is pending.
pub record Accounts (s : CanLogReader × List CanFrame) (out : Bytes)
    (s' : CanLogReader × List CanFrame) : Type 0 where
  pub cursor : s'.0.at ≤ length s'.0.pending
  pub whole : out ++ (unread s'.0 ++ payloads s'.1) ≡ unread s.0 ++ payloads s.1

module _ {A : Type 0} where
  drop_nil : (n : ℕ) → drop {A = A} n [] ≡ []
  drop_nil zero = refl
  drop_nil (suc n) = refl

  drop-drop : (n m : ℕ) (xs : List A) → drop (n + m) xs ≡ drop m (drop n xs)
  drop-drop zero m xs = ap (λ k. drop k xs) (omega arith)
  drop-drop (suc n) m [] = drop_nil (suc n + m) ∙ sym (drop_nil m)
  drop-drop (suc n) m (x ∷ xs) =
      let e : suc n + m ≡ suc (n + m) = omega arith in
      ap (λ k. drop k (x ∷ xs)) e ∙ drop-drop n m xs

  drop_all : (xs : List A) → drop (length xs) xs ≡ []
  drop_all [] = refl
  drop_all (x ∷ xs) = drop_all xs

drain-Accounts :
    (r : CanLogReader) (size : ℕ) (frames : List CanFrame)
    → r.at ≤ length r.pending
    → Accounts (r, frames) (drain r size).1 ((drain r size).0, frames)
unfolding drain
drain-Accounts r size frames h = record {
  cursor = omega (arith, h);
  whole = rw (drop-drop r.at (min (length r.pending - r.at) size) r.pending) (
      sym (append_assoc _ _ (payloads frames))
      ∙ ap (λ xs. xs ++ payloads frames) (take-append-drop _ _));
}

refilled-Accounts :
    (size : ℕ) (r : CanLogReader) (frames : List CanFrame)
    → r.at ≡ length r.pending
    → (let one = refilled arrived r size (arrived frames) in Accounts (r, frames) (got one.0) one.1)
refilled-Accounts size r [] e = record { cursor = omega (arith, e); whole = refl }
refilled-Accounts size r (frame ∷ frames) e =
    let r' = record r { pending = payload_of frame; at = 0 } in
    let a = drain-Accounts r' size frames (omega arith) in
    let none_left : unread r ≡ [] = ap (λ k. drop k r.pending) e ∙ drop_all r.pending in
    record { cursor = a.cursor; whole = rw none_left (a.whole) }

read_log-Accounts :
    (size : ℕ) (s : CanLogReader × List CanFrame)
    → s.0.at ≤ length s.0.pending
    → (let one = read_log arrived size s in Accounts s (got one.0) one.1)
unfolding read_log
read_log-Accounts size (r, frames) h = elim (Bool-cases (size == 0)) [
  | inl none_ ↦ rw none_ (record { cursor = h; whole = refl })
  | inr some_ ↦ elim (Bool-cases (r.at == length r.pending)) [
    | inl empty ↦ rw (some_, empty) (refilled-Accounts size r frames (ground arith))
    | inr more ↦ rw (some_, more) (drain-Accounts r size frames h)
  ]
]

-- From a reader whose cursor is within what it has pending, for any log frames received and any sizes
-- of buffers: what the reads give, in order, then what the reader holds, then the payloads of the
-- frames left, is what the reader held and the payloads of the frames received: no byte is lost,
-- doubled or reordered, and the cursor stays within what is pending.
pub read_all-Accounts :
    (sizes : List ℕ) (s : CanLogReader × List CanFrame)
    → s.0.at ≤ length s.0.pending
    → (let all = read_all sizes s in Accounts s all.0 all.1)
unfolding read_all
read_all-Accounts [] s h = record { cursor = h; whole = refl }
read_all-Accounts (size ∷ sizes) s h =
    let first = read_log arrived size s in
    let later = read_all sizes first.1 in
    let one = read_log-Accounts size s h in
    let rest = read_all-Accounts sizes first.1 one.cursor in
    record {
      cursor = rest.cursor;
      whole =
          append_assoc (got first.0) later.0 (unread later.1.0 ++ payloads later.1.1)
          ∙ ap (λ xs. got first.0 ++ xs) rest.whole
          ∙ one.whole;
    }
