-- ===== src/Demux/Routing.antt =====
-- What of a shared link reaches the client, and what the log.
use runtt.Shared.{
  ℕ, length, min, take, drop, ◌&&◌, ◌⊎◌, ◌≡◌, ◌≢◌, refl, sym, ap, ◌∙◌, arith, Bool, true, false,
  List, [], ◌∷◌, ◌++◌, Result, ok, map,
}
use runtt.Shared.{
  All, All-append, Bool-cases, inl, inr, ◌==◌, if◌then◌else◌, take-append-drop, none,
}
use runtt.Mcuboot.{Bytes}
use runtt.Codec.{Base64, Decoder, push_line, deliver, receive}
use runtt.Codec.Stream.{receive_line}
use runtt.Codec.Lines.{concat}
use runtt.Demux.{
  is_smp_line, starts_with, Link, opened, Reading, received, quiet, closed, route, feed, pump,
  next_line, read, hand_over, log_line, strip_cr,
}
use mathlib.Core.List.{append-nil, append_assoc}

feed_gone :
    (accepts : List Bytes → Bool) (s : Link) (bs : Bytes)
    → s.client_gone ≡ true
    → feed accepts s bs ≡ s
unfolding feed
feed_gone accepts s [] e = refl
feed_gone accepts s (b ∷ bs) e = rw e refl

feed-append :
    (accepts : List Bytes → Bool) (s : Link) (xs ys : Bytes)
    → feed accepts s (xs ++ ys) ≡ feed accepts (feed accepts s xs) ys
unfolding feed
feed-append accepts s [] ys = refl
feed-append accepts s (x ∷ xs) ys = elim (Bool-cases s.client_gone) [
  | inl gone ↦ rw gone (sym (feed_gone accepts (record s { client_gone = true }) ys refl))
  | inr here ↦ elim (Bool-cases (x == b'\n')) [
    | inl end ↦
        rw (here, end)
          (feed-append accepts (route accepts (record s { client_gone = false })) xs ys)
    | inr other ↦
        rw (here, other)
          (feed-append accepts (record s { line = s.line ++ (x ∷ []); client_gone = false }) xs ys)
  ]
]

-- A read that got data, or found the link quiet.
abbrev pub IsLive : Reading → Type 0
IsLive (received bs) = bs ≢ []
IsLive quiet = Unit {0}
IsLive closed = ⊥

abbrev pub bytes_of : Reading → Bytes
bytes_of (received bs) = bs
bytes_of _ = []

go_on :
    (accepts : List Bytes → Bool) (t later : Link) (ys : Bytes)
    → later ≡ feed accepts t ys
    → (if t.client_gone then t else later) ≡ feed accepts t ys
go_on accepts t later ys e = elim (Bool-cases t.client_gone) [
  | inl gone ↦ simp (gone) (sym (feed_gone accepts t ys gone))
  | inr here ↦ simp (here) e
]

-- How the link cuts the stream into reads does not matter: as long as it stays open, what is routed is a
-- function of the bytes alone, whenever the client goes away.
pub pump-concat :
    (accepts : List Bytes → Bool) (s : Link) (rs : List Reading)
    → All IsLive rs
    → pump accepts s rs ≡ feed accepts s (concat (map bytes_of rs))
unfolding pump
pump-concat accepts s [] h = unfold feed in refl
pump-concat accepts s (received [] ∷ rs) (l, h) = absurd (l refl)
pump-concat accepts s (received (b ∷ bs) ∷ rs) (l, h) =
    go_on accepts (feed accepts s (b ∷ bs)) _ (concat (map bytes_of rs))
      (pump-concat accepts (feed accepts s (b ∷ bs)) rs h)
    ∙ sym (feed-append accepts s (b ∷ bs) (concat (map bytes_of rs)))
pump-concat accepts s (quiet ∷ rs) (l, h) = pump-concat accepts s rs h
pump-concat accepts s (closed ∷ rs) (l, h) = absurd l

-- A client that stays.
abbrev pub always : List Bytes → Bool
always sent = true

-- The lines that go to the client, the first one beginning with `line`.
unfoldable sent_from : Bytes → Bytes → List Bytes
sent_from line [] = []
sent_from line (b ∷ bs) =
    let next = sent_from [] bs in
    let longer = sent_from (line ++ (b ∷ [])) bs in
    if b == b'\n' then if is_smp_line line then (line ++ (b'\n' ∷ [])) ∷ next else next else longer

feed-sent :
    (s : Link) (bs : Bytes)
    → s.client_gone ≡ false
    → (feed always s bs).sent ≡ s.sent ++ sent_from s.line bs
unfolding feed sent_from route
feed-sent s [] e = sym (append-nil s.sent)
feed-sent s (b ∷ bs) e = elim (Bool-cases (b == b'\n')) [
  | inr other ↦
      rw (e, other)
        (feed-sent (record s { line = s.line ++ (b ∷ []); client_gone = false }) bs refl)
  | inl end ↦ elim (Bool-cases (is_smp_line s.line)) [
    | inl smp ↦
        rw (e, end, smp)
          (feed-sent
              (record s {
                line = [];
                sent = s.sent ++ ((s.line ++ (b'\n' ∷ [])) ∷ []);
                client_gone = false;
              })
              bs refl
            ∙ append_assoc s.sent _ _)
    | inr text ↦
        rw (e, end, text)
          (feed-sent
            (record s {
              line = [];
              logged = log_line (strip_cr s.line) s.logged;
              client_gone = false;
            })
            bs refl)
  ]
]

module _ (crc : Bytes → ℕ) (b64 : Base64) where
  push_line-text :
      (d : Decoder) (line : Bytes)
      → is_smp_line line ≡ false
      → push_line crc b64 d line ≡ (d, ok none)
  unfolding push_line is_smp_line starts_with
  push_line-text d [] h = refl
  push_line-text d (m0 ∷ []) h = refl
  push_line-text d (m0 ∷ m1 ∷ rest) h =
      let start : ((m0 == 0x06) && (m1 == 0x09)) ≡ false = ground arith in
      let cont : ((m0 == 0x04) && (m1 == 0x14)) ≡ false = ground arith in rw (start, cont) refl

  receive-sent_from :
      (d : Decoder) (line bs : Bytes)
      → All (λ c. c ≢ b'\n') line
      → receive crc b64 d line bs ≡ receive crc b64 d [] (concat (sent_from line bs))
  unfolding receive sent_from
  receive-sent_from d line [] h = refl
  receive-sent_from d line (b ∷ bs) h = elim (Bool-cases (b == b'\n')) [
    | inr other ↦ rw other (
        receive-sent_from d (line ++ (b ∷ [])) bs (All-append _ line (b ∷ []) h (ground arith, tt)))
    | inl end ↦ elim (Bool-cases (is_smp_line line)) [
      | inr text ↦ rw (end, text, push_line-text d line text) (receive-sent_from d [] bs tt)
      | inl smp ↦
          let pushed = push_line crc b64 d line in
          let rest = concat (sent_from [] bs) in
          rw (end, smp)
            (ap (λ r. deliver crc b64 pushed.1 r) (receive-sent_from pushed.0 [] bs tt)
              ∙ sym (receive_line crc b64 d [] line rest h)
              ∙ sym (ap (λ r. receive crc b64 d [] r) (append_assoc line (b'\n' ∷ []) rest)))
    ]
  ]

  -- For any CRC and the assumed base64: whatever bytes arrive on the shared link, the lines that
  -- reach a client that stays give a receiver the same frame bodies, in the same order, as the
  -- whole stream.
  pub receive-feed :
      (d : Decoder) (bs : Bytes)
      → receive crc b64 d [] (concat (feed always opened bs).sent) ≡ receive crc b64 d [] bs
  receive-feed d bs = rw (feed-sent opened bs refl) (sym (receive-sent_from d [] bs tt))

handed :
    (size : ℕ) (xs pending' got : Bytes)
    → hand_over size xs ≡ (pending', ok got)
    → got ++ pending' ≡ xs
handed size xs pending' got e =
    let n = min size (length xs) in
    let back : drop n xs ≡ pending' = ap (λ p. p.0) e in
    let front : take n xs ≡ got = ok_injective (ap (λ p. p.1) e) in
    rw (← back, ← front) (take-append-drop n xs)
  where
    ok_injective : {x y : Bytes} → ◌≡◌ {A = Result (Unit {0}) Bytes} (ok x) (ok y) → x ≡ y
    ok_injective z = cc

-- Reads of the demultiplexed link lose nothing and change no order: what a read hands over, followed by
-- what stays pending, is what was pending, or the next line where nothing was.
read_lossless :
    (size : ℕ) (line pending : Bytes) (pending' got : Bytes)
    → read size (next_line line) pending ≡ (pending', ok got)
    → ((pending ≡ []) × (got ++ pending' ≡ line)) ⊎ (got ++ pending' ≡ pending)
unfolding read
read_lossless size line [] pending' got e = inl (refl, handed size line pending' got e)
read_lossless size line (p ∷ ps) pending' got e = inr (handed size (p ∷ ps) pending' got e)
