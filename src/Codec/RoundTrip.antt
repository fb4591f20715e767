-- ===== src/Codec/RoundTrip.antt =====
-- What the decoder makes of the lines of an encoded frame.
use runtt.Shared.{ℕ, ◌+◌, ◌-◌, ◌*◌, ◌/◌, ◌%◌, ◌^◌, ◌<◌, ◌≡◌, ◌≢◌, refl, sym, ap, ◌∙◌, arith}
use runtt.Shared.{
  List, [], ◌∷◌, ◌++◌, length, length-append, take, take_all, drop, All, none, some, ok,
}
use runtt.Shared.{Option-cases, Bool-cases, inl, inr, true, false, ltb, lt→ltb, subst}
use runtt.Mcuboot.{Bytes}
use runtt.Codec.{Frame, Base64, Decoder, header_bytes, inner_bytes, encode, chunks, write_lines}
use runtt.Codec.{marker_start, marker_cont, be16, check_crc, decoded, assemble, push_line}
use runtt.Codec.{deliver, receive, parse_frame}
use runtt.Codec.Frames.{Fits, parse_frame-header_bytes}
use runtt.Codec.Stream.{receive_line}
use runtt.Codec.Lines.{concat, IsChunk, chunks-IsChunk, concat-chunks}
use mathlib.Core.List.{append-nil, append_assoc}

module _ {A : Type 0} where
  take-length-append : (xs ys : List A) → take (length xs) (xs ++ ys) ≡ xs
  take-length-append [] [] = refl
  take-length-append [] (y ∷ ys) = refl
  take-length-append (x ∷ xs) ys = ap (λ zs. x ∷ zs) (take-length-append xs ys)

  drop-length-append : (xs ys : List A) → drop (length xs) (xs ++ ys) ≡ ys
  drop-length-append [] ys = refl
  drop-length-append (x ∷ xs) ys = drop-length-append xs ys

module _ (crc : Bytes → ℕ) (b64 : Base64) (crc_fits : (x : Bytes) → crc x < 2 ^ 16) where
  abbrev pub body_of : Frame → Bytes
  body_of f = header_bytes f ++ f.payload

  check_crc-append : (body : Bytes) → check_crc crc b64 (body ++ be16 (crc body)) ≡ ok (some body)
  unfolding check_crc
  check_crc-append body =
      let l : length (body ++ be16 (crc body)) ≡ length body + 2 =
        length-append body (be16 (crc body)) in
      let s : length (body ++ be16 (crc body)) - 2 ≡ length body = omega (arith, l) in
      let big : ltb (length (body ++ be16 (crc body))) 2 ≡ false = ground (arith, l) in
      rw (big, s, drop-length-append, take-length-append) (ground (arith, crc_fits body))

  -- The bytes of a packet over a body, with its length prefix.
  abbrev packet : Bytes → Bytes
  packet body = be16 ((length body + 2) % 2 ^ 16) ++ (body ++ be16 (crc body))

  abbrev length_prefix : Bytes → ℕ
  length_prefix body =
      (length body + 2) % 2 ^ 16 / 256 % 256 * 256 + (length body + 2) % 2 ^ 16 % 256

  length_prefix_lem :
      (body : Bytes)
      → length body + 2 < 2 ^ 16
      → length_prefix body ≡ length (body ++ be16 (crc body))
  length_prefix_lem body h = omega (arith, length-append body (be16 (crc body)))

  -- A whole packet.
  decoded-packet :
      (d : Decoder) (body : Bytes)
      → length body + 2 < 2 ^ 16
      → decoded crc b64 d (some (packet body)) ≡ (record d { in_packet = false }, ok (some body))
  decoded-packet d body h =
      let whole : ltb (length (body ++ be16 (crc body))) (length (body ++ be16 (crc body)))
          ≡ false =
        ground arith in
      rw (length_prefix_lem body h, whole, take_all, check_crc-append)

  -- A proper prefix of a packet.
  decoded_prefix :
      (dec : Decoder) (body d rest : Bytes)
      → length body + 2 < 2 ^ 16
      → packet body ≡ d ++ rest
      → rest ≢ []
      → decoded crc b64 dec (some d) ≡ (dec, ok none)
  decoded_prefix dec body [] rest h e ne = refl
  decoded_prefix dec body (x ∷ []) rest h e ne = refl
  decoded_prefix dec body (hi ∷ lo ∷ ds) rest h e ne =
      let tail_eq : body ++ be16 (crc body) ≡ ds ++ rest = cc in
      let hi_eq : (length body + 2) % 2 ^ 16 / 256 % 256 ≡ hi = cc in
      let lo_eq : (length body + 2) % 2 ^ 16 % 256 ≡ lo = cc in
      let prefix : hi * 256 + lo ≡ length (body ++ be16 (crc body)) =
        rw (← hi_eq, ← lo_eq) (length_prefix_lem body h) in
      let short : length ds < length (ds ++ rest) = shorter ds rest ne in
      let less : ltb (length ds) (hi * 256 + lo) ≡ true =
        lt→ltb _ _ (omega (arith, prefix, ap length tail_eq, short)) in
      rw less
    where
      shorter : (xs ys : Bytes) → ys ≢ [] → length xs < length (xs ++ ys)
      shorter xs [] n = absurd (n refl)
      shorter xs (y ∷ ys) n = omega (arith, length-append xs (y ∷ ys))

  module _ (f : Frame) (fits : Fits f) where
    abbrev text : Bytes
    text = b64.encode (inner_bytes crc b64 f)

    body_short : length (body_of f) + 2 < 2 ^ 16
    body_short = unfold header_bytes in omega (arith, fits.payload)

    complete :
        assemble crc b64 (record { acc = text; in_packet = true })
        ≡ (record { acc = text; in_packet = false }, ok (some (body_of f)))
    unfolding inner_bytes
    complete = rw (b64.decode-encode _) (decoded-packet _ (body_of f) body_short)

    partial :
        (p q : Bytes)
        → text ≡ p ++ q
        → q ≢ []
        → assemble crc b64 (record { acc = p; in_packet = true })
          ≡ (record { acc = p; in_packet = true }, ok none)
    unfolding inner_bytes
    partial p q e ne = elim (Option-cases (b64.decode p)) [
      | inl undecodable ↦ rw undecodable
      | inr (d, decodes) ↦
          let (rest, whole, more) = b64.decode_prefix (inner_bytes crc b64 f) p q d e ne decodes in
          rw decodes (decoded_prefix _ (body_of f) d rest body_short whole more)
    ]

    push_start :
        (d : Decoder) (c : Bytes)
        → push_line crc b64 d (marker_start ++ c)
          ≡ assemble crc b64 (record { acc = c; in_packet = true })
    unfolding push_line
    push_start d c = refl

    push_cont :
        (p c : Bytes)
        → push_line crc b64 (record { acc = p; in_packet = true }) (marker_cont ++ c)
          ≡ assemble crc b64 (record { acc = p ++ c; in_packet = true })
    unfolding push_line
    push_cont p c = refl

    -- The decoder holds the text `p`, and the lines of the chunks `cs` follow.
    assembled :
        (n : ℕ) (cs : List Bytes) (p rest : Bytes)
        → All (IsChunk n) cs
        → text ≡ p ++ concat cs
        → (let pushed = assemble crc b64 (record { acc = p; in_packet = true }) in
            deliver crc b64 pushed.1
              (receive crc b64 pushed.0 [] (write_lines marker_cont cs ++ rest)))
          ≡ body_of f ∷ receive crc b64 (record { acc = text; in_packet = false }) [] rest
    unfolding write_lines
    assembled n [] p rest h e = let all : p ≡ text = sym (e ∙ append-nil p) in rw (all, complete)
    assembled n (c ∷ cs) p rest ((some_, short, plain), h) e =
        let held : Decoder = record { acc = p; in_packet = true } in
        let line : (marker_cont ++ (c ++ (b'\n' ∷ write_lines marker_cont cs))) ++ rest
            ≡ (marker_cont ++ c) ++ (b'\n' ∷ (write_lines marker_cont cs ++ rest)) =
          ap (λ xs. 0x04 ∷ 0x14 ∷ xs) (append_assoc c _ rest) in
        rw
          (
            partial p (c ++ concat cs) e
                (λ z. absurd (omega (arith, ap length z, length-append c (concat cs)))),
            line,
            receive_line crc b64 held [] (marker_cont ++ c) (write_lines marker_cont cs ++ rest)
                (omega arith, (omega arith, plain)),
            push_cont,
          )
          (assembled n cs (p ++ c) rest h (e ∙ sym (append_assoc p c (concat cs))))

    -- An encoding is not empty, since the packet is not.
    text_nonempty : text ≢ []
    text_nonempty z = go (b64.encode []) refl
      where
        x : Bytes
        x = inner_bytes crc b64 f

        decodes : b64.decode [] ≡ some x
        decodes = rw z at (b64.decode-encode x)

        long : 0 < length x
        long = unfold inner_bytes in omega arith

        go : (t : Bytes) → b64.encode [] ≡ t → ⊥
        go [] e =
            let none_left : some x ≡ some [] = sym decodes ∙ (rw e at (b64.decode-encode [])) in
            let empty : x ≡ [] = cc in omega (arith, long, ap length empty)
        go (t ∷ ts) e =
            let (rest, whole, more) =
              b64.decode_prefix [] [] (b64.encode []) x refl (λ w. cc (e, w)) decodes in
            omega (arith, long, ap length whole, length-append x rest)

    -- The first line starts the packet afresh, whatever the decoder held.
    receive-write_lines :
        (n : ℕ) (d : Decoder) (cs : List Bytes) (rest : Bytes)
        → All (IsChunk n) cs
        → text ≡ concat cs
        → cs ≢ []
        → receive crc b64 d [] (write_lines marker_start cs ++ rest)
          ≡ body_of f ∷ receive crc b64 (record { acc = text; in_packet = false }) [] rest
    receive-write_lines n d [] rest h e ne = absurd (ne refl)
    receive-write_lines n d (c ∷ cs) rest ((some_, short, plain), h) e ne =
        let line : write_lines marker_start (c ∷ cs) ++ rest
            ≡ (marker_start ++ c) ++ (b'\n' ∷ (write_lines marker_cont cs ++ rest)) =
          unfold write_lines in ap (λ xs. 0x06 ∷ 0x09 ∷ xs) (append_assoc c _ rest) in
        rw
          (
            line,
            receive_line crc b64 d [] (marker_start ++ c) (write_lines marker_cont cs ++ rest)
                (omega arith, (omega arith, plain)),
            push_start,
          )
          (assembled n cs c rest h e)

  -- For a CRC that fits 16 bits and the assumed base64: whatever the decoder held before, the wire
  -- text of a frame that fits the format, at any line limit that `encode` accepts, followed by any
  -- stream, yields the frame's body, and then what the stream yields; and the body parses back to
  -- the frame.
  pub receive-encode :
      (f : Frame) (max_line : ℕ) (wire rest : Bytes) (d : Decoder)
      → Fits f
      → encode crc b64 f max_line ≡ ok wire
      → (receive crc b64 d [] (wire ++ rest)
          ≡ body_of f
            ∷ receive crc b64
                (record { acc = b64.encode (inner_bytes crc b64 f); in_packet = false })
                []
                rest)
        × (parse_frame (body_of f) ≡ ok f)
  unfolding encode
  receive-encode f max_line wire rest d fits e = elim (Bool-cases (ltb max_line 16)) [
    | inl small ↦ cc (rw small at e)
    | inr wide ↦
        let t = b64.encode (inner_bytes crc b64 f) in
        let cs = chunks (length t) (max_line - 3) t in
        let big : 0 < max_line - 3 = ground arith in
        let all : concat cs ≡ t = concat-chunks (max_line - 3) big (length t) t (omega arith) in
        let same : write_lines marker_start cs ≡ wire = ground arith in
        (
          subst
              (λ w.
                receive crc b64 d [] (w ++ rest)
                ≡ body_of f ∷ receive crc b64 (record { acc = t; in_packet = false }) [] rest)
              same
              (receive-write_lines f fits (max_line - 3) d cs rest
                (chunks-IsChunk (max_line - 3) big (length t) t (b64.no_newline _)) (sym all)
                (λ z. text_nonempty f fits (sym all ∙ ap concat z))),
          parse_frame-header_bytes f fits,
        )
  ]
