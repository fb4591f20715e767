-- ===== src/Server/Arrival.antt =====
-- The loop of the server, turn by turn, as bytes arrive: nothing depends on where a read ends.
use runtt.Shared.{ℕ, ◌≡◌, refl, sym, ap, subst, ◌∙◌, true, Option, none, some}
use runtt.Shared.{List, [], ◌∷◌, ◌++◌, Result, ok, err, Run, ret, panic, stuck, ◌>>=◌, ◌==◌}
use runtt.Shared.{Bool-cases, inl, inr}
use runtt.Mcuboot.{Bytes}
use runtt.Cbor.{Cbor}
use runtt.Codec.{Frame, Base64, CodecError, encode, push_line}
use runtt.Codec.{deliver, receive}
use runtt.Server.{Server, max_line}
use runtt.Server.Attend.{
  plain, map_run, plainly, Schedule, idle, looks, reads, waits, wire_of, answered, attend,
  as_served, viewed, after,
}
use runtt.Server.Decoders.{respond-plain}
use runtt.Server.Loop.{
  Turn, Loop, Served, speak, speak_of, respond, send, encoded, take_byte, turn, serve, timed_out,
  then_serve,
}
use runtt.Server.Service.{encode-max_line, respond-Handled}

speak_quiet : (t : Turn) (s : Server) → s.chatter ≡ none → speak t s ≡ (s, [])
unfolding speak
speak_quiet t s quiet = ap (speak_of t s) quiet

module _ (crc : Bytes → ℕ) (b64 : Base64) (sha256 : Bytes → Bytes) (cbor : Cbor) where
  after_nil : {A : Type 0} (m : Run (A × Bytes)) → after [] m ≡ m
  after_nil (ret a) = refl
  after_nil panic = refl
  after_nil stuck = refl

  -- What a loop has written comes first.
  viewed-then_serve :
      (more : Loop → Run Served) (l : Loop) (out : Bytes)
      → map_run viewed (then_serve more (ok l, out)) ≡ after out (map_run viewed (more l))
  viewed-then_serve more l out = go (more l)
    where
      go :
          (m : Run Served)
          → map_run viewed (m >>= λ served. ret (served.0, out ++ served.1))
            ≡ map_run (λ r. (r.0, out ++ r.1)) (map_run viewed m)
      go (ret (ok l', out')) = refl
      go (ret (err e, out')) = refl
      go panic = refl
      go stuck = refl

  after-as_served :
      (out : Bytes) (m : Run (Server × Bytes))
      → after out (map_run as_served m) ≡ map_run as_served (map_run (λ r. (r.0, out ++ r.1)) m)
  after-as_served out (ret a) = refl
  after-as_served out panic = refl
  after-as_served out stuck = refl

  -- What comes after a byte: the turns left, the bytes left, and the stream that they make up.
  module _ (more : Loop → Run Served) (bs stream : Bytes)
      (rest : (s : Server) (line : Bytes)
        → s.chatter ≡ none
        → map_run viewed (more (record { server = s; line = line; pending = bs }))
          ≡ map_run as_served
              (attend crc b64 sha256 cbor (receive crc b64 s.decoder line stream) (plain s))) where
    abbrev on : Server → Bytes → Loop
    on s line = record { server = s; line = line; pending = bs }

    shown :
        (s : Server) (line out : Bytes)
        → s.chatter ≡ none
        → map_run viewed (then_serve more (ok (on s line), out))
          ≡ map_run as_served (
              map_run
                (λ r. (r.0, out ++ r.1))
                (attend crc b64 sha256 cbor (receive crc b64 s.decoder line stream) (plain s)))
    shown s line out quiet =
        viewed-then_serve more (on s line) out
        ∙ ap (after out) (rest s line quiet)
        ∙ after-as_served out _

    wired :
        (s : Server) (r : Result CodecError Bytes)
        → (wire : Bytes) × (r ≡ ok wire)
        → s.chatter ≡ none
        → map_run viewed (then_serve more (encoded true r (on s []) []))
          ≡ map_run as_served (
              map_run
                (λ x. (x.0, wire_of r ++ x.1))
                (attend crc b64 sha256 cbor (receive crc b64 s.decoder [] stream) (plain s)))
    wired s (ok wire) h quiet = shown s [] wire quiet
    wired s (err e) h quiet = cc (h.1)

    sent :
        (s : Server) (o : Option Frame)
        → s.chatter ≡ none
        → map_run viewed (then_serve more (send crc b64 true o (on s []) []))
          ≡ map_run as_served (
              answered crc b64 sha256 cbor
                (attend crc b64 sha256 cbor (receive crc b64 s.decoder [] stream))
                (plain s, o))
    sent s none quiet = shown s [] [] quiet
    sent s (some f) quiet = wired s (encode crc b64 f max_line) (encode-max_line crc b64 f) quiet

    responded :
        (s : Server) (m : Run (Server × Option Frame))
        → ((done : Server × Option Frame)
            → m ≡ ret done
            → (done.0.decoder ≡ s.decoder) × (done.0.chatter ≡ none))
        → map_run viewed
            ((m >>= λ done. ret (send crc b64 true done.1 (on done.0 []) [])) >>= then_serve more)
          ≡ map_run as_served (
              map_run plainly m
              >>= answered crc b64 sha256 cbor
                  (attend crc b64 sha256 cbor (receive crc b64 s.decoder [] stream)))
    responded s (ret (s', o)) h =
        let (same, quiet) = h (s', o) refl in
        subst
          (λ d.
            map_run viewed (then_serve more (send crc b64 true o (on s' []) []))
            ≡ map_run as_served (
                answered crc b64 sha256 cbor
                  (attend crc b64 sha256 cbor (receive crc b64 d [] stream)) (plain s', o)))
          same (sent s' o quiet)
    responded s panic h = refl
    responded s stuck h = refl

    packet :
        (s : Server) (body : Bytes)
        → s.chatter ≡ none
        → map_run viewed (
            (respond sha256 cbor s (ok (some body)) >>= λ done.
            ret (send crc b64 true done.1 (on done.0 []) []))
            >>= then_serve more)
          ≡ map_run as_served
              (attend crc b64 sha256 cbor (body ∷ receive crc b64 s.decoder [] stream) (plain s))
    unfolding attend
    packet s body quiet =
        responded s (respond sha256 cbor s (ok (some body))) (λ done e.
          let h = respond-Handled sha256 cbor s (ok (some body)) done e in
          (h.decoder, h.chatter ∙ quiet))
        ∙ ap
            (λ m. map_run as_served (
              m
              >>= answered crc b64 sha256 cbor
                  (attend crc b64 sha256 cbor (receive crc b64 s.decoder [] stream))))
            (sym (respond-plain sha256 cbor s body))

    -- The end of a line, of which the decoder has made `r`.
    lined :
        (s : Server) (r : Result CodecError (Option Bytes))
        → s.chatter ≡ none
        → map_run viewed (
            (respond sha256 cbor s r >>= λ done. ret (send crc b64 true done.1 (on done.0 []) []))
            >>= then_serve more)
          ≡ map_run as_served (
              attend crc b64 sha256 cbor
                (deliver crc b64 r (receive crc b64 s.decoder [] stream))
                (plain s))
    unfolding respond
    lined s (ok none) quiet = shown s [] [] quiet ∙ ap (map_run as_served) (after_nil _)
    lined s (err e) quiet = shown s [] [] quiet ∙ ap (map_run as_served) (after_nil _)
    lined s (ok (some body)) quiet = packet s body quiet

    -- One byte.
    took :
        (s : Server) (line : Bytes) (b : ℕ)
        → s.chatter ≡ none
        → map_run viewed (take_byte crc b64 sha256 cbor true (on s line) b [] >>= then_serve more)
          ≡ map_run as_served
              (attend crc b64 sha256 cbor (receive crc b64 s.decoder line (b ∷ stream)) (plain s))
    unfolding take_byte receive
    took s line b quiet = elim (Bool-cases (b == b'\n')) [
      | inl newline ↦
          let pushed = push_line crc b64 s.decoder line in
          rw newline (lined (record s { decoder = pushed.0 }) pushed.1 quiet)
      | inr other ↦
          rw other (shown s (line ++ (b ∷ [])) [] quiet ∙ ap (map_run as_served) (after_nil _))
    ]

  -- The turns of a server without chatter.
  module _ (t : Turn) (s : Server) (line : Bytes) (quiet : s.chatter ≡ none) where
    turn_looks :
        (b : ℕ) (bs : Bytes)
        → t.writable ≡ true
        → turn crc b64 sha256 cbor t (record { server = s; line = line; pending = b ∷ bs })
          ≡ take_byte crc b64 sha256 cbor true
              (record { server = s; line = line; pending = bs })
              b
              []
    unfolding turn
    turn_looks b bs writes = simp (speak_quiet t s quiet, writes)

    turn_reads :
        (b : ℕ) (bs : Bytes)
        → t.writable ≡ true
        → t.read ≡ ok (b ∷ bs)
        → turn crc b64 sha256 cbor t (record { server = s; line = line; pending = [] })
          ≡ take_byte crc b64 sha256 cbor true
              (record { server = s; line = line; pending = bs })
              b
              []
    unfolding turn
    turn_reads b bs writes gives = simp (speak_quiet t s quiet, writes, gives)

    turn_waits :
        t.read ≡ err timed_out
        → turn crc b64 sha256 cbor t (record { server = s; line = line; pending = [] })
          ≡ ret (ok (record { server = s; line = line; pending = [] }), [])
    unfolding turn
    turn_waits nothing = simp (speak_quiet t s quiet, nothing)

  pub serve-Schedule :
      {ts : List Turn} {pending stream : Bytes}
      → Schedule ts pending stream
      → (s : Server) (line : Bytes) → s.chatter ≡ none
      → map_run viewed
          (serve crc b64 sha256 cbor ts (record { server = s; line = line; pending = pending }))
        ≡ map_run as_served
            (attend crc b64 sha256 cbor (receive crc b64 s.decoder line stream) (plain s))
  unfolding serve receive attend
  serve-Schedule idle s line quiet = refl
  serve-Schedule (looks {ts} {bs} {stream} t b writes later) s line quiet =
      rw (turn_looks t s line quiet b bs writes)
        (took (serve crc b64 sha256 cbor ts) bs stream (serve-Schedule later) s line b quiet)
  serve-Schedule (reads {ts} {stream} t b bs writes gives later) s line quiet =
      rw (turn_reads t s line quiet b bs writes gives)
        (took (serve crc b64 sha256 cbor ts) bs stream (serve-Schedule later) s line b quiet)
  serve-Schedule (waits {ts} {stream} t nothing later) s line quiet =
      rw (turn_waits t s line quiet nothing) (
        viewed-then_serve (serve crc b64 sha256 cbor ts) _ []
        ∙ after_nil _
        ∙ serve-Schedule later s line quiet)
