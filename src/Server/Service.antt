-- ===== src/Server/Service.antt =====
-- What the server does over any number of turns.
use runtt.Shared.{ℕ, ◌≡◌, ◌≢◌, refl, sym, subst, ◌∙◌, arith, Bool, true, false, Option, none, some}
use runtt.Shared.{List, [], ◌∷◌, ◌++◌, Result, ok, err, Run, ret, ◌==◌, ◌||◌}
use runtt.Shared.{Ensures, Ensures-ret, Ensures-if, Ensures->>=}
use runtt.Mcuboot.{Bytes}
use runtt.Cbor.{Cbor}
use runtt.Codec.{Frame, Base64, CodecError, parse_frame, encode, push_line}
use runtt.Device.Invariant.{Reach, here, Reach-trans, Reach-Unconfirmed, IsSound, Unconfirmed}
use runtt.Server.{Server, max_line}
use runtt.Server.Loop.{
  Turn, Loop, Served, write_failed, ReadError, speak, speak_of, withholds, hang_up, answer_request,
  respond, send, encoded, take_byte, turn, serve, filled, refilled, then_serve, timed_out,
  interrupted, other_error,
}
use runtt.Server.Replies.{dispatch-Accounted}

-- What a packet may do to a server.
pub record Handled (sha256 : Bytes → Bytes) (s : Server) (r : Server × Option Frame) : Type 0 where
  pub board : Reach sha256 s.dev r.0.dev
  pub silent : s.silent ≡ true → r.0.silent ≡ true
  pub withheld : s.silent ≡ true → r.1 ≡ none
  pub decoder : r.0.decoder ≡ s.decoder
  pub chatter : r.0.chatter ≡ s.chatter

Handled-none : {sha256 : Bytes → Bytes} (s : Server) → Handled sha256 s (s, none)
Handled-none s = record {
  board = here;
  silent = λ h. h;
  withheld = λ _. refl;
  decoder = refl;
  chatter = refl;
}

-- What a turn may do to the loop.
pub record Continues (sha256 : Bytes → Bytes) (l l' : Loop) (out : Bytes) : Type 0 where
  pub board : Reach sha256 l.server.dev l'.server.dev
  pub silent : l.server.silent ≡ true → l'.server.silent ≡ true
  pub chatter : l'.server.chatter ≡ l.server.chatter
  pub quiet : l.server.silent ≡ true → l.server.chatter ≡ none → out ≡ []

-- The loop goes on, or a write has failed, which a silent server does not notice.
abbrev pub Endures : (Bytes → Bytes) → Loop → Served → Type 0
Endures sha256 l (ok l', out) = Continues sha256 l l' out
Endures sha256 l (err e, out) = (e ≡ write_failed) × (l.server.silent ≢ true)

module _ (sha256 : Bytes → Bytes) (cbor : Cbor) where
  answer_request-Handled :
      (s : Server) (r : Result CodecError Frame)
      → Ensures (Handled sha256 s) (answer_request sha256 cbor s r)
  unfolding answer_request
  answer_request-Handled s (err e) = Ensures-ret (Handled sha256 s) (Handled-none s)
  answer_request-Handled s (ok req) =
      Ensures-if (Handled sha256 s) (s.silent || withholds s.dev.fault req)
        (λ _. Ensures-ret (Handled sha256 s) (Handled-none s))
        λ speaks r e.
          let a = dispatch-Accounted sha256 cbor s req r e in
          let awake : s.silent ≢ true = ground arith in
          record {
            board = a.board;
            silent = λ h. absurd (awake h);
            withheld = λ h. absurd (awake h);
            decoder = a.decoder;
            chatter = a.chatter;
          }

  pub respond-Handled :
      (s : Server) (r : Result CodecError (Option Bytes))
      → Ensures (Handled sha256 s) (respond sha256 cbor s r)
  unfolding respond
  respond-Handled s (ok (some body)) = answer_request-Handled s (parse_frame body)
  respond-Handled s (ok none) = Ensures-ret (Handled sha256 s) (Handled-none s)
  respond-Handled s (err e) = Ensures-ret (Handled sha256 s) (Handled-none s)

module _ (crc : Bytes → ℕ) (b64 : Base64) where
  -- The line limit is one that `encode` accepts.
  pub encode-max_line : (f : Frame) → (wire : Bytes) × (encode crc b64 f max_line ≡ ok wire)
  unfolding encode
  encode-max_line f = (_, refl)

  encoded-Endures :
      {sha256 : Bytes → Bytes} (writable : Bool) (wire : Bytes) (l l' : Loop) (out : Bytes)
      → Continues sha256 l l' out
      → l.server.silent ≢ true
      → Endures sha256 l (encoded writable (ok wire) l' out)
  encoded-Endures true wire l l' out c awake = record {
    board = c.board;
    silent = c.silent;
    chatter = c.chatter;
    quiet = λ s. absurd (awake s);
  }
  encoded-Endures false wire l l' out c awake = (refl, awake)

  send-Endures :
      {sha256 : Bytes → Bytes} (writable : Bool) (resp : Option Frame) (l l' : Loop) (out : Bytes)
      → Continues sha256 l l' out
      → (l.server.silent ≡ true → resp ≡ none)
      → Endures sha256 l (send crc b64 writable resp l' out)
  send-Endures writable none l l' out c h = c
  send-Endures {sha256} writable (some f) l l' out c h =
      let (wire, e) = encode-max_line f in
      subst (λ r. Endures sha256 l (encoded writable r l' out)) (sym e)
        (encoded-Endures writable wire l l' out c (λ s. cc (h s)))

-- A turn starts with the log line.
record Spoken (s : Server) (chatter : Option Bytes) (r : Server × Bytes) : Type 0 where
  dev : r.0.dev ≡ s.dev
  silent : r.0.silent ≡ s.silent
  same : r.0.chatter ≡ s.chatter
  quiet : chatter ≡ none → r.1 ≡ []

speak_of-Spoken :
    (t : Turn) (s : Server) (chatter : Option Bytes) → Spoken s chatter (speak_of t s chatter)
speak_of-Spoken t s none = record { dev = refl; silent = refl; same = refl; quiet = λ _. refl }
speak_of-Spoken t s (some message) = record {
  dev = ground arith;
  silent = ground arith;
  same = ground arith;
  quiet = λ e. cc;
}

-- The loop with its server as it was but for the log line, with another line or other bytes pending.
started :
    {sha256 : Bytes → Bytes} (l : Loop) (r : Server × Bytes)
    → Spoken l.server l.server.chatter r
    → Continues sha256 l (record l { server = r.0 }) r.1
started {sha256} l r s = record {
  board = subst (λ d. Reach sha256 l.server.dev d) (sym s.dev) here;
  silent = λ q. s.silent ∙ q;
  chatter = s.same;
  quiet = λ _. s.quiet;
}

hung_up :
    {sha256 : Bytes → Bytes} {l₀ l : Loop} {out : Bytes}
    → Continues sha256 l₀ l out
    → Continues sha256 l₀ (hang_up l) out
hung_up c = record { board = c.board; silent = c.silent; chatter = c.chatter; quiet = c.quiet }

refill :
    {sha256 : Bytes → Bytes} {l₀ l : Loop} {out bs : Bytes}
    → Continues sha256 l₀ l out
    → Continues sha256 l₀ (record l { pending = bs }) out
refill c = record { board = c.board; silent = c.silent; chatter = c.chatter; quiet = c.quiet }

module _ (crc : Bytes → ℕ) (b64 : Base64) (sha256 : Bytes → Bytes) (cbor : Cbor) where
  -- From here on `l₀` is the loop before the turn, and `l` that with `out` written.
  take_byte-Endures :
      (w : Bool) (l₀ l : Loop) (b : ℕ) (out : Bytes)
      → Continues sha256 l₀ l out
      → Ensures (Endures sha256 l₀) (take_byte crc b64 sha256 cbor w l b out)
  unfolding take_byte
  take_byte-Endures w l₀ l b out c =
      let pushed = push_line crc b64 l.server.decoder l.line in
      let s = record l.server { decoder = pushed.0 } in
      Ensures-if (Endures sha256 l₀) (b == b'\n')
        (λ _. Ensures->>= (Endures sha256 l₀) (respond sha256 cbor s pushed.1) _ λ done e.
          let h = respond-Handled sha256 cbor s pushed.1 done e in
          Ensures-ret (Endures sha256 l₀) (
            send-Endures crc b64 w done.1 l₀ _ out
              (record {
                board = Reach-trans c.board h.board;
                silent = λ q. h.silent (c.silent q);
                chatter = h.chatter ∙ c.chatter;
                quiet = c.quiet;
              })
              (λ q. h.withheld (c.silent q))))
        (λ _.
          Ensures-ret (Endures sha256 l₀)
            (record { board = c.board; silent = c.silent; chatter = c.chatter; quiet = c.quiet }))

  refilled-Endures :
      (t : Turn) (l₀ l : Loop) (r : Result ReadError Bytes) (out : Bytes)
      → Continues sha256 l₀ l out
      → Ensures (Endures sha256 l₀) (refilled crc b64 sha256 cbor t l r out)
  refilled-Endures t l₀ l (ok []) out c = Ensures-ret (Endures sha256 l₀) (hung_up c)
  refilled-Endures t l₀ l (ok (b ∷ bs)) out c = take_byte-Endures t.writable l₀ _ b out (refill c)
  refilled-Endures t l₀ l (err timed_out) out c = Ensures-ret (Endures sha256 l₀) c
  refilled-Endures t l₀ l (err interrupted) out c = Ensures-ret (Endures sha256 l₀) c
  refilled-Endures t l₀ l (err other_error) out c = Ensures-ret (Endures sha256 l₀) (hung_up c)

  turn-Endures : (t : Turn) (l : Loop) → Ensures (Endures sha256 l) (turn crc b64 sha256 cbor t l)
  unfolding turn speak
  turn-Endures t l =
      let spoken = speak_of t l.server l.server.chatter in
      go l.pending _ spoken.1 (started l spoken (speak_of-Spoken t l.server l.server.chatter))
    where
      go :
          (pending : Bytes) (l' : Loop) (out : Bytes)
          → Continues sha256 l l' out
          → Ensures (Endures sha256 l) (filled crc b64 sha256 cbor t l' pending out)
      go [] l' out c = refilled-Endures t l l' t.read out c
      go (b ∷ bs) l' out c = take_byte-Endures t.writable l _ b out (refill c)

  Ensures-then_serve :
      (l : Loop) (r : Served) (more : Loop → Run Served)
      → Endures sha256 l r
      → ((l' : Loop) → Ensures (Endures sha256 l') (more l'))
      → Ensures (Endures sha256 l) (then_serve more r)
  Ensures-then_serve l (err e, out) more h later = Ensures-ret (Endures sha256 l) h
  Ensures-then_serve l (ok l', out) more h later =
      Ensures->>= (Endures sha256 l) (more l') _
        λ served e. Ensures-ret (Endures sha256 l) (joined served (later l' served e))
    where
      joined : (r : Served) → Endures sha256 l' r → Endures sha256 l (r.0, out ++ r.1)
      joined (ok l'', out') k = record {
        board = Reach-trans h.board k.board;
        silent = λ q. k.silent (h.silent q);
        chatter = k.chatter ∙ h.chatter;
        quiet = λ q n. rw (h.quiet q n) (k.quiet (h.silent q) (h.chatter ∙ n));
      }
      joined (err e, out') (failed, awake) = (failed, λ q. awake (h.silent q))

  Ensures-serve :
      (ts : List Turn) (l : Loop) → Ensures (Endures sha256 l) (serve crc b64 sha256 cbor ts l)
  unfolding serve
  Ensures-serve [] l =
      Ensures-ret (Endures sha256 l)
        (record { board = here; silent = λ q. q; chatter = refl; quiet = λ _ _. refl })
  Ensures-serve (t ∷ ts) l = Ensures->>= (Endures sha256 l) (turn crc b64 sha256 cbor t l) _ λ r e.
      Ensures-then_serve l r (serve crc b64 sha256 cbor ts) (turn-Endures t l r e)
        (Ensures-serve ts)

  -- Over any turns, that is whatever the clock, the reads and the writes give, and whatever bytes
  -- arrive: if the run neither panics nor searches an image without end, then either the loop goes on,
  -- or it has ended by a failed write, of a server that was not silent at the start. Where it goes on,
  -- the board is in a state that uploads, marks, resets and erasures lead to; a server that was silent
  -- is silent, and has written nothing if it has no chatter; and the chatter is as it was.
  pub serve-Endures :
      (ts : List Turn) (l : Loop) (r : Served)
      → serve crc b64 sha256 cbor ts l ≡ ret r
      → Endures sha256 l r
  serve-Endures ts l r e = Ensures-serve ts l r e

  -- Over any turns at whose end the loop still goes on: if the board had not the fault that forces
  -- reverts, and an awaited confirmation was that of an unconfirmed running image, then it is so again:
  -- a board that then waits for a confirmation runs an image, and that image is unconfirmed, whatever
  -- bytes have arrived.
  pub serve-Unconfirmed :
      (ts : List Turn) (l l' : Loop) (out : Bytes)
      → IsSound l.server.dev
      → serve crc b64 sha256 cbor ts l ≡ ret (ok l', out)
      → l'.server.dev.awaiting_confirm ≡ true
      → Unconfirmed l'.server.dev.slot0
  serve-Unconfirmed ts l l' out s e waits =
      Reach-Unconfirmed s (Ensures-serve ts l (ok l', out) e).board waits
