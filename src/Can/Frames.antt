-- ===== src/Can/Frames.antt =====
-- What the send of a frame writes to the bus, in as many calls as it takes.
use mathlib.Core.List.{append-nil, append_assoc}
use runtt.Shared.{
  ap, false, ℕ, zero, suc, ◌+◌, ◌<◌, List, length-append, ◌≤◌, ◌≡◌, refl, sym, subst, ◌∙◌, arith,
  Bool-cases, inl, inr, [], ◌∷◌, ◌++◌, Option, none, some, Result, ok, err, length, take, drop,
  ◌==◌, take-append-drop, length-drop,
}
use runtt.Mcuboot.{Bytes}
use runtt.Can.{
  Os, IoKind, would_block, timed_out, interrupted, invalid_data, write_zero, other_kind,
  IsoTpTransport, Sending, wrote, write_all, send_raw_frame,
}

module _ {W : Type 0} where
  abbrev alongside : {A : Type 0} → A × W → Bytes → A × (W × Bytes)
  alongside (a, w) out = (a, (w, out))

  abbrev noted : Result IoKind ℕ × W → Bytes → Bytes → Result IoKind ℕ × (W × Bytes)
  noted (ok n, w) buf out = (ok n, (w, out ++ take n buf))
  noted (err e, w) buf out = (err e, (w, out))

  -- The same system, with the bytes that its writes took.
  abbrev pub noting : Os W → Os (W × Bytes)
  noting os = record {
    sock_dgram = os.sock_dgram;
    sock_raw = os.sock_raw;
    eprotonosupport = os.eprotonosupport;
    if_nametoindex = λ name s. alongside (os.if_nametoindex name s.0) s.1;
    socket = λ domain kind protocol s. alongside (os.socket domain kind protocol s.0) s.1;
    bind = λ fd addr s. alongside (os.bind fd addr s.0) s.1;
    setsockopt = λ fd opt s. alongside (os.setsockopt fd opt s.0) s.1;
    read = λ fd len s. alongside (os.read fd len s.0) s.1;
    write = λ fd buf s. noted (os.write fd buf s.0) buf s.1;
    close = λ fd s. (os.close fd s.0, s.1);
  }

  -- A send that has ended: all was taken, or there is an error, and a part at the front was taken.
  abbrev pub Sent : Bytes → Option (Result IoKind (Unit {0})) × (W × Bytes) → Type 0
  Sent all (none, s) = ⊥
  Sent all (some (ok _), s) = s.1 ≡ all
  Sent all (some (err e), s) = (rest : Bytes) × (s.1 ++ rest ≡ all)

-- `left w` bounds the writes that signals are still to interrupt: each of them takes one off, and no write
-- adds one.
pub record Interrupts {W : Type 0} (os : Os W) (left : W → ℕ) : Type 0 where
  pub fewer :
      (fd : ℕ) (buf : Bytes) (w : W)
      → (os.write fd buf w).0 ≡ err interrupted
      → left (os.write fd buf w).1 < left w
  pub no_more : (fd : ℕ) (buf : Bytes) (w : W) → left (os.write fd buf w).1 ≤ left w

module _ {W : Type 0} (os : Os W) (left : W → ℕ) (law : Interrupts os left) where
  -- A send that has ended, with no more interrupts to come than before.
  abbrev Ended : Bytes → W → Option (Result IoKind (Unit {0})) × (W × Bytes) → Type 0
  Ended all w r = Sent all r × (left r.1.0 ≤ left w)

  write_all-Ended :
      (fuel fd : ℕ) (buf : Bytes) (w : W) (out : Bytes)
      → length buf + left w ≤ fuel
      → Ended (out ++ buf) w (write_all (noting os) fuel fd buf (w, out))
  unfolding write_all
  write_all-Ended fuel fd [] w out enough = (sym (append-nil out), omega arith)
  write_all-Ended zero fd (b ∷ bs) w out enough = absurd (omega (arith, enough))
  write_all-Ended (suc fuel) fd (b ∷ bs) w out enough =
      go (os.write fd (b ∷ bs) w) (law.no_more fd (b ∷ bs) w) (law.fewer fd (b ∷ bs) w)
        (λ n w' fewer some_taken.
          write_all-Ended fuel fd (drop n (b ∷ bs)) w' (out ++ take n (b ∷ bs))
            (shorter n w' fewer some_taken))
        (λ w' fewer. write_all-Ended fuel fd (b ∷ bs) w' out (omega (arith, enough, fewer)))
    where
      shorter :
          (n : ℕ) (w' : W)
          → left w' ≤ left w
          → (n == 0) ≡ false
          → length (drop n (b ∷ bs)) + left w' ≤ fuel
      shorter zero w' fewer taken = cc
      shorter (suc n) w' fewer taken = omega (arith, length-drop n bs, enough, fewer)

      go :
          (r : Result IoKind ℕ × W)
          → left r.1 ≤ left w
          → (r.0 ≡ err interrupted → left r.1 < left w)
          → ((n : ℕ) (w' : W)
              → left w' ≤ left w
              → (n == 0) ≡ false
              → Ended
                  ((out ++ take n (b ∷ bs)) ++ drop n (b ∷ bs))
                  w'
                  (write_all (noting os) fuel fd (drop n (b ∷ bs)) (w', out ++ take n (b ∷ bs))))
          → ((w' : W)
              → left w' < left w
              → Ended (out ++ (b ∷ bs)) w' (write_all (noting os) fuel fd (b ∷ bs) (w', out)))
          → Ended
              (out ++ (b ∷ bs))
              w
              (wrote (noting os) (write_all (noting os) fuel fd) (b ∷ bs) (noted r (b ∷ bs) out))
      go (ok n, w') m u later again =
          let parts = append_assoc out _ _ ∙ ap (λ x. out ++ x) (take-append-drop n (b ∷ bs)) in
          elim (Bool-cases (n == 0)) [
            | inl nothing ↦ rw nothing ((drop n (b ∷ bs), parts), m)
            | inr taken ↦ rw taken (
                let rest = later n w' m taken in
                (
                  subst
                      (λ all. Sent all (
                        write_all (noting os) fuel fd (drop n (b ∷ bs))
                          (w', out ++ take n (b ∷ bs))))
                      parts rest.0,
                  omega (arith, m, rest.1),
                ))
          ]
      go (err interrupted, w') m u later again =
          let rest = again w' (u refl) in (rest.0, omega (arith, m, rest.1))
      go (err would_block, w') m u later again = ((b ∷ bs, refl), m)
      go (err timed_out, w') m u later again = ((b ∷ bs, refl), m)
      go (err invalid_data, w') m u later again = ((b ∷ bs, refl), m)
      go (err write_zero, w') m u later again = ((b ∷ bs, refl), m)
      go (err other_kind, w') m u later again = ((b ∷ bs, refl), m)

-- A header and a body, and what a number of them are on the wire.
abbrev pub wire : List (Bytes × Bytes) → Bytes
wire [] = []
wire ((header, body) ∷ frames) = (header ++ body) ++ wire frames

module _ {W : Type 0} (os : Os W) where
  abbrev and_then_send :
      (IsoTpTransport × W → Sending os IsoTpTransport)
      → Sending os IsoTpTransport
      → Sending os IsoTpTransport
  and_then_send more (some (ok _), s) = more s
  and_then_send more r = r

  -- Frames sent one after the other on one transport, up to the first error.
  unfoldable pub send_all :
      ℕ → List (Bytes × Bytes) → IsoTpTransport × W → Sending os IsoTpTransport
  send_all fuel [] s = (some (ok tt), s)
  send_all fuel ((header, body) ∷ frames) s =
      and_then_send (send_all fuel frames) (send_raw_frame os fuel header body s)

module _ {W : Type 0} (os : Os W) (left : W → ℕ) (law : Interrupts os left) where
  -- What the writes have taken, after the sends.
  abbrev pub taken :
      {T : Type 0}
      → Option (Result IoKind (Unit {0})) × (T × (W × Bytes))
      → Option (Result IoKind (Unit {0})) × (W × Bytes)
  taken (r, (t, s)) = (r, s)

  send_raw_frame-Ended :
      (fuel : ℕ) (header body : Bytes) (t : IsoTpTransport) (w : W) (out : Bytes)
      → length (header ++ body) + left w ≤ fuel
      → Ended os left law
          (out ++ (header ++ body))
          w
          (taken (send_raw_frame (noting os) fuel header body (t, (w, out))))
  unfolding send_raw_frame
  send_raw_frame-Ended fuel header body t w out enough =
      write_all-Ended os left law fuel t.ch.fd (header ++ body) w out enough

  send_all-Ended :
      (fuel : ℕ) (frames : List (Bytes × Bytes)) (t : IsoTpTransport) (w : W) (out : Bytes)
      → length (wire frames) + left w ≤ fuel
      → Sent (out ++ wire frames) (taken (send_all (noting os) fuel frames (t, (w, out))))
  unfolding send_all
  send_all-Ended fuel [] t w out enough = sym (append-nil out)
  send_all-Ended fuel ((header, body) ∷ frames) t w out enough =
      let long = length-append (header ++ body) (wire frames) in
      go (send_raw_frame (noting os) fuel header body (t, (w, out)))
        (send_raw_frame-Ended fuel header body t w out (omega (arith, enough, long)))
        (λ t' w' fewer.
          send_all-Ended fuel frames t' w' (out ++ (header ++ body))
            (omega (arith, enough, long, fewer)))
    where
      all : Bytes
      all = out ++ ((header ++ body) ++ wire frames)

      parts : (out ++ (header ++ body)) ++ wire frames ≡ all
      parts = append_assoc out (header ++ body) (wire frames)

      go :
          (r : Sending (noting os) IsoTpTransport)
          → Ended os left law (out ++ (header ++ body)) w (taken r)
          → ((t' : IsoTpTransport) (w' : W)
              → left w' ≤ left w
              → Sent
                  ((out ++ (header ++ body)) ++ wire frames)
                  (taken (send_all (noting os) fuel frames (t', (w', out ++ (header ++ body))))))
          → Sent all (taken (and_then_send (noting os) (send_all (noting os) fuel frames) r))
      go (none, (t', (w', out'))) (h, m) later = elim h [ ]
      go (some (err e), (t', (w', out'))) ((rest, h), m) later = (
        rest ++ wire frames,
        sym (append_assoc out' rest (wire frames)) ∙ ap (λ x. x ++ wire frames) h ∙ parts,
      )
      go (some (ok u), (t', (w', out'))) (h, m) later =
          subst (λ o. Sent all (taken (send_all (noting os) fuel frames (t', (w', o))))) (sym h)
            (subst
              (λ x.
                Sent x
                  (taken (send_all (noting os) fuel frames (t', (w', out ++ (header ++ body))))))
              parts (later t' w' m))

  -- Frames sent one after the other on one transport, whatever was in its send buffer, with writes that
  -- take what they like, fail, or are interrupted by signals, of which no more than `left w` are to come:
  -- with fuel for the bytes of the frames and these interrupts the sends come to an end. Then either
  -- all succeeded, and the writes have taken exactly the frames, each its header and then its body,
  -- in order; or a send failed, and the writes have taken a front part of these bytes.
  pub send_all-Sent :
      (fuel : ℕ) (frames : List (Bytes × Bytes)) (t : IsoTpTransport) (w : W)
      → length (wire frames) + left w ≤ fuel
      → Sent (wire frames) (taken (send_all (noting os) fuel frames (t, (w, []))))
  send_all-Sent fuel frames t w enough = send_all-Ended fuel frames t w [] enough
