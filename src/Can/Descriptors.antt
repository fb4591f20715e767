-- ===== src/Can/Descriptors.antt =====
-- What the two `open` functions leave behind.
use runtt.Shared.{
  ℕ, ◌+◌, ◌%◌, ◌^◌, ◌≡◌, refl, sym, ap, subst, List, [], ◌∷◌, ◌++◌, Option, none, some,
}
use runtt.Shared.{Result, ok, err, Bool-cases, inl, inr, any, ◌==◌, ◌⊎◌}
use runtt.Shared.Stateful.{M, ◌>>=◌, ◌>>◌, and_then, Triple, Triple->>=}
use runtt.Can.{bind_failed, filter_failed, timeout_failed}
use runtt.Shared.Text.{Text}
use runtt.Can.{
  Os, SockAddrCan, Sockopt, can_raw_filter, can_sff_mask, timeval, af_can, CanError, IsoTpChannel,
  CanLogReader, open_isotp, open_log, bind_isotp, bind_log, if_nametoindex, set_read_timeout,
  dropped, or_error, syscall, owned, indexed,
}

-- What happens to descriptors.
pub data Call : Type 0 where
  opened : (fd : ℕ) → Call
  bound : (fd : ℕ) → SockAddrCan → Call
  set : (fd : ℕ) → Sockopt → Call
  closed : (fd : ℕ) → Call

abbrev pub Logged : Type 0 → Type 0
Logged W = W × List Call

module _ {W : Type 0} where
  -- A call that succeeded is added to the calls.
  abbrev logged : {A : Type 0} → Result ℕ A × W → List Call → (A → Call) → Result ℕ A × Logged W
  logged (ok a, w) cs call = (ok a, (w, cs ++ (call a ∷ [])))
  logged (err e, w) cs call = (err e, (w, cs))

  abbrev beside : {A : Type 0} → A × W → List Call → A × Logged W
  beside (a, w) cs = (a, (w, cs))

  -- The same system, with its calls on descriptors recorded.
  abbrev pub traced : Os W → Os (Logged W)
  traced os = record {
    sock_dgram = os.sock_dgram;
    sock_raw = os.sock_raw;
    eprotonosupport = os.eprotonosupport;
    if_nametoindex = λ name s. beside (os.if_nametoindex name s.0) s.1;
    socket =
        λ domain kind protocol s. logged (os.socket domain kind protocol s.0) s.1 (λ fd. opened fd);
    bind = λ fd addr s. logged (os.bind fd addr s.0) s.1 (λ _. bound fd addr);
    setsockopt = λ fd opt s. logged (os.setsockopt fd opt s.0) s.1 (λ _. set fd opt);
    read = λ fd len s. beside (os.read fd len s.0) s.1;
    write = λ fd buf s. beside (os.write fd buf s.0) s.1;
    close = λ fd s. (os.close fd s.0, s.1 ++ (closed fd ∷ []));
  }

-- How an `open` ends: with just the calls `whole` on the descriptor that it returns; or with an error,
-- and either no descriptor was opened, or the one opened first is closed last, with `made` between.
abbrev pub Ends : {A : Type 0} → (A → List Call) → Result CanError A → List Call → Type 0
Ends whole (ok a) cs = cs ≡ whole a
Ends whole (err e) cs =
    (cs ≡ []) ⊎ ((fd : ℕ) × (made : List Call) × (cs ≡ opened fd ∷ (made ++ (closed fd ∷ []))))

-- The calls of a successful `open`.
abbrev pub isotp_calls : ℕ → ℕ → ℕ → IsoTpChannel → List Call
isotp_calls ifindex node_id timeout ch =
    opened ch.fd
    ∷ bound ch.fd (record {
      can_family = af_can;
      can_ifindex = ifindex;
      rx_id = (node_id + 1) % 2 ^ 32;
      tx_id = node_id;
    })
    ∷ set ch.fd (timeval timeout)
    ∷ []

abbrev pub log_calls : ℕ → ℕ → ℕ → CanLogReader → List Call
log_calls ifindex id timeout reader =
    opened reader.fd
    ∷ bound reader.fd (record { can_family = af_can; can_ifindex = ifindex; rx_id = 0; tx_id = 0 })
    ∷ set reader.fd (can_raw_filter id can_sff_mask)
    ∷ set reader.fd (timeval timeout)
    ∷ []

module _ {W : Type 0} where
  -- What a system call adds.
  abbrev After : {A : Type 0} → List Call → (A → Call) → Result CanError A → Logged W → Type 0
  After cs call (ok a) s = s.1 ≡ cs ++ (call a ∷ [])
  After cs call (err e) s = s.1 ≡ cs

  recorded :
      {A : Type 0} (cs : List Call) (call : A → Call) (e : ℕ → CanError) (r : Result ℕ A × W)
      → After cs call (or_error (logged r cs call) e).0 (or_error (logged r cs call) e).1
  recorded cs call e (ok a, w) = refl
  recorded cs call e (err errno, w) = refl

  -- Where the rest of an `open` ends, before the descriptor is dropped.
  abbrev Within : {A : Type 0} → (A → List Call) → ℕ → Result CanError A → Logged W → Type 0
  Within whole fd (ok a) s = s.1 ≡ whole a
  Within whole fd (err e) s = (made : List Call) × (s.1 ≡ opened fd ∷ made)

  dropped-Ends :
      {A : Type 0} (os : Os W) (whole : A → List Call) (fd : ℕ) (r : Result CanError A × Logged W)
      → Within whole fd r.0 r.1
      → Ends whole (dropped (traced os) fd r).0 (dropped (traced os) fd r).1.1
  dropped-Ends os whole fd (ok a, s) h = h
  dropped-Ends os whole fd (err e, s) (made, h) =
      inr (fd, made, ap (λ cs. cs ++ (closed fd ∷ [])) h)

  module _ (os : Os W) (iface : Text) (fd : ℕ) where
    set-After :
        (cs : List Call) (opt : Sockopt) (e : ℕ → CanError) (s : Logged W)
        → s.1 ≡ cs
        → (let r = syscall ((traced os).setsockopt fd opt) e s in
            After cs (λ _. set fd opt) r.0 r.1)
    set-After cs opt e s h =
        subst
          (λ cs'.
            let r = or_error (logged (os.setsockopt fd opt s.0) cs' (λ _. set fd opt)) e in
            After cs (λ _. set fd opt) r.0 r.1)
          (sym h) (recorded cs _ e (os.setsockopt fd opt s.0))

    bind-After :
        (cs : List Call) (addr : SockAddrCan) (s : Logged W)
        → s.1 ≡ cs
        → (let r = syscall ((traced os).bind fd addr) bind_failed s in
            After cs (λ _. bound fd addr) r.0 r.1)
    bind-After cs addr s h =
        subst
          (λ cs'.
            let r = or_error (logged (os.bind fd addr s.0) cs' (λ _. bound fd addr)) bind_failed in
            After cs (λ _. bound fd addr) r.0 r.1)
          (sym h) (recorded cs _ bind_failed (os.bind fd addr s.0))

    module _ {A : Type 0} (whole : A → List Call) (made : List Call) where
      then_set :
          (opt : Sockopt) (e : ℕ → CanError) (k : M CanError (Logged W) A)
          → Triple (λ s. s.1 ≡ opened fd ∷ (made ++ (set fd opt ∷ []))) k (Within whole fd)
          → Triple
              (λ s. s.1 ≡ opened fd ∷ made)
              (syscall ((traced os).setsockopt fd opt) e >> k)
              (Within whole fd)
      then_set opt e k later =
          Triple->>= (Within whole fd) (syscall ((traced os).setsockopt fd opt) e) (λ _. k)
            (After (opened fd ∷ made) (λ _. set fd opt)) (set-After (opened fd ∷ made) opt e)
            (λ _. later) (λ e s h. (made, h))

      then_bind :
          (addr : SockAddrCan) (k : M CanError (Logged W) A)
          → Triple (λ s. s.1 ≡ opened fd ∷ (made ++ (bound fd addr ∷ []))) k (Within whole fd)
          → Triple
              (λ s. s.1 ≡ opened fd ∷ made)
              (syscall ((traced os).bind fd addr) bind_failed >> k)
              (Within whole fd)
      then_bind addr k later =
          Triple->>= (Within whole fd) (syscall ((traced os).bind fd addr) bind_failed) (λ _. k)
            (After (opened fd ∷ made) (λ _. bound fd addr)) (bind-After (opened fd ∷ made) addr)
            (λ _. later) (λ e s h. (made, h))

    bind_isotp-Within :
        (node_id timeout ifindex : ℕ)
        → Triple
            (λ s. s.1 ≡ opened fd ∷ [])
            (bind_isotp (traced os) iface node_id timeout ifindex fd)
            (Within (isotp_calls ifindex node_id timeout) fd)
    unfolding bind_isotp set_read_timeout
    bind_isotp-Within node_id timeout ifindex =
        let whole = isotp_calls ifindex node_id timeout in
        then_bind whole [] _ _ (then_set whole _ (timeval timeout) timeout_failed _ (λ s h. h))

    bind_log-Within :
        (id timeout ifindex : ℕ)
        → Triple
            (λ s. s.1 ≡ opened fd ∷ [])
            (bind_log (traced os) iface id timeout ifindex fd)
            (Within (log_calls ifindex id timeout) fd)
    unfolding bind_log set_read_timeout
    bind_log-Within id timeout ifindex =
        let whole = log_calls ifindex id timeout in
        then_bind whole [] _ _ (
          then_set whole _ (can_raw_filter id can_sff_mask) filter_failed _
            (then_set whole _ (timeval timeout) timeout_failed _ (λ s h. h)))

  -- The look-up of the interface, the socket, and then the rest of an `open`.
  module _ (os : Os W) {A : Type 0} (whole : ℕ → A → List Call) (e : ℕ → CanError)
      (sock : W → Result ℕ ℕ × W) (rest : ℕ → ℕ → M CanError (Logged W) A)
      (within : (ifindex fd : ℕ)
        → Triple (λ s. s.1 ≡ opened fd ∷ []) (rest ifindex fd) (Within (whole ifindex) fd)) where
    abbrev Ended : Result CanError A × Logged W → Type 0
    Ended r = (ifindex : ℕ) × Ends (whole ifindex) r.0 r.1.1

    socketed :
        (ifindex : ℕ) (r : Result ℕ ℕ × W)
        → Ended (
            and_then
              (or_error (logged r [] (λ fd. opened fd)) e)
              (λ fd. owned (traced os) fd (rest ifindex fd)))
    socketed ifindex (ok fd, w) =
        (ifindex, dropped-Ends os (whole ifindex) fd _ (within ifindex fd (w, opened fd ∷ []) refl))
    socketed ifindex (err errno, w) = (ifindex, inl refl)

    looked_up :
        (r : Option ℕ × W)
        → Ended (
            and_then (indexed (beside r [])) λ ifindex.
              syscall (λ s. logged (sock s.0) s.1 (λ fd. opened fd)) e >>= λ fd.
              owned (traced os) fd (rest ifindex fd))
    looked_up (none, w) = (0, inl refl)
    looked_up (some ifindex, w) = socketed ifindex (sock w)

    opened-Ended :
        (iface : Text) (w : W)
        → Ended (
            (if_nametoindex (traced os) iface >>= λ ifindex.
            syscall (λ s. logged (sock s.0) s.1 (λ fd. opened fd)) e >>= λ fd.
            owned (traced os) fd (rest ifindex fd))
              (w, []))
    unfolding if_nametoindex
    opened-Ended iface w = elim (Bool-cases (any (λ c. c == 0) iface)) [
      | inl nul ↦ rw nul (0, inl refl)
      | inr plain ↦ rw plain (looked_up (os.if_nametoindex iface w))
    ]

  -- Whatever the system answers: `IsoTpChannel::open` either returns a channel, and has opened one
  -- descriptor, bound it to send to the node's id and to receive on the next one, and set the receive
  -- timeout, in this order; or it returns an error, and the descriptor, where one was opened, is closed
  -- at the end.
  open_isotp-Ends :
      (os : Os W) (iface : Text) (node_id timeout : ℕ) (w : W)
      → (let r = open_isotp (traced os) iface node_id timeout (w, []) in
          (ifindex : ℕ) × Ends (isotp_calls ifindex node_id timeout) r.0 r.1.1)
  unfolding open_isotp
  open_isotp-Ends os iface node_id timeout w =
      opened-Ended os (λ i. isotp_calls i node_id timeout) _ _ _
        (λ ifindex fd. bind_isotp-Within os iface fd node_id timeout ifindex) iface w

  -- Whatever the system answers: `CanLogReader::open` either returns a reader, and has opened one
  -- descriptor, bound it, then set the filter for the identifier, and then the receive timeout; or it
  -- returns an error, and the descriptor, where one was opened, is closed at the end.
  pub open_log-Ends :
      (os : Os W) (iface : Text) (id timeout : ℕ) (w : W)
      → (let r = open_log (traced os) iface id timeout (w, []) in
          (ifindex : ℕ) × Ends (log_calls ifindex id timeout) r.0 r.1.1)
  unfolding open_log
  open_log-Ends os iface id timeout w =
      opened-Ended os (λ i. log_calls i id timeout) _ _ _
        (λ ifindex fd. bind_log-Within os iface fd id timeout ifindex) iface w
