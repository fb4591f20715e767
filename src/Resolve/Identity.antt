-- ===== src/Resolve/Identity.antt =====
-- Which board a label resolves to, and which ids a CAN label may claim.
use runtt.Shared.{
  ℕ, subst, ◌+◌, ◌≤◌, ◌<◌, ◌≡◌, refl, sym, arith, Bool, List, [], ◌∷◌, Option, none, some, ok,
}
use runtt.Shared.{
  All, length, find, ltb, Bool-cases, Option-cases, Result-cases, inl, inr, ◌=ₗ◌, =ₗ_sound,
  is_some_of_iff,
}
use runtt.Shared.Text.{Text, trim, strip_prefix, codes}
use runtt.Target.{can as can_label}
use runtt.Resolve.{
  Resolved, serial, can, Candidate, log_can, log_source, System, resolve, resolve_usb_serial,
  ports_of, filter, has_serial, sort, insert_sorted, dedup, text_leb, one_board, channels_among,
  pick, parse_node_id, checked_id, has_interface, dev_of, iface_mgmt, iface_log, hex_or_decimal,
}

dedup_nonempty : (p : Text) (ps : List Text) → 0 < length (dedup (p ∷ ps))
unfolding dedup
dedup_nonempty p [] = omega arith
dedup_nonempty p (q ∷ qs) = elim (Bool-cases (p =ₗ q)) [
  | inl same ↦ rw same (dedup_nonempty q qs)
  | inr other ↦ rw other (omega arith)
]

-- Texts of which `dedup` leaves at most one are all the same.
dedup_same : (p : Text) (ps : List Text) → length (dedup (p ∷ ps)) ≤ 1 → All (λ q. q ≡ p) (p ∷ ps)
unfolding dedup
dedup_same p [] h = (refl, tt)
dedup_same p (q ∷ qs) h = elim (Bool-cases (p =ₗ q)) [
  | inl same ↦
      let eq : p ≡ q = =ₗ_sound p q same in
      (refl, subst (λ x. All (λ y. y ≡ x) (q ∷ qs)) (sym eq) (dedup_same q qs (rw same at h)))
  | inr other ↦ let long = rw other at h in absurd (omega (arith, dedup_nonempty q qs, long))
]

module _ (P : Text → Type 0) where
  All-insert_sorted : (p : Text) (qs : List Text) → All P (insert_sorted p qs) → P p × All P qs
  unfolding insert_sorted
  All-insert_sorted p [] h = h
  All-insert_sorted p (q ∷ qs) h = elim (Bool-cases (text_leb p q)) [
    | inl le ↦ rw le at h
    | inr gt ↦
        let (hq, hr) = rw gt at h in let (hp, hqs) = All-insert_sorted p qs hr in (hp, (hq, hqs))
  ]

  All-sort : (ps : List Text) → All P (sort ps) → All P ps
  unfolding sort
  All-sort [] h = tt
  All-sort (p ∷ ps) h = let (hp, hs) = All-insert_sorted p (sort ps) h in (hp, All-sort ps hs)

-- A list of ports of which sorting and `dedup` leave at most one names one port.
one_port : (ps : List Text) → length (dedup (sort ps)) ≤ 1 → (port : Text) × All (λ q. q ≡ port) ps
one_port ps h = go (sort ps) refl h
  where
    go :
        (qs : List Text)
        → sort ps ≡ qs
        → length (dedup qs) ≤ 1
        → (port : Text) × All (λ q. q ≡ port) ps
    go [] e l = ([], All-sort _ ps (rw e tt))
    go (q ∷ qs) e l = (q, All-sort _ ps (rw e (dedup_same q qs l)))

filter-All :
    (P : Candidate → Type 0) (name : Text) (cs : List Candidate)
    → All P cs
    → All (λ (c : Candidate). (c.serial ≡ some name) × P c) (filter (has_serial name) cs)
unfolding filter
filter-All P name [] h = tt
filter-All P name (c ∷ cs) (hc, h) = elim (Bool-cases (has_serial name c)) [
  | inl hit ↦ rw hit (((is_some_of_iff c.serial name).0 hit, hc), filter-All P name cs h)
  | inr miss ↦ rw miss (filter-All P name cs h)
]

pub All-find {ℓ κ} :
    {A : Type ℓ} (P : A → Type κ) (p : A → Bool) (xs : List A) (a : A)
    → All P xs
    → find p xs ≡ some a
    → P a
unfolding find
All-find P p [] a h e = cc
All-find P p (x ∷ xs) a (hx, h) e = elim (Bool-cases (p x)) [
  | inl hit ↦ let is : x ≡ a = cc (rw hit at e) in rw (← is) hx
  | inr miss ↦ All-find P p xs a h (rw miss at e)
]

-- The result is a tty among those of the board.
abbrev Among : (Candidate → Type 0) → Resolved → Type 0
Among P r = (c : Candidate) × (log : Option Text) × (r ≡ serial c.dev log) × P c

channels_among-Among :
    (P : Candidate → Type 0) (cs : List Candidate) (r : Resolved)
    → All P cs
    → channels_among cs ≡ ok r
    → Among P r
channels_among-Among P cs r h e = elim (Option-cases (find (has_interface iface_mgmt) cs)) [
  | inr (c, found) ↦
      (c, dev_of (find (has_interface iface_log) cs), cc (rw found at e), All-find P _ cs c h found)
  | inl absent ↦ alone (dev_of (find (has_interface iface_log) cs)) cs h (rw absent at e)
]
  where
    alone :
        (log : Option Text) (xs : List Candidate) → All P xs → pick none log xs ≡ ok r → Among P r
    alone log [] hs z = cc
    alone log (c ∷ []) (hc, _) z = (c, none, cc, hc)
    alone log (c ∷ d ∷ xs) hs z = cc

-- A serial resolves only if every tty that publishes it and has a port path is on one and the same port,
-- and then to a tty that publishes it, one of those found.
pub resolve_usb_serial-Among :
    (P : Candidate → Type 0) (candidates : List Candidate) (name : Text) (r : Resolved)
    → All P candidates
    → resolve_usb_serial (some candidates) name ≡ ok r
    → ((port : Text) × All (λ q. q ≡ port) (ports_of (filter (has_serial name) candidates)))
      × ((c : Candidate) × (log : Option Text) × (r ≡ serial c.dev log)
          × ((c.serial ≡ some name) × P c))
unfolding resolve_usb_serial
resolve_usb_serial-Among P candidates name r h e =
    go (filter (has_serial name) candidates) (filter-All P name candidates h) e
  where
    go :
        (cs : List Candidate)
        → All (λ (c : Candidate). (c.serial ≡ some name) × P c) cs
        → one_board cs ≡ ok r
        → ((port : Text) × All (λ q. q ≡ port) (ports_of cs))
          × Among (λ c. (c.serial ≡ some name) × P c) r
    go [] h z = cc
    go (c ∷ cs) h z = elim (Bool-cases (ltb 1 (length (dedup (sort (ports_of (c ∷ cs))))))) [
      | inl many ↦ cc (rw many at z)
      | inr one ↦ (
        one_port (ports_of (c ∷ cs)) (ground arith),
        channels_among-Among (λ c. (c.serial ≡ some name) × P c) (c ∷ cs) r h (rw one at z),
      )
    ]

checked_id-range : (o : Option ℕ) (n : ℕ) → checked_id o ≡ ok n → n + 2 ≤ 0x7ff
checked_id-range none n e = cc
checked_id-range (some id) n e = ground arith

parse_node_id-range : (node : Text) (n : ℕ) → parse_node_id node ≡ ok n → n + 2 ≤ 0x7ff
unfolding parse_node_id
parse_node_id-range node n e =
    checked_id-range
      (hex_or_decimal (trim node) (strip_prefix (codes "0x") (trim node))
        (strip_prefix (codes "0X") (trim node)))
      n e

-- A label on a CAN bus resolves only if the three ids of its node, the last of which carries the log, are
-- standard identifiers.
resolve_can :
    (sys : System) (iface node : Text) (r : Resolved)
    → resolve sys (can_label iface node) ≡ ok r
    → (id : ℕ) × (r ≡ can iface id none)
      × (log_source r ≡ some (log_can iface (id + 2)))
      × (id + 2 ≤ 0x7ff)
unfolding resolve log_source
resolve_can sys iface node r e = elim (Result-cases (parse_node_id node)) [
  | inr (x, bad) ↦ cc (rw bad at e)
  | inl (id, good) ↦ elim (Bool-cases (sys.has_network iface)) [
    | inr absent ↦ cc (rw (good, absent) at e)
    | inl there ↦
        let is : can iface id none ≡ r = cc (rw (good, there) at e) in
        (id, sym is, rw (← is) refl, parse_node_id-range node id good)
  ]
]
