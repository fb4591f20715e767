-- ===== src/Target/Labels.antt =====
-- Which texts are labels and port paths.
use runtt.Shared.{
  ℕ, ◌≡◌, ◌≢◌, ◌↔◌, refl, sym, ap, ◌∙◌, arith, true, false, List, [], ◌∷◌, ◌++◌, some,
}
use runtt.Shared.{Bool, Bool-cases, Option-cases, inl, inr, ok, All, all, is_empty, ◌=ₗ◌, =ₗ_sound}
use runtt.Shared.Text.{Text, codes, split_once, split, is_ascii_digit}
use runtt.Shared.Text.Splitting.{
  Free, split_once-append, split_once_sound, join, split-join, join-split, split_nonempty,
}
use runtt.Target.{Target, usb, tty, can, is_number, is_bus_and_ports}
use runtt.Target.{
  is_port_path, parse_selector, show_selector, can_target, parse_prefixed, parse_target,
  show_target,
}

-- A target that a label can name: the selector is of the kind that its text has the shape of, and a
-- CAN interface has no slash in its name.
abbrev pub IsNameable : Target → Type 0
IsNameable (usb selector) = parse_selector (show_selector selector) ≡ selector
IsNameable (tty device) = Unit {0}
IsNameable (can iface node_id) = Free b'/' iface

show-parse_selector : (s : Text) → show_selector (parse_selector s) ≡ s
unfolding parse_selector
show-parse_selector s = elim (Bool-cases (is_port_path s)) [ inl e ↦ rw e refl | inr e ↦ rw e refl ]

parse_target-append :
    (prefix rest : Text)
    → Free b':' prefix
    → parse_target (prefix ++ (b':' ∷ rest)) ≡ parse_prefixed (some (prefix, rest))
unfolding parse_target
parse_target-append prefix rest h = rw (split_once-append b':' prefix rest h) refl

parse-show : (t : Target) → IsNameable t → parse_target (show_target t) ≡ ok t
unfolding show_target
parse-show (usb selector) h =
    parse_target-append (codes "usb") (show_selector selector)
      (omega arith, (omega arith, (omega arith, tt)))
    ∙ (unfold ◌=ₗ◌ in ap (λ s. ok (usb s)) h)
parse-show (tty device) h =
    parse_target-append (codes "tty") device (omega arith, (omega arith, (omega arith, tt)))
    ∙ (unfold ◌=ₗ◌ in refl)
parse-show (can iface node_id) h =
    parse_target-append (codes "can") (iface ++ (b'/' ∷ node_id))
      (omega arith, (omega arith, (omega arith, tt)))
    ∙ (unfold ◌=ₗ◌ in rw (split_once-append b'/' iface node_id h) refl)

show-can_target :
    (rest : Text) (t : Target)
    → can_target (split_once b'/' rest) ≡ ok t
    → (show_target t ≡ codes "can:" ++ rest) × IsNameable t
unfolding show_target
show-can_target rest t e = elim (Option-cases (split_once b'/' rest)) [
  | inl absent ↦ cc (rw absent at e)
  | inr ((iface, node_id), found) ↦
      let is : can iface node_id ≡ t = cc (rw found at e) in
      let (whole, free) = split_once_sound b'/' rest iface node_id found in
      rw (← is, whole) (refl, free)
]

show-parse_prefixed :
    (prefix rest : Text) (t : Target)
    → parse_prefixed (some (prefix, rest)) ≡ ok t
    → (show_target t ≡ prefix ++ (b':' ∷ rest)) × IsNameable t
show-parse_prefixed prefix rest t e = elim (Bool-cases (prefix =ₗ codes "usb")) [
  | inl is_usb ↦
      let is : usb (parse_selector rest) ≡ t = cc (rw is_usb at e) in
      let name : prefix ≡ codes "usb" = =ₗ_sound prefix (codes "usb") is_usb in
      rw (← is, name)
        (
          unfold show_target in ap (λ s. codes "usb:" ++ s) (show-parse_selector rest),
          ap parse_selector (show-parse_selector rest),
        )
  | inr not_usb ↦ elim (Bool-cases (prefix =ₗ codes "tty")) [
    | inl is_tty ↦
        let is : tty rest ≡ t = cc (rw (not_usb, is_tty) at e) in
        let name : prefix ≡ codes "tty" = =ₗ_sound prefix (codes "tty") is_tty in
        rw (← is, name) (unfold show_target in refl, tt)
    | inr not_tty ↦ elim (Bool-cases (prefix =ₗ codes "can")) [
      | inl is_can ↦
          let name : prefix ≡ codes "can" = =ₗ_sound prefix (codes "can") is_can in
          rw name (show-can_target rest t (rw (not_usb, not_tty, is_can) at e))
      | inr other ↦ cc (rw (not_usb, not_tty, other) at e)
    ]
  ]
]

show-parse :
    (label : Text) (t : Target) → parse_target label ≡ ok t → (show_target t ≡ label) × IsNameable t
unfolding parse_target
show-parse label t e = elim (Option-cases (split_once b':' label)) [
  | inl absent ↦ cc (rw absent at e)
  | inr ((prefix, rest), found) ↦
      let (whole, _) = split_once_sound b':' label prefix rest found in
      rw whole (show-parse_prefixed prefix rest t (rw found at e))
]

-- For every label and target, the label parses to the target exactly when the target shows as the
-- label, its selector has the kind its text has the shape of, and its CAN interface has no slash.
pub parse_target_iff :
    (label : Text) (t : Target)
    → (parse_target label ≡ ok t) ↔ ((show_target t ≡ label) × IsNameable t)
parse_target_iff label t =
    (show-parse label t, λ (shown, nameable). rw (← shown) (parse-show t nameable))

-- A decimal number: digits, and at least one.
abbrev pub IsNumber : Text → Type 0
IsNumber p = (p ≢ []) × All (λ c. is_ascii_digit c ≡ true) p

-- A test that holds of all elements.
all_iff {ℓ} :
    {A : Type ℓ} (f : A → Bool) (P : A → Type 0)
    → ((a : A) → (f a ≡ true) ↔ P a)
    → (xs : List A) → (all f xs ≡ true) ↔ All P xs
all_iff f P h [] = (λ _. tt, λ _. refl)
all_iff f P h (x ∷ xs) = (
  λ e. ((h x).0 (ground arith), (all_iff f P h xs).0 (ground arith)),
  λ (p, ps). ground (arith, (h x).1 p, (all_iff f P h xs).1 ps),
)

is_number_iff : (p : Text) → (is_number p ≡ true) ↔ IsNumber p
is_number_iff [] = (λ e. cc, λ (ne, _). absurd (ne refl))
is_number_iff (c ∷ cs) =
    let digits =
      all_iff is_ascii_digit (λ d. is_ascii_digit d ≡ true) (λ d. (λ e. e, λ e. e)) (c ∷ cs) in
    (λ e. (λ z. cc, digits.0 e), λ (_, ds). digits.1 ds)

-- Digits are none of the separators.
digits-Free :
    (sep : ℕ) (p : Text)
    → is_ascii_digit sep ≡ false
    → All (λ c. is_ascii_digit c ≡ true) p
    → Free sep p
digits-Free sep [] h ds = tt
digits-Free sep (c ∷ cs) h (d, ds) = (λ e. cc (rw e at d, h), digits-Free sep cs h ds)

numbers-Free : (ps : List Text) → All IsNumber ps → All (Free b'.') ps
numbers-Free [] h = tt
numbers-Free (p ∷ ps) ((_, d), h) = (digits-Free b'.' p refl d, numbers-Free ps h)

is_empty-join : (p : Text) (ps : List Text) → p ≢ [] → is_empty (join b'.' (p ∷ ps)) ≡ false
unfolding join
is_empty-join [] ps h = absurd (h refl)
is_empty-join (c ∷ cs) [] h = refl
is_empty-join (c ∷ cs) (q ∷ qs) h = refl

-- The shape of a kernel port path: a bus number, a hyphen, and port numbers separated by dots.
pub record IsPortPath (s : Text) : Type 0 where
  pub bus : Text
  pub port : Text
  pub ports : List Text
  pub shape : s ≡ bus ++ (b'-' ∷ join b'.' (port ∷ ports))
  pub bus_number : IsNumber bus
  pub port_numbers : All IsNumber (port ∷ ports)

numbers_iff : (ps : List Text) → (all is_number ps ≡ true) ↔ All IsNumber ps
numbers_iff = all_iff is_number IsNumber is_number_iff

is_port_path_sound : (s : Text) → is_port_path s ≡ true → IsPortPath s
unfolding is_port_path
is_port_path_sound s e = elim (Option-cases (split_once b'-' s)) [
  | inl absent ↦ cc (rw absent at e)
  | inr ((bus, ports), found) ↦
      let both : is_bus_and_ports (some (bus, ports)) ≡ true = rw found at e in
      parts bus ports (split_once_sound b'-' s bus ports found).0 (ground arith) (split b'.' ports)
        (split_nonempty b'.' ports) (join-split b'.' ports) (ground arith)
]
  where
    parts :
        (bus ports : Text)
        → s ≡ bus ++ (b'-' ∷ ports)
        → is_number bus ≡ true
        → (ps : List Text) → ps ≢ []
        → join b'.' ps ≡ ports
        → all is_number ps ≡ true
        → IsPortPath s
    parts bus ports shape number [] ne whole all_numbers = absurd (ne refl)
    parts bus ports shape number (p ∷ ps) ne whole all_numbers = record {
      bus = bus;
      port = p;
      ports = ps;
      shape = shape ∙ ap (λ r. bus ++ (b'-' ∷ r)) (sym whole);
      bus_number = (is_number_iff bus).0 number;
      port_numbers = (numbers_iff (p ∷ ps)).0 all_numbers;
    }

is_port_path_complete : (s : Text) → IsPortPath s → is_port_path s ≡ true
unfolding is_port_path
is_port_path_complete s h =
    let rest = join b'.' (h.port ∷ h.ports) in
    let number : is_number h.bus ≡ true = (is_number_iff h.bus).1 h.bus_number in
    let full : is_empty rest ≡ false = is_empty-join h.port h.ports h.port_numbers.0.0 in
    let all_numbers : all is_number (h.port ∷ h.ports) ≡ true =
      (numbers_iff (h.port ∷ h.ports)).1 h.port_numbers in
    rw
      (
        h.shape,
        split_once-append b'-' h.bus rest (digits-Free b'-' h.bus refl h.bus_number.1),
        number,
        full,
        split-join b'.' h.port h.ports (numbers-Free (h.port ∷ h.ports) h.port_numbers),
        all_numbers,
      )
      refl

-- A text is taken for a port path exactly when it is a bus number, a hyphen, and one or more port
-- numbers separated by dots.
pub is_port_path_iff : (s : Text) → (is_port_path s ≡ true) ↔ IsPortPath s
is_port_path_iff s = (is_port_path_sound s, is_port_path_complete s)
