-- ===== src/Tests/Ports.antt =====
-- Serial ports that count their handles.
use runtt.Shared.{
  ℕ, suc, ◌≡◌, ◌⊎◌, ap, ◌∙◌, arith, Bool, true, false, Bool-cases, Option, none, some, err, ◌==◌,
  if◌then◌else◌, inl, inr,
}
use runtt.Shared.Text.{codes}
use runtt.Can.{timed_out}
use runtt.Serial.{Serialport}
use runtt.Serial.Link.{connect_serial}
use runtt.Serial.Handles.{Ports, Freed, connect_serial-Freed}

record World : Type 0 where
  open_now : ℕ → Bool
  fresh : ℕ

opened : World → World
opened w = record {
  open_now = (λ q. if q == w.fresh then true else w.open_now q);
  fresh = suc w.fresh;
}

abbrev ports : Serialport World
ports = record {
  open_native = λ path baud t w. (some w.fresh, opened w);
  set_exclusive = λ p b w. (some tt, w);
  read = λ p len w. (err timed_out, w);
  write = λ p buf w. (err timed_out, w);
  flush = λ p w. (err timed_out, w);
  try_clone = λ p w. (some w.fresh, opened w);
  set_timeout = λ p t w. (some tt, w);
  pair = λ w. (none, w);
  name = λ p w. none;
  close = λ p w. record w { open_now = (λ q. if q == p then false else w.open_now q) };
}

abbrev Open : World → ℕ → Type 0
Open w q = w.open_now q ≡ true

one_more :
    (p q : ℕ) (w w' : World)
    → ◌≡◌ {A = Option ℕ × World} (some w.fresh, opened w) (some p, w')
    → Open w' q
    → Open w q ⊎ (q ≡ p)
unfolding opened
one_more p q w w' e is =
    let here : w.fresh ≡ p = cc in
    let was : (if q == w.fresh then true else w.open_now q) ≡ true =
      ap (λ r. r.1.open_now q) e ∙ is in
    elim (Bool-cases (q == w.fresh)) [
      | inl same ↦ inr (ground arith)
      | inr other ↦ inl (rw other at was)
    ]

not_none :
    {A : Type 0} (q : ℕ) (w w' : World)
    → ◌≡◌ {A = Option ℕ × World} (some w.fresh, opened w) (none, w')
    → A
not_none q w w' e = cc

shut :
    (p q : ℕ) (w : World) → (if q == p then false else w.open_now q) ≡ true → Open w q × (q ≡ p → ⊥)
shut p q w is = elim (Bool-cases (q == p)) [
  | inl same ↦ cc (rw same at is)
  | inr other ↦ (rw other at is, ground arith)
]

ports-Ports : Ports ports (λ link t w. (some tt, w)) Open
ports-Ports = record {
  opens = λ path b t p q w w' e is. one_more p q w w' e is;
  opens_none = λ path b t q w w' e is. not_none q w w' e;
  clones = λ o p q w w' e is. one_more p q w w' e is;
  clones_none = λ o q w w' e is. not_none q w w' e;
  exclusive = λ p q b w is. is;
  timed = λ p t q w is. is;
  client = λ link t q w is. is;
  closes = λ p q w is. shut p q w is;
}

abbrev idle : World
idle = record { open_now = λ q. false; fresh = 3 }

connect_serial-Freed_example :
    Freed ports
      (λ link t w. (some tt, w))
      Open
      ports-Ports
      idle
      (connect_serial ports (λ link t w. (some tt, w)) (codes "/dev/ttyACM0") true idle).0
      (connect_serial ports (λ link t w. (some tt, w)) (codes "/dev/ttyACM0") true idle).1
connect_serial-Freed_example =
    connect_serial-Freed ports (λ link t w. (some tt, w)) Open ports-Ports idle
      (codes "/dev/ttyACM0") true
