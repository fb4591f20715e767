-- ===== src/Resolve/Published.antt =====
-- What a serial resolves to, by what the file system shows.
use runtt.Shared.{◌≡◌, refl, ap, sym, subst, ◌∙◌, true, List, [], ◌∷◌, Option, none, some, ok}
use runtt.Shared.{All, Bool-cases, inl, inr}
use runtt.Shared.Text.{Text, codes}
use runtt.Resolve.{Candidate, Resolved, serial, ports_of, filter, has_serial, resolve_usb_serial}
use runtt.Resolve.Identity.{resolve_usb_serial-Among}
use runtt.Resolve.Sysfs.{
  Sysfs, scan_ttys, scan_entries, listed, candidate, and_more, is_usb_tty, dev_path, tty_serial,
}

-- A candidate is a tty that is there, with what sysfs says of it.
pub record Shown (fs : Sysfs) (c : Candidate) : Type 0 where
  pub name : Text
  pub is_usb : is_usb_tty name ≡ true
  pub there : fs.exists (dev_path name) ≡ true
  pub same : c ≡ candidate fs name

module _ (fs : Sysfs) where
  abbrev pub AllShown : Option (List Candidate) → Type 0
  AllShown none = Unit {0}
  AllShown (some cs) = All (Shown fs) cs

  and_more-AllShown :
      (c : Candidate) (cs : Option (List Candidate))
      → Shown fs c
      → AllShown cs
      → AllShown (and_more fs c cs)
  and_more-AllShown c none h hs = tt
  and_more-AllShown c (some cs) h hs = (h, hs)

  scan_entries-AllShown : (entries : List (Option Text)) → AllShown (scan_entries fs entries)
  unfolding scan_entries
  scan_entries-AllShown [] = tt
  scan_entries-AllShown (none ∷ entries) = tt
  scan_entries-AllShown (some name ∷ entries) = elim (Bool-cases (is_usb_tty name)) [
    | inr other ↦ rw other (scan_entries-AllShown entries)
    | inl usb ↦ elim (Bool-cases (fs.exists (dev_path name))) [
      | inr gone ↦ rw (usb, gone) (scan_entries-AllShown entries)
      | inl there ↦
          rw (usb, there)
            (and_more-AllShown (candidate fs name) (scan_entries fs entries)
              (record { name = name; is_usb = usb; there = there; same = refl })
              (scan_entries-AllShown entries))
    ]
  ]

  listed-AllShown : (entries : Option (List (Option Text))) → AllShown (listed fs entries)
  listed-AllShown none = tt
  listed-AllShown (some entries) = scan_entries-AllShown entries

  pub scan_ttys-AllShown : AllShown (scan_ttys fs)
  unfolding scan_ttys
  scan_ttys-AllShown = elim (Bool-cases (fs.is_dir (codes "/sys/class/tty"))) [
    | inl dir ↦ rw dir (listed-AllShown _)
    | inr none_ ↦ rw none_ tt
  ]

  -- What a serial may resolve to: a tty with the name of a USB modem or adapter, which is there and
  -- whose USB device publishes the serial; and all that publish it are on one port.
  pub record Published (candidates : List Candidate) (name : Text) (r : Resolved) : Type 0 where
    pub tty : Text
    pub log : Option Text
    pub port : Text
    pub resolved : r ≡ serial (dev_path tty) log
    pub is_usb : is_usb_tty tty ≡ true
    pub there : fs.exists (dev_path tty) ≡ true
    pub publishes : tty_serial fs tty ≡ some name
    pub one_board : All (λ q. q ≡ port) (ports_of (filter (has_serial name) candidates))

  -- When a serial resolves on what the scan of sysfs has found, its management channel is a ttyACM or
  -- ttyUSB device which is there and whose USB device has that serial in sysfs, and every tty found with
  -- that serial and a port path is on one and the same USB port.
  pub resolve_usb_serial-Published :
      (candidates : List Candidate) (name : Text) (r : Resolved)
      → scan_ttys fs ≡ some candidates
      → resolve_usb_serial (some candidates) name ≡ ok r
      → Published candidates name r
  resolve_usb_serial-Published candidates name r scanned e =
      let shown : All (Shown fs) candidates = subst AllShown scanned scan_ttys-AllShown in
      let ((port, one), (c, log, is, (publishes, s))) =
        resolve_usb_serial-Among (Shown fs) candidates name r shown e in
      record {
        tty = s.name;
        log = log;
        port = port;
        resolved = is ∙ ap (λ (x : Candidate). serial x.dev log) s.same;
        is_usb = s.is_usb;
        there = s.there;
        publishes = sym (ap (λ (x : Candidate). x.serial) s.same) ∙ publishes;
        one_board = one;
      }
