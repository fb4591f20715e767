-- ===== src/Resolve/Ports.antt =====
-- What a port path resolves to, by what the file system shows, whichever way it is found.
use runtt.Shared.{◌≡◌, ◌⊎◌, refl, ap, sym, ◌∙◌, Bool-cases, inl, inr}
use runtt.Shared.{List, [], ◌∷◌, Option, none, some, ok, All, is_some_of_iff}
use runtt.Shared.Text.{Text, codes}
use runtt.Target.{usb, port_path as by_port}
use runtt.Resolve.{
  Candidate, Entry, UdevTree, no_tree, unreadable_tree, tree, Resolved, filter, has_port, at_port,
  resolve_port, walk_entries, serial_of, from_udev_tree, or_scan, resolve_usb, resolve,
}
use runtt.Resolve.Published.{Shown, AllShown, scan_ttys-AllShown}
use runtt.Resolve.Sysfs.{
  Sysfs, file_name, tty_port_path, dev_path, scan_ttys, udev_entry, udev_target, udev_entries,
  udev_listed, udev_tree, and_entry, system_of, port_of_file,
}
use runtt.Resolve.Channels.{
  Channels, Holds, channels_among-Channels, walk_entries-Holds, serial_of-Channels,
}

-- A device file that stands for a tty whose port path, in sysfs, is `port`: it is the file of the tty in
-- `/dev`, or has the name of the tty.
pub record OnPort (fs : Sysfs) (port device : Text) : Type 0 where
  pub tty : Text
  pub on_port : tty_port_path fs tty ≡ some port
  pub is_tty : (device ≡ dev_path tty) ⊎ (file_name device ≡ some tty)

module _ (fs : Sysfs) (port : Text) where
  abbrev P : Text → Type 0
  P = OnPort fs port

  -- An entry of the udev tree is on the port that sysfs gives for the tty that it leads to.
  udev_entry-OnPort :
      (name : Text) → (udev_entry fs name).port ≡ some port → P (udev_target fs name)
  udev_entry-OnPort name e = go (file_name (udev_target fs name)) refl e
    where
      go :
          (o : Option Text)
          → file_name (udev_target fs name) ≡ o
          → port_of_file fs o ≡ some port
          → P (udev_target fs name)
      go none f z = cc
      go (some tty) f z = record { tty = tty; on_port = z; is_tty = inr f }

  abbrev AllOn : UdevTree → Type 0
  AllOn (tree es) = All (λ (e : Entry). e.port ≡ some port → P e.target) es
  AllOn other = Unit {0}

  and_entry-AllOn :
      (e : Entry) (t : UdevTree)
      → (e.port ≡ some port → P e.target)
      → AllOn t
      → AllOn (and_entry fs e t)
  and_entry-AllOn e no_tree h hs = tt
  and_entry-AllOn e unreadable_tree h hs = tt
  and_entry-AllOn e (tree es) h hs = (h, hs)

  udev_entries-AllOn : (names : List (Option Text)) → AllOn (udev_entries fs names)
  unfolding udev_entries
  udev_entries-AllOn [] = tt
  udev_entries-AllOn (none ∷ names) = tt
  udev_entries-AllOn (some name ∷ names) =
      and_entry-AllOn (udev_entry fs name) (udev_entries fs names) (udev_entry-OnPort name)
        (udev_entries-AllOn names)

  udev_listed-AllOn : (names : Option (List (Option Text))) → AllOn (udev_listed fs names)
  udev_listed-AllOn none = tt
  udev_listed-AllOn (some names) = udev_entries-AllOn names

  udev_tree-AllOn : AllOn (udev_tree fs)
  unfolding udev_tree
  udev_tree-AllOn = elim (Bool-cases (fs.is_dir (codes "/dev/runtt"))) [
    | inl dir ↦ rw dir (udev_listed-AllOn (fs.read_dir (codes "/dev/runtt")))
    | inr none_ ↦ rw none_ tt
  ]

  filter-OnPort :
      (cs : List Candidate)
      → All (Shown fs) cs
      → All (λ (c : Candidate). P c.dev) (filter (has_port port) cs)
  unfolding filter
  filter-OnPort [] h = tt
  filter-OnPort (c ∷ cs) (s, h) = elim (Bool-cases (has_port port c)) [
    | inr miss ↦ rw miss (filter-OnPort cs h)
    | inl hit ↦
        let on = (is_some_of_iff c.port_path port).0 hit in
        rw hit (
          record {
            tty = s.name;
            on_port = sym (ap (λ (x : Candidate). x.port_path) s.same) ∙ on;
            is_tty = inl (ap (λ (x : Candidate). x.dev) s.same);
          },
          filter-OnPort cs h,
        )
  ]

  at_port-Channels :
      (cs : List Candidate) (r : Resolved)
      → All (λ (c : Candidate). P c.dev) cs
      → at_port cs ≡ ok r
      → Channels P r
  at_port-Channels [] r h e = cc
  at_port-Channels (c ∷ cs) r h e = channels_among-Channels P (c ∷ cs) r h e

  resolve_port-Channels :
      (ttys : Option (List Candidate)) (r : Resolved)
      → AllShown fs ttys
      → resolve_port ttys port ≡ ok r
      → Channels P r
  unfolding resolve_port
  resolve_port-Channels none r h e = cc
  resolve_port-Channels (some cs) r h e =
      at_port-Channels (filter (has_port port) cs) r (filter-OnPort cs h) e

  nothing : Holds P (none, none)
  nothing = record { mgmt = λ l e. cc; log = λ l e. cc }

  either_way :
      (t : UdevTree) (r : Resolved)
      → AllOn t
      → or_scan (system_of fs) port (from_udev_tree t port) ≡ ok r
      → Channels P r
  unfolding from_udev_tree
  either_way no_tree r h e = resolve_port-Channels (scan_ttys fs) r (scan_ttys-AllShown fs) e
  either_way unreadable_tree r h e = cc
  either_way (tree es) r h e = walked (serial_of (walk_entries port es (none, none))) refl e
    where
      walked :
          (o : Option Resolved)
          → serial_of (walk_entries port es (none, none)) ≡ o
          → or_scan (system_of fs) port (ok o) ≡ ok r
          → Channels P r
      walked (some x) f z =
          serial_of-Channels P _ r (walk_entries-Holds P port es (none, none) h nothing)
            (f ∙ ap some (cc))
      walked none f z = resolve_port-Channels (scan_ttys fs) r (scan_ttys-AllShown fs) z

  -- When a port path resolves, by the udev tree or by the scan of sysfs, and to whatever the board offers:
  -- the management channel, and the log channel if there is one, are device files of ttys whose port
  -- path in sysfs is the one asked for. So the two are never on different ports.
  pub resolve-OnPort :
      (r : Resolved)
      → resolve (system_of fs) (usb (by_port port)) ≡ ok r
      → Channels (OnPort fs port) r
  unfolding resolve resolve_usb
  resolve-OnPort r e = either_way (udev_tree fs) r udev_tree-AllOn e
