-- ===== src/Resolve/Sysfs.antt =====
-- The scan of `/sys/class/tty` and the walk of `/dev/runtt` in crates/runtt-transport/src/resolve.rs. The
-- file system is a parameter, as it stands meanwhile; names and contents are texts.
use runtt.Shared.{Bool, true, false, not, ◌||◌, List, [], ◌∷◌, reverse, Option, none, some}
use runtt.Shared.{if◌then◌else◌}
use runtt.Shared.Text.{Text, codes, trim, split, split_once, strip_prefix}
use runtt.Container.{join_path}
use runtt.Resolve.{Candidate, Entry, UdevTree, no_tree, unreadable_tree, tree, System}

-- A directory is its entries, of which each may fail; the others are `none` where they fail.
pub record Sysfs : Type 0 where
  pub is_dir : Text → Bool
  pub exists : Text → Bool
  pub read_dir : Text → Option (List (Option Text))
  pub canonicalize : Text → Option Text
  pub read_to_string : Text → Option Text

abbrev pub nonempty : Text → Option Text
nonempty [] = none
nonempty (c ∷ cs) = some (c ∷ cs)

abbrev last_of : Text → Option (Text × Text) → Option Text
last_of path none = nonempty path
last_of path (some (name, rest)) = nonempty (reverse name)

abbrev before : Option (Text × Text) → Option Text
before none = none
before (some (name, rest)) = some (reverse rest)

-- `Path::file_name` and `Path::parent` of a canonical path.
unfoldable pub file_name : Text → Option Text
file_name path = last_of path (split_once b'/' (reverse path))

unfoldable pub parent : Text → Option Text
parent path = before (split_once b'/' (reverse path))

abbrev first_part : List Text → Option Text
first_part [] = none
first_part (p ∷ _) = nonempty p

abbrev port_in : Option Text → Option Text
port_in none = none
port_in (some iface) = first_part (split b':' iface)

-- `.map(|s| s.trim().to_string()).filter(|s| !s.is_empty())`.
abbrev pub trimmed : Option Text → Option Text
trimmed none = none
trimmed (some s) = nonempty (trim s)

abbrev pub tty_device : Text → Text
tty_device tty = join_path (join_path (codes "/sys/class/tty") tty) (codes "device")

abbrev pub dev_path : Text → Text
dev_path name = join_path (codes "/dev") name

abbrev found : Option Text → Bool
found none = false
found (some _) = true

-- The names that a contract device can have.
abbrev pub is_usb_tty : Text → Bool
is_usb_tty name =
    found (strip_prefix (codes "ttyACM") name) || found (strip_prefix (codes "ttyUSB") name)

module _ (fs : Sysfs) where
  abbrev port_at : Option Text → Option Text
  port_at none = none
  port_at (some real) = port_in (file_name real)

  unfoldable pub tty_port_path : Text → Option Text
  tty_port_path tty = port_at (fs.canonicalize (tty_device tty))

  unfoldable pub tty_interface : Text → Option Text
  tty_interface tty = trimmed (fs.read_to_string (join_path (tty_device tty) (codes "interface")))

  abbrev serial_at : Option Text → Option Text
  serial_at none = none
  serial_at (some device) = trimmed (fs.read_to_string (join_path device (codes "serial")))

  abbrev serial_above : Option Text → Option Text
  serial_above none = none
  serial_above (some iface) = serial_at (parent iface)

  unfoldable pub tty_serial : Text → Option Text
  tty_serial tty = serial_above (fs.canonicalize (tty_device tty))

  abbrev pub candidate : Text → Candidate
  candidate name = record {
    dev = dev_path name;
    port_path = tty_port_path name;
    interface = tty_interface name;
    serial = tty_serial name;
  }

  abbrev pub and_more : Candidate → Option (List Candidate) → Option (List Candidate)
  and_more c none = none
  and_more c (some cs) = some (c ∷ cs)

  -- The loop of `scan_ttys`.
  unfoldable pub scan_entries : List (Option Text) → Option (List Candidate)
  scan_entries [] = some []
  scan_entries (none ∷ entries) = none
  scan_entries (some name ∷ entries) =
      let rest = scan_entries entries in
      if not (is_usb_tty name)
      then rest
      else if not (fs.exists (dev_path name))
      then rest
      else and_more (candidate name) rest

  abbrev pub listed : Option (List (Option Text)) → Option (List Candidate)
  listed none = none
  listed (some entries) = scan_entries entries

  unfoldable pub scan_ttys : Option (List Candidate)
  scan_ttys =
      if fs.is_dir (codes "/sys/class/tty")
      then listed (fs.read_dir (codes "/sys/class/tty"))
      else some []

  abbrev or_itself : Text → Option Text → Text
  or_itself path none = path
  or_itself path (some real) = real

  abbrev pub port_of_file : Option Text → Option Text
  port_of_file none = none
  port_of_file (some tty) = tty_port_path tty

  -- An entry of the udev tree, with what the loop of `from_udev_tree` asks about it. A path that ends in
  -- no name is on no port.
  abbrev pub udev_target : Text → Text
  udev_target name =
      let path = join_path (codes "/dev/runtt") name in or_itself path (fs.canonicalize path)

  abbrev pub udev_entry : Text → Entry
  udev_entry name = record {
    name = name;
    target = udev_target name;
    port = port_of_file (file_name (udev_target name));
  }

  abbrev pub and_entry : Entry → UdevTree → UdevTree
  and_entry e (tree es) = tree (e ∷ es)
  and_entry e other = other

  unfoldable pub udev_entries : List (Option Text) → UdevTree
  udev_entries [] = tree []
  udev_entries (none ∷ entries) = unreadable_tree
  udev_entries (some name ∷ entries) = and_entry (udev_entry name) (udev_entries entries)

  abbrev pub udev_listed : Option (List (Option Text)) → UdevTree
  udev_listed none = unreadable_tree
  udev_listed (some entries) = udev_entries entries

  unfoldable pub udev_tree : UdevTree
  udev_tree =
      if fs.is_dir (codes "/dev/runtt")
      then udev_listed (fs.read_dir (codes "/dev/runtt"))
      else no_tree

  -- What `resolve` sees of the file system.
  abbrev pub system_of : System
  system_of = record {
    exists = fs.exists;
    has_network = λ iface. fs.is_dir (join_path (codes "/sys/class/net") iface);
    udev = udev_tree;
    ttys = scan_ttys;
  }
