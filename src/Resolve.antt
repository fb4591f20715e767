-- ===== src/Resolve.antt =====
-- crates/runtt-transport/src/resolve.rs: from a label to device paths. What the file system shows is
-- an argument: which paths exist, the ttys that a scan of sysfs finds, and the entries of the udev tree.
pub mod Identity
pub mod Sysfs
pub mod Channels
pub mod Ports
pub mod Published
use runtt.Shared.{
  ℕ, ◌+◌, Bool, true, false, not, ◌&&◌, ◌||◌, List, [], ◌∷◌, ◌++◌, Option, none, some, Result, ok,
  err,
}
use runtt.Shared.{ltb, leb, ◌==◌, ◌=ₗ◌, is_some_of, if◌then◌else◌, find, length, reverse}
use runtt.Shared.Text.{Text, codes, trim, strip_prefix}
use runtt.Shared.Text.Numbers.{parse_unsigned, u32_limit, show_hex}
use runtt.Target.{
  Target, usb, tty, can as can_label, UsbSelector, port_path as by_port, serial as by_serial,
}
use runtt.Container.{join_path}

abbrev pub log_id_offset : ℕ
log_id_offset = 2

abbrev pub iface_mgmt : Text
iface_mgmt = codes "runtt-mgmt"

abbrev pub iface_log : Text
iface_log = codes "runtt-log"

pub data Resolved : Type 0 where
  serial : (mgmt : Text) (log : Option Text) → Resolved
  can : (iface : Text) (node_id : ℕ) (log : Option Text) → Resolved

pub data LogSource : Type 0 where
  log_serial : Text → LogSource
  log_can : (iface : Text) (id : ℕ) → LogSource

pub data ResolveError : Type 0 where
  missing_path scan_failed no_board ambiguous_serial no_management no_interface : ResolveError
  not_a_number id_too_large no_room udev_unreadable : ResolveError

unfoldable pub log_source : Resolved → Option LogSource
log_source (serial mgmt none) = none
log_source (serial mgmt (some p)) = some (log_serial p)
log_source (can iface node_id (some p)) = some (log_serial p)
log_source (can iface node_id none) = some (log_can iface (node_id + log_id_offset))

unfoldable pub set_log : Resolved → Text → Resolved
set_log (serial mgmt log) path = serial mgmt (some path)
set_log (can iface node_id log) path = can iface node_id (some path)

unfoldable pub log_path : Resolved → Option Text
log_path (serial mgmt log) = log
log_path (can iface node_id log) = log

abbrev count_channels : Option LogSource → ℕ
count_channels none = 1
count_channels (some s) = 2

unfoldable pub channels : Resolved → ℕ
unfolding log_source
channels r = count_channels (log_source r)

abbrev unwrap_or : Option Text → Text → Text
unwrap_or none p = p
unwrap_or (some q) p = q

-- `canonicalize` resolves links; it is the operating system's.
unfoldable pub lock_key : (Text → Option Text) → Resolved → Text
unfolding show_hex
lock_key canonicalize (serial mgmt log) = unwrap_or (canonicalize mgmt) mgmt
lock_key canonicalize (can iface node_id log) = codes "can:" ++ (iface ++ (b'/' ∷ show_hex node_id))

pub record Candidate : Type 0 where
  pub dev : Text
  pub port_path : Option Text
  pub interface : Option Text
  pub serial : Option Text

abbrev hex_or_decimal : Text → Option Text → Option Text → Option ℕ
hex_or_decimal t (some hex) _ = parse_unsigned 16 u32_limit hex
hex_or_decimal t none (some hex) = parse_unsigned 16 u32_limit hex
hex_or_decimal t none none = parse_unsigned 10 u32_limit t

abbrev pub max_std_id : ℕ
max_std_id = 0x7ff

abbrev checked_id : Option ℕ → Result ResolveError ℕ
checked_id none = err not_a_number
checked_id (some id) =
    if ltb max_std_id id
    then err id_too_large
    else if ltb max_std_id (id + log_id_offset)
    then err no_room
    else ok id

unfoldable pub parse_node_id : Text → Result ResolveError ℕ
parse_node_id s =
    let t = trim s in
    checked_id (hex_or_decimal t (strip_prefix (codes "0x") t) (strip_prefix (codes "0X") t))

unfoldable pub filter : (Candidate → Bool) → List Candidate → List Candidate
filter p [] = []
filter p (c ∷ cs) = let rest = filter p cs in if p c then c ∷ rest else rest

abbrev with_port : Option Text → List Text → List Text
with_port none ports = ports
with_port (some p) ports = p ∷ ports

-- `filter_map(|c| c.port_path)`.
unfoldable pub ports_of : List Candidate → List Text
ports_of [] = []
ports_of (c ∷ cs) = with_port c.port_path (ports_of cs)

-- `sort` in the order of the bytes, which is that of the code points, and `dedup`.
unfoldable pub text_leb : Text → Text → Bool
text_leb [] t = true
text_leb (a ∷ s) [] = false
text_leb (a ∷ s) (b ∷ t) = let later = text_leb s t in if a == b then later else ltb a b

unfoldable pub insert_sorted : Text → List Text → List Text
insert_sorted p [] = p ∷ []
insert_sorted p (q ∷ qs) =
    let rest = insert_sorted p qs in if text_leb p q then p ∷ q ∷ qs else q ∷ rest

unfoldable pub sort : List Text → List Text
sort [] = []
sort (p ∷ ps) = insert_sorted p (sort ps)

unfoldable pub dedup : List Text → List Text
dedup [] = []
dedup (p ∷ []) = p ∷ []
dedup (p ∷ q ∷ ps) = let rest = dedup (q ∷ ps) in if p =ₗ q then rest else p ∷ rest

abbrev pub has_interface : Text → Candidate → Bool
has_interface name c = is_some_of c.interface name

abbrev dev_of : Option Candidate → Option Text
dev_of none = none
dev_of (some c) = some c.dev

-- The channels among the ttys of one board.
abbrev pub pick : Option Text → Option Text → List Candidate → Result ResolveError Resolved
pick (some mgmt) log matching = ok (serial mgmt log)
pick none log (c ∷ []) = ok (serial c.dev none)
pick none log _ = err no_management

abbrev pub channels_among : List Candidate → Result ResolveError Resolved
channels_among matching =
    pick (dev_of (find (has_interface iface_mgmt) matching))
      (dev_of (find (has_interface iface_log) matching)) matching

abbrev pub has_serial : Text → Candidate → Bool
has_serial name c = is_some_of c.serial name

abbrev pub has_port : Text → Candidate → Bool
has_port name c = is_some_of c.port_path name

abbrev one_board : List Candidate → Result ResolveError Resolved
one_board [] = err no_board
one_board (c ∷ cs) =
    if ltb 1 (length (dedup (sort (ports_of (c ∷ cs)))))
    then err ambiguous_serial
    else channels_among (c ∷ cs)

-- `resolve_usb_serial` over what the scan found, `none` where it failed.
unfoldable pub resolve_usb_serial : Option (List Candidate) → Text → Result ResolveError Resolved
resolve_usb_serial none name = err scan_failed
resolve_usb_serial (some candidates) name = one_board (filter (has_serial name) candidates)

abbrev at_port : List Candidate → Result ResolveError Resolved
at_port [] = err no_board
at_port (c ∷ cs) = channels_among (c ∷ cs)

-- `resolve_usb` where the udev tree has no answer.
unfoldable pub resolve_port : Option (List Candidate) → Text → Result ResolveError Resolved
resolve_port none path = err scan_failed
resolve_port (some candidates) path = at_port (filter (has_port path) candidates)

-- An entry of `/dev/runtt`: its name, the path that it leads to, and the port path of that tty.
pub record Entry : Type 0 where
  pub name : Text
  pub target : Text
  pub port : Option Text

abbrev pub ends_with : Text → Text → Bool
ends_with suffix name = is_found (strip_prefix (reverse suffix) (reverse name))
  where
    is_found : Option Text → Bool
    is_found none = false
    is_found (some _) = true

abbrev take_entry : Text → Entry → Option Text × Option Text → Option Text × Option Text
take_entry path e (mgmt, log) =
    if not (is_some_of e.port path)
    then (mgmt, log)
    else if ends_with (codes "-mgmt") e.name
    then (some e.target, log)
    else if ends_with (codes "-log") e.name
    then (mgmt, some e.target)
    else (mgmt, log)

unfoldable pub walk_entries :
    Text → List Entry → Option Text × Option Text → Option Text × Option Text
walk_entries path [] found = found
walk_entries path (e ∷ es) found = walk_entries path es (take_entry path e found)

abbrev serial_of : Option Text × Option Text → Option Resolved
serial_of (none, log) = none
serial_of (some mgmt, log) = some (serial mgmt log)

-- The directory `/dev/runtt`, which may not be there, or fail to be read.
pub data UdevTree : Type 0 where
  no_tree unreadable_tree : UdevTree
  tree : List Entry → UdevTree

-- What the file system shows; the ttys are `none` where the scan fails.
pub record System : Type 0 where
  pub exists : Text → Bool
  pub has_network : Text → Bool
  pub udev : UdevTree
  pub ttys : Option (List Candidate)

unfoldable pub from_udev_tree : UdevTree → Text → Result ResolveError (Option Resolved)
unfolding walk_entries
from_udev_tree no_tree path = ok none
from_udev_tree unreadable_tree path = err udev_unreadable
from_udev_tree (tree entries) path = ok (serial_of (walk_entries path entries (none, none)))

abbrev or_scan :
    System → Text → Result ResolveError (Option Resolved) → Result ResolveError Resolved
or_scan sys path (err e) = err e
or_scan sys path (ok (some r)) = ok r
or_scan sys path (ok none) = resolve_port sys.ttys path

unfoldable pub resolve_usb : System → Text → Result ResolveError Resolved
resolve_usb sys path = or_scan sys path (from_udev_tree sys.udev path)

abbrev on_bus : System → Text → Result ResolveError ℕ → Result ResolveError Resolved
on_bus sys iface (err e) = err e
on_bus sys iface (ok node_id) =
    if sys.has_network iface then ok (can iface node_id none) else err no_interface

-- `join` takes an absolute path as it is.
unfoldable pub resolve : System → Target → Result ResolveError Resolved
resolve sys (tty device) =
    let path = join_path (codes "/dev") device in
    if sys.exists path then ok (serial path none) else err missing_path
resolve sys (usb (by_port p)) = resolve_usb sys p
resolve sys (usb (by_serial s)) = resolve_usb_serial sys.ttys s
resolve sys (can_label iface node_id) = on_bus sys iface (parse_node_id node_id)
