-- ===== src/Target.antt =====
-- crates/runtt-transport/src/lib.rs: placement labels. A text is the list of its code points.
pub mod Labels
use runtt.Shared.{Bool, true, false, not, ◌&&◌, List, [], ◌∷◌, ◌++◌, Option, none, some}
use runtt.Shared.{Result, ok, err, all, is_empty, ◌=ₗ◌, if◌then◌else◌}
use runtt.Shared.Text.{Text, codes, split_once, split, is_ascii_digit}

pub data UsbSelector : Type 0 where
  port_path serial : Text → UsbSelector

pub data Target : Type 0 where
  usb : (selector : UsbSelector) → Target
  tty : (device : Text) → Target
  can : (iface node_id : Text) → Target

pub data LabelError : Type 0 where
  no_prefix not_can unknown_prefix : LabelError

abbrev pub is_number : Text → Bool
is_number p = not (is_empty p) && all is_ascii_digit p

abbrev pub is_bus_and_ports : Option (Text × Text) → Bool
is_bus_and_ports none = false
is_bus_and_ports (some (bus, ports)) =
    if not (is_number bus) then false else not (is_empty ports) && all is_number (split b'.' ports)

unfoldable pub is_port_path : Text → Bool
is_port_path s = is_bus_and_ports (split_once b'-' s)

-- `UsbSelector::parse` and the two `Display` instances.
unfoldable pub parse_selector : Text → UsbSelector
parse_selector s = if is_port_path s then port_path s else serial s

abbrev pub show_selector : UsbSelector → Text
show_selector (port_path s) = s
show_selector (serial s) = s

abbrev pub can_target : Option (Text × Text) → Result LabelError Target
can_target none = err not_can
can_target (some (iface, node_id)) = ok (can iface node_id)

abbrev pub parse_prefixed : Option (Text × Text) → Result LabelError Target
parse_prefixed none = err no_prefix
parse_prefixed (some (prefix, rest)) =
    if prefix =ₗ codes "usb"
    then ok (usb (parse_selector rest))
    else if prefix =ₗ codes "tty"
    then ok (tty rest)
    else if prefix =ₗ codes "can"
    then can_target (split_once b'/' rest)
    else err unknown_prefix

-- `Target::parse`.
unfoldable pub parse_target : Text → Result LabelError Target
parse_target label = parse_prefixed (split_once b':' label)

unfoldable pub show_target : Target → Text
show_target (usb selector) = codes "usb:" ++ show_selector selector
show_target (tty device) = codes "tty:" ++ device
show_target (can iface node_id) = codes "can:" ++ (iface ++ (b'/' ∷ node_id))
