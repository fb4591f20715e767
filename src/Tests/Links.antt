-- ===== src/Tests/Links.antt =====
-- A shared link that carries a frame between two log lines, and boards on a USB tree and a CAN bus.
use runtt.Shared.{
  arith, Bool, ◌≡◌, refl, List, [], ◌∷◌, ◌++◌, Option, none, some, ok, true, false, ◌=ₗ◌,
}
use runtt.Shared.Text.{Text, codes, trim, trim_start, strip_prefix}
use runtt.Shared.Text.Numbers.{parse_unsigned, parse_digits}
use runtt.Mcuboot.{Bytes}
use runtt.Codec.{Decoder_default, receive}
use runtt.Codec.Lines.{concat}
use runtt.Demux.{opened, received, quiet, feed, pump}
use runtt.Demux.Routing.{always, pump-concat, receive-feed}
use runtt.Target.{can as can_label, usb, port_path as by_port}
use runtt.Demux.Lifecycle.{
  spawned, Event, reader_goes, client_goes, begins_drop, run_events, run_rounds, step, reader_turn,
}
use runtt.Demux.Turns.{has_begun}
use runtt.Demux.Drop.{Closed, drop_ends}
use runtt.Resolve.{
  resolve_usb, from_udev_tree, walk_entries, Resolved, serial, can, Candidate, System, no_tree,
  resolve, resolve_usb_serial, ports_of, filter, dedup, sort, insert_sorted, text_leb,
  parse_node_id,
}
use runtt.Container.{join_path}
use runtt.Shared.Text.{split_once, split}
use runtt.Shared.{if◌then◌else◌}
use runtt.Resolve.Published.{Published, resolve_usb_serial-Published}
use runtt.Resolve.Channels.{Channels}
use runtt.Resolve.Ports.{OnPort, resolve-OnPort}
use runtt.Resolve.Sysfs.{
  system_of, udev_tree, udev_entries, Sysfs, scan_ttys, scan_entries, tty_port_path, tty_interface,
  tty_serial, file_name, parent,
}
use runtt.Shared.{find}
use runtt.Tests.Frames.{toy, sum_crc}

abbrev stream : Bytes
stream = codes "hi\r\n" ++ ((0x06 ∷ 0x09 ∷ codes "AB\n") ++ codes "bye\n")

-- The client goes away after the first line.
abbrev one_line : List Bytes → Bool
one_line [] = true
one_line (_ ∷ _) = false

pump-concat_example :
    pump one_line opened
      (received (codes "hi\r\n") ∷ quiet ∷ received (0x06 ∷ 0x09 ∷ codes "AB\n") ∷ [])
    ≡ feed one_line opened (codes "hi\r\n" ++ ((0x06 ∷ 0x09 ∷ codes "AB\n") ++ []))
pump-concat_example =
    pump-concat one_line opened
      (received (codes "hi\r\n") ∷ quiet ∷ received (0x06 ∷ 0x09 ∷ codes "AB\n") ∷ [])
      (λ z. cc, (tt, (λ z. cc, tt)))

receive-feed_example :
    receive sum_crc toy Decoder_default [] (concat (feed always opened stream).sent)
    ≡ receive sum_crc toy Decoder_default [] stream
receive-feed_example = receive-feed sum_crc toy Decoder_default stream

-- A board on port 3-4 with one channel, beside a serial port.
abbrev contents : Text → Option Text
contents path =
    if path =ₗ codes "/sys/devices/usb3/3-4/serial"
    then some (codes "feather-01" ++ (b'\n' ∷ []))
    else some (codes "runtt-mgmt" ++ (b'\n' ∷ []))

abbrev sysfs : Sysfs
sysfs = record {
  is_dir = λ p. true;
  exists = λ p. true;
  read_dir = λ p. some (some (codes "ttyS0") ∷ some (codes "ttyACM0") ∷ []);
  canonicalize = λ p. some (codes "/sys/devices/usb3/3-4/3-4:1.1");
  read_to_string = contents;
}

abbrev board : Candidate
board = record {
  dev = codes "/dev/ttyACM0";
  port_path = some (codes "3-4");
  interface = some (codes "runtt-mgmt");
  serial = some (codes "feather-01");
}

scans : scan_ttys sysfs ≡ some (board ∷ [])
unfolding scan_ttys scan_entries tty_port_path tty_interface tty_serial file_name parent join_path
    split_once split strip_prefix trim trim_start ◌=ₗ◌
scans = refl

abbrev found : Resolved
found = serial (codes "/dev/ttyACM0") none

finds : resolve_usb_serial (some (board ∷ [])) (codes "feather-01") ≡ ok found
unfolding resolve_usb_serial filter ports_of dedup sort insert_sorted text_leb find ◌=ₗ◌
finds = refl

resolve_usb_serial-Published_example : Published sysfs (board ∷ []) (codes "feather-01") found
resolve_usb_serial-Published_example =
    resolve_usb_serial-Published sysfs (board ∷ []) (codes "feather-01") found scans finds

-- The same board, with a link to its channel in the udev tree.
abbrev linked : Sysfs
linked = record {
  is_dir = λ p. true;
  exists = λ p. true;
  read_dir = λ p. some (some (codes "feather-mgmt") ∷ []);
  canonicalize = λ p.
      if p =ₗ codes "/dev/runtt/feather-mgmt"
      then some (codes "/dev/ttyACM0")
      else some (codes "/sys/devices/usb3/3-4/3-4:1.1");
  read_to_string = contents;
}

on_port :
    resolve (system_of linked) (usb (by_port (codes "3-4")))
    ≡ ok (serial (codes "/dev/ttyACM0") none)
unfolding resolve resolve_usb from_udev_tree walk_entries udev_tree udev_entries tty_port_path
    file_name join_path split_once split strip_prefix ◌=ₗ◌
on_port = refl

resolve-OnPort_example : Channels (OnPort linked (codes "3-4")) (serial (codes "/dev/ttyACM0") none)
resolve-OnPort_example =
    resolve-OnPort linked (codes "3-4") (serial (codes "/dev/ttyACM0") none) on_port

abbrev system : System
system = record { exists = λ p. true; has_network = λ n. true; udev = no_tree; ttys = some [] }

on_the_bus :
    resolve system (can_label (codes "can0") (codes "0x42")) ≡ ok (can (codes "can0") 66 none)
unfolding resolve parse_node_id trim trim_start strip_prefix parse_unsigned parse_digits
on_the_bus = refl

-- The client drops the link while the thread reads.
abbrev dropping : List Event
dropping = reader_goes quiet ∷ begins_drop ∷ []

abbrev turns : List Event
turns = client_goes ∷ reader_goes quiet ∷ []

abbrev five_rounds : List (List Event)
five_rounds = turns ∷ turns ∷ turns ∷ turns ∷ turns ∷ []

has_begun_now : has_begun (run_events one_line dropping spawned).client ≡ true
unfolding run_events step reader_turn
has_begun_now = refl

drop_ends_example : Closed (run_rounds one_line five_rounds (run_events one_line dropping spawned))
drop_ends_example =
    drop_ends one_line dropping five_rounds has_begun_now
      ((refl, refl), ((refl, refl), ((refl, refl), ((refl, refl), ((refl, refl), tt)))))
      (omega arith)
