-- ===== src/Can.antt =====
-- crates/runtt-transport/src/can.rs and crates/runtt-smp/src/can.rs: sockets on a CAN bus. The system
-- calls are the parameter `Os`, over a state; an error is its errno.

pub mod Descriptors
pub mod Log
pub mod Frames
use runtt.Shared.{
  ℕ, ◌+◌, ◌/◌, ◌%◌, ◌^◌, ◌-◌, Bool, true, false, List, [], ◌∷◌, ◌++◌, Option, none, some,
}
use runtt.Shared.{Result, ok, err, any, length, drop, ltb, ◌==◌, if◌then◌else◌, zero, suc}
use runtt.Shared.Stateful.{M, ◌>>=◌, ◌>>◌, pure, fail}
use runtt.Shared.Text.{Text, codes}
use runtt.Shared.Text.Numbers.{show_hex}
use runtt.Mcuboot.{Bytes}

abbrev pub af_can : ℕ
af_can = 29

abbrev pub can_isotp : ℕ
can_isotp = 6

abbrev pub can_raw : ℕ
can_raw = 1

abbrev pub can_sff_mask : ℕ
can_sff_mask = 0x7ff

-- `SockAddrCanIsoTp`, and `SockAddrCanRaw` with its two unused words.
pub record SockAddrCan : Type 0 where
  pub can_family : ℕ
  pub can_ifindex : ℕ
  pub rx_id : ℕ
  pub tx_id : ℕ

-- The options that are set: `CAN_RAW_FILTER` on the level of raw CAN, and `SO_RCVTIMEO`.
pub data Sockopt : Type 0 where
  can_raw_filter : (can_id can_mask : ℕ) → Sockopt
  so_rcvtimeo : (tv_sec tv_usec : ℕ) → Sockopt

pub data IoKind : Type 0 where
  would_block timed_out interrupted invalid_data write_zero other_kind : IoKind

-- What the code uses of the `libc` crate.
pub record Os (W : Type 0) : Type 0 where
  pub sock_dgram : ℕ
  pub sock_raw : ℕ
  pub eprotonosupport : ℕ
  pub if_nametoindex : Text → W → Option ℕ × W
  pub socket : (domain kind protocol : ℕ) → W → Result ℕ ℕ × W
  pub bind : (fd : ℕ) → SockAddrCan → W → Result ℕ (Unit {0}) × W
  pub setsockopt : (fd : ℕ) → Sockopt → W → Result ℕ (Unit {0}) × W
  pub read : (fd len : ℕ) → W → Result IoKind Bytes × W
  pub write : (fd : ℕ) → Bytes → W → Result IoKind ℕ × W
  pub close : (fd : ℕ) → W → W

pub data CanError : Type 0 where
  name_has_nul no_such_interface no_isotp_support : CanError
  socket_failed bind_failed filter_failed timeout_failed : (errno : ℕ) → CanError

pub record IsoTpChannel : Type 0 where
  pub fd : ℕ
  pub send_buffer : Bytes
  pub name : Text

pub record CanLogReader : Type 0 where
  pub fd : ℕ
  pub pending : Bytes
  pub at : ℕ
  pub name : Text

-- The transport of the SMP client over such a channel.
pub record IsoTpTransport : Type 0 where
  pub ch : IsoTpChannel
  pub send_buffer : Bytes

abbrev pub IsoTpTransport_new : IsoTpChannel → IsoTpTransport
IsoTpTransport_new ch = record { ch = ch; send_buffer = [] }

-- `clear` on the send buffer, and a header and a body put into it.
abbrev pub cleared : Bytes → Bytes
cleared send_buffer = []

abbrev pub framed : Bytes → Bytes → Bytes → Bytes
framed send_buffer header body = (cleared send_buffer ++ header) ++ body

-- A duration, in microseconds.
abbrev pub timeval : ℕ → Sockopt
timeval timeout = so_rcvtimeo (timeout / 1000000) (timeout % 1000000)

abbrev pub or_error : {W A : Type 0} → Result ℕ A × W → (ℕ → CanError) → Result CanError A × W
or_error (ok a, w) e = (ok a, w)
or_error (err errno, w) e = (err (e errno), w)

abbrev pub syscall : {W A : Type 0} → (W → Result ℕ A × W) → (ℕ → CanError) → M CanError W A
syscall op e w = or_error (op w) e

abbrev pub indexed : {W : Type 0} → Option ℕ × W → Result CanError ℕ × W
indexed (none, w) = (err no_such_interface, w)
indexed (some i, w) = (ok i, w)

module _ {W : Type 0} (os : Os W) where
  -- The name goes through a C string. An index is below 2 ^ 31.
  unfoldable pub if_nametoindex : Text → M CanError W ℕ
  if_nametoindex name =
      if any (λ c. c == 0) name then fail name_has_nul else λ w. indexed (os.if_nametoindex name w)

  -- The drop of an `OwnedFd` where the rest fails.
  abbrev pub dropped : {A : Type 0} → ℕ → Result CanError A × W → Result CanError A × W
  dropped fd (ok a, w) = (ok a, w)
  dropped fd (err e, w) = (err e, os.close fd w)

  abbrev pub owned : {A : Type 0} → ℕ → M CanError W A → M CanError W A
  owned fd rest w = dropped fd (rest w)

  unfoldable pub set_read_timeout : ℕ → ℕ → M CanError W (Unit {0})
  set_read_timeout fd timeout = syscall (os.setsockopt fd (timeval timeout)) timeout_failed

  abbrev pub isotp_error : ℕ → CanError
  isotp_error errno = if errno == os.eprotonosupport then no_isotp_support else socket_failed errno

  -- `IsoTpChannel::open` once there is a socket.
  unfoldable pub bind_isotp : Text → ℕ → ℕ → ℕ → ℕ → M CanError W IsoTpChannel
  bind_isotp iface node_id timeout ifindex fd =
      syscall
        (os.bind fd (record {
          can_family = af_can;
          can_ifindex = ifindex;
          rx_id = (node_id + 1) % 2 ^ 32;
          tx_id = node_id;
        }))
        bind_failed
      >> (set_read_timeout fd timeout
          >> pure (record {
            fd = fd;
            send_buffer = [];
            name = codes "can:" ++ (iface ++ (codes "/" ++ show_hex node_id));
          }))

  unfoldable pub open_isotp : Text → ℕ → ℕ → M CanError W IsoTpChannel
  open_isotp iface node_id timeout = do
    ifindex ← if_nametoindex iface
    fd ← syscall (os.socket af_can os.sock_dgram can_isotp) isotp_error
    owned fd (bind_isotp iface node_id timeout ifindex fd)

  -- `CanLogReader::open` once there is a socket: the filter is set after the bind.
  unfoldable pub bind_log : Text → ℕ → ℕ → ℕ → ℕ → M CanError W CanLogReader
  bind_log iface id timeout ifindex fd =
      syscall
        (os.bind fd (record { can_family = af_can; can_ifindex = ifindex; rx_id = 0; tx_id = 0 }))
        bind_failed
      >> (syscall (os.setsockopt fd (can_raw_filter id can_sff_mask)) filter_failed
          >> (set_read_timeout fd timeout
              >> pure (record {
                fd = fd;
                pending = [];
                at = 0;
                name = codes "can:" ++ (iface ++ (codes " log id " ++ show_hex id));
              })))

  unfoldable pub open_log : Text → ℕ → ℕ → M CanError W CanLogReader
  open_log iface id timeout = do
    ifindex ← if_nametoindex iface
    fd ← syscall (os.socket af_can os.sock_raw can_raw) socket_failed
    owned fd (bind_log iface id timeout ifindex fd)

  -- What a send on `T` gives: its result, or `none` where the fuel is used up, and what it leaves.
  abbrev pub Sending : Type 0 → Type 0
  Sending T = Option (Result IoKind (Unit {0})) × (T × W)

  abbrev normalised : Result IoKind Bytes × W → Result IoKind Bytes × W
  normalised (err would_block, w) = (err timed_out, w)
  normalised r = r

  -- `IsoTpChannel::read`: an expired timeout is `TimedOut` to the client library.
  unfoldable pub read_isotp : IsoTpChannel → ℕ → W → Result IoKind Bytes × W
  read_isotp ch len w = normalised (os.read ch.fd len w)

  -- `write_all` of the standard library: one call for as many bytes as are taken, again for the rest.
  -- `fuel` bounds the calls.
  abbrev wrote :
      (Bytes → W → Option (Result IoKind (Unit {0})) × W)
      → Bytes
      → Result IoKind ℕ × W
      → Option (Result IoKind (Unit {0})) × W
  wrote again buf (ok n, w) = if n == 0 then (some (err write_zero), w) else again (drop n buf) w
  wrote again buf (err interrupted, w) = again buf w
  wrote again buf (err e, w) = (some (err e), w)

  unfoldable pub write_all : ℕ → ℕ → Bytes → W → Option (Result IoKind (Unit {0})) × W
  write_all fuel fd [] w = (some (ok tt), w)
  write_all zero fd (b ∷ bs) w = (none, w)
  write_all (suc fuel) fd (b ∷ bs) w = wrote (write_all fuel fd) (b ∷ bs) (os.write fd (b ∷ bs) w)

  -- `IsoTpChannel::send_frame`: one message for a frame, from the buffer of the channel, which has been
  -- taken out of it for the time of the write.
  abbrev put_back :
      Bytes → IsoTpChannel → Option (Result IoKind (Unit {0})) × W → Sending IsoTpChannel
  put_back buf ch (r, w) = (r, (record ch { send_buffer = buf }, w))

  unfoldable pub send_frame : ℕ → Bytes → Bytes → IsoTpChannel × W → Sending IsoTpChannel
  send_frame fuel header body (ch, w) =
      let buf = framed ch.send_buffer header body in put_back buf ch (write_all fuel ch.fd buf w)

  -- `IsoTpTransport::send_raw_frame`: the same, from the buffer of the transport.
  abbrev keeping : IsoTpTransport → Option (Result IoKind (Unit {0})) × W → Sending IsoTpTransport
  keeping t (r, w) = (r, (t, w))

  unfoldable pub send_raw_frame : ℕ → Bytes → Bytes → IsoTpTransport × W → Sending IsoTpTransport
  send_raw_frame fuel header body (t, w) =
      let buf = framed t.send_buffer header body in
      keeping (record t { send_buffer = buf }) (write_all fuel t.ch.fd buf w)

abbrev pub max_smp_frame_size : ℕ
max_smp_frame_size = 1024

pub data ReceiveError : Type 0 where
  unexpected_response : ReceiveError
  transport_error : IoKind → ReceiveError

-- `IsoTpTransport::recv_raw_frame`. The sizes are constants of the client library.
module _ {W : Type 0} (os : Os W) (smp_header_size smp_transfer_buffer_size : ℕ) where
  abbrev received : Result IoKind Bytes × W → Result ReceiveError Bytes × W
  received (ok message, w) =
      if ltb (length message) smp_header_size then (err unexpected_response, w) else (ok message, w)
  received (err e, w) = (err (transport_error e), w)

  unfoldable pub recv_raw_frame : IsoTpChannel → W → Result ReceiveError Bytes × W
  recv_raw_frame ch w = received (read_isotp os ch smp_transfer_buffer_size w)
