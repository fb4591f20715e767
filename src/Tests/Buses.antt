-- ===== src/Tests/Buses.antt =====
-- CAN targets, the client library, and the wait for `start`.
use runtt.Shared.{ℕ, ◌≡◌, ◌⊎◌, refl, arith, true, false, List, [], ◌∷◌, ◌++◌, any, ◌==◌}
use runtt.Shared.{All, none, some, ok, err, length, suc}
use runtt.Shared.Text.{codes, split}
use runtt.Can.Frames.{noting, Sent, Interrupts, wire, send_all, taken, send_all-Sent}
use runtt.Mcuboot.{Bytes}
use runtt.Shared.{◌↔◌, ◌<◌, ◌≤◌, Result, zero}
use runtt.Proxy.Window.{Missed, asleep_iff}
use runtt.Can.{IsoTpTransport, IoKind, interrupted, Os, CanLogReader, open_log, timed_out}
use runtt.Can.Descriptors.{traced, Ends, log_calls, open_log-Ends}
use runtt.Can.Log.{CanFrame, payloads, arrived, read_log, read_all, Accounts, read_all-Accounts}
use runtt.Logs.{pump_logs}
use runtt.Logs.Lines.{buf_size, print_lines, and_on, expired, Carries, pump_logs-can}
use runtt.Resolve.{Resolved}
use runtt.Toolkit.{McuMgrClient, toolkit_client}
use runtt.Toolkit.Settings.{View, Settings, Patient, deploy-Patient}
use runtt.Deploy.{deploy}
use runtt.Container.{sigusr1}
use runtt.Proxy.{await_start}
use runtt.Proxy.Signals.{
  Waiter, waiting, asleep, left, handle_signal, swap, comes, gives, signalled, swapped, Reach, here,
  next, Reach-left, Event, pauses,
}

-- A system whose filters cannot be set.
abbrev unfiltered : Os (Unit {0})
unfiltered = record {
  sock_dgram = 2;
  sock_raw = 3;
  eprotonosupport = 93;
  if_nametoindex = λ name w. (some 4, w);
  socket = λ domain kind protocol w. (ok 7, w);
  bind = λ fd addr w. (ok tt, w);
  setsockopt = λ fd opt w. (err 1, w);
  read = λ fd len w. (err timed_out, w);
  write = λ fd buf w. (ok (length buf), w);
  close = λ fd w. w;
}

open_log-Ends_example :
    let r = open_log (traced unfiltered) (codes "vcan0") 0x44 3600000000 (tt, []) in
    (ifindex : ℕ) × Ends (log_calls ifindex 0x44 3600000000) r.0 r.1.1
open_log-Ends_example = open_log-Ends unfiltered (codes "vcan0") 0x44 3600000000 tt

-- A system that takes two bytes at a time, after as many interrupted writes as its state says.
abbrev slow_write : Bytes → ℕ → Result IoKind ℕ × ℕ
slow_write buf zero = (ok 2, 0)
slow_write buf (suc n) = (err interrupted, n)

abbrev slow : Os ℕ
slow = record {
  sock_dgram = 2;
  sock_raw = 3;
  eprotonosupport = 93;
  if_nametoindex = λ name w. (some 4, w);
  socket = λ domain kind protocol w. (ok 7, w);
  bind = λ fd addr w. (ok tt, w);
  setsockopt = λ fd opt w. (ok tt, w);
  read = λ fd len w. (err timed_out, w);
  write = λ fd buf w. slow_write buf w;
  close = λ fd w. w;
}

slow-fewer :
    (buf : Bytes) (w : ℕ) → (slow_write buf w).0 ≡ err interrupted → (slow_write buf w).1 < w
slow-fewer buf zero e = cc
slow-fewer buf (suc n) e = omega arith

slow-no_more : (buf : Bytes) (w : ℕ) → (slow_write buf w).1 ≤ w
slow-no_more buf zero = omega arith
slow-no_more buf (suc n) = omega arith

slow-Interrupts : Interrupts slow (λ w. w)
slow-Interrupts = record {
  fewer = λ fd buf w e. slow-fewer buf w e;
  no_more = λ fd buf w. slow-no_more buf w;
}

-- What the last send left is still in the buffer.
abbrev transport : IsoTpTransport
transport = record {
  ch = record { fd = 7; send_buffer = []; name = codes "can:vcan0/0x42" };
  send_buffer = codes "old";
}

abbrev two_frames : List (Bytes × Bytes)
two_frames = (codes "headers!", codes "body") ∷ (codes "HEADERS!", []) ∷ []

send_all-Sent_example : Sent (wire two_frames) (
    taken slow (λ w. w) slow-Interrupts (send_all (noting slow) 23 two_frames (transport, (3, []))))
send_all-Sent_example =
    send_all-Sent slow (λ w. w) slow-Interrupts 23 two_frames transport 3 (omega arith)

-- "hi" and a newline, in two frames.
abbrev frames : List CanFrame
frames =
    record { can_id = 0x44; len = 1; payload = codes "hxxxxxxx" }
    ∷ record { can_id = 0x44; len = 2; payload = codes "i" ++ (b'\n' ∷ codes "xxxxxx") }
    ∷ []

abbrev reader : CanLogReader
reader = record { fd = 7; pending = []; at = 0; name = codes "can:vcan0 log id 0x44" }

read_all-Accounts_example :
    let all = read_all (1 ∷ 0 ∷ 1 ∷ 5 ∷ []) (reader, frames) in
    Accounts (reader, frames) all.0 all.1
read_all-Accounts_example = read_all-Accounts (1 ∷ 0 ∷ 1 ∷ 5 ∷ []) (reader, frames) (omega arith)

frames_carry : All Carries frames
frames_carry = ((λ e. cc, omega arith), ((λ e. cc, omega arith), tt))

pump_logs-can_example :
    (pump_logs (read_log arrived buf_size) (suc (length frames)) [] (reader, frames)).0
    ≡ and_on expired (print_lines (split b'\n' (payloads frames)))
pump_logs-can_example = pump_logs-can frames reader frames_carry refl

-- A client of which only the settings are seen; the board answers the echo and nothing else.
record Knobs : Type 0 where
  timeout : ℕ
  retries : ℕ

abbrev knobs : McuMgrClient Knobs
knobs = record {
  attach_serial = λ path b t demux w. (some tt, record { timeout = t; retries = 3 });
  attach_can = λ iface node_id t w. (none, w);
  set_timeout = λ t w. (some tt, record w { timeout = t });
  set_retries = λ n w. record w { retries = n };
  use_auto_frame_size = λ w. (none, w);
  image_upload = λ image slot sha upgrade w. (none, w);
  os_echo = λ payload w. (some payload, w);
  image_get_state = λ w. (none, w);
  os_system_reset = λ force mode w. (none, w);
  image_set_state = λ hash confirm w. (none, w);
  describe_command = λ w. (none, w);
}

abbrev view : View Knobs
view = record { timeout_of = λ w. w.timeout; retries_of = λ w. w.retries }

knobs-Settings : Settings view knobs
knobs-Settings = record {
  settable = λ t w. refl;
  timeout_set = λ t w. refl;
  timeout_only = λ t w. refl;
  retries_set = λ n w. refl;
  retries_only = λ n w. refl;
  serial = λ path b t demux w. refl;
  can = λ iface node_id t w. record { timeout = refl; retries = refl };
  auto = λ w. record { timeout = refl; retries = refl };
  upload = λ image slot sha upgrade w. record { timeout = refl; retries = refl };
  echo = λ payload w. record { timeout = refl; retries = refl };
  get_state = λ w. record { timeout = refl; retries = refl };
  reset = λ force mode w. record { timeout = refl; retries = refl };
  set_state = λ hash confirm w. record { timeout = refl; retries = refl };
}

abbrev on_usb : Resolved
on_usb = Resolved.serial (codes "/dev/ttyACM0") none

deploy-Patient_example :
    Patient view
      (deploy
        (toolkit_client knobs (λ x. x) on_usb)
        2
        true
        (1 ∷ [])
        (2 ∷ [])
        (record { timeout = 10000; retries = 3 })).1
deploy-Patient_example =
    deploy-Patient view knobs knobs-Settings (λ x. x) on_usb 2 true (1 ∷ []) (2 ∷ [])
      (record { timeout = 10000; retries = 3 }) (record { timeout = refl; retries = refl })

-- SIGUSR1 comes before the first swap.
abbrev after_signal : Waiter
after_signal = record { cell = sigusr1; phase = waiting.phase }

begins_at_once : Reach (record { cell = 0; phase = left true }) (comes sigusr1 ∷ gives sigusr1 ∷ [])
unfolding handle_signal swap
begins_at_once = next (next here (signalled sigusr1 (λ e. omega (arith, e)))) (swapped refl)

Reach-left_example :
    (await_start (sigusr1 ∷ []) ≡ some true)
    × ((true ≡ false) ⊎ (any (λ s. s == sigusr1) (sigusr1 ∷ []) ≡ true))
Reach-left_example = Reach-left true begins_at_once refl

-- SIGUSR1 comes between the swap and `pause`.
abbrev too_late : List Event
too_late = gives 0 ∷ comes sigusr1 ∷ pauses ∷ []

asleep_iff_example :
    Reach (record { cell = sigusr1; phase = asleep }) too_late ↔ Missed sigusr1 too_late
asleep_iff_example = asleep_iff sigusr1 too_late
