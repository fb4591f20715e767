-- ===== src/Lib.antt =====
-- runtt: a container runtime that deploys firmware to microcontrollers. This library models its core.
--
-- A deploy (crates/runtt/src/flash.rs) uploads an MCUboot image to a board over SMP, marks it for test,
-- reboots the board, and confirms the image only when it has come back running; an image that is not
-- confirmed is reverted by the bootloader. The image's digest comes from crates/runtt-smp/src/mcuboot.rs.
-- The project tests against an emulated board (crates/runtt-mock), which speaks SMP in console frames.
--
-- - Shared: what the standard library gives the code: Boolean tests, list functions over the native
--   numbers, texts as lists of code points, parsing and printing of numbers, results, and computations
--   that may panic or not return.
-- - Mcuboot (runtt-smp/src/mcuboot.rs): parse, find_sha256, u16le, u32le. `walk` is the while loop. Fuel:
--   the loop goes forward by 4 bytes at least, so the image's length plus one is enough; the recursion of
--   find_sha256 has the caller's fuel, and Termination says when that is enough and when none is.
-- - Device (runtt-mock/src/device.rs, faults.rs): Image::from_bytes, Device::provisioned, upload_chunk,
--   set_state, reset, image_states. A method on &mut self returns the new device. Slots is about marking,
--   swapping and reverting, Transfer about uploads, Invariant about any sequence of operations.
-- - Codec (runtt-mock/src/codec.rs): Frame::header_bytes, Frame::parse, encode, Decoder::push_line, and
--   the byte loop of Server::serve in server.rs as `receive`. CRC-16 and base64 are third-party crates and
--   parameters. `chunks` has as much fuel as the text is long.
-- - Cbor, Server (runtt-mock/src/server.rs): the CBOR helpers over the values of the `ciborium` crate, whose
--   reader and writer are a parameter; `dispatch`, and in Server/Loop the loop of Server::serve and
--   `speak`. A turn of the loop is told what the clock, a read and a write give, and a run is a list of
--   turns. A `text` that the server prints is the list of its bytes. Replies is about one answer, Service
--   about any turns, Requests about how the bytes of requests arrive, with Attend,
--   Arrival and Decoders.
-- - Client (runtt-smp/src/lib.rs, describe.rs): the SmpClient trait and Describe as an interface over a
--   state, which stands for the board, the link and the client library.
-- - Deploy (runtt/src/flash.rs): Deploy::run from the image to the confirmation, identify, reconnect,
--   confirm_contract_matches. `reconnect` comes round as often as its deadline lets it, which is a
--   parameter, and the statements hold for every number of rounds. History records the requests that
--   reach the board, Gate is about every confirmation, Attest about the end of a deploy that succeeds, and
--   Mock runs the deploy on the emulated board.
-- - Target (runtt-transport/src/lib.rs): placement labels, Target::parse, UsbSelector::parse,
--   is_port_path and their Display. Labels says which texts they accept.
-- - Container (runtt/src/state.rs, annotations.rs, verbs.rs, lock.rs, proxy.rs): container ids, the state
--   file, signals, and in Verbs the five verbs create, start, state (print_state), kill and delete over a
--   Host, which stands for the file system and the processes. Create is about the process that create
--   spawns, Lifecycle and Deletion about what one verb leaves for the next. await_exit polls as often as its deadline
--   lets it, which is a parameter.
--   Lock has the lock files and Spawn the command line and the environment of the proxy; Inherit follows the
--   lock of the label from create to the proxy.
-- - Occupancy (lock.rs and proxy.rs of runtt): several proxies on one kernel, a parameter with the laws of
--   flock(2). Acquire is about one claim, Exclusive about all orders of steps.
-- - Demux (runtt-smp/src/demux.rs): is_smp_line, pump and LogDemux::read, for boards whose log and SMP
--   traffic share a link. Routing compares what the client gets with the whole stream, and with Codec;
--   Lifecycle has the turns of the reader thread and of the client that drops the link, and Drop is about
--   every schedule of these turns, with Turns and Progress about one of them.
-- - Resolve (runtt-transport/src/resolve.rs): labels to device paths, parse_node_id, log_source, lock_key.
--   What the system shows is an argument; in Sysfs the scan of /sys/class/tty and the walk of /dev/runtt are
--   done on a file system. Identity, Published, Ports and Channels are about which board is found.
-- - Proxy (runtt/src/proxy.rs, stay_resident of flash.rs): the wait for start, the resolution and claim of
--   the board, and the heartbeats, over what the signal cell, the stop flag and the board answer in turn.
--   Signals has the wait for start step by step, with signals that come between any two steps; Window
--   is about signals that come before `pause`; Exits says when the proxy exits with 0.
-- - Can (runtt-transport/src/can.rs, runtt-smp/src/can.rs): the sockets on a CAN bus over the system calls,
--   a parameter; Log is CanLogReader::read over what the raw socket gives, Descriptors the calls that the
--   two `open` functions make, Frames what the sends of frames write. `write_all` has fuel for its
--   calls: the length of the frame is enough, and one more for each write that a signal interrupts.
-- - Logs (pump_logs of runtt/src/flash.rs): the log channel line by line, over any stream. Lines runs it
--   on the reader of Can.
-- - Toolkit (runtt-smp/src/toolkit.rs, connect of runtt/src/flash.rs): ToolkitClient as an SmpClient over
--   the third-party client, a parameter. Settings is about its timeout and retries in a deploy, by way of
--   Deploy/Keeping, which says that a deploy keeps what every request keeps.
-- - Serial (runtt-transport/src/usb.rs, LogDemux of demux.rs, connect_serial of runtt/src/flash.rs): serial
--   ports as handles over the `serialport` crate, a parameter. Link makes the client's link, Handles says
--   which handles it leaves open.
-- - Cli (runtt/src/main.rs, state_root of runtt/src/state.rs, runtt-mock/src/main.rs): from parsed command
--   lines to the verbs and the exit code, and to the fault of the emulated board. Inert is about names that
--   are no container ids, Once about any commands after a start; for it Container/Files, Paths and Over say
--   what becomes of the state files.
-- - Tests: the data and runs on which the theorems are applied.
--
-- A 32-bit counter wraps; usize is taken as 64 bits wide. Not modelled: argument parsing, trace
-- output, and the insides of the third-party SMP, CBOR and serial port libraries.
pub mod Shared
pub mod Mcuboot
pub mod Device
pub mod Codec
pub mod Cbor
pub mod Server
pub mod Client
pub mod Deploy
pub mod Target
pub mod Container
pub mod Demux
pub mod Resolve
pub mod Proxy
pub mod Occupancy
pub mod Can
pub mod Logs
pub mod Toolkit
pub mod Serial
pub mod Cli
pub mod Tests
