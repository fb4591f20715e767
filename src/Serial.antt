-- ===== src/Serial.antt =====
-- crates/runtt-transport/src/usb.rs: a serial port as a channel. The `serialport` crate is the parameter
-- `Serialport`, over a state; a port is a handle, and times are in milliseconds.
pub mod Link
pub mod Handles
use runtt.Shared.{ℕ, Bool, false, Option, none, some, Result}
use runtt.Shared.Stateful.{M, ◌>>=◌, ◌>>◌, pure, call, on_error}
use runtt.Shared.Text.{Text, codes}
use runtt.Mcuboot.{Bytes}
use runtt.Can.{IoKind}

pub record Serialport (W : Type 0) : Type 0 where
  pub open_native : (path : Text) (baud timeout : ℕ) → W → Option ℕ × W
  pub set_exclusive : (port : ℕ) → Bool → W → Option (Unit {0}) × W
  pub read : (port len : ℕ) → W → Result IoKind Bytes × W
  pub write : (port : ℕ) → Bytes → W → Result IoKind ℕ × W
  pub flush : (port : ℕ) → W → Result IoKind (Unit {0}) × W
  pub try_clone : (port : ℕ) → W → Option ℕ × W
  pub set_timeout : (port timeout : ℕ) → W → Option (Unit {0}) × W
  pub pair : W → Option (ℕ × ℕ) × W
  pub name : (port : ℕ) → W → Option Text
  pub close : (port : ℕ) → W → W

pub data SerialError : Type 0 where
  not_opened still_exclusive not_cloned timeout_not_set no_pair : SerialError

pub record SerialChannel : Type 0 where
  pub port : ℕ
  pub name : Text

module _ {W : Type 0} (sp : Serialport W) where
  -- A port on which TIOCEXCL cannot be cleared is closed again.
  unfoldable pub open_channel : Text → ℕ → ℕ → M SerialError W SerialChannel
  open_channel path baud timeout = do
    port ← call (sp.open_native path baud timeout) not_opened
    on_error (sp.close port) (
        call (sp.set_exclusive port false) still_exclusive
        >> pure (record { port = port; name = path }))

  abbrev pub read_channel : SerialChannel → ℕ → W → Result IoKind Bytes × W
  read_channel ch len = sp.read ch.port len

  abbrev pub write_channel : SerialChannel → Bytes → W → Result IoKind ℕ × W
  write_channel ch buf = sp.write ch.port buf

  abbrev pub flush_channel : SerialChannel → W → Result IoKind (Unit {0}) × W
  flush_channel ch = sp.flush ch.port

  unfoldable pub clone_channel : SerialChannel → M SerialError W SerialChannel
  clone_channel ch = do
    port ← call (sp.try_clone ch.port) not_cloned
    pure (record { port = port; name = ch.name })

  abbrev pub set_channel_timeout : SerialChannel → ℕ → M SerialError W (Unit {0})
  set_channel_timeout ch timeout = call (sp.set_timeout ch.port timeout) timeout_not_set

  abbrev named : Option Text → Text → Text
  named none other = other
  named (some name) other = name

  -- A connected pair of pseudoterminals, for tests. Whether TIOCEXCL could be cleared is not asked.
  unfoldable pub pty_pair : M SerialError W (SerialChannel × SerialChannel)
  pty_pair = do
    (host, device) ← call sp.pair no_pair
    λ w.
        let w' = (sp.set_exclusive device false (sp.set_exclusive host false w).1).1 in
        pure
          (
            record { port = host; name = named (sp.name host w') (codes "pty-host") },
            record { port = device; name = named (sp.name device w') (codes "pty-device") },
          )
          w'
