-- ===== src/Serial/Link.antt =====
-- The two ways to the client's port: `LogDemux` of crates/runtt-smp/src/demux.rs with its two handles,
-- `ToolkitClient::new` of toolkit.rs, and `connect_serial` of crates/runtt/src/flash.rs.
use runtt.Shared.{ℕ, Bool, [], Option, Result, if◌then◌else◌}
use runtt.Shared.Stateful.{M, ◌>>=◌, ◌>>◌, pure, call, on_error}
use runtt.Shared.Text.{Text}
use runtt.Mcuboot.{Bytes}
use runtt.Can.{IoKind}
use runtt.Toolkit.{baud, smp_timeout}
use runtt.Demux
use runtt.Demux.{Queue}
use runtt.Serial.{
  Serialport, SerialError, SerialChannel, open_channel, clone_channel, set_channel_timeout,
  write_channel, flush_channel, timeout_not_set,
}

abbrev pub poll : ℕ
poll = 250

-- `reader` is the channel that the reader thread owns. The queue and the flag are in runtt.Demux.
pub record LogDemux : Type 0 where
  pub pending : Bytes
  pub writer : SerialChannel
  pub reader : SerialChannel
  pub timeout : ℕ

pub data Link : Type 0 where
  plain : SerialChannel → Link
  demuxed : LogDemux → Link

module _ {W : Type 0} (sp : Serialport W) where
  -- The reader polls at its own pace; the timeout of the caller is for the queue.
  unfoldable pub with_sink : SerialChannel → ℕ → M SerialError W LogDemux
  with_sink channel timeout =
      on_error (sp.close channel.port) (clone_channel sp channel) >>= λ writer.
      on_error (λ w. sp.close channel.port (sp.close writer.port w))
        (set_channel_timeout sp channel poll
          >> pure (record { pending = []; writer = writer; reader = channel; timeout = timeout }))

  -- `Drop`: the thread is joined, which closes its channel, and the writer goes with the fields.
  abbrev pub drop_demux : LogDemux → W → W
  drop_demux d w = sp.close d.writer.port (sp.close d.reader.port w)

  abbrev pub write_demux : LogDemux → Bytes → W → Result IoKind ℕ × W
  write_demux d buf = write_channel sp d.writer buf

  abbrev pub flush_demux : LogDemux → W → Result IoKind (Unit {0}) × W
  flush_demux d = flush_channel sp d.writer

  abbrev pub drop_link : Link → W → W
  drop_link (plain ch) w = sp.close ch.port w
  drop_link (demuxed d) w = drop_demux d w

-- `ConfigurableTimeout` of `LogDemux`, and its `read` with what the queue answers within the timeout.
abbrev pub set_demux_timeout : LogDemux → ℕ → LogDemux
set_demux_timeout d duration = record d { timeout = duration }

abbrev pub read_demux : (ℕ → Queue) → LogDemux → ℕ → LogDemux × Result (Unit {0}) Bytes
read_demux recv_timeout d size =
    let r = Demux.read size (recv_timeout d.timeout) d.pending in (record d { pending = r.0 }, r.1)

-- `client_timeout` is `set_timeout` of the third-party client on a link.
module _ {W : Type 0} (sp : Serialport W)
    (client_timeout : Link → ℕ → W → Option (Unit {0}) × W) where
  unfoldable pub new_client : Link → ℕ → M SerialError W Link
  new_client link timeout =
      on_error (drop_link sp link) (call (client_timeout link timeout) timeout_not_set >> pure link)

  abbrev pub with_channel : Bool → SerialChannel → M SerialError W Link
  with_channel demux_logs ch =
      if demux_logs
      then (with_sink sp ch smp_timeout >>= λ d. new_client (demuxed d) smp_timeout)
      else new_client (plain ch) smp_timeout

  unfoldable pub connect_serial : Text → Bool → M SerialError W Link
  connect_serial path demux_logs = open_channel sp path baud smp_timeout >>= with_channel demux_logs
