-- ===== src/Runner/Client/History.antt =====
-- OriginalLinuxCode/QMSP_Runner.c: the histories of a client with one connection, in which MsQuic and
-- malloc do as their documentation says.
use qmsp.Base.{ℕ, ◌≢◌, ◌<◌, List, ◌++◌, Option, none, some, Bool, true, false, ◌==◌}
use qmsp.Runner.{Entry, connection_started, stream_started}
use qmsp.Runner.Replay.{stream_role, connection_role, count, ends_stream, ends_connection}
use qmsp.Runner.Server.{
  StreamEvent, stream_shutdown_complete, ConnectionEvent, connection_shutdown_complete,
  peer_stream_started,
}
use qmsp.Runner.Server.History.{stream_note, connection_note, Unused, StreamEventFits, BlockFits}
use qmsp.Runner.Client.{
  StreamAnswer, client_stream_callback, client_connection_callback, run_client, log_out,
}

-- Events come behind a start.
unfoldable pub starts_stream : ℕ → Entry → Bool
starts_stream x (stream_started s true) = s == x
starts_stream x _ = false

unfoldable pub starts_connection : ℕ → Entry → Bool
starts_connection x (connection_started c true) = c == x
starts_connection x _ = false

abbrev pub StartedStream : List Entry → ℕ → Type 0
StartedStream h s = count (ends_stream s) h < count (starts_stream s) h

abbrev pub StartedConnection : List Entry → ℕ → Type 0
StartedConnection h c = count (ends_connection c) h < count (starts_connection c) h

-- `AppCloseInProgress` is told of a handle that the program has closed.
abbrev pub StreamClosingFits : List Entry → ℕ → StreamEvent → Type 0
StreamClosingFits h s (stream_shutdown_complete true) = Unused stream_role h s
StreamClosingFits h s _ = Unit

-- The server starts no stream.
abbrev pub ClientEventFits : List Entry → ℕ → ConnectionEvent → Type 0
ClientEventFits h c (connection_shutdown_complete true) = Unused connection_role h c
ClientEventFits h c (peer_stream_started s) = ⊥
ClientEventFits h c _ = Unit

-- A new stream is at an address of its own, which is not the connection's.
abbrev pub StreamFits : List Entry → ℕ → Option ℕ → Type 0
StreamFits h c none = Unit
StreamFits h c (some s) = (s ≢ c) × Unused stream_role h s

-- A send that is refused makes `RunClient` close the connection, and MsQuic hands its last event to
-- the program while it is being closed.
unfoldable pub logging_out : StreamAnswer → Bool → ℕ → List Entry
logging_out ans true c = log_out true c
logging_out ans false c =
    log_out false c
    ++ (connection_note c (connection_shutdown_complete true)
        ++ client_connection_callback ans c (connection_shutdown_complete true))

-- The callbacks of the connection `c` and of its streams. The last index tells whether RunClient has
-- logged out, which it does here while the connection's last event has not come.
pub data ClientRun (c : ℕ) : List Entry → Bool → Type 0 where
  connecting : ClientRun c (run_client record { connection = some c; starts = true } true) false
  on_stream :
      {h : List Entry} {out : Bool} (s : ℕ) (e : StreamEvent)
      → ClientRun c h out
      → StartedStream h s
      → StreamEventFits h e
      → StreamClosingFits h s e
      → ClientRun c (h ++ (stream_note s e ++ client_stream_callback s e)) out
  on_connection :
      {h : List Entry} {out : Bool} (ans : StreamAnswer) (e : ConnectionEvent)
      → ClientRun c h out
      → StartedConnection h c
      → ClientEventFits h c e
      → StreamFits h c ans.opened
      → BlockFits h ans.block
      → ClientRun c (h ++ (connection_note c e ++ client_connection_callback ans c e)) out
  logs_out :
      {h : List Entry} (ans : StreamAnswer) (accepted : Bool)
      → ClientRun c h false
      → StartedConnection h c
      → ClientRun c (h ++ logging_out ans accepted c) true
