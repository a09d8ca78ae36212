-- ===== src/Runner/Server/History.antt =====
-- OriginalLinuxCode/QMSP_Runner.c: the histories of the server, in which MsQuic and malloc do as their
-- documentation says, and what its callbacks do with blocks and handles in them.
use qmsp.Base.{ℕ, ◌≡◌, ◌<◌, List, [], ◌∷◌, ◌++◌, Option, none, some, Bool}
use qmsp.Base.Memory.{Platform, Allocator}
use qmsp.ChatFiles.{Directory}
use qmsp.ChatFiles.Reader.{answer}
use qmsp.Runner.{
  Entry, block_kept, connection_given, connection_ended, stream_given, stream_ended, send_completed,
}
use qmsp.Runner.Replay.{
  Role, block_role, stream_role, connection_role, replay, count, accepts, completes, begins_stream,
  ends_stream, begins_connection, ends_connection,
}
use qmsp.Runner.Server.{
  SendAnswer, StreamEvent, send_complete, stream_shutdown_complete, ConnectionEvent,
  connection_shutdown_complete, peer_stream_started, server_stream_callback,
  server_connection_callback, server_listener_callback,
}

-- What is noted of an event, in front of the calls that the callback makes.
unfoldable pub stream_note : ℕ → StreamEvent → List Entry
stream_note s (send_complete context) = send_completed context ∷ []
stream_note s (stream_shutdown_complete closing) = stream_ended s ∷ []
stream_note s _ = []

unfoldable pub connection_note : ℕ → ConnectionEvent → List Entry
connection_note c (connection_shutdown_complete closing) = connection_ended c ∷ []
connection_note c (peer_stream_started s) = stream_given s ∷ []
connection_note c _ = []

-- An address that is handed out is not in use.
abbrev pub Unused : (Entry → Role) → List Entry → ℕ → Type 0
Unused role h x = replay role x 0 h ≡ some 0

abbrev pub Pending : List Entry → ℕ → Type 0
Pending h b = count (completes b) h < count (accepts b) h

-- A send is completed once, with the context that it was accepted with.
abbrev pub StreamEventFits : List Entry → StreamEvent → Type 0
StreamEventFits h (send_complete (some b)) = Pending h b
StreamEventFits h _ = Unit

abbrev pub BlockFits : List Entry → Option ℕ → Type 0
BlockFits h none = Unit
BlockFits h (some b) = Unused block_role h b

abbrev pub KeptFit : List Entry → List ℕ → Type 0
KeptFit h [] = Unit
KeptFit h (b ∷ bs) = Unused block_role h b × KeptFit (h ++ (block_kept b ∷ [])) bs

abbrev pub ConnectionEventFits : List Entry → ConnectionEvent → Type 0
ConnectionEventFits h (peer_stream_started s) = Unused stream_role h s
ConnectionEventFits h _ = Unit

-- A handle gets no event behind its last one.
abbrev pub StreamLives : List Entry → ℕ → Type 0
StreamLives h s = count (ends_stream s) h < count (begins_stream s) h

abbrev pub ConnectionLives : List Entry → ℕ → Type 0
ConnectionLives h c = count (ends_connection c) h < count (begins_connection c) h

pub data ServerRun (p : Platform) (a : Allocator) (fuel : ℕ) (start : Directory)
    : List Entry → Directory → Type 0 where
  begun : ServerRun p a fuel start [] start
  on_stream :
      {h acts : List Entry} {dir dir' : Directory} (ans : SendAnswer) (s : ℕ) (e : StreamEvent)
      → ServerRun p a fuel start h dir
      → StreamLives h s
      → StreamEventFits h e
      → BlockFits h ans.block
      → KeptFit h ans.kept
      → server_stream_callback p a fuel ans dir s e ≡ answer (acts, dir')
      → ServerRun p a fuel start (h ++ (stream_note s e ++ acts)) dir'
  on_connection :
      {h : List Entry} {dir : Directory} (c : ℕ) (e : ConnectionEvent)
      → ServerRun p a fuel start h dir
      → ConnectionLives h c
      → ConnectionEventFits h e
      → ServerRun p a fuel start (h ++ (connection_note c e ++ server_connection_callback c e)) dir
  on_listener :
      {h : List Entry} {dir : Directory} (c : ℕ) (set : Bool)
      → ServerRun p a fuel start h dir
      → Unused connection_role h c
      → ServerRun p a fuel start
          (h ++ (connection_given c ∷ (server_listener_callback set (some c)).0))
          dir
