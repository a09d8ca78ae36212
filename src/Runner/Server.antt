-- ===== src/Runner/Server.antt =====
-- OriginalLinuxCode/QMSP_Runner.c: the server's callbacks. What MsQuic and malloc answer to the calls
-- that a callback makes is an argument; the callbacks report success, but for the listener's.
pub mod History
pub mod Keeping
pub mod Turning
pub mod Safety
use qmsp.Base.{ℕ, List, [], ◌∷◌, ◌++◌, Option, none, some, Bool, true, false, if◌then◌else◌}
use qmsp.Base.Memory.{Platform, Allocator}
use qmsp.ChatFiles.{Directory}
use qmsp.ChatFiles.Reader.{Outcome, answer, fault, stuck}
use qmsp.MessageReader.Apply.{receive}
use qmsp.Runner.{
  Entry, malloced, freed, block_kept, connection_closed, connection_handler_set, ticket_sent,
  configuration_set, stream_closed, stream_handler_set, stream_shut_down, stream_sent,
}

-- The block for a buffer, if there is one, and whether the send is accepted; and the blocks that malloc
-- and realloc have given to `unpackMessage` and `applyMessage`.
pub record SendAnswer : Type 0 where
  pub block : Option ℕ
  pub accepted : Bool
  pub kept : List ℕ

-- What a stream's and a connection's callback is handed. The server's tests are on these types only.
pub data StreamEvent : Type 0 where
  send_complete : Option ℕ → StreamEvent
  stream_receive : List (List ℕ) → StreamEvent
  peer_send_shutdown peer_send_aborted : StreamEvent
  stream_shutdown_complete : Bool → StreamEvent
  other_stream_event : StreamEvent

pub data ConnectionEvent : Type 0 where
  connected : ConnectionEvent
  shutdown_by_transport : Bool → ConnectionEvent
  shutdown_by_peer : ConnectionEvent
  connection_shutdown_complete : Bool → ConnectionEvent
  peer_stream_started : ℕ → ConnectionEvent
  resumed : ConnectionEvent
  ticket_received : List ℕ → ConnectionEvent
  other_connection_event : ConnectionEvent

-- The buffer of 2048 bytes is sent as `malloc` gave it.
unfoldable pub server_send : SendAnswer → ℕ → List Entry
server_send ans stream = elim ans.block [
  | none ↦ stream_shut_down stream ∷ []
  | some b ↦
      malloced b
      ∷ stream_sent stream (some b) ans.accepted
      ∷ (if ans.accepted then [] else freed b ∷ stream_shut_down stream ∷ [])
]

-- `free` of NULL does nothing.
unfoldable pub free_context : Option ℕ → List Entry
free_context none = []
free_context (some b) = freed b ∷ []

-- `unpackMessage` allocates the header, the array of frames and each frame, and nothing frees them.
-- Where there is no buffer, nothing is allocated.
abbrev pub kept_blocks : List ℕ → List Entry
kept_blocks [] = []
kept_blocks (b ∷ bs) = block_kept b ∷ kept_blocks bs

unfoldable pub received_calls : SendAnswer → List (List ℕ) → List Entry
received_calls ans [] = []
received_calls ans (bytes ∷ buffers) = kept_blocks ans.kept

-- The calls, and the directory of chats behind them.
module _ (p : Platform) (a : Allocator) (fuel : ℕ) where
  unfoldable pub server_stream_callback :
      SendAnswer → Directory → ℕ → StreamEvent → Outcome (List Entry × Directory)
  server_stream_callback ans dir stream (send_complete context) = answer (free_context context, dir)
  server_stream_callback ans dir stream (stream_receive buffers) =
      elim (receive p a fuel buffers dir) [
        | answer dir' ↦ answer (received_calls ans buffers, dir')
        | fault ↦ fault
        | stuck ↦ stuck
      ]
  server_stream_callback ans dir stream peer_send_shutdown = answer (server_send ans stream, dir)
  server_stream_callback ans dir stream peer_send_aborted =
      answer (stream_shut_down stream ∷ [], dir)
  server_stream_callback ans dir stream (stream_shutdown_complete closing) =
      answer (stream_closed stream ∷ [], dir)
  server_stream_callback ans dir stream other_stream_event = answer ([], dir)

unfoldable pub server_connection_callback : ℕ → ConnectionEvent → List Entry
server_connection_callback connection connected = ticket_sent connection ∷ []
server_connection_callback connection (shutdown_by_transport idle) = []
server_connection_callback connection shutdown_by_peer = []
server_connection_callback connection (connection_shutdown_complete closing) =
    connection_closed connection ∷ []
server_connection_callback connection (peer_stream_started stream) = stream_handler_set stream ∷ []
server_connection_callback connection resumed = []
server_connection_callback connection (ticket_received ticket) = []
server_connection_callback connection other_connection_event = []

-- A new connection, or another event; the result tells whether the status is success.
unfoldable pub server_listener_callback : Bool → Option ℕ → List Entry × Bool
server_listener_callback set none = ([], false)
server_listener_callback set (some connection) =
    (connection_handler_set connection ∷ configuration_set connection set ∷ [], set)
