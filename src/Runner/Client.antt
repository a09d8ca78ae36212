-- ===== src/Runner/Client.antt =====
-- OriginalLinuxCode/QMSP_Runner.c: the client's callbacks, and what RunClient calls. What MsQuic and
-- malloc answer is an argument.
pub mod History
pub mod Turning
pub mod Safety
pub mod LogOut
use qmsp.Base.{ℕ, List, [], ◌∷◌, ◌++◌, Option, none, some, Bool, true, false, ◌==◌, if◌then◌else◌}
use qmsp.Runner.{
  Entry, malloced, freed, connection_opened, connection_closed, connection_shut_down,
  connection_started, stream_opened, stream_closed, stream_started, stream_sent, set_up,
  set_up_failed, configuration,
}
use qmsp.Runner.Server.{
  StreamEvent, send_complete, stream_receive, peer_send_shutdown, peer_send_aborted,
  stream_shutdown_complete, other_stream_event, ConnectionEvent, connected, shutdown_by_transport,
  shutdown_by_peer, connection_shutdown_complete, peer_stream_started, resumed, ticket_received,
  other_connection_event, free_context,
}

-- The new stream, if there is one; whether it starts; the block for a buffer, if there is one; and
-- whether the send is accepted.
pub record StreamAnswer : Type 0 where
  pub opened : Option ℕ
  pub started : Bool
  pub block : Option ℕ
  pub accepted : Bool

-- A stream that is started is not closed here. The buffer of 2048 bytes is sent as `malloc` gave it.
unfoldable pub client_send : StreamAnswer → ℕ → List Entry
client_send ans connection = elim ans.opened [
  | none ↦ connection_shut_down connection ∷ []
  | some s ↦ stream_opened s ∷ stream_started s ans.started ∷ elim ans.started [
    | false ↦ stream_closed s ∷ connection_shut_down connection ∷ []
    | true ↦ elim ans.block [
      | none ↦ connection_shut_down connection ∷ []
      | some b ↦
          malloced b
          ∷ stream_sent s (some b) ans.accepted
          ∷ (if ans.accepted then [] else freed b ∷ connection_shut_down connection ∷ [])
    ]
  ]
]

unfoldable pub client_stream_callback : ℕ → StreamEvent → List Entry
client_stream_callback stream (send_complete context) = free_context context
client_stream_callback stream (stream_receive buffers) = []
client_stream_callback stream peer_send_aborted = []
client_stream_callback stream peer_send_shutdown = []
client_stream_callback stream (stream_shutdown_complete closing) =
    if closing then [] else stream_closed stream ∷ []
client_stream_callback stream other_stream_event = []

unfoldable pub client_connection_callback : StreamAnswer → ℕ → ConnectionEvent → List Entry
client_connection_callback ans connection connected = client_send ans connection
client_connection_callback ans connection (shutdown_by_transport idle) = []
client_connection_callback ans connection shutdown_by_peer = []
client_connection_callback ans connection (connection_shutdown_complete closing) =
    if closing then [] else connection_closed connection ∷ []
client_connection_callback ans connection (peer_stream_started stream) = []
client_connection_callback ans connection resumed = []
client_connection_callback ans connection (ticket_received ticket) = []
client_connection_callback ans connection other_connection_event = []

-- The connection, if there is one, and whether it starts.
pub record ConnectAnswer : Type 0 where
  pub connection : Option ℕ
  pub starts : Bool

-- `RunClient` up to `ConnectionStart`, behind the configuration: with arguments that are refused, the
-- connection is closed again.
unfoldable pub run_client : ConnectAnswer → Bool → List Entry
run_client ans arguments = elim ans.connection [
  | none ↦ []
  | some c ↦
      connection_opened c
      ∷ (if arguments
          then connection_started c ans.starts
            ∷ (if ans.starts then [] else connection_closed c ∷ [])
          else connection_closed c ∷ [])
]

-- The end of `RunClient`, behind "Logging out...".
unfoldable pub log_out : Bool → ℕ → List Entry
log_out accepted connection =
    stream_sent connection none accepted
    ∷ (if accepted then [] else connection_closed connection ∷ [])
