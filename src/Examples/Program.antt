-- ===== src/Examples/Program.antt =====
-- The program's callbacks and its calls on concrete histories.
use qmsp.Base.{
  ℕ, ◌≡◌, ◌≢◌, refl, arith, List, [], ◌∷◌, ◌++◌, none, some, Bool, true, false, ◌&&◌, ◌==◌, ◌||◌,
  All, truthy, bit_and,
}
use qmsp.Runner.{
  Entry, connection_given, connection_ended, stream_given, stream_ended, send_completed, malloced,
  freed, connection_opened, connection_closed, connection_handler_set, configuration_set,
  connection_started, stream_opened, stream_closed, stream_handler_set, stream_started, stream_sent,
}
use qmsp.Runner.Replay.{
  block_role, stream_role, connection_role, turn, replay, count, accepts, begins_block, completes,
  begins_stream, ends_stream, begins_connection, ends_connection, Balanced,
}
use qmsp.Runner.Server.{
  SendAnswer, send_complete, peer_send_shutdown, stream_shutdown_complete,
  connection_shutdown_complete, peer_stream_started, connected, server_send, free_context,
  server_stream_callback, server_connection_callback, server_listener_callback,
}
use qmsp.Runner.Server.History.{
  stream_note, connection_note, ServerRun, begun, on_stream, on_connection, on_listener,
}
use qmsp.Runner.Server.Safety.{server_handles}
use qmsp.Runner.Client.{
  StreamAnswer, client_send, client_stream_callback, client_connection_callback, run_client,
  log_out,
}
use qmsp.Runner.Client.History.{
  starts_stream, starts_connection, logging_out, ClientRun, connecting, logs_out,
}
use qmsp.Runner.Client.Safety.{client_handles}
use qmsp.Runner.Client.LogOut.{log_out_lem}
use qmsp.Runner.Setup.{SetupAnswer, main}
use qmsp.Runner.Setup.{client_credentials, no_validation_flag}
use qmsp.Runner.Setup.Credentials.{is_given, client_credentials_lem}
use qmsp.Runner.Setup.Nesting.{nested, IsCall, main_lem}
use qmsp.Examples.{x86_64, heap}
use qmsp.Examples.Chats.{chats}

abbrev sent : SendAnswer
sent = record { block = some 9; accepted = true; kept = [] }

abbrev no_block : SendAnswer
no_block = record { block = none; accepted = false; kept = [] }

-- A connection, a stream on it, an answer that is sent and completed, and the ends of both.
abbrev served : List Entry
served =
    connection_given 5
    ∷ connection_handler_set 5
    ∷ configuration_set 5 true
    ∷ stream_given 7
    ∷ stream_handler_set 7
    ∷ malloced 9
    ∷ stream_sent 7 (some 9) true
    ∷ send_completed (some 9)
    ∷ freed 9
    ∷ stream_ended 7
    ∷ stream_closed 7
    ∷ connection_ended 5
    ∷ connection_closed 5
    ∷ []

served-ServerRun : ServerRun x86_64 heap 8 chats served chats
unfolding stream_note connection_note server_stream_callback server_connection_callback
    server_listener_callback server_send free_context replay turn count block_role stream_role
    connection_role accepts completes begins_stream ends_stream begins_connection ends_connection
served-ServerRun =
    on_connection 5 (connection_shutdown_complete false)
      (on_stream no_block 7 (stream_shutdown_complete false)
        (on_stream no_block 7 (send_complete (some 9))
          (on_stream sent 7 peer_send_shutdown
            (on_connection 5 (peer_stream_started 7) (on_listener 5 true begun refl) (omega arith)
              refl)
            (omega arith) tt refl tt refl)
          (omega arith) (omega arith) tt tt refl)
        (omega arith) tt tt tt refl)
      (omega arith) tt

server_handles_example :
    Balanced block_role begins_block completes served 9
    × Balanced stream_role begins_stream ends_stream served 9
    × Balanced connection_role begins_connection ends_connection served 9
server_handles_example = server_handles x86_64 heap 8 chats served-ServerRun 9

abbrev unopened : StreamAnswer
unopened = record { opened = none; started = false; block = none; accepted = false }

abbrev opened : StreamAnswer
opened = record { opened = some 7; started = true; block = some 9; accepted = true }

-- A client that has sent its buffer, whose connection has then ended, and that has not logged out.
abbrev idle_client : List Entry
idle_client =
    connection_opened 5
    ∷ connection_started 5 true
    ∷ stream_opened 7
    ∷ stream_started 7 true
    ∷ malloced 9
    ∷ stream_sent 7 (some 9) true
    ∷ []

abbrev ended_client : List Entry
ended_client =
    idle_client
    ++ (send_completed (some 9)
        ∷ freed 9
        ∷ stream_ended 7
        ∷ stream_closed 7
        ∷ connection_ended 5
        ∷ connection_closed 5
        ∷ [])

seven_not_five : ◌≢◌ {A = ℕ} 7 5
seven_not_five h = omega (arith, h)

idle_client-ClientRun : ClientRun 5 idle_client false
unfolding client_connection_callback client_send connection_note run_client replay turn count
    block_role stream_role connection_role starts_connection ends_connection
idle_client-ClientRun =
    ClientRun.on_connection opened connected connecting (omega arith) tt (seven_not_five, refl) refl

ended_client-ClientRun : ClientRun 5 ended_client false
unfolding client_connection_callback client_stream_callback stream_note connection_note free_context
    replay turn count block_role stream_role connection_role starts_connection ends_connection
    starts_stream ends_stream accepts completes
ended_client-ClientRun =
    ClientRun.on_connection unopened (connection_shutdown_complete false)
      (ClientRun.on_stream 7 (stream_shutdown_complete false)
        (ClientRun.on_stream 7 (send_complete (some 9)) idle_client-ClientRun (omega arith)
          (omega arith) tt)
        (omega arith) tt tt)
      (omega arith) tt tt tt

-- The send behind the line that is typed is refused.
out_client-ClientRun :
    ClientRun 5
      (idle_client ++ (stream_sent 5 none false ∷ connection_closed 5 ∷ connection_ended 5 ∷ []))
      true
unfolding client_connection_callback connection_note logging_out log_out count starts_connection
    ends_connection
out_client-ClientRun = logs_out unopened false idle_client-ClientRun (omega arith)

client_handles_example :
    Balanced block_role accepts completes ended_client 7
    × ((◌≡◌ {A = Bool} false true → ◌≢◌ {A = ℕ} 5 7)
        → Balanced stream_role starts_stream ends_stream ended_client 7)
    × Balanced connection_role starts_connection ends_connection ended_client 7
client_handles_example = client_handles 5 ended_client-ClientRun 7

log_out_lem_example :
    (replay stream_role 5 0 (ended_client ++ log_out true 5) ≡ none)
    × (count (ends_connection 5) ended_client ≡ count (starts_connection 5) ended_client
        → replay connection_role 5 0 (ended_client ++ log_out false 5) ≡ none)
log_out_lem_example = log_out_lem 5 ended_client-ClientRun true

-- What a client and a server are answered; the listener opens but does not start.
abbrev answered : SetupAnswer
answered = record {
  library_opens = true;
  registration_opens = true;
  configuration_opens = true;
  credential_loads = true;
  listener_opens = true;
  listener_starts = false;
}

as_client : List ℕ → Bool
as_client [] = false
as_client (c ∷ name) = c == b'c'

ended_client-IsCall : All IsCall ended_client
unfolding IsCall
ended_client-IsCall = omega arith

main_lem_example :
    (nested [] (main as_client answered ended_client).0 ≡ some [])
    × ((main as_client answered ended_client).1
        ≡ answered.library_opens && answered.registration_opens)
main_lem_example = main_lem as_client answered ended_client ended_client-IsCall

-- RunClient's call.
client_credentials_lem_example :
    truthy
      (bit_and (client_credentials false (some (b'q' ∷ b'.' ∷ b'p' ∷ []))).0 no_validation_flag)
    ≡ false || is_given (some (b'q' ∷ b'.' ∷ b'p' ∷ []))
client_credentials_lem_example = client_credentials_lem false (some (b'q' ∷ b'.' ∷ b'p' ∷ []))
