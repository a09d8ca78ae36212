-- ===== src/Runner/Client/Safety.antt =====
-- OriginalLinuxCode/QMSP_Runner.c: blocks and handles in every history of a client.
use mathlib.Core.Path.{subst}
use qmsp.Base.{
  ℕ, ◌≡◌, ◌≢◌, refl, arith, List, ◌++◌, Option, some, Bool, true, false, ◌==◌, if◌then◌else◌,
}
use qmsp.Runner.{Entry}
use qmsp.Runner.Replay.{
  block_role, stream_role, connection_role, turn, replay, count, accepts, completes, ends_stream,
  ends_connection, Balanced, Balanced-append, in_use_one, in_use_zero,
}
use qmsp.Runner.Server.{
  StreamEvent, stream_shutdown_complete, ConnectionEvent, peer_stream_started,
  connection_shutdown_complete,
}
use qmsp.Runner.Server.History.{stream_note, connection_note, Unused, Pending}
use qmsp.Runner.Server.Safety.{BlockFits-Unused, StreamEventFits-Pending}
use qmsp.Runner.Client.{client_stream_callback, client_connection_callback, run_client}
use qmsp.Runner.Client.History.{
  starts_stream, starts_connection, StartedStream, StartedConnection, StreamClosingFits,
  ClientEventFits, StreamFits, logging_out, ClientRun, connecting, on_stream, on_connection,
  logs_out,
}
use qmsp.Runner.Client.Turning.{
  stream_blocks, stream_streams, stream_connections, connection_blocks, connection_streams,
  connection_connections, out_blocks, out_streams, out_connections,
}

-- The premises of a step, at one address.
pub StreamFits-Unused :
    (h : List Entry) (c : ℕ) (opened : Option ℕ)
    → StreamFits h c opened
    → (s : ℕ) → opened ≡ some s
    → (s ≢ c) × Unused stream_role h s
StreamFits-Unused h c opened fits s at = subst (StreamFits h c) at fits

StreamClosingFits-closed :
    (h : List Entry) (s : ℕ) (e : StreamEvent)
    → StreamClosingFits h s e
    → e ≡ stream_shutdown_complete true
    → Unused stream_role h s
StreamClosingFits-closed h s e fits at = subst (StreamClosingFits h s) at fits

ClientEventFits-closed :
    (h : List Entry) (c : ℕ) (e : ConnectionEvent)
    → ClientEventFits h c e
    → e ≡ connection_shutdown_complete true
    → Unused connection_role h c
ClientEventFits-closed h c e fits at = subst (ClientEventFits h c) at fits

pub ClientEventFits-ours :
    (h : List Entry) (c : ℕ) (e : ConnectionEvent)
    → ClientEventFits h c e
    → (s : ℕ) → e ≢ peer_stream_started s
ClientEventFits-ours h c e fits s at = subst (ClientEventFits h c) at fits

-- A handle that is in use is not told to be closing.
in_use-clash : (n : ℕ) → n ≡ 1 → n ≢ 0
in_use-clash n one zero = omega (arith, one, zero)

connecting-blocks :
    (c x : ℕ)
    → Balanced block_role accepts completes
        (run_client record { connection = some c; starts = true } true)
        x
unfolding run_client replay turn block_role count accepts completes
connecting-blocks c x = record { in_use = 0; replayed = refl; once = omega arith; balance = refl }

connecting-streams :
    (c x : ℕ)
    → Balanced stream_role starts_stream ends_stream
        (run_client record { connection = some c; starts = true } true)
        x
unfolding run_client replay turn stream_role count starts_stream ends_stream
connecting-streams c x = record { in_use = 0; replayed = refl; once = omega arith; balance = refl }

connecting-connections :
    (c x : ℕ)
    → Balanced connection_role starts_connection ends_connection
        (run_client record { connection = some c; starts = true } true)
        x
unfolding run_client replay turn connection_role count starts_connection ends_connection
connecting-connections c x = record {
  in_use = if c == x then 1 else 0;
  replayed = ground arith;
  once = ground arith;
  balance = ground arith;
}

module _ (c : ℕ) where
  run-blocks :
      {h : List Entry} {out : Bool}
      → ClientRun c h out
      → (x : ℕ) → Balanced block_role accepts completes h x
  run-blocks connecting x = connecting-blocks c x
  run-blocks (on_stream {h} s e run started event closing) x =
      let b = run-blocks run x in
      Balanced-append block_role accepts completes h (stream_note s e ++ client_stream_callback s e)
        x b
        (stream_blocks s e x b.in_use b.once (λ y at same.
          in_use_one block_role accepts completes h x b
            (subst (Pending h) same (StreamEventFits-Pending h e event y at))))
  run-blocks (on_connection {h} ans e run started event stream block) x =
      let b = run-blocks run x in
      Balanced-append block_role accepts completes h
        (connection_note c e ++ client_connection_callback ans c e) x b
        (connection_blocks ans.opened ans.started ans.block ans.accepted c e x b.in_use b.once
          (λ y at same.
            in_use_zero block_role accepts completes h x b
              (subst (Unused block_role h) same (BlockFits-Unused h ans.block block y at))))
  run-blocks (logs_out {h} ans accepted run started) x =
      let b = run-blocks run x in
      Balanced-append block_role accepts completes h (logging_out ans accepted c) x b
        (out_blocks ans accepted c x b.in_use b.once)

  pub run-streams :
      {h : List Entry} {out : Bool}
      → ClientRun c h out
      → (x : ℕ) → (out ≡ true → c ≢ x)
      → Balanced stream_role starts_stream ends_stream h x
  run-streams connecting x other = connecting-streams c x
  run-streams (on_stream {h} {out} s e run started event closing) x other =
      let b = run-streams run x other in
      let lives = λ (same : s ≡ x).
        in_use_one stream_role starts_stream ends_stream h x b
          (subst (StartedStream h) same started) in
      Balanced-append stream_role starts_stream ends_stream h
        (stream_note s e ++ client_stream_callback s e) x b
        (stream_streams s e x b.in_use b.once
          (λ same at. in_use-clash b.in_use (lives same) (
            in_use_zero stream_role starts_stream ends_stream h x b
              (subst (Unused stream_role h) same (StreamClosingFits-closed h s e closing at))))
          lives)
  run-streams (on_connection {h} {out} ans e run started event stream block) x other =
      let b = run-streams run x other in
      Balanced-append stream_role starts_stream ends_stream h
        (connection_note c e ++ client_connection_callback ans c e) x b
        (connection_streams ans.opened ans.started ans.block ans.accepted c e x b.in_use b.once
          (ClientEventFits-ours h c e event)
          (λ y at same.
            in_use_zero stream_role starts_stream ends_stream h x b
              (subst (Unused stream_role h) same (StreamFits-Unused h c ans.opened stream y at).1)))
  run-streams (logs_out {h} ans accepted run started) x other =
      let b = run-streams run x (λ (e : false ≡ true). cc) in
      Balanced-append stream_role starts_stream ends_stream h (logging_out ans accepted c) x b
        (out_streams ans accepted c x b.in_use b.once (other refl))

  pub run-connections :
      {h : List Entry} {out : Bool}
      → ClientRun c h out
      → (x : ℕ) → Balanced connection_role starts_connection ends_connection h x
  run-connections connecting x = connecting-connections c x
  run-connections (on_stream {h} s e run started event closing) x =
      let b = run-connections run x in
      Balanced-append connection_role starts_connection ends_connection h
        (stream_note s e ++ client_stream_callback s e) x b
        (stream_connections s e x b.in_use b.once)
  run-connections (on_connection {h} ans e run started event stream block) x =
      let b = run-connections run x in
      let lives = λ (same : c ≡ x).
        in_use_one connection_role starts_connection ends_connection h x b
          (subst (StartedConnection h) same started) in
      Balanced-append connection_role starts_connection ends_connection h
        (connection_note c e ++ client_connection_callback ans c e) x b
        (connection_connections ans.opened ans.started ans.block ans.accepted c e x b.in_use b.once
          (λ same at. in_use-clash b.in_use (lives same) (
            in_use_zero connection_role starts_connection ends_connection h x b
              (subst (Unused connection_role h) same (ClientEventFits-closed h c e event at))))
          lives)
  run-connections (logs_out {h} ans accepted run started) x =
      let b = run-connections run x in
      Balanced-append connection_role starts_connection ends_connection h
        (logging_out ans accepted c) x b
        (out_connections ans accepted c x b.in_use b.once (λ same.
          in_use_one connection_role starts_connection ends_connection h x b
            (subst (StartedConnection h) same started)))

  -- In every history of a client's callbacks, in which MsQuic completes an accepted send once, gives a
  -- handle events between its start and its last event only, tells that a handle is being closed only
  -- if the program has closed it, and in which no address that is in use is handed out, blocks, streams
  -- and the connection are used and given back only while they are in use, whatever the calls answer.
  -- A block is in use exactly from an accepted send to its completion, and a handle from its start to
  -- its last event. For the log-out this supposes that it comes before the connection's last event; and
  -- what it does with the connection's handle as that of a stream is left out.
  pub client_handles :
      {h : List Entry} {out : Bool}
      → ClientRun c h out
      → (x : ℕ)
      → Balanced block_role accepts completes h x
        × ((out ≡ true → c ≢ x) → Balanced stream_role starts_stream ends_stream h x)
        × Balanced connection_role starts_connection ends_connection h x
  client_handles run x = (run-blocks run x, run-streams run x, run-connections run x)
