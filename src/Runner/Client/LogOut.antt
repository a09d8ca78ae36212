-- ===== src/Runner/Client/LogOut.antt =====
-- OriginalLinuxCode/QMSP_Runner.c: the handle that the end of RunClient sends on and closes.
use qmsp.Base.{ℕ, ◌≡◌, ◌≢◌, refl, ap, ◌∙◌, arith, List, ◌++◌, Option, none, some, Bool, true, false}
use qmsp.Runner.{Entry}
use qmsp.Runner.Replay.{
  stream_role, connection_role, turn, replay, count, ends_connection, replay-append, count-append,
}
use qmsp.Runner.Server.{
  StreamEvent, send_complete, stream_shutdown_complete, ConnectionEvent, connected,
  connection_shutdown_complete, free_context,
}
use qmsp.Runner.Server.History.{stream_note, connection_note}
use qmsp.Runner.Client.{
  StreamAnswer, client_send, client_stream_callback, client_connection_callback, run_client,
  log_out,
}
use qmsp.Runner.Client.History.{
  starts_stream, starts_connection, logging_out, ClientRun, connecting, on_stream, on_connection,
  logs_out,
}
use qmsp.Runner.Client.Turning.{answers}
use qmsp.Runner.Client.Safety.{run-streams, run-connections, StreamFits-Unused}

-- No stream starts at the connection's address.
callback_no_start :
    (s : ℕ) (e : StreamEvent) (c : ℕ)
    → count (starts_stream c) (stream_note s e ++ client_stream_callback s e) ≡ 0
unfolding count starts_stream stream_note client_stream_callback free_context
callback_no_start s (send_complete none) c = refl
callback_no_start s (send_complete (some b)) c = refl
callback_no_start s (stream_shutdown_complete true) c = refl
callback_no_start s (stream_shutdown_complete false) c = refl
callback_no_start s e c = refl

connection_no_start :
    (opened : Option ℕ) (started : Bool) (block : Option ℕ) (acc : Bool) (c : ℕ)
    (e : ConnectionEvent)
    → ((s : ℕ) → opened ≡ some s → s ≢ c)
    → count
        (starts_stream c)
        (connection_note c e ++ client_connection_callback (answers opened started block acc) c e)
      ≡ 0
unfolding count starts_stream connection_note client_connection_callback client_send
connection_no_start none started block acc c connected other = refl
connection_no_start (some s) false block acc c connected other = refl
connection_no_start (some s) true none acc c connected other = ground (arith, other s refl)
connection_no_start (some s) true (some b) true c connected other = ground (arith, other s refl)
connection_no_start (some s) true (some b) false c connected other = ground (arith, other s refl)
connection_no_start opened started block acc c (connection_shutdown_complete true) other = refl
connection_no_start opened started block acc c (connection_shutdown_complete false) other = refl
connection_no_start opened started block acc c e other = refl

out_no_start :
    (ans : StreamAnswer) (accepted : Bool) (c : ℕ)
    → count (starts_stream c) (logging_out ans accepted c) ≡ 0
unfolding count starts_stream logging_out log_out connection_note client_connection_callback
out_no_start ans true c = refl
out_no_start ans false c = refl

module _ (c : ℕ) where
  no_start : {h : List Entry} {out : Bool} → ClientRun c h out → count (starts_stream c) h ≡ 0
  no_start connecting = unfold run_client count starts_stream in refl
  no_start (on_stream {h} s e run started event closing) = omega (
    arith,
    no_start run,
    callback_no_start s e c,
    count-append (starts_stream c) h (stream_note s e ++ client_stream_callback s e),
  )
  no_start (on_connection {h} ans e run started event stream block) = omega (
    arith,
    no_start run,
    connection_no_start ans.opened ans.started ans.block ans.accepted c e
        (λ s at. (StreamFits-Unused h c ans.opened stream s at).0),
    count-append (starts_stream c) h (connection_note c e ++ client_connection_callback ans c e),
  )
  no_start (logs_out {h} ans accepted run started) = omega (
    arith,
    no_start run,
    out_no_start ans accepted c,
    count-append (starts_stream c) h (logging_out ans accepted c),
  )

  out_of_use : (accepted : Bool) → replay stream_role c 0 (log_out accepted c) ≡ none
  unfolding replay turn stream_role log_out
  out_of_use accepted = ground arith

  closed_twice : replay connection_role c 0 (log_out false c) ≡ none
  unfolding replay turn connection_role log_out
  closed_twice = ground arith

  -- In every history of a client that has not logged out, the end of RunClient sends on the connection's
  -- handle, at which no stream is in use; and if the connection's last event has come before, and the
  -- send is refused, the connection is closed though it is no longer in use.
  pub log_out_lem :
      {h : List Entry}
      → ClientRun c h false
      → (accepted : Bool)
      → (replay stream_role c 0 (h ++ log_out accepted c) ≡ none)
        × (count (ends_connection c) h ≡ count (starts_connection c) h
            → replay connection_role c 0 (h ++ log_out false c) ≡ none)
  log_out_lem {h} run accepted =
      let s = run-streams c run c (λ (e : false ≡ true). cc) in
      let k = run-connections c run c in
      let unused : s.in_use ≡ 0 = omega (arith, s.balance, no_start run) in
      (
        replay-append stream_role c 0 0 h (log_out accepted c) (s.replayed ∙ ap some unused)
            ∙ out_of_use accepted,
        λ over.
            (let gone : k.in_use ≡ 0 = omega (arith, k.balance, over) in
              replay-append connection_role c 0 0 h (log_out false c) (k.replayed ∙ ap some gone)
              ∙ closed_twice),
      )
