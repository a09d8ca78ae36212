-- ===== src/Runner/Server/Safety.antt =====
-- OriginalLinuxCode/QMSP_Runner.c: blocks and handles in every history of the server.
use qmsp.Base.{ℕ, ◌≡◌, ◌<◌, arith, List, ◌∷◌, ◌++◌, Option, none, some}
use mathlib.Core.Path.{subst}
use qmsp.Base.Memory.{Platform, Allocator}
use qmsp.ChatFiles.{Directory}
use qmsp.Runner.{Entry, connection_given}
use qmsp.Runner.Replay.{
  count, sends_begin, block_role, stream_role, connection_role, begins_block, completes,
  begins_stream, ends_stream, begins_connection, ends_connection, Balanced, Balanced-append,
  Balanced-nil, in_use_one, in_use_zero,
}
use qmsp.Runner.Server.{
  StreamEvent, send_complete, ConnectionEvent, peer_stream_started, server_connection_callback,
  server_listener_callback,
}
use qmsp.Runner.Server.History.{
  stream_note, connection_note, Unused, Pending, StreamEventFits, BlockFits, ConnectionEventFits,
  StreamLives, ConnectionLives, ServerRun, begun, on_stream, on_connection, on_listener,
}
use qmsp.Runner.Server.Keeping.{kept_blocks-Turns}
use qmsp.Runner.Server.Turning.{
  connection_blocks, connection_streams, connection_connections, listener_blocks, listener_streams,
  listener_connections, stream_calls, callback-stream_calls, stream_blocks, stream_streams,
  stream_connections,
}

-- The premises of a step, at one address.
pub BlockFits-Unused :
    (h : List Entry) (block : Option ℕ)
    → BlockFits h block
    → (b : ℕ) → block ≡ some b
    → Unused block_role h b
BlockFits-Unused h (some a) fits b e = subst (Unused block_role h) (cc) fits
BlockFits-Unused h none fits b e = cc

pub StreamEventFits-Pending :
    (h : List Entry) (e : StreamEvent)
    → StreamEventFits h e
    → (b : ℕ) → e ≡ send_complete (some b)
    → Pending h b
StreamEventFits-Pending h e fits b at = subst (StreamEventFits h) at fits

ConnectionEventFits-Unused :
    (h : List Entry) (e : ConnectionEvent)
    → ConnectionEventFits h e
    → (s : ℕ) → e ≡ peer_stream_started s
    → Unused stream_role h s
ConnectionEventFits-Unused h e fits s at = subst (ConnectionEventFits h) at fits

begun_more :
    (h : List Entry) (x : ℕ) → Pending h x → count (completes x) h < count (begins_block x) h
begun_more h x pending = omega (arith, pending, sends_begin x h)

module _ (p : Platform) (a : Allocator) (fuel : ℕ) (start : Directory) where
  pub run-blocks :
      {h : List Entry} {dir : Directory}
      → ServerRun p a fuel start h dir
      → (x : ℕ) → Balanced block_role begins_block completes h x
  run-blocks begun x = Balanced-nil block_role begins_block completes x
  run-blocks (on_stream {h} {acts} {dir} {dir'} ans s e run lives event block kept called) x =
      let b = run-blocks run x in
      rw (callback-stream_calls p a fuel ans dir dir' s e acts called) (
        Balanced-append block_role begins_block completes h
          (stream_note s e ++ stream_calls ans s e) x b
          (stream_blocks ans.block ans.accepted ans.kept s e x b.in_use b.once
            (λ y at same.
              in_use_zero block_role begins_block completes h x b
                (subst (Unused block_role h) same (BlockFits-Unused h ans.block block y at)))
            (λ y at same.
              in_use_one block_role begins_block completes h x b
                (begun_more h x (subst (Pending h) same (StreamEventFits-Pending h e event y at))))
            (kept_blocks-Turns h ans.kept x b.in_use b.replayed b.once kept)))
  run-blocks (on_connection {h} c e run lives event) x =
      let b = run-blocks run x in
      Balanced-append block_role begins_block completes h
        (connection_note c e ++ server_connection_callback c e) x b
        (connection_blocks c e x b.in_use b.once)
  run-blocks (on_listener {h} c set run unused) x =
      let b = run-blocks run x in
      Balanced-append block_role begins_block completes h
        (connection_given c ∷ (server_listener_callback set (some c)).0) x b
        (listener_blocks set c x b.in_use b.once)

  pub run-streams :
      {h : List Entry} {dir : Directory}
      → ServerRun p a fuel start h dir
      → (x : ℕ) → Balanced stream_role begins_stream ends_stream h x
  run-streams begun x = Balanced-nil stream_role begins_stream ends_stream x
  run-streams (on_stream {h} {acts} {dir} {dir'} ans s e run lives event block kept called) x =
      let b = run-streams run x in
      rw (callback-stream_calls p a fuel ans dir dir' s e acts called) (
        Balanced-append stream_role begins_stream ends_stream h
          (stream_note s e ++ stream_calls ans s e) x b
          (stream_streams ans.block ans.accepted ans.kept s e x b.in_use b.once (λ same.
            in_use_one stream_role begins_stream ends_stream h x b
              (subst (StreamLives h) same lives))))
  run-streams (on_connection {h} c e run lives event) x =
      let b = run-streams run x in
      Balanced-append stream_role begins_stream ends_stream h
        (connection_note c e ++ server_connection_callback c e) x b
        (connection_streams c e x b.in_use b.once (λ s at same.
          in_use_zero stream_role begins_stream ends_stream h x b
            (subst (Unused stream_role h) same (ConnectionEventFits-Unused h e event s at))))
  run-streams (on_listener {h} c set run unused) x =
      let b = run-streams run x in
      Balanced-append stream_role begins_stream ends_stream h
        (connection_given c ∷ (server_listener_callback set (some c)).0) x b
        (listener_streams set c x b.in_use b.once)

  pub run-connections :
      {h : List Entry} {dir : Directory}
      → ServerRun p a fuel start h dir
      → (x : ℕ) → Balanced connection_role begins_connection ends_connection h x
  run-connections begun x = Balanced-nil connection_role begins_connection ends_connection x
  run-connections (on_stream {h} {acts} {dir} {dir'} ans s e run lives event block kept called) x =
      let b = run-connections run x in
      rw (callback-stream_calls p a fuel ans dir dir' s e acts called) (
        Balanced-append connection_role begins_connection ends_connection h
          (stream_note s e ++ stream_calls ans s e) x b
          (stream_connections ans.block ans.accepted ans.kept s e x b.in_use b.once))
  run-connections (on_connection {h} c e run lives event) x =
      let b = run-connections run x in
      Balanced-append connection_role begins_connection ends_connection h
        (connection_note c e ++ server_connection_callback c e) x b
        (connection_connections c e x b.in_use b.once (λ same.
          in_use_one connection_role begins_connection ends_connection h x b
            (subst (ConnectionLives h) same lives)))
  run-connections (on_listener {h} c set run unused) x =
      let b = run-connections run x in
      Balanced-append connection_role begins_connection ends_connection h
        (connection_given c ∷ (server_listener_callback set (some c)).0) x b
        (listener_connections set c x b.in_use b.once (λ same.
          in_use_zero connection_role begins_connection ends_connection h x b
            (subst (Unused connection_role h) same unused)))

  -- In every history of the server's callbacks, in which MsQuic completes an accepted send once, gives
  -- a handle no event behind its last one, and MsQuic and malloc hand out no address that is in use,
  -- each block, stream and connection is used and given back only while it is in use, whatever the
  -- calls answer. A handle is in use from the event that hands it out to its last one, and a block of a
  -- send from the send that is accepted to the event that completes it; the blocks that receiving
  -- allocates begin to be in use and nothing ends that. A history ends where receiving is undefined or
  -- does not end, which is so for every buffer (`receive_undefined`).
  pub server_handles :
      {h : List Entry} {dir : Directory}
      → ServerRun p a fuel start h dir
      → (x : ℕ)
      → Balanced block_role begins_block completes h x
        × Balanced stream_role begins_stream ends_stream h x
        × Balanced connection_role begins_connection ends_connection h x
  server_handles run x = (run-blocks run x, run-streams run x, run-connections run x)
