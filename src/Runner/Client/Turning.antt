-- ===== src/Runner/Client/Turning.antt =====
-- OriginalLinuxCode/QMSP_Runner.c: what one call of a client's callback, and the end of RunClient, do
-- with one address.
use qmsp.Base.{
  ℕ, ◌≡◌, ◌≢◌, ◌≤◌, refl, arith, ◌++◌, Option, none, some, Bool, true, false, ◌==◌, if◌then◌else◌,
}
use qmsp.Runner.Replay.{
  block_role, stream_role, connection_role, turn, replay, count, accepts, completes, ends_stream,
  ends_connection, Turns,
}
use qmsp.Runner.Server.{
  StreamEvent, send_complete, stream_shutdown_complete, ConnectionEvent, connected,
  connection_shutdown_complete, peer_stream_started, free_context,
}
use qmsp.Runner.Server.History.{stream_note, connection_note}
use qmsp.Runner.Client.{
  StreamAnswer, client_send, client_stream_callback, client_connection_callback, log_out,
}
use qmsp.Runner.Client.History.{starts_stream, starts_connection, logging_out}

-- A stream's callback.
pub stream_blocks :
    (s : ℕ) (e : StreamEvent) (x n : ℕ)
    → n ≤ 1
    → ((b : ℕ) → e ≡ send_complete (some b) → b ≡ x → n ≡ 1)
    → Turns block_role accepts completes (stream_note s e ++ client_stream_callback s e) x n
unfolding stream_note client_stream_callback free_context replay turn block_role count accepts
    completes
stream_blocks s (send_complete (some b)) x n small pending = record {
  after = if b == x then 0 else n;
  turned = ground (arith, pending b refl);
  still_once = ground arith;
  moved = ground (arith, pending b refl);
}
stream_blocks s (send_complete none) x n small pending = record {
  after = n;
  turned = refl;
  still_once = small;
  moved = omega arith;
}
stream_blocks s (stream_shutdown_complete true) x n small pending = record {
  after = n;
  turned = refl;
  still_once = small;
  moved = omega arith;
}
stream_blocks s e x n small pending = record {
  after = n;
  turned = ground arith;
  still_once = small;
  moved = ground arith;
}

pub stream_streams :
    (s : ℕ) (e : StreamEvent) (x n : ℕ)
    → n ≤ 1
    → (s ≡ x → e ≢ stream_shutdown_complete true)
    → (s ≡ x → n ≡ 1)
    → Turns stream_role starts_stream ends_stream
        (stream_note s e ++ client_stream_callback s e)
        x
        n
unfolding stream_note client_stream_callback free_context replay turn stream_role count
    starts_stream ends_stream
stream_streams s (stream_shutdown_complete true) x n small alive lives =
    let other : s ≢ x = λ same. alive same refl in
    record { after = n; turned = refl; still_once = small; moved = ground (arith, other) }
stream_streams s (stream_shutdown_complete false) x n small alive lives = record {
  after = if s == x then 0 else n;
  turned = ground (arith, lives);
  still_once = ground arith;
  moved = ground (arith, lives);
}
stream_streams s (send_complete none) x n small alive lives = record {
  after = n;
  turned = refl;
  still_once = small;
  moved = omega arith;
}
stream_streams s e x n small alive lives = record {
  after = n;
  turned = ground arith;
  still_once = small;
  moved = ground arith;
}

pub stream_connections :
    (s : ℕ) (e : StreamEvent) (x n : ℕ)
    → n ≤ 1
    → Turns connection_role starts_connection ends_connection
        (stream_note s e ++ client_stream_callback s e)
        x
        n
unfolding stream_note client_stream_callback free_context replay turn connection_role count
    starts_connection ends_connection
stream_connections s (stream_shutdown_complete true) x n small = record {
  after = n;
  turned = refl;
  still_once = small;
  moved = omega arith;
}
stream_connections s (send_complete none) x n small = record {
  after = n;
  turned = refl;
  still_once = small;
  moved = omega arith;
}
stream_connections s e x n small = record {
  after = n;
  turned = ground arith;
  still_once = small;
  moved = ground arith;
}

-- ClientSend, by what its calls answer.
abbrev pub answers : Option ℕ → Bool → Option ℕ → Bool → StreamAnswer
answers opened started block acc = record {
  opened = opened;
  started = started;
  block = block;
  accepted = acc;
}

pub send_blocks :
    (opened : Option ℕ) (started : Bool) (block : Option ℕ) (acc : Bool) (c x n : ℕ)
    → n ≤ 1
    → ((b : ℕ) → block ≡ some b → b ≡ x → n ≡ 0)
    → Turns block_role accepts completes (client_send (answers opened started block acc) c) x n
unfolding client_send replay turn block_role count accepts completes
send_blocks (some s) true (some b) true c x n small unused = record {
  after = if b == x then 1 else n;
  turned = ground (arith, unused b refl);
  still_once = ground arith;
  moved = ground (arith, unused b refl);
}
send_blocks (some s) true (some b) false c x n small unused = record {
  after = n;
  turned = ground (arith, unused b refl);
  still_once = small;
  moved = ground arith;
}
send_blocks opened started block acc c x n small unused = record {
  after = n;
  turned = ground arith;
  still_once = small;
  moved = ground arith;
}

pub send_streams :
    (opened : Option ℕ) (started : Bool) (block : Option ℕ) (acc : Bool) (c x n : ℕ)
    → n ≤ 1
    → ((s : ℕ) → opened ≡ some s → s ≡ x → n ≡ 0)
    → Turns stream_role starts_stream ends_stream
        (client_send (answers opened started block acc) c)
        x
        n
unfolding client_send replay turn stream_role count starts_stream ends_stream
send_streams none started block acc c x n small unused = record {
  after = n;
  turned = refl;
  still_once = small;
  moved = omega arith;
}
send_streams (some s) false block acc c x n small unused = record {
  after = n;
  turned = ground (arith, unused s refl);
  still_once = small;
  moved = ground arith;
}
send_streams (some s) true none acc c x n small unused = record {
  after = if s == x then 1 else n;
  turned = ground (arith, unused s refl);
  still_once = ground arith;
  moved = ground (arith, unused s refl);
}
send_streams (some s) true (some b) acc c x n small unused = record {
  after = if s == x then 1 else n;
  turned = ground (arith, unused s refl);
  still_once = ground arith;
  moved = ground (arith, unused s refl);
}

pub send_connections :
    (opened : Option ℕ) (started : Bool) (block : Option ℕ) (acc : Bool) (c x n : ℕ)
    → n ≤ 1
    → (c ≡ x → n ≡ 1)
    → Turns connection_role starts_connection ends_connection
        (client_send (answers opened started block acc) c)
        x
        n
unfolding client_send replay turn connection_role count starts_connection ends_connection
send_connections (some s) true (some b) true c x n small lives = record {
  after = n;
  turned = refl;
  still_once = small;
  moved = omega arith;
}
send_connections opened started block acc c x n small lives = record {
  after = n;
  turned = ground (arith, lives);
  still_once = small;
  moved = ground arith;
}

-- The connection's callback.
pub connection_blocks :
    (opened : Option ℕ) (started : Bool) (block : Option ℕ) (acc : Bool) (c : ℕ)
    (e : ConnectionEvent) (x n : ℕ)
    → n ≤ 1
    → ((b : ℕ) → block ≡ some b → b ≡ x → n ≡ 0)
    → Turns block_role accepts completes
        (connection_note c e ++ client_connection_callback (answers opened started block acc) c e)
        x
        n
unfolding connection_note client_connection_callback replay turn block_role count accepts completes
connection_blocks opened started block acc c connected x n small unused =
    send_blocks opened started block acc c x n small unused
connection_blocks opened started block acc c (connection_shutdown_complete true) x n small unused =
    record { after = n; turned = refl; still_once = small; moved = omega arith }
connection_blocks opened started block acc c e x n small unused = record {
  after = n;
  turned = ground arith;
  still_once = small;
  moved = ground arith;
}

pub connection_streams :
    (opened : Option ℕ) (started : Bool) (block : Option ℕ) (acc : Bool) (c : ℕ)
    (e : ConnectionEvent) (x n : ℕ)
    → n ≤ 1
    → ((s : ℕ) → e ≢ peer_stream_started s)
    → ((s : ℕ) → opened ≡ some s → s ≡ x → n ≡ 0)
    → Turns stream_role starts_stream ends_stream
        (connection_note c e ++ client_connection_callback (answers opened started block acc) c e)
        x
        n
unfolding connection_note client_connection_callback replay turn stream_role count starts_stream
    ends_stream
connection_streams opened started block acc c connected x n small ours unused =
    send_streams opened started block acc c x n small unused
connection_streams opened started block acc c (peer_stream_started s) x n small ours unused =
    absurd (ours s refl)
connection_streams opened started block acc c (connection_shutdown_complete true) x n small ours
      unused =
    record { after = n; turned = refl; still_once = small; moved = omega arith }
connection_streams opened started block acc c e x n small ours unused = record {
  after = n;
  turned = ground arith;
  still_once = small;
  moved = ground arith;
}

pub connection_connections :
    (opened : Option ℕ) (started : Bool) (block : Option ℕ) (acc : Bool) (c : ℕ)
    (e : ConnectionEvent) (x n : ℕ)
    → n ≤ 1
    → (c ≡ x → e ≢ connection_shutdown_complete true)
    → (c ≡ x → n ≡ 1)
    → Turns connection_role starts_connection ends_connection
        (connection_note c e ++ client_connection_callback (answers opened started block acc) c e)
        x
        n
unfolding connection_note client_connection_callback replay turn connection_role count
    starts_connection ends_connection
connection_connections opened started block acc c connected x n small alive lives =
    send_connections opened started block acc c x n small lives
connection_connections opened started block acc c (connection_shutdown_complete true) x n small
      alive lives =
    let other : c ≢ x = λ same. alive same refl in
    record { after = n; turned = refl; still_once = small; moved = ground (arith, other) }
connection_connections opened started block acc c (connection_shutdown_complete false) x n small
      alive lives =
    record {
      after = if c == x then 0 else n;
      turned = ground (arith, lives);
      still_once = ground arith;
      moved = ground (arith, lives);
    }
connection_connections opened started block acc c e x n small alive lives = record {
  after = n;
  turned = ground arith;
  still_once = small;
  moved = ground arith;
}

-- The end of RunClient.
pub out_blocks :
    (ans : StreamAnswer) (accepted : Bool) (c x n : ℕ)
    → n ≤ 1
    → Turns block_role accepts completes (logging_out ans accepted c) x n
unfolding logging_out log_out connection_note client_connection_callback replay turn block_role
    count accepts completes
out_blocks ans accepted c x n small = record {
  after = n;
  turned = ground arith;
  still_once = small;
  moved = ground arith;
}

pub out_streams :
    (ans : StreamAnswer) (accepted : Bool) (c x n : ℕ)
    → n ≤ 1
    → c ≢ x
    → Turns stream_role starts_stream ends_stream (logging_out ans accepted c) x n
unfolding logging_out log_out connection_note client_connection_callback replay turn stream_role
    count starts_stream ends_stream
out_streams ans accepted c x n small other = record {
  after = n;
  turned = ground (arith, other);
  still_once = small;
  moved = ground arith;
}

pub out_connections :
    (ans : StreamAnswer) (accepted : Bool) (c x n : ℕ)
    → n ≤ 1
    → (c ≡ x → n ≡ 1)
    → Turns connection_role starts_connection ends_connection (logging_out ans accepted c) x n
unfolding logging_out log_out connection_note client_connection_callback replay turn connection_role
    count starts_connection ends_connection
out_connections ans true c x n small lives = record {
  after = n;
  turned = refl;
  still_once = small;
  moved = omega arith;
}
out_connections ans false c x n small lives = record {
  after = if c == x then 0 else n;
  turned = ground (arith, lives);
  still_once = ground arith;
  moved = ground (arith, lives);
}
