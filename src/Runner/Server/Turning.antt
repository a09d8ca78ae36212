-- ===== src/Runner/Server/Turning.antt =====
-- OriginalLinuxCode/QMSP_Runner.c: what one call of a server's callback does with one address.
use qmsp.Base.{
  ℕ, ◌≡◌, ◌≤◌, refl, arith, List, [], ◌∷◌, ◌++◌, Option, none, some, Bool, true, false, ◌==◌,
  if◌then◌else◌,
}
use qmsp.Base.Memory.{Platform, Allocator}
use qmsp.ChatFiles.{Directory}
use qmsp.ChatFiles.Reader.{Outcome, answer, fault, stuck}
use qmsp.MessageReader.Apply.{receive}
use qmsp.Runner.{Entry, connection_given, stream_closed, stream_shut_down}
use qmsp.Runner.Replay.{
  Role, block_role, stream_role, connection_role, turn, replay, count, begins_block, completes,
  begins_stream, ends_stream, begins_connection, ends_connection, Turns,
}
use qmsp.Runner.Server.Keeping.{kept-idle_streams, kept-idle_connections}
use qmsp.Runner.Server.{
  StreamEvent, send_complete, stream_receive, peer_send_shutdown, peer_send_aborted,
  stream_shutdown_complete, other_stream_event, server_stream_callback, SendAnswer, ConnectionEvent,
  connection_shutdown_complete, peer_stream_started, server_send, free_context,
  server_connection_callback, server_listener_callback, kept_blocks, received_calls,
}
use qmsp.Runner.Server.History.{connection_note, stream_note}

-- A history that has nothing to do with an address leaves it as it is.
pub Turns-idle :
    (role : Entry → Role) (begin end : ℕ → Entry → Bool) (es : List Entry) (x n : ℕ)
    → n ≤ 1
    → replay role x n es ≡ some n
    → count (end x) es ≡ 0
    → count (begin x) es ≡ 0
    → Turns role begin end es x n
Turns-idle role begin end es x n small turned no_end no_begin = record {
  after = n;
  turned = turned;
  still_once = small;
  moved = omega (arith, no_end, no_begin);
}

abbrev sending : Option ℕ → Bool → List ℕ → SendAnswer
sending block acc kept = record { block = block; accepted = acc; kept = kept }

pub send_blocks :
    (block : Option ℕ) (acc : Bool) (kept : List ℕ) (s x n : ℕ)
    → n ≤ 1
    → ((b : ℕ) → block ≡ some b → b ≡ x → n ≡ 0)
    → Turns block_role begins_block completes (server_send (sending block acc kept) s) x n
unfolding server_send replay turn block_role count begins_block completes
send_blocks none acc kept s x n small fits = record {
  after = n;
  turned = refl;
  still_once = small;
  moved = omega arith;
}
send_blocks (some b) true kept s x n small fits = record {
  after = if b == x then 1 else n;
  turned = ground (arith, fits b refl);
  still_once = ground arith;
  moved = ground (arith, fits b refl);
}
send_blocks (some b) false kept s x n small fits = record {
  after = n;
  turned = ground (arith, fits b refl);
  still_once = small;
  moved = ground arith;
}

send_streams :
    (block : Option ℕ) (acc : Bool) (kept : List ℕ) (s x n : ℕ)
    → n ≤ 1
    → (s ≡ x → n ≡ 1)
    → Turns stream_role begins_stream ends_stream (server_send (sending block acc kept) s) x n
unfolding server_send replay turn stream_role count begins_stream ends_stream
send_streams none acc kept s x n small lives = record {
  after = n;
  turned = ground (arith, lives);
  still_once = small;
  moved = omega arith;
}
send_streams (some b) true kept s x n small lives = record {
  after = n;
  turned = ground (arith, lives);
  still_once = small;
  moved = omega arith;
}
send_streams (some b) false kept s x n small lives = record {
  after = n;
  turned = ground (arith, lives);
  still_once = small;
  moved = omega arith;
}

send_connections :
    (block : Option ℕ) (acc : Bool) (kept : List ℕ) (s x n : ℕ)
    → n ≤ 1
    → Turns connection_role begins_connection ends_connection
        (server_send (sending block acc kept) s)
        x
        n
unfolding server_send replay turn connection_role count begins_connection ends_connection
send_connections none acc kept s x n small = record {
  after = n;
  turned = refl;
  still_once = small;
  moved = omega arith;
}
send_connections (some b) true kept s x n small = record {
  after = n;
  turned = refl;
  still_once = small;
  moved = omega arith;
}
send_connections (some b) false kept s x n small = record {
  after = n;
  turned = refl;
  still_once = small;
  moved = omega arith;
}

-- The calls of a connection's callback.
pub connection_blocks :
    (c : ℕ) (e : ConnectionEvent) (x n : ℕ)
    → n ≤ 1
    → Turns block_role begins_block completes
        (connection_note c e ++ server_connection_callback c e)
        x
        n
unfolding connection_note server_connection_callback replay turn block_role count begins_block
    completes
connection_blocks c e x n small = record {
  after = n;
  turned = ground arith;
  still_once = small;
  moved = ground arith;
}

pub connection_streams :
    (c : ℕ) (e : ConnectionEvent) (x n : ℕ)
    → n ≤ 1
    → ((s : ℕ) → e ≡ peer_stream_started s → s ≡ x → n ≡ 0)
    → Turns stream_role begins_stream ends_stream
        (connection_note c e ++ server_connection_callback c e)
        x
        n
unfolding connection_note server_connection_callback replay turn stream_role count begins_stream
    ends_stream
connection_streams c (peer_stream_started s) x n small fits = record {
  after = if s == x then 1 else n;
  turned = ground (arith, fits s refl);
  still_once = ground arith;
  moved = ground (arith, fits s refl);
}
connection_streams c e x n small fits = record {
  after = n;
  turned = ground arith;
  still_once = small;
  moved = ground arith;
}

pub connection_connections :
    (c : ℕ) (e : ConnectionEvent) (x n : ℕ)
    → n ≤ 1
    → (c ≡ x → n ≡ 1)
    → Turns connection_role begins_connection ends_connection
        (connection_note c e ++ server_connection_callback c e)
        x
        n
unfolding connection_note server_connection_callback replay turn connection_role count
    begins_connection ends_connection
connection_connections c (connection_shutdown_complete closing) x n small lives = record {
  after = if c == x then 0 else n;
  turned = ground (arith, lives);
  still_once = ground arith;
  moved = ground (arith, lives);
}
connection_connections c e x n small lives = record {
  after = n;
  turned = ground (arith, lives);
  still_once = small;
  moved = ground arith;
}

-- A listener's callback.
pub listener_blocks :
    (set : Bool) (c x n : ℕ)
    → n ≤ 1
    → Turns block_role begins_block completes
        (connection_given c ∷ (server_listener_callback set (some c)).0)
        x
        n
unfolding server_listener_callback replay turn block_role count begins_block completes
listener_blocks set c x n small = record {
  after = n;
  turned = refl;
  still_once = small;
  moved = omega arith;
}

pub listener_streams :
    (set : Bool) (c x n : ℕ)
    → n ≤ 1
    → Turns stream_role begins_stream ends_stream
        (connection_given c ∷ (server_listener_callback set (some c)).0)
        x
        n
unfolding server_listener_callback replay turn stream_role count begins_stream ends_stream
listener_streams set c x n small = record {
  after = n;
  turned = refl;
  still_once = small;
  moved = omega arith;
}

pub listener_connections :
    (set : Bool) (c x n : ℕ)
    → n ≤ 1
    → (c ≡ x → n ≡ 0)
    → Turns connection_role begins_connection ends_connection
        (connection_given c ∷ (server_listener_callback set (some c)).0)
        x
        n
unfolding server_listener_callback replay turn connection_role count begins_connection
    ends_connection
listener_connections set c x n small unused = record {
  after = if c == x then 1 else n;
  turned = ground (arith, unused);
  still_once = ground arith;
  moved = ground (arith, unused);
}

-- A stream's callback.
unfoldable pub stream_calls : SendAnswer → ℕ → StreamEvent → List Entry
stream_calls ans s (send_complete context) = free_context context
stream_calls ans s (stream_receive buffers) = received_calls ans buffers
stream_calls ans s peer_send_shutdown = server_send ans s
stream_calls ans s peer_send_aborted = stream_shut_down s ∷ []
stream_calls ans s (stream_shutdown_complete closing) = stream_closed s ∷ []
stream_calls ans s other_stream_event = []

answered_calls :
    (acts acts' : List Entry) (dir dir' : Directory)
    → ◌≡◌ {A = Outcome (List Entry × Directory)} (answer (acts, dir)) (answer (acts', dir'))
    → acts' ≡ acts
answered_calls acts acts' dir dir' h = cc

-- Where what it receives is applied, the calls are those of `received_calls`.
receiving_calls :
    (o : Outcome Directory) (made acts : List Entry) (dir' : Directory)
    → ◌≡◌ {A = Outcome (List Entry × Directory)}
        (elim o [ answer dir ↦ answer (made, dir) | fault ↦ fault | stuck ↦ stuck ])
        (answer (acts, dir'))
    → acts ≡ made
receiving_calls (answer dir) made acts dir' h = answered_calls made acts dir dir' h
receiving_calls fault made acts dir' h = cc
receiving_calls stuck made acts dir' h = cc

module _ (p : Platform) (a : Allocator) (fuel : ℕ) where
  pub callback-stream_calls :
      (ans : SendAnswer) (dir dir' : Directory) (s : ℕ) (e : StreamEvent) (acts : List Entry)
      → server_stream_callback p a fuel ans dir s e ≡ answer (acts, dir')
      → acts ≡ stream_calls ans s e
  unfolding server_stream_callback stream_calls
  callback-stream_calls ans dir dir' s (stream_receive buffers) acts h =
      receiving_calls (receive p a fuel buffers dir) (received_calls ans buffers) acts dir' h
  callback-stream_calls ans dir dir' s e acts h =
      answered_calls (stream_calls ans s e) acts dir dir' h

pub stream_blocks :
    (block : Option ℕ) (acc : Bool) (kept : List ℕ) (s : ℕ) (e : StreamEvent) (x n : ℕ)
    → n ≤ 1
    → ((b : ℕ) → block ≡ some b → b ≡ x → n ≡ 0)
    → ((b : ℕ) → e ≡ send_complete (some b) → b ≡ x → n ≡ 1)
    → Turns block_role begins_block completes (kept_blocks kept) x n
    → Turns block_role begins_block completes
        (stream_note s e ++ stream_calls (sending block acc kept) s e)
        x
        n
unfolding stream_note stream_calls received_calls free_context replay turn block_role count
    begins_block completes
stream_blocks block acc kept s peer_send_shutdown x n small unused pending received =
    send_blocks block acc kept s x n small unused
stream_blocks block acc kept s (send_complete (some b)) x n small unused pending received = record {
  after = if b == x then 0 else n;
  turned = ground (arith, pending b refl);
  still_once = ground arith;
  moved = ground (arith, pending b refl);
}
stream_blocks block acc kept s (send_complete none) x n small unused pending received = record {
  after = n;
  turned = refl;
  still_once = small;
  moved = omega arith;
}
stream_blocks block acc kept s (stream_receive (bytes ∷ buffers)) x n small unused pending
      received =
    received
stream_blocks block acc kept s e x n small unused pending received = record {
  after = n;
  turned = ground arith;
  still_once = small;
  moved = ground arith;
}

pub stream_streams :
    (block : Option ℕ) (acc : Bool) (kept : List ℕ) (s : ℕ) (e : StreamEvent) (x n : ℕ)
    → n ≤ 1
    → (s ≡ x → n ≡ 1)
    → Turns stream_role begins_stream ends_stream
        (stream_note s e ++ stream_calls (sending block acc kept) s e)
        x
        n
unfolding stream_note stream_calls received_calls free_context replay turn stream_role count
    begins_stream ends_stream
stream_streams block acc kept s peer_send_shutdown x n small lives =
    send_streams block acc kept s x n small lives
stream_streams block acc kept s (stream_shutdown_complete closing) x n small lives = record {
  after = if s == x then 0 else n;
  turned = ground (arith, lives);
  still_once = ground arith;
  moved = ground (arith, lives);
}
stream_streams block acc kept s (stream_receive (bytes ∷ buffers)) x n small lives =
    kept-idle_streams kept x n small
stream_streams block acc kept s e x n small lives = record {
  after = n;
  turned = ground (arith, lives);
  still_once = small;
  moved = ground arith;
}

pub stream_connections :
    (block : Option ℕ) (acc : Bool) (kept : List ℕ) (s : ℕ) (e : StreamEvent) (x n : ℕ)
    → n ≤ 1
    → Turns connection_role begins_connection ends_connection
        (stream_note s e ++ stream_calls (sending block acc kept) s e)
        x
        n
unfolding stream_note stream_calls received_calls free_context replay turn connection_role count
    begins_connection ends_connection
stream_connections block acc kept s peer_send_shutdown x n small =
    send_connections block acc kept s x n small
stream_connections block acc kept s (stream_receive (bytes ∷ buffers)) x n small =
    kept-idle_connections kept x n small
stream_connections block acc kept s e x n small = record {
  after = n;
  turned = ground arith;
  still_once = small;
  moved = ground arith;
}
