-- ===== src/Runner/Replay.antt =====
-- Replaying a history for one address: whether it is in use, and whether the calls respect that.
use mathlib.Core.Option.{some-injective}
use qmsp.Base.{
  ℕ, ◌+◌, ◌≡◌, ◌≢◌, ◌≤◌, ◌<◌, refl, sym, ap, ◌∙◌, arith, List, [], ◌∷◌, ◌++◌, Option, none, some,
  Option-cases, none-some, inl, inr, ◌>>=◌, Bool, true, false, ◌==◌, if◌then◌else◌,
}
use qmsp.Runner.{
  Entry, connection_given, connection_ended, stream_given, stream_ended, send_completed, malloced,
  freed, block_kept, connection_opened, connection_closed, connection_handler_set,
  connection_shut_down, ticket_sent, configuration_set, connection_started, stream_opened,
  stream_closed, stream_handler_set, stream_shut_down, stream_started, stream_sent,
}

-- What an entry does to an address of some kind.
pub data Role : Type 0 where
  opens uses closes : ℕ → Role
  nothing : Role

unfoldable pub block_role : Entry → Role
block_role (malloced b) = opens b
block_role (freed b) = closes b
block_role (block_kept b) = opens b
block_role (stream_sent s (some b) accepted) = uses b
block_role _ = nothing

unfoldable pub stream_role : Entry → Role
stream_role (stream_given s) = opens s
stream_role (stream_opened s) = opens s
stream_role (stream_closed s) = closes s
stream_role (stream_handler_set s) = uses s
stream_role (stream_shut_down s) = uses s
stream_role (stream_started s started) = uses s
stream_role (stream_sent s context accepted) = uses s
stream_role _ = nothing

unfoldable pub connection_role : Entry → Role
connection_role (connection_given c) = opens c
connection_role (connection_opened c) = opens c
connection_role (connection_closed c) = closes c
connection_role (connection_handler_set c) = uses c
connection_role (connection_shut_down c) = uses c
connection_role (ticket_sent c) = uses c
connection_role (configuration_set c set) = uses c
connection_role (connection_started c started) = uses c
connection_role _ = nothing

-- The number of uses of the address `x`, 0 or 1. It is `none` where an address that is in use is
-- handed out again, and where one that is not in use is used or given back.
unfoldable pub turn : ℕ → ℕ → Role → Option ℕ
turn x n (opens y) = if y == x then (if n == 0 then some 1 else none) else some n
turn x n (uses y) = if y == x then (if n == 1 then some n else none) else some n
turn x n (closes y) = if y == x then (if n == 1 then some 0 else none) else some n
turn x n nothing = some n

unfoldable pub replay : (Entry → Role) → ℕ → ℕ → List Entry → Option ℕ
replay role x n [] = some n
replay role x n (e ∷ es) = turn x n (role e) >>= λ n'. replay role x n' es

-- How often an entry is of a kind.
unfoldable pub count : (Entry → Bool) → List Entry → ℕ
count test [] = 0
count test (e ∷ es) = (if test e then 1 else 0) + count test es

replay-cons :
    (role : Entry → Role) (x n k : ℕ) (e : Entry) (es : List Entry)
    → turn x n (role e) ≡ some k
    → replay role x n (e ∷ es) ≡ replay role x k es
unfolding replay
replay-cons role x n k e es goes = rw goes refl

replay-stops :
    (role : Entry → Role) (x n m : ℕ) (e : Entry) (es : List Entry)
    → turn x n (role e) ≡ none
    → replay role x n (e ∷ es) ≢ some m
unfolding replay
replay-stops role x n m e es stops h =
    none-some m (sym (ap (λ o. o >>= λ k. replay role x k es) stops) ∙ h)

pub replay-append :
    (role : Entry → Role) (x n m : ℕ) (es fs : List Entry)
    → replay role x n es ≡ some m
    → replay role x n (es ++ fs) ≡ replay role x m fs
unfolding replay
replay-append role x n m [] fs h = ap (λ k. replay role x k fs) (some-injective n m h)
replay-append role x n m (e ∷ es) fs h = elim (Option-cases (turn x n (role e))) [
  | inl stops ↦ absurd (replay-stops role x n m e es stops h)
  | inr (k, goes) ↦
      rw goes (replay-append role x k m es fs (sym (replay-cons role x n k e es goes) ∙ h))
]

pub count-append :
    (test : Entry → Bool) (es fs : List Entry)
    → count test (es ++ fs) ≡ count test es + count test fs
unfolding count
count-append test [] fs = omega arith
count-append test (e ∷ es) fs = omega (arith, count-append test es fs)

-- The events that begin and end a use of an address: a send with its block, and a handle.
unfoldable pub accepts : ℕ → Entry → Bool
accepts x (stream_sent s (some b) true) = b == x
accepts x _ = false

unfoldable pub completes : ℕ → Entry → Bool
completes x (send_completed (some b)) = b == x
completes x _ = false

-- A block's use begins with an accepted send, or where it is allocated to be kept.
unfoldable pub begins_block : ℕ → Entry → Bool
begins_block x (block_kept b) = b == x
begins_block x (stream_sent s (some b) true) = b == x
begins_block x _ = false

unfoldable pub begins_stream : ℕ → Entry → Bool
begins_stream x (stream_given s) = s == x
begins_stream x _ = false

unfoldable pub ends_stream : ℕ → Entry → Bool
ends_stream x (stream_ended s) = s == x
ends_stream x _ = false

unfoldable pub begins_connection : ℕ → Entry → Bool
begins_connection x (connection_given c) = c == x
begins_connection x _ = false

unfoldable pub ends_connection : ℕ → Entry → Bool
ends_connection x (connection_ended c) = c == x
ends_connection x _ = false

-- Every address is used as it may be, and is in use exactly as often as a use of it has begun and
-- not ended.
pub record Balanced (role : Entry → Role) (begin end : ℕ → Entry → Bool) (h : List Entry) (x : ℕ)
    : Type 0 where
  pub in_use : ℕ
  pub replayed : replay role x 0 h ≡ some in_use
  pub once : in_use ≤ 1
  pub balance : in_use + count (end x) h ≡ count (begin x) h

-- What further entries have to do with an address that is in use `n` times.
pub record Turns (role : Entry → Role) (begin end : ℕ → Entry → Bool) (es : List Entry) (x n : ℕ)
    : Type 0 where
  pub after : ℕ
  pub turned : replay role x n es ≡ some after
  pub still_once : after ≤ 1
  pub moved : after + count (end x) es ≡ n + count (begin x) es

module _ (role : Entry → Role) (begin end : ℕ → Entry → Bool) where
  pub Balanced-append :
      (h es : List Entry) (x : ℕ)
      → (b : Balanced role begin end h x) → Turns role begin end es x b.in_use
      → Balanced role begin end (h ++ es) x
  Balanced-append h es x b t = record {
    in_use = t.after;
    replayed = replay-append role x 0 b.in_use h es b.replayed ∙ t.turned;
    once = t.still_once;
    balance =
        omega (arith, b.balance, t.moved, count-append (end x) h es, count-append (begin x) h es);
  }

  -- An address of which a use has begun and not ended is in use.
  pub in_use_one :
      (h : List Entry) (x : ℕ)
      → (b : Balanced role begin end h x) → count (end x) h < count (begin x) h
      → b.in_use ≡ 1
  in_use_one h x b more = omega (arith, b.balance, b.once)

  pub in_use_zero :
      (h : List Entry) (x : ℕ)
      → (b : Balanced role begin end h x) → replay role x 0 h ≡ some 0
      → b.in_use ≡ 0
  in_use_zero h x b free = some-injective b.in_use 0 (sym b.replayed ∙ free)

  pub Balanced-nil : (x : ℕ) → Balanced role begin end [] x
  unfolding replay count
  Balanced-nil x = record { in_use = 0; replayed = refl; once = omega arith; balance = refl }

one_accepts : (x : ℕ) (e : Entry) → accepts x e ≡ true → begins_block x e ≡ true
unfolding accepts begins_block
one_accepts x (stream_sent s (some b) true) h = h
one_accepts x e h = ground arith

pub sends_begin : (x : ℕ) (h : List Entry) → count (accepts x) h ≤ count (begins_block x) h
unfolding count
sends_begin x [] = omega arith
sends_begin x (e ∷ es) = ground (arith, sends_begin x es, one_accepts x e)
