-- ===== src/Runner.antt =====
-- OriginalLinuxCode/QMSP_Runner.c: the program's calls of MsQuic, of malloc and of free, as entries
-- of a history. MsQuic is not modelled: what it answers is an argument of the functions that call it,
-- and the events that it hands to the program are entries, too. Handles and blocks are addresses.
pub mod Replay
pub mod Setup
pub mod Server
pub mod Client
use qmsp.Base.{ℕ, Bool, Option}

-- What `main` and the two sides set up and take down.
pub data Resource : Type 0 where
  library registration configuration listener : Resource

pub data Entry : Type 0 where
  -- Events that the program is handed: a new handle, the last event of a handle, and the end of a
  -- send with its context.
  connection_given connection_ended stream_given stream_ended : ℕ → Entry
  send_completed : Option ℕ → Entry
  -- Memory for buffers that are sent.
  malloced freed : ℕ → Entry
  -- A block that a function has allocated and that no pointer leads to when it returns.
  block_kept : ℕ → Entry
  -- Calls on connections.
  connection_opened connection_closed : ℕ → Entry
  connection_handler_set connection_shut_down ticket_sent : ℕ → Entry
  configuration_set connection_started : ℕ → Bool → Entry
  -- Calls on streams. A send has a block for its context, or none.
  stream_opened stream_closed : ℕ → Entry
  stream_handler_set stream_shut_down : ℕ → Entry
  stream_started : ℕ → Bool → Entry
  stream_sent : ℕ → Option ℕ → Bool → Entry
  -- What is set up, in vain or not, what uses it, and what is taken down.
  set_up set_up_failed taken_down : Resource → Entry
