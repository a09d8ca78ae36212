-- ===== src/RootKernel/Laws.antt =====
-- QMSPkernel.c at the repository's root: what its handlers come to.
use qmsp.Base.{ℕ, ◌+◌, ◌≡◌, arith}
use qmsp.Kernel.{deny_changes, request_retransmit}
use qmsp.RootKernel.{
  Kernel, receive_join, receive_await, receive_idle, receive_post, receive_amass, received_message,
  wants_to_change_permissions, wants_to_change_user,
}

-- Whatever the state, the permissions and the counts were, a received message ends in the state
-- that asks for a retransmission, with one more message counted and the permissions as they were.
pub received_message_collapses :
    (k : Kernel)
    → ((received_message k).current_state ≡ request_retransmit)
      × ((received_message k).amass_total ≡ k.amass_total + 1)
      × ((received_message k).permissions_byte ≡ k.permissions_byte)
unfolding received_message receive_join receive_await receive_idle receive_post receive_amass
received_message_collapses k = ground arith

-- No wish for a change is ever approved: both handlers deny it whoever asks and whatever the
-- permissions are, and change nothing else.
pub changes_denied :
    (uid : ℕ) (k : Kernel)
    → (wants_to_change_permissions uid k ≡ record k { current_state = deny_changes })
      × (wants_to_change_user uid k ≡ record k { current_state = deny_changes })
unfolding wants_to_change_permissions wants_to_change_user
changes_denied uid k = (ground arith, ground arith)
