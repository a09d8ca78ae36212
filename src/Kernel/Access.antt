-- ===== src/Kernel/Access.antt =====
-- OriginalLinuxCode/QMSPkernel.c: versions, and the answers to a wish for changes.
use qmsp.Base.{ℕ, ◌/◌, ◌≡◌, ◌≢◌, arith, List, bit_and, truthy, ◌==◌, if◌then◌else◌, ◌&&◌, ◌||◌, not}
use qmsp.Kernel.{
  version_negotiate_alert, version_negotiate_await, check_join_perm, closed, deny_changes,
  approve_changes, Kernel, try_versions, received_version_negotiation_response, receive_at_join,
  receive_at_idle, receive_at_read, receive_at_post, receive_at_amass, receive_rest,
  received_message,
}
use qmsp.Kernel.Events.{wants_to_change_permissions, wants_to_change_user}

-- The answer to a version alert, while it is awaited: the one alternative version, 0, is taken
-- over and the join goes on; any other closes the connection with kick reason 2; a message that
-- is no version negotiation changes nothing.
pub version_response_lem :
    (header version : ℕ) (k : Kernel)
    → k.current_state ≡ version_negotiate_await
    → received_version_negotiation_response header version k ≡ (
        if header / 32 == 7
        then if version == 0
          then record k { current_state = check_join_perm; using_version = 0 }
          else record k { current_state = closed; kick_reason = 2 }
        else k)
unfolding received_version_negotiation_response try_versions
version_response_lem header version k at = ground arith

-- The version that was negotiated is not what a message is held to: while the join is open, a
-- message of any version but 1 makes the kernel alert the peer again.
pub negotiated_version_alerts :
    (header version sid : ℕ) (types : List ℕ) (k : Kernel)
    → k.current_state ≡ check_join_perm
    → version ≢ 1
    → received_message header version sid types k
      ≡ record k { current_state = version_negotiate_alert }
unfolding received_message receive_rest receive_at_join receive_at_idle receive_at_read
    receive_at_post receive_at_amass
negotiated_version_alerts header version sid types k at other = ground arith

-- A wish to change a user is approved exactly where the permissions have the bit for one's own
-- entry (32) or for another's (64); a wish to change permissions is always denied, whatever they
-- are. Both leave all else as it was.
pub change_answers :
    (uid : ℕ) (k : Kernel)
    → (wants_to_change_user uid k ≡ record k {
      current_state =
          if (uid == k.source_id && truthy (bit_and k.permissions_byte 32))
            || (not (uid == k.source_id) && truthy (bit_and k.permissions_byte 64))
          then approve_changes
          else deny_changes;
    })
      × (wants_to_change_permissions uid k ≡ record k { current_state = deny_changes })
unfolding wants_to_change_user wants_to_change_permissions
change_answers uid k = (ground arith, ground arith)
