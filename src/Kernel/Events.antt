-- ===== src/Kernel/Events.antt =====
-- OriginalLinuxCode/QMSPkernel.c: the handlers besides those of messages, and a run of the kernel
-- over a sequence of calls.
use qmsp.Base.{ℕ, bit_and, List, [], ◌∷◌, not, truthy, ◌==◌, if◌then◌else◌}
use qmsp.Base.Memory.{Platform}
use qmsp.Kernel.{
  Kernel, is_state, closed, check_join_perm, negotiate_options, idle, deny_changes, approve_changes,
  assemble_post, received_version_negotiation_response, received_message, sent_message,
}

unfoldable pub give_permissions : ℕ → Kernel → Kernel
give_permissions permissions k =
    if is_state k.current_state check_join_perm
    then (let k' =
          if truthy k.please_fetch_permissions
          then record k { please_fetch_permissions = 0; permissions_byte = permissions }
          else k in
        if not (truthy (bit_and k'.permissions_byte 1))
        then record k' { current_state = closed; kick_reason = 3 }
        else record k' { current_state = negotiate_options })
    else k

unfoldable pub no_stored_permissions : Kernel → Kernel
no_stored_permissions k =
    if is_state k.current_state check_join_perm
    then if truthy k.please_fetch_permissions
      then record k {
        please_fetch_permissions = 0;
        permissions_byte = 231;
        current_state = negotiate_options;
      }
      else k
    else k

unfoldable pub options_error : Kernel → Kernel
options_error k =
    if is_state k.current_state negotiate_options
    then record k { current_state = closed; kick_reason = 2 }
    else k

-- The second assignment stands behind the `if`, not in an `else`.
unfoldable pub wants_to_change_permissions : ℕ → Kernel → Kernel
wants_to_change_permissions uid k =
    let k' =
      if truthy (bit_and k.permissions_byte 128)
      then record k { current_state = approve_changes }
      else k in
    record k' { current_state = deny_changes }

unfoldable pub wants_to_change_user : ℕ → Kernel → Kernel
wants_to_change_user uid k =
    if uid == k.source_id
    then if truthy (bit_and k.permissions_byte 32)
      then record k { current_state = approve_changes }
      else record k { current_state = deny_changes }
    else if truthy (bit_and k.permissions_byte 64)
    then record k { current_state = approve_changes }
    else record k { current_state = deny_changes }

unfoldable pub assembled_post : Kernel → Kernel
assembled_post k =
    if is_state k.current_state assemble_post then record k { current_state = idle } else k

unfoldable pub give_up_connection : Kernel → Kernel
give_up_connection k =
    if is_state k.current_state check_join_perm
    then record k { current_state = closed; kick_reason = 4 }
    else k

unfoldable pub imaginary_chat_access : Kernel → Kernel
imaginary_chat_access k =
    if is_state k.current_state check_join_perm
    then record k { current_state = closed; kick_reason = 255 }
    else k

-- A call of one of the kernel's functions, with its arguments.
pub data Event : Type 0 where
  version_response : ℕ → ℕ → Event
  received : ℕ → ℕ → ℕ → List ℕ → Event
  sent : ℕ → ℕ → ℕ → Event
  permissions_given : ℕ → Event
  permissions_missing options_failed : Event
  permissions_change user_change : ℕ → Event
  post_assembled given_up chat_imaginary : Event

unfoldable pub step : Platform → Event → Kernel → Kernel
step p (version_response header version) k = received_version_negotiation_response header version k
step p (received header version sid types) k = received_message header version sid types k
step p (sent header had_retransmit out_of_messages) k =
    sent_message p header had_retransmit out_of_messages k
step p (permissions_given permissions) k = give_permissions permissions k
step p permissions_missing k = no_stored_permissions k
step p options_failed k = options_error k
step p (permissions_change uid) k = wants_to_change_permissions uid k
step p (user_change uid) k = wants_to_change_user uid k
step p post_assembled k = assembled_post k
step p given_up k = give_up_connection k
step p chat_imaginary k = imaginary_chat_access k

unfoldable pub run : Platform → List Event → Kernel → Kernel
run p [] k = k
run p (e ∷ es) k = run p es (step p e k)
