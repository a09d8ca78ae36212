-- ===== src/Kernel/Trap.antt =====
-- OriginalLinuxCode/QMSPkernel.c: states from which the kernel does not come back.
use qmsp.Base.{◌≡◌, arith, Bool, true, false, List, [], ◌∷◌}
use qmsp.Base.Memory.{Platform}
use qmsp.Kernel.{
  ProtocolState, deny_changes, approve_changes, amass_post, request_retransmit, Kernel,
  received_version_negotiation_response, receive_at_join, receive_at_idle, receive_at_read,
  receive_at_post, receive_at_amass, receive_rest, received_message, sent_at_alert, sent_at_options,
  sent_at_read, sent_at_retrieve, sent_at_retransmit, sent_message,
}
use qmsp.Kernel.Events.{
  give_permissions, no_stored_permissions, options_error, wants_to_change_permissions,
  wants_to_change_user, assembled_post, give_up_connection, imaginary_chat_access, Event, step, run,
  version_response, received, sent, permissions_given, permissions_missing, options_failed,
  permissions_change, user_change, post_assembled, given_up, chat_imaginary,
}

-- Gathering a post, or having answered a change.
abbrev pub trapped : ProtocolState → Bool
trapped amass_post = true
trapped request_retransmit = true
trapped deny_changes = true
trapped approve_changes = true
trapped _ = false

step-trapped :
    (p : Platform) (e : Event) (k : Kernel)
    → trapped k.current_state ≡ true
    → trapped (step p e k).current_state ≡ true
unfolding step
step-trapped p (version_response header v) k h =
    unfold received_version_negotiation_response in ground arith
step-trapped p (received header v sid types) k h =
    unfold received_message receive_rest receive_at_join receive_at_idle receive_at_read
      receive_at_post receive_at_amass in
    ground arith
step-trapped p (sent header had out) k h =
    unfold sent_message sent_at_alert sent_at_options sent_at_read sent_at_retrieve
      sent_at_retransmit in
    ground arith
step-trapped p (permissions_given n) k h = unfold give_permissions in ground arith
step-trapped p permissions_missing k h = unfold no_stored_permissions in ground arith
step-trapped p options_failed k h = unfold options_error in ground arith
step-trapped p (permissions_change uid) k h = unfold wants_to_change_permissions in ground arith
step-trapped p (user_change uid) k h = unfold wants_to_change_user in ground arith
step-trapped p post_assembled k h = unfold assembled_post in ground arith
step-trapped p given_up k h = unfold give_up_connection in ground arith
step-trapped p chat_imaginary k h = unfold imaginary_chat_access in ground arith

-- Once the kernel gathers a post, or a change was approved or denied, no sequence of calls brings
-- it back to idle, to a closed connection, or to any other state.
pub run-trapped :
    (p : Platform) (es : List Event) (k : Kernel)
    → trapped k.current_state ≡ true
    → trapped (run p es k).current_state ≡ true
unfolding run
run-trapped p [] k h = h
run-trapped p (e ∷ es) k h = run-trapped p es (step p e k) (step-trapped p e k h)
