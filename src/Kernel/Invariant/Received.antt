-- ===== src/Kernel/Invariant/Received.antt =====
-- OriginalLinuxCode/QMSPkernel.c: the handlers of messages keep the invariant.
use qmsp.Base.{ℕ, ◌≡◌, arith, true, List, [], ◌∷◌}
use qmsp.Base.Memory.{Platform}
use qmsp.Kernel.{
  check_post_perm, Kernel, find_login, find_datagram, find_logout, find_load, receive_at_join,
  receive_at_idle, receive_at_read, receive_at_post, receive_at_amass, receive_rest,
  received_message, sent_at_alert, sent_at_options, sent_at_read, sent_at_retrieve,
  sent_at_retransmit, sent_message,
}
use qmsp.Kernel.Invariant.{
  Grants, Inv, resting, after_idle, after_read, after_options, find_login-Grants,
  find_datagram-Grants, find_logout-Grants, find_load-Grants,
}

receive_at_join-Grants : (v : ℕ) (k : Kernel) → Grants k → Grants (receive_at_join v k)
unfolding receive_at_join
receive_at_join-Grants v k h = ground arith

receive_at_idle-Grants :
    (header : ℕ) (types : List ℕ) (k : Kernel) → Grants k → Grants (receive_at_idle header types k)
unfolding receive_at_idle
receive_at_idle-Grants header types k h =
    ground
      (arith, find_datagram-Grants types k, find_logout-Grants types k, find_load-Grants types k)

receive_at_read-Grants : (k : Kernel) → Grants k → Grants (receive_at_read k)
unfolding receive_at_read
receive_at_read-Grants k h = ground arith

receive_at_post-Grants : (k : Kernel) → Grants k → Grants (receive_at_post k)
unfolding receive_at_post
receive_at_post-Grants k h = ground arith

receive_at_amass-Grants : (k : Kernel) → Grants k → Grants (receive_at_amass k)
unfolding receive_at_amass
receive_at_amass-Grants k h = ground arith

rest-Grants :
    (header version : ℕ) (types : List ℕ) (k : Kernel)
    → Grants k
    → Grants (receive_rest header version types k)
unfolding receive_rest
rest-Grants header version types k h = receive_at_amass-Grants _ (
    receive_at_post-Grants _ (
      receive_at_read-Grants _
        (receive_at_idle-Grants header types _ (receive_at_join-Grants version k h))))

-- The states that the stages leave behind.
find_datagram-state :
    (types : List ℕ) (k : Kernel)
    → after_idle k.current_state ≡ true
    → after_idle (find_datagram types k).current_state ≡ true
unfolding find_datagram
find_datagram-state [] k h = h
find_datagram-state (t ∷ types) k h = find_datagram-state types _ (ground arith)

find_logout-state :
    (types : List ℕ) (k : Kernel)
    → after_idle k.current_state ≡ true
    → after_idle (find_logout types k).current_state ≡ true
unfolding find_logout
find_logout-state [] k h = h
find_logout-state (t ∷ types) k h = find_logout-state types _ (ground arith)

find_load-state :
    (types : List ℕ) (k : Kernel)
    → after_idle k.current_state ≡ true
    → after_idle (find_load types k).current_state ≡ true
unfolding find_load
find_load-state [] k h = h
find_load-state (t ∷ types) k h =
    ground (arith, find_load-state types (record k { current_state = check_post_perm }))

find_login-state :
    (types : List ℕ) (sid : ℕ) (k : Kernel)
    → resting k.current_state ≡ true
    → resting (find_login types sid k).current_state ≡ true
unfolding find_login
find_login-state [] sid k h = h
find_login-state (t ∷ types) sid k h = ground (arith, find_login-state types sid k)

at_idle-state :
    (header v : ℕ) (types : List ℕ) (k : Kernel)
    → resting k.current_state ≡ true
    → after_idle (receive_at_idle header types (receive_at_join v k)).current_state ≡ true
unfolding receive_at_idle receive_at_join
at_idle-state header v types k h =
    ground (arith, find_datagram-state types k, find_logout-state types k, find_load-state types k)

at_read-state :
    (k : Kernel)
    → after_idle k.current_state ≡ true
    → after_read (receive_at_read k).current_state ≡ true
unfolding receive_at_read
at_read-state k h = ground arith

at_post-state :
    (k : Kernel)
    → after_read k.current_state ≡ true
    → resting (receive_at_amass (receive_at_post k)).current_state ≡ true
unfolding receive_at_post receive_at_amass
at_post-state k h = ground arith

rest-Inv :
    (header version : ℕ) (types : List ℕ) (k : Kernel)
    → Grants k
    → resting k.current_state ≡ true
    → Inv (receive_rest header version types k)
rest-Inv header version types k g r = record {
  grants = rest-Grants header version types k g;
  rests =
      unfold receive_rest in
      at_post-state _ (at_read-state _ (at_idle-state header version types k r));
}

pub received_message-Inv :
    (header version sid : ℕ) (types : List ℕ) (k : Kernel)
    → Inv k
    → Inv (received_message header version sid types k)
unfolding received_message
received_message-Inv header version sid types k h = ground (
  arith,
  rest-Inv header version types k,
  rest-Inv header version types (find_login types sid k),
  find_login-Grants types sid k,
  find_login-state types sid k,
)

sent_read-Inv :
    (k : Kernel) → Grants k → after_options k.current_state ≡ true → Inv (sent_at_read k)
unfolding sent_at_read
sent_read-Inv k g r = ground arith

sent_options-Grants :
    (p : Platform) (header : ℕ) (k : Kernel)
    → Inv k
    → Grants (sent_at_options p header (sent_at_alert p header k))
      × (after_options (sent_at_options p header (sent_at_alert p header k)).current_state ≡ true)
unfolding sent_at_options sent_at_alert
sent_options-Grants p header k h = ground arith

sent_end-Inv :
    (had out : ℕ) (k : Kernel) → Inv k → Inv (sent_at_retransmit had (sent_at_retrieve out k))
unfolding sent_at_retransmit sent_at_retrieve
sent_end-Inv had out k h = ground arith

pub sent_message-Inv :
    (p : Platform) (header had out : ℕ) (k : Kernel) → Inv k → Inv (sent_message p header had out k)
unfolding sent_message
sent_message-Inv p header had out k h =
    let (g, r) = sent_options-Grants p header k h in
    sent_end-Inv had out _ (sent_read-Inv (sent_at_options p header (sent_at_alert p header k)) g r)
