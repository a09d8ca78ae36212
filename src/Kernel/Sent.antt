-- ===== src/Kernel/Sent.antt =====
-- OriginalLinuxCode/QMSPkernel.c: `sentMessage`, its header as a plain `char`, and the limit on the
-- posts that are sent at once.
use qmsp.Base.{ℕ, ◌^◌, zero, suc, ◌+◌, ◌/◌, ◌≤◌, ◌<◌, ◌≡◌, ◌≢◌, refl, ◌⊎◌, arith}
use qmsp.Base.{true, false, List, replicate, if◌then◌else◌, ◌==◌}
use qmsp.Base.Memory.{Platform}
use qmsp.Kernel.{
  version_negotiate_alert, version_negotiate_await, negotiate_options, retrieve_posts, idle, Kernel,
  char_shift_five, sent_at_alert, sent_at_options, sent_at_read, sent_at_retrieve,
  sent_at_retransmit, sent_message,
}
use qmsp.Kernel.Events.{Event, step, run, sent}

shift_signed :
    (p : Platform) (header : ℕ)
    → p.char_signed ≡ true
    → header < 256
    → (char_shift_five p header ≢ 7) × (char_shift_five p header ≢ 4)
unfolding char_shift_five
shift_signed p header signed byte = (λ e. ground arith, λ e. ground arith)

-- Where a plain `char` is signed, no header byte, not even that of a control message, moves the
-- kernel on from alerting the peer of a version or from negotiating options.
pub sent_message_blocked :
    (p : Platform) (header had out : ℕ) (k : Kernel)
    → p.char_signed ≡ true
    → header < 256
    → (k.current_state ≡ version_negotiate_alert) ⊎ (k.current_state ≡ negotiate_options)
    → sent_message p header had out k ≡ k
unfolding sent_message sent_at_alert sent_at_options sent_at_read sent_at_retrieve
    sent_at_retransmit
sent_message_blocked p header had out k signed byte at =
    ground (arith, shift_signed p header signed byte)

-- Where a plain `char` is unsigned, exactly the headers of version negotiation, whose first three
-- bits are set, take the kernel from alerting to waiting for the answer.
pub sent_message_alert :
    (p : Platform) (header had out : ℕ) (k : Kernel)
    → p.char_signed ≡ false
    → k.current_state ≡ version_negotiate_alert
    → sent_message p header had out k
      ≡ (if header / 32 == 7 then record k { current_state = version_negotiate_await } else k)
unfolding sent_message sent_at_alert sent_at_options sent_at_read sent_at_retrieve
    sent_at_retransmit char_shift_five
sent_message_alert p header had out k unsigned at = ground arith

-- One message with posts to follow.
sent_post :
    (p : Platform) (header had : ℕ) (k : Kernel)
    → k.current_state ≡ retrieve_posts
    → sent_message p header had 0 k ≡ (
        if k.p_sent_in_last_load + 1 == 50
        then record k { p_sent_in_last_load = k.p_sent_in_last_load + 1; current_state = idle }
        else record k { p_sent_in_last_load = k.p_sent_in_last_load + 1 })
unfolding sent_message sent_at_alert sent_at_options sent_at_read sent_at_retrieve
    sent_at_retransmit
sent_post p header had k at = ground arith

-- `n` messages sent one after the other, with posts to follow.
abbrev pub sends : ℕ → ℕ → ℕ → List Event
sends n header had = replicate n (sent header had 0)

send_first :
    (p : Platform) (n header had : ℕ) (k : Kernel)
    → run p (sends (suc n) header had) k
      ≡ run p (sends n header had) (sent_message p header had 0 k)
unfolding run step
send_first p n header had k = refl

-- While posts are sent, and the count of them does not pass fifty, it grows with each message,
-- and the kernel is idle again as soon as it is fifty, no sooner.
pub load_limit :
    (p : Platform) (n header had : ℕ) (k : Kernel)
    → k.current_state ≡ retrieve_posts
    → k.p_sent_in_last_load + suc n ≤ 50
    → ((run p (sends (suc n) header had) k).current_state
        ≡ (if k.p_sent_in_last_load + suc n == 50 then idle else retrieve_posts))
      × ((run p (sends (suc n) header had) k).p_sent_in_last_load ≡ k.p_sent_in_last_load + suc n)
load_limit p zero header had k at few =
    rw (send_first p 0 header had k) (unfold run in ground (arith, sent_post p header had k at))
load_limit p (suc n) header had k at few =
    let k' = record k { p_sent_in_last_load = k.p_sent_in_last_load + 1 } in
    let one : sent_message p header had 0 k ≡ k' = ground (arith, sent_post p header had k at) in
    rw (send_first p (suc n) header had k, one) (ground (arith, load_limit p n header had k' at))

-- A load that starts with the count at fifty or more, as the first load after a join does, has no
-- limit: whatever number of messages is sent, as long as the count fits an `int`, the kernel goes
-- on sending.
pub load_limit_missed :
    (p : Platform) (n header had : ℕ) (k : Kernel)
    → k.current_state ≡ retrieve_posts
    → 50 ≤ k.p_sent_in_last_load
    → k.p_sent_in_last_load + n < 2 ^ 31
    → run p (sends n header had) k ≡ record k { p_sent_in_last_load = k.p_sent_in_last_load + n }
load_limit_missed p zero header had k at many room = unfold run in ground arith
load_limit_missed p (suc n) header had k at many room =
    let k' = record k { p_sent_in_last_load = k.p_sent_in_last_load + 1 } in
    let one : sent_message p header had 0 k ≡ k' = ground (arith, sent_post p header had k at) in
    rw (send_first p n header had k, one) (ground (arith, load_limit_missed p n header had k' at))
