-- ===== src/Kernel/Invariant/Run.antt =====
-- OriginalLinuxCode/QMSPkernel.c: the invariant holds after every sequence of calls.
use qmsp.Base.{ℕ, ◌≡◌, ◌≢◌, if◌then◌else◌, arith, bit_and, true, List, [], ◌∷◌, truthy}
use qmsp.Base.Memory.{Platform}
use qmsp.Kernel.{
  Kernel, ProtocolState, initial, closed, check_join_perm, negotiate_options, assemble_post,
  check_read_perm, check_post_perm,
}
use qmsp.Kernel.Events.{
  Event, step, run, version_response, received, sent, permissions_given, permissions_missing,
  options_failed, permissions_change, user_change, post_assembled, given_up, chat_imaginary,
  give_permissions,
}
use qmsp.Kernel.Invariant.{
  Inv, joined, reading, posting, resting, initial-Inv, give_permissions-Inv,
  no_stored_permissions-Inv, options_error-Inv, wants_to_change_permissions-Inv,
  wants_to_change_user-Inv, assembled_post-Inv, give_up_connection-Inv, imaginary_chat_access-Inv,
  version_response-Inv,
}
use qmsp.Kernel.Invariant.Received.{received_message-Inv, sent_message-Inv}

step-Inv : (p : Platform) (e : Event) {k : Kernel} → Inv k → Inv (step p e k)
unfolding step
step-Inv p (version_response header version) {k} h = version_response-Inv header version k h
step-Inv p (received header version sid types) {k} h =
    received_message-Inv header version sid types k h
step-Inv p (sent header had out) {k} h = sent_message-Inv p header had out k h
step-Inv p (permissions_given n) h = give_permissions-Inv n h
step-Inv p permissions_missing h = no_stored_permissions-Inv h
step-Inv p options_failed h = options_error-Inv h
step-Inv p (permissions_change uid) h = wants_to_change_permissions-Inv uid h
step-Inv p (user_change uid) h = wants_to_change_user-Inv uid h
step-Inv p post_assembled h = assembled_post-Inv h
step-Inv p given_up h = give_up_connection-Inv h
step-Inv p chat_imaginary h = imaginary_chat_access-Inv h

run-Inv : (p : Platform) (es : List Event) {k : Kernel} → Inv k → Inv (run p es k)
unfolding run
run-Inv p [] h = h
run-Inv p (e ∷ es) h = run-Inv p es (step-Inv p e h)

reached-Inv : (p : Platform) (es : List Event) → Inv (run p es initial)
reached-Inv p es = run-Inv p es initial-Inv

-- After any calls, the kernel sends posts to a peer only if its permissions byte has the bits for
-- joining and for reading.
pub reading_permitted :
    (p : Platform) (es : List Event)
    → reading (run p es initial).current_state ≡ true
    → (truthy (bit_and (run p es initial).permissions_byte 1) ≡ true)
      × (truthy (bit_and (run p es initial).permissions_byte 2) ≡ true)
reading_permitted p es r =
    let h = (reached-Inv p es).grants in (h.may_join (joined_of_reading _ r), h.may_read r)
  where
    joined_of_reading : (s : ProtocolState) → reading s ≡ true → joined s ≡ true
    joined_of_reading s r = ground arith

-- After any calls, the kernel gathers posts of a peer only if its permissions byte has the bits
-- for joining and for posting.
pub posting_permitted :
    (p : Platform) (es : List Event)
    → posting (run p es initial).current_state ≡ true
    → (truthy (bit_and (run p es initial).permissions_byte 1) ≡ true)
      × (truthy (bit_and (run p es initial).permissions_byte 4) ≡ true)
posting_permitted p es r =
    let h = (reached-Inv p es).grants in (h.may_join (joined_of_posting _ r), h.may_post r)
  where
    joined_of_posting : (s : ProtocolState) → posting s ≡ true → joined s ≡ true
    joined_of_posting s r = ground arith

-- After any calls, a peer whose join is open is let in by `give_permissions` exactly when the byte
-- that is given has the bit for joining; the byte is taken over, and no other is awaited.
pub join_decided :
    (p : Platform) (es : List Event) (n : ℕ)
    → (run p es initial).current_state ≡ check_join_perm
    → ((give_permissions n (run p es initial)).current_state
        ≡ (if truthy (bit_and n 1) then negotiate_options else closed))
      × ((give_permissions n (run p es initial)).permissions_byte ≡ n)
      × ((give_permissions n (run p es initial)).please_fetch_permissions ≡ 0)
join_decided p es n at_join = decide (run p es initial) n (reached-Inv p es) at_join
  where
    decide :
        (k : Kernel) (n : ℕ)
        → Inv k
        → k.current_state ≡ check_join_perm
        → ((give_permissions n k).current_state
            ≡ (if truthy (bit_and n 1) then negotiate_options else closed))
          × ((give_permissions n k).permissions_byte ≡ n)
          × ((give_permissions n k).please_fetch_permissions ≡ 0)
    decide k n h at_join = unfold give_permissions in ground arith

-- After any calls, the kernel rests in none of the states that it passes through inside a call,
-- and a post is never assembled.
pub never_assembled :
    (p : Platform) (es : List Event)
    → ((run p es initial).current_state ≢ assemble_post)
      × ((run p es initial).current_state ≢ check_read_perm)
      × ((run p es initial).current_state ≢ check_post_perm)
never_assembled p es = rests_elsewhere (run p es initial).current_state (reached-Inv p es).rests
  where
    rests_elsewhere :
        (s : ProtocolState)
        → resting s ≡ true
        → (s ≢ assemble_post) × (s ≢ check_read_perm) × (s ≢ check_post_perm)
    rests_elsewhere s r = (λ e. ground arith, λ e. ground arith, λ e. ground arith)
