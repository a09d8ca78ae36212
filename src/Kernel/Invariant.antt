-- ===== src/Kernel/Invariant.antt =====
-- OriginalLinuxCode/QMSPkernel.c: what holds of the kernel between two calls.
pub mod Received
pub mod Run
use qmsp.Base.{
  ℕ, ◌+◌, ◌≡◌, refl, arith, bit_and, Bool, true, false, List, [], ◌∷◌, truthy, ◌==◌, if◌then◌else◌,
}
use qmsp.Base.Memory.{Platform}
use qmsp.Kernel.{
  ProtocolState, closed, check_join_perm, version_negotiate_alert, version_negotiate_await,
  negotiate_options, check_read_perm, retrieve_posts, idle, check_change_perm, deny_changes,
  approve_changes, check_post_perm, amass_post, request_retransmit, assemble_post, Kernel, initial,
  try_versions, received_version_negotiation_response, find_login, find_datagram, find_logout,
  find_load, receive_at_join, receive_at_idle, receive_at_read, receive_at_post, receive_at_amass,
  receive_rest, received_message, sent_at_alert, sent_at_options, sent_at_read, sent_at_retrieve,
  sent_at_retransmit, sent_message,
}
use qmsp.Kernel.Events.{
  give_permissions, no_stored_permissions, options_error, wants_to_change_permissions,
  wants_to_change_user, assembled_post, give_up_connection, imaginary_chat_access, Event, step, run,
  version_response, received, sent, permissions_given, permissions_missing, options_failed,
  permissions_change, user_change, post_assembled, given_up, chat_imaginary,
}

-- States of a peer that may be in the chat.
abbrev pub joined : ProtocolState → Bool
joined negotiate_options = true
joined check_read_perm = true
joined retrieve_posts = true
joined idle = true
joined check_change_perm = true
joined check_post_perm = true
joined amass_post = true
joined request_retransmit = true
joined _ = false

-- States in which posts are sent to the peer, and taken from it.
abbrev pub reading : ProtocolState → Bool
reading retrieve_posts = true
reading _ = false

abbrev pub posting : ProtocolState → Bool
posting amass_post = true
posting request_retransmit = true
posting _ = false

-- States in which the permissions of the peer are still to be fetched.
abbrev pub joining : ProtocolState → Bool
joining check_join_perm = true
joining version_negotiate_alert = true
joining version_negotiate_await = true
joining _ = false

-- States in which the kernel rests between two calls.
abbrev pub resting : ProtocolState → Bool
resting check_read_perm = false
resting check_post_perm = false
resting assemble_post = false
resting _ = true

-- What the peer's permissions grant.
pub record Grants (k : Kernel) : Type 0 where
  pub may_join : joined k.current_state ≡ true → truthy (bit_and k.permissions_byte 1) ≡ true
  pub may_read : reading k.current_state ≡ true → truthy (bit_and k.permissions_byte 2) ≡ true
  pub may_post : posting k.current_state ≡ true → truthy (bit_and k.permissions_byte 4) ≡ true
  pub fetching : joining k.current_state ≡ true → k.please_fetch_permissions ≡ 1

pub record Inv (k : Kernel) : Type 0 where
  pub grants : Grants k
  pub rests : resting k.current_state ≡ true

-- The other states, on the way through the handlers of messages.
abbrev pub after_idle : ProtocolState → Bool
after_idle assemble_post = false
after_idle _ = true

abbrev pub after_read : ProtocolState → Bool
after_read assemble_post = false
after_read check_read_perm = false
after_read _ = true

abbrev pub after_options : ProtocolState → Bool
after_options assemble_post = false
after_options check_post_perm = false
after_options _ = true

abbrev pub MayJoin : Kernel → Type 0
MayJoin k = truthy (bit_and k.permissions_byte 1) ≡ true

pub initial-Inv : Inv initial
unfolding initial
initial-Inv = ground arith

pub give_permissions-Inv : (n : ℕ) {k : Kernel} → Inv k → Inv (give_permissions n k)
unfolding give_permissions
give_permissions-Inv n {k} h = ground arith

pub no_stored_permissions-Inv : {k : Kernel} → Inv k → Inv (no_stored_permissions k)
unfolding no_stored_permissions
no_stored_permissions-Inv {k} h = ground arith

pub options_error-Inv : {k : Kernel} → Inv k → Inv (options_error k)
unfolding options_error
options_error-Inv h = ground arith

pub wants_to_change_permissions-Inv :
    (uid : ℕ) {k : Kernel} → Inv k → Inv (wants_to_change_permissions uid k)
unfolding wants_to_change_permissions
wants_to_change_permissions-Inv uid h = ground arith

pub wants_to_change_user-Inv : (uid : ℕ) {k : Kernel} → Inv k → Inv (wants_to_change_user uid k)
unfolding wants_to_change_user
wants_to_change_user-Inv uid h = ground arith

pub assembled_post-Inv : {k : Kernel} → Inv k → Inv (assembled_post k)
unfolding assembled_post
assembled_post-Inv h = ground arith

pub give_up_connection-Inv : {k : Kernel} → Inv k → Inv (give_up_connection k)
unfolding give_up_connection
give_up_connection-Inv h = ground arith

pub imaginary_chat_access-Inv : {k : Kernel} → Inv k → Inv (imaginary_chat_access k)
unfolding imaginary_chat_access
imaginary_chat_access-Inv h = ground arith

pub try_versions-Inv :
    (vs : List ℕ) (v : ℕ) (k : Kernel) → k.please_fetch_permissions ≡ 1 → Inv (try_versions vs v k)
unfolding try_versions
try_versions-Inv [] v k h = ground arith
try_versions-Inv (w ∷ vs) v k h = ground (arith, try_versions-Inv vs v k)

pub version_response-Inv :
    (header v : ℕ) (k : Kernel) → Inv k → Inv (received_version_negotiation_response header v k)
unfolding received_version_negotiation_response
version_response-Inv header v k h = ground (arith, try_versions-Inv (0 ∷ []) v k)

pub find_login-Grants :
    (types : List ℕ) (sid : ℕ) (k : Kernel) → Grants k → Grants (find_login types sid k)
unfolding find_login
find_login-Grants [] sid k h = h
find_login-Grants (t ∷ types) sid k h = ground (arith, find_login-Grants types sid k)

pub find_datagram-Grants :
    (types : List ℕ) (k : Kernel) → MayJoin k → Grants k → Grants (find_datagram types k)
unfolding find_datagram
find_datagram-Grants [] k b h = h
find_datagram-Grants (t ∷ types) k b h = find_datagram-Grants types _ (ground arith) (ground arith)

pub find_logout-Grants : (types : List ℕ) (k : Kernel) → Grants k → Grants (find_logout types k)
unfolding find_logout
find_logout-Grants [] k h = h
find_logout-Grants (t ∷ types) k h = find_logout-Grants types _ (ground arith)

pub find_load-Grants :
    (types : List ℕ) (k : Kernel) → MayJoin k → Grants k → Grants (find_load types k)
unfolding find_load
find_load-Grants [] k b h = h
find_load-Grants (t ∷ types) k b h =
    ground (arith, find_load-Grants types (record k { current_state = check_post_perm }))
