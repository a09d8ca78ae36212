-- ===== src/Kernel.antt =====
-- OriginalLinuxCode/QMSPkernel.c: the protocol's state machine on the server. The globals are the
-- fields of a record, and each `if(currentState == ...)` of a handler is a function of its own. A
-- permissions byte is a number below 256: the bits that are tested do not depend on its sign. The
-- file spells one global `KickReason` and `kickReason`; it is one field here.
pub mod Events
pub mod Invariant
pub mod Trap
pub mod Sent
pub mod Access
use qmsp.Base.{
  ℕ, zero, suc, ◌+◌, ◌-◌, ◌*◌, ◌/◌, ◌%◌, ◌^◌, bit_and, Bool, true, false, not, ◌&&◌, ◌||◌,
}
use qmsp.Base.{List, [], ◌∷◌, truthy, leb, ◌==◌, if◌then◌else◌, ◌>>>◌, u64}
use qmsp.Base.Memory.{Platform}

pub data ProtocolState : Type 0 where
  closed check_join_perm version_negotiate_alert version_negotiate_await : ProtocolState
  negotiate_options check_read_perm retrieve_posts idle check_change_perm : ProtocolState
  deny_changes approve_changes check_post_perm amass_post request_retransmit : ProtocolState
  assemble_post : ProtocolState

-- The enumerators' values.
abbrev pub state_number : ProtocolState → ℕ
state_number closed = 0
state_number check_join_perm = 1
state_number version_negotiate_alert = 2
state_number version_negotiate_await = 3
state_number negotiate_options = 4
state_number check_read_perm = 5
state_number retrieve_posts = 6
state_number idle = 7
state_number check_change_perm = 8
state_number deny_changes = 9
state_number approve_changes = 10
state_number check_post_perm = 11
state_number amass_post = 12
state_number request_retransmit = 13
state_number assemble_post = 14

abbrev pub is_state : ProtocolState → ProtocolState → Bool
is_state s t = state_number s == state_number t

pub record Kernel : Type 0 where
  pub current_state : ProtocolState
  pub please_fetch_permissions : ℕ
  pub source_id : ℕ
  pub using_version : ℕ
  pub permissions_byte : ℕ
  pub amass_total : ℕ
  pub amass_expect : ℕ
  pub p_sent_in_last_load : ℕ
  pub kick_reason : ℕ

abbrev pub protocol_version : ℕ
protocol_version = 1

abbrev pub supported_alt_versions : List ℕ
supported_alt_versions = 0 ∷ []

abbrev pub p_send_at_once_limit : ℕ
p_send_at_once_limit = 50

-- The globals' initial values.
unfoldable pub initial : Kernel
initial = record {
  current_state = closed;
  please_fetch_permissions = 0;
  source_id = 0;
  using_version = 1;
  permissions_byte = 255;
  amass_total = 0;
  amass_expect = 0;
  p_sent_in_last_load = 50;
  kick_reason = 0;
}

-- The loop over `supportedAltVersions`, and what follows it.
unfoldable pub try_versions : List ℕ → ℕ → Kernel → Kernel
try_versions [] version_number k = record k { current_state = closed; kick_reason = 2 }
try_versions (v ∷ vs) version_number k =
    if v == version_number
    then record k { current_state = check_join_perm; using_version = version_number }
    else try_versions vs version_number k

unfoldable pub received_version_negotiation_response : ℕ → ℕ → Kernel → Kernel
received_version_negotiation_response header version_number k =
    if is_state k.current_state version_negotiate_await
    then if header >>> 5 == 7 then try_versions supported_alt_versions version_number k else k
    else k

-- `for(...) if(FrameTypes[i] == 0x0c){ ...; break; }`
unfoldable pub find_login : List ℕ → ℕ → Kernel → Kernel
find_login [] sid k = k
find_login (t ∷ types) sid k =
    if t == 0x0c
    then record k {
      current_state = check_join_perm;
      source_id = sid;
      please_fetch_permissions = 1;
      using_version = protocol_version;
    }
    else find_login types sid k

-- The two loops that go on behind a frame that they look for.
unfoldable pub find_datagram : List ℕ → Kernel → Kernel
find_datagram [] k = k
find_datagram (t ∷ types) k =
    find_datagram types (if t == 0x09 then record k { current_state = check_change_perm } else k)

unfoldable pub find_logout : List ℕ → Kernel → Kernel
find_logout [] k = k
find_logout (t ∷ types) k =
    find_logout types (if t == 0x0e then record k { current_state = closed } else k)

unfoldable pub find_load : List ℕ → Kernel → Kernel
find_load [] k = k
find_load (t ∷ types) k =
    let rest = find_load types (record k { current_state = check_post_perm }) in
    if t == 0x07 then record k { current_state = check_read_perm } else rest

unfoldable pub receive_at_join : ℕ → Kernel → Kernel
receive_at_join version k =
    if is_state k.current_state check_join_perm
    then if version == protocol_version
      then k
      else record k { current_state = version_negotiate_alert }
    else k

unfoldable pub receive_at_idle : ℕ → List ℕ → Kernel → Kernel
receive_at_idle header types k =
    if is_state k.current_state idle
    then if header >>> 5 == 5
      then find_datagram types k
      else if header >>> 5 == 4
      then find_logout types k
      else find_load types k
    else k

unfoldable pub receive_at_read : Kernel → Kernel
receive_at_read k =
    if is_state k.current_state check_read_perm
    then if truthy (bit_and k.permissions_byte 2)
      then record k { current_state = retrieve_posts; p_sent_in_last_load = 0 }
      else record k { current_state = idle }
    else k

unfoldable pub receive_at_post : Kernel → Kernel
receive_at_post k =
    if is_state k.current_state check_post_perm
    then if truthy (bit_and k.permissions_byte 4)
      then record k { current_state = amass_post; amass_total = 0 }
      else record k { current_state = idle }
    else k

-- The second assignment stands behind the `if`, not in an `else`.
unfoldable pub receive_at_amass : Kernel → Kernel
receive_at_amass k =
    if is_state k.current_state amass_post
    then (let k' =
          if k.amass_total == k.amass_expect
          then record k { current_state = assemble_post }
          else k in
        record k' { current_state = request_retransmit })
    else k

-- What follows the first `if` of `receivedMessage`.
unfoldable pub receive_rest : ℕ → ℕ → List ℕ → Kernel → Kernel
receive_rest header version types k =
    receive_at_amass
      (receive_at_post (receive_at_read (receive_at_idle header types (receive_at_join version k))))

-- The array has `FrameCount` entries. The chat id and the message number are not used.
unfoldable pub received_message : ℕ → ℕ → ℕ → List ℕ → Kernel → Kernel
received_message header version sid types k =
    if is_state k.current_state closed
    then if not (header >>> 5 == 4)
      then k
      else receive_rest header version types (find_login types sid k)
    else receive_rest header version types k

-- `header >> 5` for a plain `char`, as the bits of an `int`: a negative one is shifted with ones.
unfoldable pub char_shift_five : Platform → ℕ → ℕ
char_shift_five p header =
    if p.char_signed && leb 128 header
    then (header + (2 ^ 32 - 2 ^ 8)) / 2 ^ 5 + (2 ^ 32 - 2 ^ 27)
    else header / 2 ^ 5

unfoldable pub sent_at_alert : Platform → ℕ → Kernel → Kernel
sent_at_alert p header k =
    if is_state k.current_state version_negotiate_alert
    then if char_shift_five p header == 7
      then record k { current_state = version_negotiate_await }
      else k
    else k

unfoldable pub sent_at_options : Platform → ℕ → Kernel → Kernel
sent_at_options p header k =
    if is_state k.current_state negotiate_options
    then if char_shift_five p header == 4 then record k { current_state = check_read_perm } else k
    else k

unfoldable pub sent_at_read : Kernel → Kernel
sent_at_read k =
    if is_state k.current_state check_read_perm
    then if truthy (bit_and k.permissions_byte 2)
      then record k { current_state = retrieve_posts }
      else record k { current_state = idle }
    else k

unfoldable pub sent_at_retrieve : ℕ → Kernel → Kernel
sent_at_retrieve out_of_messages k =
    if is_state k.current_state retrieve_posts
    then if k.p_sent_in_last_load + 1 == p_send_at_once_limit || truthy out_of_messages
      then record k { p_sent_in_last_load = k.p_sent_in_last_load + 1; current_state = idle }
      else record k { p_sent_in_last_load = k.p_sent_in_last_load + 1 }
    else k

unfoldable pub sent_at_retransmit : ℕ → Kernel → Kernel
sent_at_retransmit had_retransmit_frame k =
    if is_state k.current_state request_retransmit
    then if truthy had_retransmit_frame then record k { current_state = amass_post } else k
    else k

unfoldable pub sent_message : Platform → ℕ → ℕ → ℕ → Kernel → Kernel
sent_message p header had_retransmit_frame out_of_messages k =
    sent_at_retransmit had_retransmit_frame (
      sent_at_retrieve out_of_messages
        (sent_at_read (sent_at_options p header (sent_at_alert p header k))))
