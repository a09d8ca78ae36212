-- ===== src/RootKernel.antt =====
-- QMSPkernel.c at the repository's root: the earlier state machine. Its conditions are in part
-- assignments, `if(currentState = ...)`, which hold whatever the state was. The states are those
-- of OriginalLinuxCode/QMSPkernel.c, in the same order.
pub mod Laws
use qmsp.Base.{ℕ, ◌+◌, bit_and, Bool, true, false, not, truthy, ◌==◌, if◌then◌else◌}
use qmsp.Kernel.{
  ProtocolState, closed, check_join_perm, version_negotiate_alert, version_negotiate_await,
  negotiate_options, check_read_perm, retrieve_posts, idle, check_change_perm, deny_changes,
  approve_changes, check_post_perm, amass_post, request_retransmit, assemble_post, state_number,
  is_state,
}

pub record Kernel : Type 0 where
  pub current_state : ProtocolState
  pub please_fetch_permissions : ℕ
  pub source_id : ℕ
  pub permissions_byte : ℕ
  pub amass_total : ℕ
  pub amass_expect : ℕ

-- `currentState = s`, and the value of that expression as a condition.
abbrev assign : ProtocolState → Kernel → Kernel
assign s k = record k { current_state = s }

abbrev holds : ProtocolState → Bool
holds s = truthy (state_number s)

unfoldable pub receive_join : Kernel → Kernel
receive_join k =
    let k₁ =
      if is_state k.current_state closed
      then record k { current_state = check_join_perm; source_id = 0; please_fetch_permissions = 1 }
      else k in
    if is_state k₁.current_state check_join_perm then assign version_negotiate_alert k₁ else k₁

-- `if(currentState = STATE_VERSION_NEGOTIATE_AWAIT)` and `if(currentState = STATE_IDLE)`.
unfoldable pub receive_await : Kernel → Kernel
receive_await k =
    let k₁ = assign version_negotiate_await k in
    if holds version_negotiate_await then assign check_join_perm k₁ else k₁

unfoldable pub receive_idle : Kernel → Kernel
receive_idle k =
    let k₁ = assign idle k in
    if holds idle
    then assign closed
        (assign check_post_perm (assign check_read_perm (assign check_change_perm k₁)))
    else k₁

unfoldable pub receive_post : Kernel → Kernel
receive_post k =
    let k₁ = assign check_post_perm k in
    if holds check_post_perm
    then if truthy (bit_and k₁.permissions_byte 4) then assign amass_post k₁ else assign idle k₁
    else k₁

unfoldable pub receive_amass : Kernel → Kernel
receive_amass k =
    let k₁ = assign amass_post k in
    if holds amass_post
    then (let k₂ = record k₁ { amass_total = k₁.amass_total + 1 } in
        let k₃ = if k₂.amass_total == k₂.amass_expect then assign assemble_post k₂ else k₂ in
        assign request_retransmit k₃)
    else k₁

unfoldable pub received_message : Kernel → Kernel
received_message k = receive_amass (receive_post (receive_idle (receive_await (receive_join k))))

unfoldable pub sent_message : Kernel → Kernel
sent_message k =
    let k₁ =
      if is_state k.current_state version_negotiate_alert
      then assign version_negotiate_await k
      else k in
    let k₂ =
      if is_state k₁.current_state negotiate_options then assign check_read_perm k₁ else k₁ in
    let k₃ =
      if is_state k₂.current_state check_read_perm
      then if truthy (bit_and k₂.permissions_byte 2)
        then assign retrieve_posts k₂
        else assign idle k₂
      else k₂ in
    let k₄ = if is_state k₃.current_state retrieve_posts then assign idle k₃ else k₃ in
    if is_state k₄.current_state request_retransmit then assign amass_post k₄ else k₄

unfoldable pub give_permissions : ℕ → Kernel → Kernel
give_permissions permissions k =
    if is_state k.current_state check_join_perm
    then (let k₁ =
          if truthy k.please_fetch_permissions
          then record k { please_fetch_permissions = 0; permissions_byte = permissions }
          else k in
        if not (truthy (bit_and k₁.permissions_byte 1))
        then assign closed k₁
        else assign negotiate_options k₁)
    else k

unfoldable pub no_stored_permissions : Kernel → Kernel
no_stored_permissions k =
    if is_state k.current_state check_join_perm
    then if truthy k.please_fetch_permissions
      then record k {
        please_fetch_permissions = 0;
        permissions_byte = 231;
        current_state = negotiate_options;
      }
      else k
    else k

unfoldable pub options_error : Kernel → Kernel
options_error k = if is_state k.current_state negotiate_options then assign closed k else k

unfoldable pub wants_to_change_permissions : ℕ → Kernel → Kernel
wants_to_change_permissions uid k =
    let k₁ = if truthy (bit_and k.permissions_byte 128) then assign approve_changes k else k in
    assign deny_changes k₁

unfoldable pub wants_to_change_user : ℕ → Kernel → Kernel
wants_to_change_user uid k =
    let k₁ =
      if uid == k.source_id
      then assign deny_changes
          (if truthy (bit_and k.permissions_byte 32) then assign approve_changes k else k)
      else k in
    let k₂ = if truthy (bit_and k₁.permissions_byte 64) then assign approve_changes k₁ else k₁ in
    assign deny_changes k₂

unfoldable pub assembled_post : Kernel → Kernel
assembled_post k = if is_state k.current_state assemble_post then assign idle k else k

unfoldable pub give_up_connection : Kernel → Kernel
give_up_connection k = if is_state k.current_state check_join_perm then assign closed k else k
