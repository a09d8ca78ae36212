-- ===== src/Examples/Server.antt =====
-- The protocol kernels on concrete calls.
use qmsp.Base.{◌+◌, ◌≡◌, ◌≢◌, refl, List, [], ◌∷◌, true, bit_and, truthy, if◌then◌else◌}
use qmsp.Kernel.{
  ProtocolState, closed, negotiate_options, check_read_perm, amass_post, check_post_perm,
  request_retransmit, assemble_post, Kernel, initial, find_login, find_load, receive_at_join,
  receive_at_idle, receive_at_read, receive_at_post, receive_at_amass, receive_rest,
  received_message, char_shift_five, sent_at_alert, sent_at_options, sent_at_read, sent_at_retrieve,
  sent_at_retransmit, sent_message,
}
use qmsp.Kernel.Events.{give_permissions, Event, received, sent, permissions_given, step, run}
use qmsp.Kernel.Invariant.Run.{reading_permitted, posting_permitted, join_decided, never_assembled}
use qmsp.Kernel.Trap.{trapped, run-trapped}
use qmsp.RootKernel.Laws.{received_message_collapses}
use qmsp.Examples.{x86_64, aarch64}

-- A login, permissions for all, and the server's answer, on a machine where it gets through.
abbrev login : List Event
login = received 128 1 42 (0x0c ∷ []) ∷ []

abbrev reading_peer : List Event
reading_peer = received 128 1 42 (0x0c ∷ []) ∷ permissions_given 7 ∷ sent 128 0 0 ∷ []

-- It has had its posts and sends one.
abbrev posting_peer : List Event
posting_peer =
    received 128 1 42 (0x0c ∷ [])
    ∷ permissions_given 7
    ∷ sent 128 0 1
    ∷ received 0 1 42 (0x02 ∷ [])
    ∷ []

abbrev at : ProtocolState → Kernel
at s = record {
  current_state = s;
  please_fetch_permissions = 1;
  source_id = 42;
  using_version = 1;
  permissions_byte = 39;
  amass_total = 0;
  amass_expect = 0;
  p_sent_in_last_load = 48;
  kick_reason = 0;
}

reading_permitted_example :
    (truthy (bit_and (run aarch64 reading_peer initial).permissions_byte 1) ≡ true)
    × (truthy (bit_and (run aarch64 reading_peer initial).permissions_byte 2) ≡ true)
unfolding run step initial received_message find_login receive_rest receive_at_join receive_at_idle
    receive_at_read receive_at_post receive_at_amass give_permissions sent_message sent_at_alert
    sent_at_options sent_at_read sent_at_retrieve sent_at_retransmit char_shift_five
reading_permitted_example = reading_permitted aarch64 reading_peer refl

posting_permitted_example :
    (truthy (bit_and (run aarch64 posting_peer initial).permissions_byte 1) ≡ true)
    × (truthy (bit_and (run aarch64 posting_peer initial).permissions_byte 4) ≡ true)
unfolding run step initial received_message find_login find_load receive_rest receive_at_join
    receive_at_idle receive_at_read receive_at_post receive_at_amass give_permissions sent_message
    sent_at_alert sent_at_options sent_at_read sent_at_retrieve sent_at_retransmit char_shift_five
posting_permitted_example = posting_permitted aarch64 posting_peer refl

join_decided_example :
    ((give_permissions 6 (run x86_64 login initial)).current_state
      ≡ (if truthy (bit_and 6 1) then negotiate_options else closed))
    × ((give_permissions 6 (run x86_64 login initial)).permissions_byte ≡ 6)
    × ((give_permissions 6 (run x86_64 login initial)).please_fetch_permissions ≡ 0)
unfolding run step initial received_message find_login receive_rest receive_at_join receive_at_idle
    receive_at_read receive_at_post receive_at_amass
join_decided_example = join_decided x86_64 login 6 refl

never_assembled_example :
    ((run aarch64 posting_peer initial).current_state ≢ assemble_post)
    × ((run aarch64 posting_peer initial).current_state ≢ check_read_perm)
    × ((run aarch64 posting_peer initial).current_state ≢ check_post_perm)
never_assembled_example = never_assembled aarch64 posting_peer

run-trapped_example : trapped (run x86_64 reading_peer (at amass_post)).current_state ≡ true
run-trapped_example = run-trapped x86_64 reading_peer (at amass_post) refl

abbrev root_kernel : qmsp.RootKernel.Kernel
root_kernel = record {
  current_state = closed;
  please_fetch_permissions = 0;
  source_id = 0;
  permissions_byte = 255;
  amass_total = 0;
  amass_expect = 0;
}

received_message_collapses_example :
    ((qmsp.RootKernel.received_message root_kernel).current_state ≡ request_retransmit)
    × ((qmsp.RootKernel.received_message root_kernel).amass_total ≡ root_kernel.amass_total + 1)
    × ((qmsp.RootKernel.received_message root_kernel).permissions_byte
        ≡ root_kernel.permissions_byte)
received_message_collapses_example = received_message_collapses root_kernel
