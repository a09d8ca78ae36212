-- ===== src/MessageReader/Apply/Ids.antt =====
-- OriginalLinuxCode/MessageReader.c: which ids `applyMessage` reads from a message's header.
use qmsp.Base.{ℕ, ◌^◌, ◌<◌, ◌≡◌, refl, sym, ap, ◌∙◌, arith, List, ◌++◌, true, false}
use qmsp.Base.{take, drop, take-append_self, drop-append_self, drop-drop, ltb, ◌≢◌}
use qmsp.Base.Memory.{Platform, word_bytes, length-word_bytes}
use qmsp.Base.Memory.Load.{load_word, load-word_bytes}
use qmsp.Messages.{stub_memory, construct_data_message_header, construct_control_message_header}
use qmsp.MessageReader.{data_head, control_head}
use qmsp.MessageReader.Apply.{head_stub, head_members, head_ids}

load_first :
    (p : Platform) (w x : ℕ) (rest : List ℕ)
    → x < 256 ^ w
    → load_word p (take w (word_bytes p w x ++ rest)) ≡ x
load_first p w x rest h =
    ap (load_word p) (take-append_self w (word_bytes p w x) rest (sym (length-word_bytes p w x)))
    ∙ load-word_bytes p w x h

drop_first : (p : Platform) (w x : ℕ) (rest : List ℕ) → drop w (word_bytes p w x ++ rest) ≡ rest
drop_first p w x rest = drop-append_self w (word_bytes p w x) rest (sym (length-word_bytes p w x))

low_stub :
    (p : Platform) (c s m : ℕ)
    → ltb (stub_memory p (construct_data_message_header c s m).stub) 128 ≡ true
unfolding stub_memory construct_data_message_header
low_stub p c s m = ground arith

-- From the header of a data message as it is constructed, with ids that fit their members, the
-- chat's id and the source's id are read.
pub head_ids-data :
    (p : Platform) (c s m : ℕ)
    → c < 2 ^ 32
    → s < 2 ^ 64
    → head_ids p (data_head (construct_data_message_header c s m)) ≡ (c, s)
unfolding head_ids head_stub head_members construct_data_message_header
head_ids-data p c s m hc hs =
    let behind = word_bytes p 8 s ++ word_bytes p 4 m in
    rw
      (
        low_stub p c s m,
        load_first p 4 c behind hc,
        drop_first p 4 c behind,
        load_first p 8 s (word_bytes p 4 m) hs,
      )
      refl

past_both :
    (p : Platform) (v c : ℕ) (rest : List ℕ)
    → drop 8 (word_bytes p 4 v ++ (word_bytes p 4 c ++ rest)) ≡ rest
past_both p v c rest =
    let behind = word_bytes p 4 c ++ rest in
    sym (drop-drop 4 4 (word_bytes p 4 v ++ behind))
    ∙ ap (drop 4) (drop_first p 4 v behind)
    ∙ drop_first p 4 c rest

high_stub :
    (p : Platform) (t v c s m d : ℕ)
    → p.little ≡ true
    → d ≢ 0
    → ltb (stub_memory p (construct_control_message_header t v c s m d).stub) 128 ≡ false
unfolding stub_memory construct_control_message_header
high_stub p t v c s m d little has_data = ground arith

control_low_stub :
    (p : Platform) (t v c s m : ℕ)
    → p.little ≡ true
    → ltb (stub_memory p (construct_control_message_header t v c s m 0).stub) 128 ≡ true
unfolding stub_memory construct_control_message_header
control_low_stub p t v c s m little = ground arith

-- From the header of a control message as it is constructed of a version, a chat's id and a source's
-- id that fit their members, on a little-endian machine: the two ids are read if the message has data.
-- If it has none, the version is read as the chat's id.
pub head_ids-control :
    (p : Platform) (t v c s m d : ℕ)
    → p.little ≡ true
    → v < 2 ^ 32
    → c < 2 ^ 32
    → s < 2 ^ 64
    → (d ≢ 0 → head_ids p (control_head (construct_control_message_header t v c s m d)) ≡ (c, s))
      × ((head_ids p (control_head (construct_control_message_header t v c s m 0))).0 ≡ v)
unfolding head_ids head_stub head_members construct_control_message_header
head_ids-control p t v c s m d little hv hc hs =
    let source = word_bytes p 8 s ++ word_bytes p 4 m in
    let behind = word_bytes p 4 c ++ source in
    (
      λ has_data.
          rw
            (
              high_stub p t v c s m d little has_data,
              drop_first p 4 v behind,
              load_first p 4 c source hc,
              past_both p v c source,
              load_first p 8 s (word_bytes p 4 m) hs,
            )
            refl,
      rw (control_low_stub p t v c s m little, load_first p 4 v behind hv) refl,
    )
