-- ===== src/ChatCache/Entry.antt =====
-- OriginalLinuxCode/chatCache.c: reading the entry that stands on one line.
use qmsp.Base.{ℕ, ◌+◌, ◌-◌, ◌*◌, ◌^◌, ◌<◌, ◌≡◌, ◌≢◌, refl, sym, ap, ◌∙◌, arith}
use qmsp.Base.{
  List, [], ◌∷◌, ◌++◌, some, true, false, All, length, length-append, drop, take-append_self,
  drop-append_more, drop-drop, u64, ltb,
}
use qmsp.Base.Memory.{Platform, Allocator}
use qmsp.ChatFiles.Stdio.{print_number}
use qmsp.ChatFiles.Stdio.Laws.{IsDigit, value, value-print_number, print_number-IsDigit}
use qmsp.ChatCache.{
  strcspn, equal_upto, colon_text, list_text, char_word, read_id, host_block, read_entry,
}

abbrev pub Without : ℕ → List ℕ → Type 0
Without c text = All (λ b. b ≢ c) text

pub strcspn-first :
    (c : ℕ) (text rest : List ℕ) → Without c text → strcspn c (text ++ (c ∷ rest)) ≡ length text
unfolding strcspn
strcspn-first c [] rest h = ground arith
strcspn-first c (b ∷ text) rest (h, hs) = ground (arith, strcspn-first c text rest hs)

pub equal_upto_self : (text rest : List ℕ) → equal_upto (length text) text (text ++ rest) ≡ true
unfolding equal_upto
equal_upto_self [] rest = refl
equal_upto_self (c ∷ text) rest = ground (arith, equal_upto_self text rest)

strcspn-past :
    (c : ℕ) (text rest : List ℕ)
    → Without c text
    → strcspn c (text ++ rest) ≡ length text + strcspn c rest
unfolding strcspn
strcspn-past c [] rest h = omega arith
strcspn-past c (b ∷ text) rest (h, hs) = ground (arith, strcspn-past c text rest hs)

pub char_word-small : (p : Platform) (c : ℕ) → c < 128 → char_word p c ≡ c
unfolding char_word
char_word-small p c h = ground arith

read_id_step :
    (p : Platform) (v c : ℕ) (digits : List ℕ)
    → IsDigit c
    → read_id p v (c ∷ digits) ≡ read_id p (u64 (u64 (v * 10) + (c - 48))) digits
unfolding read_id
read_id_step p v c digits (low, high) =
    let same : u64 (u64 (v * 10) + char_word p c + 2 ^ 64 - 48) ≡ u64 (u64 (v * 10) + (c - 48)) =
      rw (char_word-small p c (omega arith)) (omega arith) in
    rw same (ground arith)

read_id-digits :
    (p : Platform) (v : ℕ) (digits : List ℕ)
    → All IsDigit digits
    → read_id p v digits ≡ value v digits
unfolding value
read_id-digits p v [] h = unfold read_id in refl
read_id-digits p v (c ∷ digits) (h, hs) =
    read_id_step p v c digits h ∙ read_id-digits p (u64 (u64 (v * 10) + (c - 48))) digits hs

-- An entry's text.
abbrev pub entry_text : List ℕ → List ℕ → ℕ → List ℕ
entry_text nickname hostloc cid =
    nickname ++ (colon_text ++ (hostloc ++ (list_text ++ print_number cid)))

pub length-entry_text :
    (nickname hostloc : List ℕ) (cid : ℕ)
    → length (entry_text nickname hostloc cid)
      ≡ length nickname + length hostloc + length (print_number cid) + 4
length-entry_text nickname hostloc cid = omega (
  arith,
  length-append nickname (colon_text ++ (hostloc ++ (list_text ++ print_number cid))),
  length-append hostloc (list_text ++ print_number cid),
)

module _ (nickname hostloc : List ℕ) (cid : ℕ) (no_colon : Without 58 nickname)
    (no_comma : Without 44 nickname) (host_no_comma : Without 44 hostloc) where
  pub colon_at : strcspn 58 (entry_text nickname hostloc cid) ≡ length nickname
  colon_at = strcspn-first 58 nickname (32 ∷ (hostloc ++ (list_text ++ print_number cid))) no_colon

  comma_at : strcspn 44 (entry_text nickname hostloc cid) ≡ length nickname + 2 + length hostloc
  unfolding strcspn
  comma_at =
      let number = 32 ∷ print_number cid in
      strcspn-past 44 nickname (58 ∷ 32 ∷ (hostloc ++ (44 ∷ number))) no_comma
      ∙ omega (arith, strcspn-first 44 hostloc number host_no_comma)

  behind_colon :
      drop (length nickname + 2) (entry_text nickname hostloc cid)
      ≡ hostloc ++ (list_text ++ print_number cid)
  behind_colon =
      drop-append_more (length nickname + 2) 2 nickname
        (colon_text ++ (hostloc ++ (list_text ++ print_number cid))) (omega arith)

  behind_comma :
      drop (length nickname + 2 + length hostloc + 2) (entry_text nickname hostloc cid)
      ≡ print_number cid
  behind_comma =
      ap (λ n. drop n (entry_text nickname hostloc cid))
        {y = length nickname + 2 + (length hostloc + 2)} (omega arith)
      ∙ sym (drop-drop (length hostloc + 2) (length nickname + 2) (entry_text nickname hostloc cid))
      ∙ ap (drop (length hostloc + 2)) behind_colon
      ∙ drop-append_more (length hostloc + 2) 2 hostloc (list_text ++ print_number cid)
          (omega arith)

  host_block-entry_text :
      (a : Allocator) (block : List ℕ)
      → a.malloc (length hostloc + 1) ≡ some block
      → host_block a
          (entry_text nickname hostloc cid)
          (length nickname)
          (length nickname + 2 + length hostloc)
        ≡ some (hostloc ++ drop (length hostloc) block)
  unfolding host_block
  host_block-entry_text a block given =
      let wide : ltb (length nickname + 2 + length hostloc) (length nickname + 2) ≡ false =
        ground arith in
      let size : length nickname + 2 + length hostloc - length nickname - 1 ≡ length hostloc + 1 =
        omega arith in
      let copied : length hostloc + 1 - 1 ≡ length hostloc = omega arith in
      rw
        (
          host_block,
          wide,
          size,
          given,
          behind_colon,
          copied,
          take-append_self (length hostloc) hostloc (list_text ++ print_number cid) refl,
        )
        refl

  -- The entry is read back: the host with a byte behind it that was not written, and the id.
  pub read_entry-entry_text :
      (p : Platform) (a : Allocator) (block : List ℕ)
      → a.malloc (length hostloc + 1) ≡ some block
      → cid < 2 ^ 64
      → read_entry p a (entry_text nickname hostloc cid)
        ≡ some (record { hostloc = some (hostloc ++ drop (length hostloc) block); cid = cid })
  unfolding read_entry
  read_entry-entry_text p a block given word =
      let enough : ltb (length (entry_text nickname hostloc cid))
            (length nickname + 2 + length hostloc + 2)
          ≡ false =
        ground (arith, length-entry_text nickname hostloc cid) in
      rw
        (
          colon_at,
          comma_at,
          host_block-entry_text a block given,
          enough,
          behind_comma,
          read_id-digits p 0 (print_number cid) (print_number-IsDigit cid),
          value-print_number cid word,
        )
        refl
