-- ===== src/ChatCache/Laws.antt =====
-- OriginalLinuxCode/chatCache.c: what is retrieved of the chats that were added.
use qmsp.Base.{ℕ, zero, suc, ◌+◌, ◌^◌, ◌≤◌, ◌<◌, ◌≡◌, refl, ap, ◌∙◌, arith}
use qmsp.Base.{
  List, ◌&&◌, ◌==◌, [], ◌∷◌, ◌++◌, append_assoc, some, none, true, false, All, length,
  length-append, take-length, drop, drop-length,
}
use qmsp.Base.Memory.{Platform, Allocator}
use qmsp.ChatFiles.Stdio.{fgets, print_number}
use qmsp.ChatFiles.Stdio.Laws.{
  InLine, All-append, All-imp, fgets_line, print_number-IsDigit, length-print_number,
}
use qmsp.ChatFiles.Spec.{print_lines}
use qmsp.ChatFiles.Writer.Posts.{take_line-InLine}
use qmsp.ChatCache.{strcspn, equal_upto, colon_text, list_text, cache_new, find_line, get_details}
use qmsp.ChatCache.Entry.{
  Without, strcspn-first, equal_upto_self, entry_text, length-entry_text, colon_at,
  read_entry-entry_text,
}

-- An entry that fits a line: the nickname has no colon, comma or newline and the host no comma or
-- newline, and all is short.
pub record IsEntry (nickname hostloc : List ℕ) (cid : ℕ) : Type 0 where
  pub nickname_line : All InLine nickname
  pub nickname_no_colon : Without 58 nickname
  pub nickname_no_comma : Without 44 nickname
  pub host_line : All InLine hostloc
  pub host_no_comma : Without 44 hostloc
  pub cid_short : cid < 10 ^ 10
  pub both_short : length nickname + length hostloc < 1000

-- A line of the file that is not taken for a nickname.
abbrev pub PassesBy : List ℕ → List ℕ → Type 0
PassesBy nickname line =
    All InLine line
    × (length line < 1022)
    × (equal_upto (strcspn 58 (line ++ (10 ∷ []))) nickname (line ++ (10 ∷ [])) ≡ false)

entry-InLine :
    (nickname hostloc : List ℕ) (cid : ℕ)
    → IsEntry nickname hostloc cid
    → All InLine (entry_text nickname hostloc cid)
entry-InLine nickname hostloc cid h =
    let digits : All InLine (print_number cid) =
      All-imp (print_number cid) (λ c k. (omega arith, λ e. absurd (omega arith)))
        (print_number-IsDigit cid) in
    let number = All-append InLine list_text (print_number cid) (ground arith) digits in
    let host = All-append InLine hostloc (list_text ++ print_number cid) h.host_line number in
    All-append InLine nickname (colon_text ++ (hostloc ++ (list_text ++ print_number cid)))
      h.nickname_line
      (All-append InLine colon_text (hostloc ++ (list_text ++ print_number cid)) (ground arith)
        host)

entry_short :
    (nickname hostloc : List ℕ) (cid : ℕ)
    → IsEntry nickname hostloc cid
    → length (entry_text nickname hostloc cid) < 1015
entry_short nickname hostloc cid h = omega (
  arith,
  length-entry_text nickname hostloc cid,
  h.both_short,
  length-print_number 10 cid h.cid_short (omega arith),
)

-- The last line of a file, without a newline.
fgets_last :
    (text : List ℕ)
    → All InLine text
    → 1 ≤ length text
    → length text ≤ 1023
    → fgets 1024 text ≡ some (text, [])
unfolding fgets
fgets_last [] h some_bytes short = absurd (omega arith)
fgets_last (c ∷ text) h some_bytes short = ap some (
    take_line-InLine 1023 (c ∷ text) h
    ∙ rw (take-length (c ∷ text) 1023 short, drop-length (c ∷ text) 1023 short) refl)

find_line-hit :
    (fuel : ℕ) (nickname file text file' : List ℕ)
    → fgets 1024 file ≡ some (text, file')
    → equal_upto (strcspn 58 text) nickname text ≡ true
    → find_line (suc fuel) nickname file ≡ some text
unfolding find_line
find_line-hit fuel nickname file text file' e hit = rw (find_line, e, hit) refl

find_line-miss :
    (fuel : ℕ) (nickname file text file' : List ℕ)
    → fgets 1024 file ≡ some (text, file')
    → equal_upto (strcspn 58 text) nickname text ≡ false
    → find_line (suc fuel) nickname file ≡ find_line fuel nickname file'
unfolding find_line
find_line-miss fuel nickname file text file' e miss = rw (find_line, e, miss) refl

find_line-past :
    (fuel : ℕ) (nickname rest : List ℕ) (ls : List (List ℕ)) (text : List ℕ)
    → All (PassesBy nickname) ls
    → ((k : ℕ) → find_line (suc k) nickname rest ≡ some text)
    → length ls < fuel
    → find_line fuel nickname (print_lines ls ++ rest) ≡ some text
find_line-past zero nickname rest ls text hs found enough = absurd (omega arith)
find_line-past (suc fuel) nickname rest [] text hs found enough = found fuel
find_line-past (suc fuel) nickname rest (l ∷ ls) text ((inside, short, other), hs) found enough =
    let behind = print_lines ls ++ rest in
    ap (find_line (suc fuel) nickname)
      (append_assoc (l ++ (10 ∷ [])) (print_lines ls) rest ∙ append_assoc l (10 ∷ []) behind)
    ∙ find_line-miss fuel nickname (l ++ (10 ∷ behind)) (l ++ (10 ∷ [])) behind
        (fgets_line 1024 l behind inside (omega arith)) other
    ∙ find_line-past fuel nickname rest ls text hs found (omega arith)

length-print_lines : (ls : List (List ℕ)) → length ls ≤ length (print_lines ls)
length-print_lines [] = omega arith
length-print_lines (l ∷ ls) = omega (
  arith,
  length-print_lines ls,
  length-append (l ++ (10 ∷ [])) (print_lines ls),
  length-append l (10 ∷ []),
)

find_line-nil : (fuel : ℕ) (nickname : List ℕ) → find_line fuel nickname [] ≡ none
unfolding find_line fgets
find_line-nil zero nickname = refl
find_line-nil (suc fuel) nickname = refl

-- A chat that is added to a file of whole lines, none of which is taken for its nickname, is
-- retrieved by the nickname: its id, and its host in a block of which the last byte is left as
-- `malloc` gave it. This holds where the entry fits a line (IsEntry: in particular no colon or comma
-- in the nickname, no comma in the host, an id below 10^10) and `malloc` gives a block for the host.
pub get_details-cache_new :
    (p : Platform) (a : Allocator) (nickname hostloc : List ℕ) (cid : ℕ) (ls : List (List ℕ))
    (block : List ℕ)
    → IsEntry nickname hostloc cid
    → All (PassesBy nickname) ls
    → a.malloc (length hostloc + 1) ≡ some block
    → get_details p a (some (cache_new hostloc cid nickname (some (print_lines ls)))) nickname
      ≡ some (record { hostloc = some (hostloc ++ drop (length hostloc) block); cid = cid })
unfolding get_details cache_new
get_details-cache_new p a nickname hostloc cid ls block h others given =
    let entry = entry_text nickname hostloc cid in
    let read : (k : ℕ) → find_line (suc k) nickname entry ≡ some entry = λ k.
      find_line-hit k nickname entry entry []
        (fgets_last entry (entry-InLine nickname hostloc cid h)
          (omega (arith, length-entry_text nickname hostloc cid))
          (omega (arith, entry_short nickname hostloc cid h)))
        (rw (colon_at nickname hostloc cid h.nickname_no_colon h.nickname_no_comma h.host_no_comma)
          (equal_upto_self nickname
            (colon_text ++ (hostloc ++ (list_text ++ print_number cid))))) in
    let found : find_line (length (print_lines ls ++ entry)) nickname (print_lines ls ++ entry)
        ≡ some entry =
      find_line-past (length (print_lines ls ++ entry)) nickname entry ls entry others read (
        omega (
          arith,
          length-print_lines ls,
          length-append (print_lines ls) entry,
          length-entry_text nickname hostloc cid,
        )) in
    rw (take-length entry 1023 (omega (arith, entry_short nickname hostloc cid h))) (
      rw (get_details, found)
        (read_entry-entry_text nickname hostloc cid h.nickname_no_colon h.nickname_no_comma
          h.host_no_comma p a block given (omega (arith, h.cid_short))))

equal_upto-append :
    (text other rest : List ℕ)
    → equal_upto (length text) other (text ++ rest) ≡ equal_upto (length text) other text
unfolding equal_upto
equal_upto-append [] other rest = refl
equal_upto-append (c ∷ text) [] rest = refl
equal_upto-append (c ∷ text) (d ∷ other) rest =
    ap (λ b. d == c && b) (equal_upto-append text other rest)

find_line-open :
    (fuel : ℕ) (nickname file : List ℕ)
    → fgets 1024 file ≡ some (file, [])
    → equal_upto (strcspn 58 file) nickname file ≡ false
    → find_line fuel nickname file ≡ none
find_line-open zero nickname file read miss = unfold find_line in refl
find_line-open (suc fuel) nickname file read miss =
    find_line-miss fuel nickname file file [] read miss ∙ find_line-nil fuel nickname

-- A second chat that is added to the file of one other is not retrieved: both stand on one line, and
-- the answer to the second nickname is that there is no such chat. This holds for entries that fit a
-- line (IsEntry), where the nicknames and hosts have less than 990 bytes together, and the first
-- nickname is not a beginning of the second.
pub get_details-second :
    (p : Platform) (a : Allocator) (nickname hostloc : List ℕ) (cid : ℕ) (other host : List ℕ)
    (id : ℕ)
    → IsEntry nickname hostloc cid
    → IsEntry other host id
    → length nickname + length hostloc + length other + length host < 990
    → equal_upto (length nickname) other nickname ≡ false
    → get_details p a
        (some (cache_new host id other (some (cache_new hostloc cid nickname none))))
        other
      ≡ some (record { hostloc = none; cid = 0 })
unfolding get_details cache_new
get_details-second p a nickname hostloc cid other host id h k short differs =
    let first = entry_text nickname hostloc cid in
    let second = entry_text other host id in
    let behind = 32 ∷ (hostloc ++ (list_text ++ print_number cid)) ++ second in
    let file = first ++ second in
    let size : length file ≡ length first + length second = length-append first second in
    let n₁ = length-entry_text nickname hostloc cid in
    let n₂ = length-entry_text other host id in
    let d₁ = length-print_number 10 cid h.cid_short (omega arith) in
    let d₂ = length-print_number 10 id k.cid_short (omega arith) in
    let split : file ≡ nickname ++ (58 ∷ behind) =
      append_assoc nickname (colon_text ++ (hostloc ++ (list_text ++ print_number cid))) second in
    let miss : equal_upto (strcspn 58 file) other file ≡ false =
      rw (split, strcspn-first 58 nickname behind h.nickname_no_colon)
        (equal_upto-append nickname other (58 ∷ behind) ∙ differs) in
    let inside =
      All-append InLine first second (entry-InLine nickname hostloc cid h)
        (entry-InLine other host id k) in
    let read =
      fgets_last file inside (omega (arith, size, n₁))
        (omega (arith, size, n₁, n₂, d₁, d₂, short)) in
    let lost : find_line (length file) other file ≡ none =
      find_line-open (length file) other file read miss in
    rw
      (
        take-length first 1023 (omega (arith, n₁, d₁, short)),
        take-length second 1023 (omega (arith, n₂, d₂, short)),
      )
      (rw (get_details, lost) refl)
