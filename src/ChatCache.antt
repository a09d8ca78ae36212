-- ===== src/ChatCache.antt =====
-- OriginalLinuxCode/chatCache.c: the file of the chats that a client has connected to. The file is
-- the bytes of ./conDir/conmem.log, without zeros.
pub mod Entry
pub mod Laws
use qmsp.Base.{
  ℕ, zero, suc, ◌+◌, ◌-◌, ◌*◌, ◌^◌, Option, none, some, ◌>>=◌, List, [], ◌∷◌, ◌++◌, Bool, true,
  false, not, ◌&&◌, ◌||◌,
}
use qmsp.Base.{◌==◌, ltb, if◌then◌else◌, take, drop, length, u64}
use qmsp.Base.Memory.{Platform, Allocator}
use qmsp.ChatFiles.Stdio.{fgets, print_number}

-- `strcspn` with one byte to look for.
unfoldable pub strcspn : ℕ → List ℕ → ℕ
strcspn c [] = 0
strcspn c (b ∷ text) = let rest = strcspn c text in if b == c then 0 else suc rest

-- `strncmp(text, other, n) == 0`.
unfoldable pub equal_upto : ℕ → List ℕ → List ℕ → Bool
equal_upto zero text other = true
equal_upto (suc n) [] [] = true
equal_upto (suc n) [] (d ∷ other) = false
equal_upto (suc n) (c ∷ text) [] = false
equal_upto (suc n) (c ∷ text) (d ∷ other) = c == d && equal_upto n text other

-- ": ", ", ".
abbrev pub colon_text : List ℕ
colon_text = b':' ∷ b' ' ∷ []

abbrev pub list_text : List ℕ
list_text = b',' ∷ b' ' ∷ []

-- The file, which `fopen(name, "a")` makes if there is none, and can be opened.
unfoldable pub cache_new : List ℕ → ℕ → List ℕ → Option (List ℕ) → List ℕ
cache_new hostloc cid nickname file =
    let line =
      take 1023 (nickname ++ (colon_text ++ (hostloc ++ (list_text ++ print_number cid)))) in
    elim file [ none ↦ line | some bytes ↦ bytes ++ line ]

-- A struct `cachedChat`: NULL or the block of the host's text, and the chat's id.
pub record CachedChat : Type 0 where
  pub hostloc : Option (List ℕ)
  pub cid : ℕ

-- The loop over the lines: the text in `buf` behind it, if it does not end with the file. Each round
-- takes a byte at least: as many rounds as there are bytes are enough.
unfoldable pub find_line : ℕ → List ℕ → List ℕ → Option (List ℕ)
find_line zero nickname file = none
find_line (suc fuel) nickname file = elim (fgets 1024 file) [
  | none ↦ none
  | some (text, file') ↦
      let rest = find_line fuel nickname file' in
      if equal_upto (strcspn 58 text) nickname text then some text else rest
]

-- A `char` as it is added to an `unsigned long`.
unfoldable pub char_word : Platform → ℕ → ℕ
char_word p c = if p.char_signed && not (ltb c 128) then c + 2 ^ 64 - 256 else c

-- The loop over the id. An `unsigned long` has eight bytes.
unfoldable pub read_id : Platform → ℕ → List ℕ → ℕ
read_id p chat [] = chat
read_id p chat (c ∷ text) =
    let rest = read_id p (u64 (u64 (chat * 10) + char_word p c + 2 ^ 64 - 48)) text in
    if c == 10 then chat else rest

-- The block of the host: `strncpy` fills it but for its last byte. Where `hclen` is 0, `hclen - 1`
-- wraps and the copy leaves the block; a negative `hclen` is more than `malloc` gives.
unfoldable pub host_block : Allocator → List ℕ → ℕ → ℕ → Option (List ℕ)
host_block a text nlen comma =
    let hclen = comma - nlen - 1 in
    if ltb comma (nlen + 2)
    then none
    else (a.malloc hclen >>= λ block.
        some (take (hclen - 1) (drop (nlen + 2) text) ++ drop (hclen - 1) block))

-- Without two bytes from the comma on, the id is read behind the terminator, which is left undefined.
unfoldable pub read_entry : Platform → Allocator → List ℕ → Option CachedChat
read_entry p a text =
    let nlen = strcspn 58 text in
    let comma = strcspn 44 text in
    host_block a text nlen comma >>= λ host.
    if ltb (length text) (comma + 2)
    then none
    else some (record { hostloc = some host; cid = read_id p 0 (drop (comma + 2) text) })

unfoldable pub get_details : Platform → Allocator → Option (List ℕ) → List ℕ → Option CachedChat
get_details p a none nickname = some (record { hostloc = none; cid = 0 })
get_details p a (some file) nickname = elim (find_line (length file) nickname file) [
  | none ↦ some (record { hostloc = none; cid = 0 })
  | some text ↦ read_entry p a text
]
