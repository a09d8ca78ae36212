-- ===== src/Client/Cached.antt =====
-- OriginalLinuxCode/QMSP_Runner.c: the arguments of a client that caches the chat it connects to, and
-- of one that takes the chat from the cache.
use qmsp.Base.{
  ℕ, ◌+◌, ◌-◌, ◌*◌, ◌^◌, ◌<◌, ◌≡◌, refl, ap, ◌∙◌, arith, List, [], ◌∷◌, ◌++◌, Option, some, none,
  false, All, length, drop, u64, truthy, ◌>>>◌,
}
use qmsp.Base.Memory.{Platform, Allocator}
use qmsp.ChatFiles.Stdio.{print_number}
use qmsp.ChatFiles.Stdio.Laws.{IsDigit, value, value-print_number, print_number-IsDigit}
use qmsp.ChatFiles.Spec.{print_lines}
use qmsp.ChatCache.{char_word, cache_new}
use qmsp.ChatCache.Entry.{char_word-small}
use qmsp.ChatCache.Laws.{IsEntry, PassesBy, get_details-cache_new}
use qmsp.Client.{
  read_number, read_user_id, connect, connect_to, connect_at, take_target, take_arguments,
  user_id_text, con_at_text, con_to_text, chat_text, name_text,
}

read_number-digits :
    (p : Platform) (v : ℕ) (digits : List ℕ)
    → All IsDigit digits
    → read_number p v digits ≡ value v digits
unfolding read_number value
read_number-digits p v [] h = refl
read_number-digits p v (c ∷ digits) ((low, high), hs) =
    let same : u64 (u64 (v * 10) + char_word p c + 2 ^ 64 - 48) ≡ u64 (u64 (v * 10) + (c - 48)) =
      rw (char_word-small p c (omega arith)) (omega arith) in
    ap (λ n. read_number p n digits) same
    ∙ read_number-digits p (u64 (u64 (v * 10) + (c - 48))) digits hs

read_number-print_number :
    (p : Platform) (n : ℕ) → n < 2 ^ 64 → read_number p 0 (print_number n) ≡ n
read_number-print_number p n word =
    read_number-digits p 0 (print_number n) (print_number-IsDigit n) ∙ value-print_number n word

plain_digits :
    (p : Platform) (digits : List ℕ)
    → All IsDigit digits
    → read_user_id p digits ≡ read_number p 0 digits
unfolding read_user_id
plain_digits p [] h = unfold read_number in refl
plain_digits p (c ∷ digits) (h, hs) = ground arith

-- A user's id below 2^64 is read from its digits, and from its digits behind a negative sign.
pub read_user_id-print_number :
    (p : Platform) (n : ℕ)
    → n < 2 ^ 64
    → (read_user_id p (print_number n) ≡ n) × (read_user_id p (45 ∷ print_number n) ≡ n)
read_user_id-print_number p n word = (
  plain_digits p (print_number n) (print_number-IsDigit n) ∙ read_number-print_number p n word,
  unfold read_user_id in read_number-print_number p n word,
)

given_user :
    (p : Platform) (a : Allocator) (get_value : List ℕ → Option (List ℕ)) (cache : Option (List ℕ))
    (uid : ℕ)
    → get_value user_id_text ≡ some (print_number uid)
    → uid < 2 ^ 62
    → take_arguments p a get_value cache ≡ take_target p a get_value cache uid
unfolding take_arguments
given_user p a get_value cache uid given small =
    let low : truthy (uid >>> 62) ≡ false = ground arith in
    rw (take_arguments, given, (read_user_id-print_number p uid (omega arith)).0, low) refl

-- A client that connects to a host and a chat by their arguments, and is given a name for them, adds
-- them to the cache; and a client that is given that name, with the cache as it is then, connects to
-- the same chat, with a block for the host that begins with the first host's text and ends with one
-- byte, in the terminator's place, that `malloc` gave and nothing has written. This holds for users' ids below 2^62, where the entry fits a line, the cache holds whole lines none of which is
-- taken for the name, and `malloc` gives a block.
pub connect_to-connect_at :
    (p : Platform) (a : Allocator) (first second : List ℕ → Option (List ℕ))
    (nickname hostloc : List ℕ) (cid uid other : ℕ) (ls : List (List ℕ)) (block : List ℕ)
    → first user_id_text ≡ some (print_number uid)
    → first con_at_text ≡ some hostloc
    → first con_to_text ≡ none
    → first chat_text ≡ some (print_number cid)
    → first name_text ≡ some nickname
    → second user_id_text ≡ some (print_number other)
    → second con_at_text ≡ none
    → second con_to_text ≡ some nickname
    → uid < 2 ^ 62
    → other < 2 ^ 62
    → IsEntry nickname hostloc cid
    → All (PassesBy nickname) ls
    → a.malloc (length hostloc + 1) ≡ some block
    → (cache : List ℕ) × (take_arguments p a first (some (print_lines ls))
        ≡ some (
            connect
              (record { target = some hostloc; cid = some cid; uid = uid; cache = some cache })))
      × (take_arguments p a second (some cache)
          ≡ some (
              connect (record {
                target = some (hostloc ++ drop (length hostloc) block);
                cid = some cid;
                uid = other;
                cache = some cache;
              })))
unfolding take_target connect_at connect_to
connect_to-connect_at p a first second nickname hostloc cid uid other ls block u₁ at₁ to₁ chat₁
      name₁ u₂ at₂ to₂ small small' entry others given =
    let file = some (print_lines ls) in
    let cache = cache_new hostloc cid nickname file in
    let id = read_number-print_number p cid (omega (arith, entry.cid_short)) in
    (
      cache,
      given_user p a first file uid u₁ small ∙ rw (take_target, at₁, to₁, chat₁, name₁, id) refl,
      given_user p a second (some cache) other u₂ small'
          ∙ rw
              (
                take_target,
                at₂,
                to₂,
                get_details-cache_new p a nickname hostloc cid ls block entry others given,
              )
              refl,
    )
