-- ===== src/ChatFiles/Writer/Names.antt =====
-- OriginalLinuxCode/chatWriter.c: `findChat_storeName` and `findChatName` copy the name of a chat's
-- file into a block that is too small for its terminator.
use qmsp.Base.{
  ℕ, ◌≡◌, refl, arith, List, [], ◌∷◌, ◌++◌, none, some, length, length-append, Option-cases, inl,
  inr,
}
use qmsp.Base.Memory.{Allocator, memcpy}
use qmsp.ChatFiles.{Directory}
use qmsp.ChatFiles.Reader.{fault, find_chat}
use qmsp.ChatFiles.Writer.{
  file_path, store_name, find_chat_store_name, find_chat_name, add_new_user, add_new_post,
}

memcpy_over :
    (block text : List ℕ) → length block ≡ length text → memcpy block 0 (text ++ (0 ∷ [])) ≡ none
unfolding memcpy
memcpy_over block text same = ground (arith, length-append text (0 ∷ []), same)

pub store_name_overflows : (a : Allocator) (name : List ℕ) → store_name a name ≡ none
unfolding store_name
store_name_overflows a name = elim (Option-cases (a.malloc (length (file_path name)))) [
  | inl failed ↦ rw failed refl
  | inr (block, got) ↦
      rw
        (
          got,
          memcpy_over block (file_path name) (a.length-malloc (length (file_path name)) block got),
        )
        refl
]

-- With and without the chat.
pub adding_undefined :
    (a : Allocator) (fuel : ℕ) (dir : Directory) (cid uid permissions time : ℕ)
    (nickname text : List ℕ)
    → (add_new_user a dir cid uid permissions nickname ≡ none)
      × (add_new_post a fuel dir cid uid time text ≡ fault)
unfolding add_new_user add_new_post find_chat_store_name find_chat_name
adding_undefined a fuel dir cid uid permissions time nickname text =
    elim (Option-cases (find_chat dir cid)) [
      | inl failed ↦ (rw failed refl, rw (add_new_post, failed) refl)
      | inr (none, found) ↦ (rw found refl, rw (add_new_post, found) refl)
      | inr (some (entry, file), found) ↦ (
        rw (found, store_name_overflows a entry.name) refl,
        rw (add_new_post, found, store_name_overflows a entry.name) refl,
      )
    ]
