-- ===== src/Frames/Plaintext/RoundTrip.antt =====
-- Frames.c: unpacking a plaintext frame from the bytes that the serializer writes.
use qmsp.Base.{ℕ, ◌+◌, ◌-◌, ◌^◌, ◌<◌, ◌≡◌, refl, sym, ap, ◌∙◌, arith}
use qmsp.Base.{List, [], ◌∷◌, ◌++◌, append-nil, append_assoc, some, drop, length}
use qmsp.Base.{drop-append_more}
use qmsp.Base.Memory.{Platform, Allocator}
use qmsp.VariableLengthInt.{unpack_log_var_int, get_size_of_lvi_to_pack}
use qmsp.Messages.Serialize.{lvi_bytes, length-lvi_bytes}
use qmsp.Frames.{read_bytes, text_extent, unpack_plaintext}
use qmsp.Frames.RoundTrip.{read_lvi, skip_lvi}
use qmsp.Frames.Plaintext.{
  counted, IsText, counted_bytes, ended_bytes, size_two, size_three, count_until-ended,
  length-counted_bytes, length-ended_bytes, read_bytes_self,
}

unpack_ptf-eq :
    (a : Allocator) (type hold off : ℕ) (frame_start text b₁ b₂ : List ℕ)
    → a.malloc 16 ≡ some b₁
    → unpack_log_var_int frame_start ≡ some type
    → text_extent type frame_start ≡ some (hold, off)
    → a.malloc (16 + hold) ≡ some b₂
    → read_bytes hold (drop off frame_start) ≡ some text
    → unpack_plaintext a frame_start
      ≡ some (some (record { type = type; length = hold; txtdta = text }, off + hold - 1))
unfolding unpack_plaintext
unpack_ptf-eq a type hold off frame_start text b₁ b₂ got₁ typed extent got₂ read = ground arith

pub counted_line :
    (p : Platform) (text rest : List ℕ)
    → counted_bytes p text ++ rest ≡ lvi_bytes p 3 ++ (lvi_bytes p (length text) ++ (text ++ rest))
unfolding counted_bytes
counted_line p text rest =
    append_assoc (lvi_bytes p 3 ++ lvi_bytes p (length text)) text rest
    ∙ append_assoc (lvi_bytes p 3) (lvi_bytes p (length text)) (text ++ rest)

pub ended_line :
    (p : Platform) (text rest : List ℕ)
    → ended_bytes p text ++ rest ≡ lvi_bytes p 2 ++ (text ++ (0 ∷ rest))
unfolding ended_bytes
ended_line p text rest = rw (append-nil (lvi_bytes p 2)) (
    append_assoc (lvi_bytes p 2) (text ++ (0 ∷ [])) rest
    ∙ ap (λ l. lvi_bytes p 2 ++ l) (append_assoc text (0 ∷ []) rest))

drop_first : (n k : ℕ) (xs ys : List ℕ) → n ≡ length xs → drop (n + k) (xs ++ ys) ≡ drop k ys
drop_first n k xs ys h = drop-append_more (n + k) k xs ys (omega arith)

-- From the bytes of a frame with its length, whatever follows, the text is found whole, and the frame
-- ends at its last byte: for a text of less than 2^62 bytes, where `malloc` gives both blocks.
pub unpack-counted_bytes :
    (p : Platform) (a : Allocator) (text rest b₁ b₂ : List ℕ)
    → length text < 2 ^ 62
    → a.malloc 16 ≡ some b₁
    → a.malloc (16 + length text) ≡ some b₂
    → unpack_plaintext a (counted_bytes p text ++ rest)
      ≡ some (some (counted text, length (counted_bytes p text) - 1))
unfolding text_extent
unpack-counted_bytes p a text rest b₁ b₂ h got₁ got₂ =
    let s = get_size_of_lvi_to_pack (length text) in
    let body = lvi_bytes p (length text) ++ (text ++ rest) in
    let skipped : drop 1 (lvi_bytes p 3 ++ body) ≡ body =
      ap (λ k. drop k (lvi_bytes p 3 ++ body)) (sym size_three) ∙ skip_lvi p 3 body in
    let deep : drop (1 + s) (lvi_bytes p 3 ++ body) ≡ text ++ rest =
      drop_first 1 s (lvi_bytes p 3) body (omega (arith, length-lvi_bytes p 3, size_three))
      ∙ skip_lvi p (length text) (text ++ rest) in
    rw (counted_line p text rest) (
      unpack_ptf-eq a 3 (length text) (1 + s) (lvi_bytes p 3 ++ body) text b₁ b₂ got₁
        (read_lvi p 3 body (omega arith))
        (rw (size_three, skipped, read_lvi p (length text) (text ++ rest) h) refl) got₂
        (rw deep (read_bytes_self (length text) text rest refl))
      ∙ ap (λ n. some (some (counted text, n))) (omega (arith, length-counted_bytes p text)))

-- From the bytes of a frame with a terminator, whatever follows, the text is found whole too, but the
-- frame is said to end before its terminator: for a text of less than 2^62 bytes, none of them zero,
-- where `malloc` gives both blocks.
pub unpack-ended_bytes :
    (p : Platform) (a : Allocator) (text rest b₁ b₂ : List ℕ)
    → IsText text
    → a.malloc 16 ≡ some b₁
    → a.malloc (16 + length text) ≡ some b₂
    → unpack_plaintext a (ended_bytes p text ++ rest)
      ≡ some (
          some (
            record { type = 2; length = length text; txtdta = text },
            length (ended_bytes p text) - 2,
          ))
unfolding text_extent
unpack-ended_bytes p a text rest b₁ b₂ h got₁ got₂ =
    let body = text ++ (0 ∷ rest) in
    let skipped : drop 1 (lvi_bytes p 2 ++ body) ≡ body =
      ap (λ k. drop k (lvi_bytes p 2 ++ body)) (sym size_two) ∙ skip_lvi p 2 body in
    rw (ended_line p text rest) (
      unpack_ptf-eq a 2 (length text) 1 (lvi_bytes p 2 ++ body) text b₁ b₂ got₁
        (read_lvi p 2 body (omega arith))
        (rw (size_two, skipped, count_until-ended text rest h.0) refl) got₂
        (rw skipped (read_bytes_self (length text) text (0 ∷ rest) refl))
      ∙ ap (λ n. some (some (record { type = 2; length = length text; txtdta = text }, n)))
          (omega (arith, length-ended_bytes p text)))
