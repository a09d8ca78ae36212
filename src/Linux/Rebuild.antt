-- ===== src/Linux/Rebuild.antt =====
-- OriginalLinuxCode/Messages.c and Messages.c: both read the same headers off bytes.
use mathlib.Core.Path.{fun_ext}
use qmsp.Base.{
  ℕ, zero, suc, ◌+◌, ◌-◌, ◌*◌, ◌%◌, ◌^◌, ◌≤◌, ◌<◌, ◌≡◌, refl, ap, ◌∙◌, arith, Option, some, ◌>>=◌,
  List, [], ◌∷◌, All, drop, inl, inr, ◌⊎◌, u32, Option-cases,
}
use qmsp.Base.Memory.{Platform}
use qmsp.VariableLengthInt.{gather, unpack_dir_var_int, unpack_log_var_int, get_size_of_lvi_to_pack}
use qmsp.VariableLengthInt.AnyInput.{IsByte}
use qmsp.Messages.{
  rebuild_data_message, rebuild_control_message, rebuild_message_stub, rebuild_version,
  stub_of_byte,
}
use qmsp.Linux.{linux_unpack_dir_var_int, linux_unpack_log_var_int, linux_get_size_of_lvi_to_pack}
use qmsp.Linux.Integers.{size_lvi-linux, unpack_log-linux, unpack_dir-linux, LinuxLong}
use qmsp.Linux.Messages.{linux_rebuild_data, linux_rebuild_control}
use qmsp.Linux.Headers.{ShortStub}

-- A word stays a word.
gather-word : (n v r : ℕ) (bytes : List ℕ) → v < 2 ^ 32 → gather 32 n v bytes ≡ some r → r < 2 ^ 32
unfolding gather
gather-word zero v r bytes word e = ground arith
gather-word (suc n) v r [] word e = cc
gather-word (suc n) v r (b ∷ bytes) word e =
    gather-word n ((v * 2 ^ 8 % 2 ^ 32 + b) % 2 ^ 32) r bytes (omega arith) e

unpack_dir-word :
    (bytes : List ℕ) (n r : ℕ) → All IsByte bytes → unpack_dir_var_int bytes n ≡ some r → r < 2 ^ 32
unfolding unpack_dir_var_int
unpack_dir-word [] n r h e = cc
unpack_dir-word (b ∷ bytes) n r (h, hs) e = gather-word (n - 1) b r bytes (omega (arith, h)) e

LinuxLong-sizes : (p : Platform) → LinuxLong p → (p.long_size ≡ 4) ⊎ (p.long_size ≡ 8)
LinuxLong-sizes p (inl four) = inl four
LinuxLong-sizes p (inr (little, eight)) = inr eight

-- Reading an id and going on with its 32 bits.
dir_bind {ℓ} :
    {B : Type ℓ} (p : Platform) (bytes : List ℕ) (n : ℕ) (f g : ℕ → Option B)
    → LinuxLong p
    → n ≤ 4
    → All IsByte bytes
    → ((v : ℕ) → f (u32 v) ≡ g (u32 v))
    → (linux_unpack_dir_var_int p bytes n >>= λ v. f (u32 v)) ≡ (unpack_dir_var_int bytes n >>= g)
dir_bind p bytes n f g fits few h same =
    rw (unpack_dir-linux p bytes n (LinuxLong-sizes p fits) few h)
      (elim (Option-cases (unpack_dir_var_int bytes n)) [
        | inl e ↦ rw e refl
        | inr (v, e) ↦
            let word : u32 v ≡ v = omega (arith, unpack_dir-word bytes n v h e) in
            rw e (same v ∙ ap g word)
      ])

All-drop : (n : ℕ) (xs : List ℕ) → All IsByte xs → All IsByte (drop n xs)
All-drop zero xs h = h
All-drop (suc n) [] h = h
All-drop (suc n) (x ∷ xs) (h, hs) = All-drop n xs hs

bind_same {ℓ κ} :
    {A : Type ℓ} {B : Type κ} (o : Option A) (f g : A → Option B)
    → ((a : A) → f a ≡ g a)
    → (o >>= f) ≡ (o >>= g)
bind_same o f g same = ap (λ k. o >>= k) (fun_ext same)

stub_of_byte-ShortStub : (b : ℕ) → ShortStub (stub_of_byte b)
unfolding stub_of_byte
stub_of_byte-ShortStub b = (omega arith, omega arith)

-- The chat's id, the source's id and the message's number behind the stub, and what is made of them.
abbrev linux_ids {ℓ} : {B : Type ℓ} → Platform → List ℕ → ℕ → ℕ → (ℕ → ℕ → ℕ → Option B) → Option B
linux_ids p loc l₁ l₂ make = linux_unpack_dir_var_int p loc (l₁ + 1) >>= λ c.
    linux_unpack_log_var_int p (drop (l₁ + 1) loc) >>= λ s.
    linux_unpack_dir_var_int p (drop (linux_get_size_of_lvi_to_pack s) (drop (l₁ + 1) loc)) (l₂ + 1)
    >>= λ n. make (u32 c) s (u32 n)

abbrev ids {ℓ} : {B : Type ℓ} → List ℕ → ℕ → ℕ → (ℕ → ℕ → ℕ → Option B) → Option B
ids loc l₁ l₂ make = unpack_dir_var_int loc (l₁ + 1) >>= λ c.
    unpack_log_var_int (drop (l₁ + 1) loc) >>= λ s.
    unpack_dir_var_int (drop (get_size_of_lvi_to_pack s) (drop (l₁ + 1) loc)) (l₂ + 1) >>= λ n.
    make c s n

number_same {ℓ} :
    {B : Type ℓ} (p : Platform) (loc : List ℕ) (l₂ c s : ℕ) (make : ℕ → ℕ → ℕ → Option B)
    → LinuxLong p
    → All IsByte loc
    → l₂ < 4
    → (linux_unpack_dir_var_int p (drop (linux_get_size_of_lvi_to_pack s) loc) (l₂ + 1) >>= λ n.
        make c s (u32 n))
      ≡ (unpack_dir_var_int (drop (get_size_of_lvi_to_pack s) loc) (l₂ + 1) >>= λ n. make c s n)
number_same p loc l₂ c s make fits h short = rw (size_lvi-linux s) (
    dir_bind p (drop (get_size_of_lvi_to_pack s) loc) (l₂ + 1) (make c s) (make c s) fits
      (omega arith) (All-drop (get_size_of_lvi_to_pack s) loc h) (λ v. refl))

ids_same {ℓ} :
    {B : Type ℓ} (p : Platform) (loc : List ℕ) (l₁ l₂ : ℕ) (make : ℕ → ℕ → ℕ → Option B)
    → LinuxLong p
    → All IsByte loc
    → l₁ < 4
    → l₂ < 4
    → linux_ids p loc l₁ l₂ make ≡ ids loc l₁ l₂ make
ids_same {B = B} p loc l₁ l₂ make fits h short short' =
    let loc₂ = drop (l₁ + 1) loc in
    let before : ℕ → Option B = λ (c : ℕ). linux_unpack_log_var_int p loc₂ >>= λ s.
    linux_unpack_dir_var_int p (drop (linux_get_size_of_lvi_to_pack s) loc₂) (l₂ + 1) >>= λ n.
    make c s (u32 n) in
    let after : ℕ → Option B = λ (c : ℕ). unpack_log_var_int loc₂ >>= λ s.
    unpack_dir_var_int (drop (get_size_of_lvi_to_pack s) loc₂) (l₂ + 1) >>= λ n. make c s n in
    dir_bind p loc (l₁ + 1) before after fits (omega arith) h (λ c. rw (unpack_log-linux p loc₂) (
      bind_same (unpack_log_var_int loc₂)
        (λ s.
          linux_unpack_dir_var_int p (drop (linux_get_size_of_lvi_to_pack s) loc₂) (l₂ + 1) >>= λ n.
          make (u32 c) s (u32 n))
        (λ s. unpack_dir_var_int (drop (get_size_of_lvi_to_pack s) loc₂) (l₂ + 1) >>= λ n.
          make (u32 c) s n)
        (λ s. number_same p loc₂ l₂ (u32 c) s make fits (All-drop (l₁ + 1) loc h) short')))

pub rebuild_data-linux :
    (p : Platform) (bytes : List ℕ)
    → LinuxLong p
    → All IsByte bytes
    → linux_rebuild_data p bytes ≡ rebuild_data_message bytes
unfolding linux_rebuild_data rebuild_data_message rebuild_message_stub
rebuild_data-linux p [] fits h = refl
rebuild_data-linux p (b ∷ bytes) fits (h, hs) =
    let stub = stub_of_byte b in
    let short = stub_of_byte-ShortStub b in
    ids_same p bytes stub.chat_id_length stub.message_number_length
      (λ c s n. some (record { stub = stub; chat_id = c; source_id = s; message_number = n })) fits
      hs short.0 short.1

pub rebuild_control-linux :
    (p : Platform) (bytes : List ℕ)
    → LinuxLong p
    → All IsByte bytes
    → linux_rebuild_control p bytes ≡ rebuild_control_message bytes
unfolding linux_rebuild_control rebuild_control_message rebuild_message_stub
rebuild_control-linux p [] fits h = refl
rebuild_control-linux p (b ∷ bytes) fits (h, hs) =
    let stub = stub_of_byte b in
    let short = stub_of_byte-ShortStub b in
    let make = λ (version c s n : ℕ).
      some (record {
        stub = stub;
        version = version;
        chat_id = c;
        source_id = s;
        message_number = n;
      }) in
    bind_same (rebuild_version bytes)
      (λ version.
        linux_ids p (drop 4 bytes) stub.chat_id_length stub.message_number_length (make version))
      (λ version. ids (drop 4 bytes) stub.chat_id_length stub.message_number_length (make version))
      (λ version.
        ids_same p (drop 4 bytes) stub.chat_id_length stub.message_number_length (make version) fits
          (All-drop 4 bytes hs) short.0 short.1)

-- On the machines of LinuxLong, the program's copies of VariableLengthInt.c and Messages.c read off any
-- bytes what the root's read off them: an integer of a length of its own, one of a length of at most four
-- that is told, and the headers of data and of control messages, or run past the bytes as those do.
pub read-linux :
    (p : Platform) (bytes : List ℕ) (n : ℕ)
    → LinuxLong p
    → All IsByte bytes
    → n ≤ 4
    → (linux_unpack_log_var_int p bytes ≡ unpack_log_var_int bytes)
      × (linux_unpack_dir_var_int p bytes n ≡ unpack_dir_var_int bytes n)
      × (linux_rebuild_data p bytes ≡ rebuild_data_message bytes)
      × (linux_rebuild_control p bytes ≡ rebuild_control_message bytes)
read-linux p bytes n fits h few = (
  unpack_log-linux p bytes,
  unpack_dir-linux p bytes n (LinuxLong-sizes p fits) few h,
  rebuild_data-linux p bytes fits h,
  rebuild_control-linux p bytes fits h,
)
