-- ===== src/Chat/Scheme.antt =====
-- examples/chatserver/scheme.h, and the arrays of bytes that both programs lay its structures over.
-- A byte is a number below 256; numbers of two and four bytes start with the least byte. An array
-- is a list, and a write that leaves it is a fault.
use rioring.Prelude.{
  ℕ, zero, suc, ◌+◌, ◌*◌, ◌/◌, ◌%◌, ◌^◌, ◌≤◌, ◌<◌, ◌≡◌, refl, sym, ap, ◌∙◌, >>=_done, >>=_assoc,
  List, [], ◌∷◌, ◌++◌, none, some, length, length-append, take, take-append_length, leb, le→leb,
  if◌then◌else◌, drop, get_elem?, replicate, Bool, ◌&&◌, ltb, true, lt→ltb, Outcome, done, fault,
  ◌>>=◌, arith,
}

abbrev pub req_chat : ℕ
req_chat = 1

abbrev pub resp_chat : ℕ
resp_chat = 11

-- `sizeof` of the three packed structures.
abbrev pub scheme_size : ℕ
scheme_size = 3

abbrev pub request_chat_size : ℕ
request_chat_size = 7

abbrev pub response_chat_size : ℕ
response_chat_size = 27

-- `std::array< char, 1024 > buffer{ 0 }`.
abbrev pub array_size : ℕ
array_size = 1024

-- The fields of the structure at the start of an array. (No array is shorter than its structure.)
abbrev pub byte_at : List ℕ → ℕ → ℕ
byte_at xs i = elim (get_elem? xs i) [ none ↦ 0 | some x ↦ x ]

abbrev pub msg_of : List ℕ → ℕ
msg_of xs = byte_at xs 0

abbrev pub size_of : List ℕ → ℕ
size_of xs = byte_at xs 1 + 256 * byte_at xs 2

abbrev pub int_at : List ℕ → ℕ → ℕ
int_at xs i =
    byte_at xs i
    + (256 * byte_at xs (1 + i) + (2 ^ 16 * byte_at xs (2 + i) + 2 ^ 24 * byte_at xs (3 + i)))

-- `n > 0` of an `int` read as a 32-bit pattern.
abbrev pub is_positive : ℕ → Bool
is_positive n = ltb 0 n && ltb n (2 ^ 31)

abbrev pub short_bytes : ℕ → List ℕ
short_bytes n = n % 256 ∷ n / 256 % 256 ∷ []

abbrev pub int_bytes : ℕ → List ℕ
int_bytes n = n % 256 ∷ n / 256 % 256 ∷ n / 2 ^ 16 % 256 ∷ n / 2 ^ 24 % 256 ∷ []

-- `request_chat()` and `response_chat()` as they lie in memory.
abbrev pub request_chat : List ℕ
request_chat = req_chat ∷ 7 ∷ 0 ∷ replicate 4 0

abbrev pub response_chat : List ℕ
response_chat = resp_chat ∷ 27 ∷ 0 ∷ replicate 24 0

-- `memcpy` to the start of an array, and to place `to`.
pub overwrite : List ℕ → List ℕ → Outcome (List ℕ)
overwrite [] xs = done xs
overwrite (y ∷ ys) [] = fault
overwrite (y ∷ ys) (x ∷ xs) = overwrite ys xs >>= λ zs. done (y ∷ zs)

pub write_at : ℕ → List ℕ → List ℕ → Outcome (List ℕ)
write_at zero ys xs = overwrite ys xs
write_at (suc to) ys [] = fault
write_at (suc to) ys (x ∷ xs) = write_at to ys xs >>= λ zs. done (x ∷ zs)

-- The bytes that a `char *` points to, up to the 0: without one, reading leaves the array.
pub c_string : List ℕ → Outcome (List ℕ)
c_string [] = fault
c_string (zero ∷ xs) = done []
c_string (suc x ∷ xs) = c_string xs >>= λ s. done (suc x ∷ s)

-- What `send( m, m->size )` sends of the array that `m` starts.
pub sent_bytes : List ℕ → Outcome (List ℕ)
sent_bytes xs = if leb (size_of xs) (length xs) then done (take (size_of xs) xs) else fault

pub overwrite_within :
    (ys xs : List ℕ) → length ys ≤ length xs → overwrite ys xs ≡ done (ys ++ drop (length ys) xs)
unfolding overwrite
overwrite_within [] xs h = refl
overwrite_within (y ∷ ys) [] h = absurd (omega arith)
overwrite_within (y ∷ ys) (x ∷ xs) h =
    ap (λ r. r >>= λ zs. done (y ∷ zs)) (overwrite_within ys xs (omega arith))

pub overwrite_beyond : (ys xs : List ℕ) → length xs < length ys → overwrite ys xs ≡ fault
unfolding overwrite
overwrite_beyond [] xs h = absurd (omega arith)
overwrite_beyond (y ∷ ys) [] h = refl
overwrite_beyond (y ∷ ys) (x ∷ xs) h =
    ap (λ r. r >>= λ zs. done (y ∷ zs)) (overwrite_beyond ys xs (omega arith))

pub write_at-append :
    (front : List ℕ) (ys xs : List ℕ)
    → write_at (length front) ys (front ++ xs) ≡ overwrite ys xs >>= λ zs. done (front ++ zs)
unfolding write_at
write_at-append [] ys xs = sym (>>=_done (overwrite ys xs))
write_at-append (x ∷ front) ys xs =
    ap (λ r. r >>= λ zs. done (x ∷ zs)) (write_at-append front ys xs)
    ∙ >>=_assoc (overwrite ys xs) (λ zs. done (front ++ zs)) (λ zs. done (x ∷ zs))

pub write_at-front :
    (n : ℕ) (front ys xs : List ℕ)
    → n ≡ length front
    → length ys ≤ length xs
    → write_at n ys (front ++ xs) ≡ done (front ++ (ys ++ drop (length ys) xs))
write_at-front n front ys xs e h =
    ap (λ k. write_at k ys (front ++ xs)) e
    ∙ (write_at-append front ys xs
        ∙ ap (λ r. r >>= λ zs. done (front ++ zs)) (overwrite_within ys xs h))

pub write_at-beyond :
    (n : ℕ) (front ys xs : List ℕ)
    → n ≡ length front
    → length xs < length ys
    → write_at n ys (front ++ xs) ≡ fault
write_at-beyond n front ys xs e h =
    ap (λ k. write_at k ys (front ++ xs)) e
    ∙ (write_at-append front ys xs
        ∙ ap (λ r. r >>= λ zs. done (front ++ zs)) (overwrite_beyond ys xs h))

pub byte_at-behind :
    (front xs : List ℕ) (i k : ℕ) → k ≡ length front + i → byte_at (front ++ xs) k ≡ byte_at xs i
byte_at-behind [] xs i k e = ap (byte_at xs) (omega (arith, e))
byte_at-behind (x ∷ front) xs i zero e = absurd (omega (arith, e))
byte_at-behind (x ∷ front) xs i (suc k) e = byte_at-behind front xs i k (omega (arith, e))

-- A number that has been written reads as itself.
pub size_of-short_bytes :
    (x n : ℕ) (xs : List ℕ) → n < 2 ^ 16 → size_of (x ∷ short_bytes n ++ xs) ≡ n
size_of-short_bytes x n xs h = omega arith

pub int_at-int_bytes :
    (front : List ℕ) (n i : ℕ) (xs : List ℕ)
    → i ≡ length front
    → n < 2 ^ 32
    → int_at (front ++ (int_bytes n ++ xs)) i ≡ n
int_at-int_bytes front n i xs e h =
    let ys = int_bytes n ++ xs in
    rw
      (
        byte_at-behind front ys 0 i (omega (arith, e)),
        byte_at-behind front ys 1 (1 + i) (omega (arith, e)),
        byte_at-behind front ys 2 (2 + i) (omega (arith, e)),
        byte_at-behind front ys 3 (3 + i) (omega (arith, e)),
      )
      (omega (arith, h))

pub sent_bytes_lem :
    (xs front rest : List ℕ)
    → xs ≡ front ++ rest
    → size_of xs ≡ length front
    → sent_bytes xs ≡ done front
unfolding sent_bytes
sent_bytes_lem xs front rest e h =
    rw (h, le→leb (length front) (length xs) (omega (arith, ap length e, length-append front rest)))
      (ap done (ap (take (length front)) e ∙ take-append_length front rest))

-- Bytes of a text: none is the 0 that ends one.
abbrev pub IsText : List ℕ → Type 0
IsText [] = 0 ≤ 0
IsText (x ∷ xs) = (0 < x) × IsText xs

pub c_string_lem : (s rest : List ℕ) → IsText s → c_string (s ++ 0 ∷ rest) ≡ done s
unfolding c_string
c_string_lem [] rest h = refl
c_string_lem (zero ∷ s) rest (h, t) = absurd (omega (arith, h))
c_string_lem (suc x ∷ s) rest (h, t) = ap (λ r. r >>= λ z. done (suc x ∷ z)) (c_string_lem s rest t)

pub c_string-zeros :
    (s : List ℕ) (k : ℕ) → IsText s → 0 < k → c_string (s ++ replicate k 0) ≡ done s
c_string-zeros s zero h k = absurd (omega arith)
c_string-zeros s (suc n) h k = c_string_lem s (replicate n 0) h

pub is_positive_lem : (n : ℕ) → 0 < n → n < 2 ^ 31 → is_positive n ≡ true
is_positive_lem n h k = rw (lt→ltb 0 n h, lt→ltb n (2 ^ 31) k)

pub c_string-padded :
    (s : List ℕ) (k : ℕ) (rest : List ℕ)
    → IsText s
    → 0 < k
    → c_string (s ++ (replicate k 0 ++ rest)) ≡ done s
c_string-padded s zero rest h k = absurd (omega arith)
c_string-padded s (suc n) rest h k = c_string_lem s (replicate n 0 ++ rest) h
