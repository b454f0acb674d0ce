-- ===== src/Chat/Client.antt =====
-- The server's side of a client (examples/chatserver/client.cpp): its name, and the message that
-- passes on what it says.
use rioring.Prelude.{
  ℕ, zero, suc, ◌+◌, ◌-◌, ◌/◌, ◌%◌, ◌^◌, ◌≤◌, ◌<◌, ◌≡◌, refl, sym, ap, ◌∙◌, List, [], ◌∷◌, ◌++◌,
  length, drop, replicate, length-append, length-drop, length-replicate, replicate-append,
  drop-replicate, append_assoc, drop-append_le, leb, ltb, if◌then◌else◌, Outcome, done, fault,
  ◌>>=◌, Returns, arith, tests, Bool-cases, inl, inr,
}
use rioring.Chat.Scheme.{
  response_chat, response_chat_size, array_size, resp_chat, size_of, int_at, short_bytes, int_bytes,
  overwrite, overwrite_within, write_at, write_at-front, write_at-beyond, size_of-short_bytes,
  int_at-int_bytes, sent_bytes, sent_bytes_lem,
}

-- `std::to_string` of an `int` that is not negative: ten digits at most.
decimal : (fuel n : ℕ) → List ℕ
decimal zero n = []
decimal (suc fuel) n =
    let rest = decimal fuel (n / 10) in
    if ltb n 10 then (48 + n) ∷ [] else rest ++ (48 + n % 10) ∷ []

-- `"client" + std::to_string( name_id++ )`.
pub client_name : ℕ → List ℕ
unfolding decimal
client_name id = 99 ∷ 108 ∷ 105 ∷ 101 ∷ 110 ∷ 116 ∷ decimal 10 id

-- `rc` as `client::chat` builds it, in its array of 1024 bytes.
pub compose : (name msg : List ℕ) → Outcome (List ℕ)
compose name msg = do
  b₀ ← overwrite response_chat (replicate array_size 0)
  b₁ ← write_at 3 name b₀
  b₂ ← write_at (3 + length name) (0 ∷ []) b₁
  b₃ ← write_at response_chat_size msg b₂
  b₄ ← write_at (response_chat_size + length msg) (0 ∷ []) b₃
  b₅ ← write_at 23 (int_bytes (length msg)) b₄
  write_at 1 (short_bytes (size_of b₅ + int_at b₅ 23)) b₅

-- What stands before the text in a message of the server.
abbrev pub response_head : (name : List ℕ) (n : ℕ) → List ℕ
response_head name n =
    resp_chat ∷ short_bytes (response_chat_size + n)
    ++ ((name ++ replicate (20 - length name) 0) ++ int_bytes n)

-- The array behind the structure, before anything is written there.
area : List ℕ
area = drop response_chat_size (replicate array_size 0)

length-area : length area ≡ 997
unfolding area
length-area = omega (
  arith,
  length-drop {A = ℕ} response_chat_size (replicate array_size 0),
  length-replicate {A = ℕ} array_size 0,
)

zero_written :
    (m : ℕ) (xs : List ℕ) → 0 < m → 0 ∷ drop 1 (replicate m 0 ++ xs) ≡ replicate m 0 ++ xs
zero_written zero xs h = absurd (omega arith)
zero_written (suc m) xs h = refl

-- `rc` with two bytes of size, a padded name, a number and what is behind.
abbrev laid_out : (low high : ℕ) (name : List ℕ) (count rest : List ℕ) → List ℕ
laid_out low high name count rest =
    resp_chat ∷ low ∷ high ∷ ((name ++ replicate (20 - length name) 0) ++ (count ++ rest))

fresh : overwrite response_chat (replicate array_size 0) ≡ done (response_chat ++ area)
unfolding area
fresh =
    overwrite_within response_chat (replicate array_size 0)
      (omega (arith, length-replicate {A = ℕ} array_size 0))

module _ (name : List ℕ) (short : length name ≤ 19) where
  -- The field that holds the name.
  field : List ℕ
  field = name ++ replicate (20 - length name) 0

  length-field : length field ≡ 20
  unfolding field
  length-field = omega (
    arith,
    length-append name (replicate (20 - length name) 0),
    length-replicate {A = ℕ} (20 - length name) 0,
  )

  name_written :
      write_at 3 name (response_chat ++ area)
      ≡ done (
          resp_chat
          ∷ 27
          ∷ 0
          ∷ (name ++ (replicate (20 - length name) 0 ++ (replicate 4 0 ++ area))))
  name_written =
      write_at-front 3 (resp_chat ∷ 27 ∷ 0 ∷ []) name (replicate 24 0 ++ area) refl
        (omega (arith, length-append (replicate 24 0) area))
      ∙ ap (λ x. done (resp_chat ∷ 27 ∷ 0 ∷ (name ++ x)))
          (drop-append_le (length name) (replicate 24 0) area (omega arith)
            ∙ (ap (λ x. x ++ area)
                  (drop-replicate 0 (length name) 24 (omega arith)
                    ∙ replicate-append 0 (24 - length name) (20 - length name) 4 (omega arith))
                ∙ append_assoc (replicate (20 - length name) 0) (replicate 4 0) area))

  name_ended :
      write_at
        (3 + length name)
        (0 ∷ [])
        (resp_chat ∷ 27 ∷ 0 ∷ (name ++ (replicate (20 - length name) 0 ++ (replicate 4 0 ++ area))))
      ≡ done (laid_out 27 0 name (replicate 4 0) area)
  name_ended =
      let old = replicate (20 - length name) 0 ++ (replicate 4 0 ++ area) in
      write_at-front (3 + length name) (resp_chat ∷ 27 ∷ 0 ∷ name) (0 ∷ []) old (omega arith) (
        omega (
          arith,
          length-append (replicate (20 - length name) 0) (replicate 4 0 ++ area),
          length-replicate {A = ℕ} (20 - length name) 0,
        ))
      ∙ ap (λ x. done (resp_chat ∷ 27 ∷ 0 ∷ x))
          (ap (◌++◌ name) (zero_written (20 - length name) (replicate 4 0 ++ area) (omega arith))
            ∙ sym (append_assoc name (replicate (20 - length name) 0) (replicate 4 0 ++ area)))

  -- Behind the structure: `n` is where, and `front` the text before that place.
  text_written :
      (n : ℕ) (front ys xs : List ℕ)
      → n ≡ response_chat_size + length front
      → length ys ≤ length xs
      → write_at n ys (laid_out 27 0 name (replicate 4 0) (front ++ xs))
        ≡ done (laid_out 27 0 name (replicate 4 0) (front ++ (ys ++ drop (length ys) xs)))
  unfolding field
  text_written n front ys xs e h =
      let before = resp_chat ∷ 27 ∷ 0 ∷ (field ++ (replicate 4 0 ++ front)) in
      ap (λ x. write_at n ys (resp_chat ∷ 27 ∷ 0 ∷ x))
        (sym (append_assoc field (replicate 4 0 ++ front) xs))
      ∙ (write_at-front n before ys xs
            (omega (arith, e, length-field, length-append field (replicate 4 0 ++ front))) h
          ∙ ap (λ x. done (resp_chat ∷ 27 ∷ 0 ∷ x))
              (append_assoc field (replicate 4 0 ++ front) (ys ++ drop (length ys) xs)))

  text_beyond :
      (n : ℕ) (front ys xs : List ℕ)
      → n ≡ response_chat_size + length front
      → length xs < length ys
      → write_at n ys (laid_out 27 0 name (replicate 4 0) (front ++ xs)) ≡ fault
  unfolding field
  text_beyond n front ys xs e h =
      let before = resp_chat ∷ 27 ∷ 0 ∷ (field ++ (replicate 4 0 ++ front)) in
      ap (λ x. write_at n ys (resp_chat ∷ 27 ∷ 0 ∷ x))
        (sym (append_assoc field (replicate 4 0 ++ front) xs))
      ∙ write_at-beyond n before ys xs
          (omega (arith, e, length-field, length-append field (replicate 4 0 ++ front))) h

  count_written :
      (n : ℕ) (rest : List ℕ)
      → write_at 23 (int_bytes n) (laid_out 27 0 name (replicate 4 0) rest)
        ≡ done (laid_out 27 0 name (int_bytes n) rest)
  unfolding field
  count_written n rest =
      write_at-front 23 (resp_chat ∷ 27 ∷ 0 ∷ field) (int_bytes n) (replicate 4 0 ++ rest)
        (omega (arith, length-field)) (omega arith)

  count_read :
      (n : ℕ) (rest : List ℕ) → n < 2 ^ 32 → int_at (laid_out 27 0 name (int_bytes n) rest) 23 ≡ n
  unfolding field
  count_read n rest h =
      int_at-int_bytes (resp_chat ∷ 27 ∷ 0 ∷ field) n 23 rest (omega (arith, length-field)) h

  -- The array when all is written.
  array : List ℕ → List ℕ
  array msg = response_head name (length msg) ++ (msg ++ (0 ∷ drop 1 (drop (length msg) area)))

  array-split :
      (msg : List ℕ)
      → array msg
        ≡ (response_head name (length msg) ++ msg) ++ (0 ∷ drop 1 (drop (length msg) area))
  unfolding array
  array-split msg =
      sym (append_assoc (response_head name (length msg)) msg (0 ∷ drop 1 (drop (length msg) area)))

  length-response :
      (msg : List ℕ)
      → length (response_head name (length msg) ++ msg) ≡ response_chat_size + length msg
  unfolding field
  length-response msg = omega (
    arith,
    length-append (response_head name (length msg)) msg,
    length-append field (int_bytes (length msg)),
    length-field,
  )

  length-array : (msg : List ℕ) → length msg ≤ 996 → length (array msg) ≡ array_size
  length-array msg h = omega (
    arith,
    ap length (array-split msg),
    length-append (response_head name (length msg) ++ msg) (0 ∷ drop 1 (drop (length msg) area)),
    length-response msg,
    length-drop 1 (drop (length msg) area),
    length-drop (length msg) area,
    length-area,
  )

  composed : (msg : List ℕ) → length msg ≤ 996 → compose name msg ≡ done (array msg)
  unfolding compose array field
  composed msg h =
      let rest = 0 ∷ drop 1 (drop (length msg) area) in
      rw
        (
          fresh,
          ◌>>=◌,
          name_written,
          ◌>>=◌,
          name_ended,
          ◌>>=◌,
          text_written response_chat_size [] msg area (omega arith) (omega (arith, length-area)),
          ◌>>=◌,
          text_written (response_chat_size + length msg) msg (0 ∷ []) (drop (length msg) area)
              (omega arith) (omega (arith, length-drop (length msg) area, length-area)),
          ◌>>=◌,
          count_written (length msg) (msg ++ rest),
          ◌>>=◌,
          count_read (length msg) (msg ++ rest) (omega (arith, h)),
        )
        (write_at-front 1 (resp_chat ∷ []) (short_bytes (response_chat_size + length msg))
            (27 ∷ 0 ∷ (field ++ (int_bytes (length msg) ++ (msg ++ rest)))) refl (omega arith)
          ∙ ap (λ x. done (resp_chat ∷ short_bytes (response_chat_size + length msg) ++ x))
              (sym (append_assoc field (int_bytes (length msg)) (msg ++ rest))))

  sent :
      (msg : List ℕ)
      → length msg ≤ 996
      → sent_bytes (array msg) ≡ done (response_head name (length msg) ++ msg)
  unfolding array field
  sent msg h =
      sent_bytes_lem (array msg) (response_head name (length msg) ++ msg) _ (array-split msg) (
        size_of-short_bytes resp_chat (response_chat_size + length msg)
          (field ++ int_bytes (length msg) ++ (msg ++ (0 ∷ drop 1 (drop (length msg) area))))
          (omega (arith, h))
        ∙ sym (length-response msg))

  -- `client::chat` builds the message it means to, for a text of 996 bytes at most.
  pub compose_lem :
      (msg : List ℕ)
      → length msg ≤ 996
      → Returns (compose name msg) (λ rc.
        (sent_bytes rc ≡ done (response_head name (length msg) ++ msg)) × (length rc ≡ array_size))
  compose_lem msg h = (array msg, composed msg h, (sent msg h, length-array msg h))

  end_beyond :
      (msg : List ℕ)
      → length msg ≡ 997
      → write_at
          (response_chat_size + length msg)
          (0 ∷ [])
          (laid_out 27 0 name (replicate 4 0) (msg ++ drop (length msg) area))
        ≡ fault
  end_beyond msg h =
      text_beyond (response_chat_size + length msg) msg (0 ∷ []) (drop (length msg) area)
        (omega arith) (omega (arith, h, length-drop (length msg) area, length-area))

  -- For a longer text it writes past its array.
  pub compose-fault : (msg : List ℕ) → 996 < length msg → compose name msg ≡ fault
  unfolding compose
  compose-fault msg h = elim (Bool-cases (leb (length msg) 997)) [
    | inl fits ↦
        let l : length msg ≡ 997 = omega (tests, fits, h) in
        rw (
          fresh,
          ◌>>=◌,
          name_written,
          ◌>>=◌,
          name_ended,
          ◌>>=◌,
          text_written response_chat_size [] msg area (omega arith) (omega (arith, length-area, l)),
          ◌>>=◌,
          end_beyond msg l,
          ◌>>=◌,
        )
    | inr larger ↦ rw (
      fresh,
      ◌>>=◌,
      name_written,
      ◌>>=◌,
      name_ended,
      ◌>>=◌,
      text_beyond response_chat_size [] msg area (omega arith) (omega (tests, length-area, larger)),
      ◌>>=◌,
    )
  ]
