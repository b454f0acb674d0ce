-- ===== src/Chat/Picking/Series.antt =====
-- What the loop of the chat example does with a series of whole messages in its buffer.
use rioring.Prelude.{
  ℕ, zero, suc, ◌+◌, ◌≤◌, ◌<◌, ◌≡◌, ◌⊎◌, inl, inr, refl, sym, ap, ap₂, subst, ◌∙◌, List, [], ◌∷◌,
  ◌++◌, none, some, length, take, drop, length-append, length-drop, length-replicate, replicate,
  length-take, take-append_length, drop-append_length, ==_self, Outcome, done, ◌>>=◌, >>=_assoc,
  arith, Bool-cases, ltb, ltb→lt, ltb→le,
}
use rioring.ByteQueue.{peek_enough, peek_short, remove_enough}
use rioring.IoBuffer.{IoBuffer}
use rioring.IoBuffer.Valid
use rioring.Chat.Scheme.{scheme_size, array_size, byte_at, msg_of, size_of, overwrite_within}
use rioring.Chat.Picking.{
  read_into, Round, again, stop, Receiver, round_with, round_sized, take_message, round, rounds,
  on_receive,
}

-- A message whose bytes say what type it is and how long, and which fits the array.
pub record IsMessage (expected : ℕ) (m : List ℕ) : Type 0 where
  pub of_type : msg_of m ≡ expected
  pub of_size : size_of m ≡ length m
  pub has_scheme : scheme_size ≤ length m
  pub fits : length m ≤ array_size

abbrev pub AreMessages : ℕ → List (List ℕ) → Type 0
AreMessages expected [] = 0 ≤ 0
AreMessages expected (m ∷ ms) = IsMessage expected m × AreMessages expected ms

-- Less than a message: the scheme is not there, or less than it announces is.
abbrev pub IsPartial : List ℕ → Type 0
IsPartial xs = (length xs < scheme_size) ⊎ (length xs < size_of xs)

abbrev pub joined : List (List ℕ) → List ℕ → List ℕ
joined [] tail = tail
joined (m ∷ ms) tail = m ++ joined ms tail

-- An array after a message has been copied to its start.
abbrev pub laid : List ℕ → List ℕ → List ℕ
laid picked m = m ++ drop (length m) picked

-- `handle` is called with the array for each message in turn.
abbrev pub handled {ℓ} : {W : Type ℓ} → Receiver W → List ℕ → List (List ℕ) → W → Outcome W
handled v picked [] w = done w
handled v picked (m ∷ ms) w = v.handle (laid picked m) w >>= λ w'. handled v (laid picked m) ms w'

byte_at-append : (xs ys : List ℕ) (i : ℕ) → i < length xs → byte_at (xs ++ ys) i ≡ byte_at xs i
byte_at-append [] ys i h = absurd (omega arith)
byte_at-append (x ∷ xs) ys zero h = refl
byte_at-append (x ∷ xs) ys (suc i) h = byte_at-append xs ys i (omega arith)

size_of-append : (xs ys : List ℕ) → scheme_size ≤ length xs → size_of (xs ++ ys) ≡ size_of xs
size_of-append xs ys h =
    rw (byte_at-append xs ys 1 (omega arith), byte_at-append xs ys 2 (omega arith))

pub read_into-some :
    (picked : List ℕ) (b : IoBuffer) (n : ℕ)
    → Valid.IsValid b
    → n ≤ length (Valid.contents b)
    → n ≤ length picked
    → read_into picked b n ≡ done (some (take n (Valid.contents b) ++ drop n picked))
unfolding read_into
read_into-some picked b n v h le = rw (
  Valid.read_lem b n v,
  peek_enough n (Valid.contents b) h,
  ◌>>=◌,
  overwrite_within (take n (Valid.contents b)) picked (omega (arith, length-taken)),
  ◌>>=◌,
  length-taken,
)
  where
    length-taken : length (take n (Valid.contents b)) ≡ n
    length-taken = omega (arith, length-take n (Valid.contents b))

read_into-none :
    (picked : List ℕ) (b : IoBuffer) (n : ℕ)
    → Valid.IsValid b
    → length (Valid.contents b) < n
    → read_into picked b n ≡ done none
unfolding read_into
read_into-none picked b n v h = rw (Valid.read_lem b n v, peek_short n (Valid.contents b) h)

-- What the first read leaves of the array is behind the scheme.
pub drop-scheme :
    (c picked : List ℕ) (n : ℕ)
    → scheme_size ≤ length c
    → scheme_size ≤ length picked
    → scheme_size ≤ n
    → drop n (take scheme_size c ++ drop scheme_size picked) ≡ drop n picked
drop-scheme (x ∷ y ∷ z ∷ c) (x' ∷ y' ∷ z' ∷ picked) (suc (suc (suc n))) h l k = refl
drop-scheme [] picked n h l k = absurd (omega arith)
drop-scheme (x ∷ []) picked n h l k = absurd (omega arith)
drop-scheme (x ∷ y ∷ []) picked n h l k = absurd (omega arith)
drop-scheme (x ∷ y ∷ z ∷ c) [] n h l k = absurd (omega arith)
drop-scheme (x ∷ y ∷ z ∷ c) (x' ∷ []) n h l k = absurd (omega arith)
drop-scheme (x ∷ y ∷ z ∷ c) (x' ∷ y' ∷ []) n h l k = absurd (omega arith)
drop-scheme (x ∷ y ∷ z ∷ c) (x' ∷ y' ∷ z' ∷ picked) zero h l k = absurd (omega arith)
drop-scheme (x ∷ y ∷ z ∷ c) (x' ∷ y' ∷ z' ∷ picked) (suc zero) h l k = absurd (omega arith)
drop-scheme (x ∷ y ∷ z ∷ c) (x' ∷ y' ∷ z' ∷ picked) (suc (suc zero)) h l k = absurd (omega arith)

pub size_of-scheme :
    (c ys : List ℕ) → scheme_size ≤ length c → size_of (take scheme_size c ++ ys) ≡ size_of c
size_of-scheme (x ∷ y ∷ z ∷ c) ys h = refl
size_of-scheme [] ys h = absurd (omega arith)
size_of-scheme (x ∷ []) ys h = absurd (omega arith)
size_of-scheme (x ∷ y ∷ []) ys h = absurd (omega arith)

module _ {ℓ} {W : Type ℓ} (v : Receiver W) (picked : List ℕ) (whole : length picked ≡ array_size)
    (b : IoBuffer) (ok : Valid.IsValid b) where
  -- The round past both reads.
  pub round_read :
      (n : ℕ) (w : W)
      → scheme_size ≤ length (Valid.contents b)
      → size_of (Valid.contents b) ≡ n
      → round v picked b w ≡ (
          read_into (take scheme_size (Valid.contents b) ++ drop scheme_size picked) b n >>= λ r.
          round_with v r b w)
  unfolding round round_sized
  round_read n w h s = rw (
    read_into-some picked b scheme_size ok h (omega (arith, whole)),
    ◌>>=◌,
    size_of-scheme (Valid.contents b) (drop scheme_size picked) h,
    s,
  )

  round_short :
      (w : W) → length (Valid.contents b) < scheme_size → round v picked b w ≡ done (stop b w)
  unfolding round round_sized
  round_short w short = rw (read_into-none picked b scheme_size ok short, ◌>>=◌)

  round_partial : (w : W) → IsPartial (Valid.contents b) → round v picked b w ≡ done (stop b w)
  unfolding round_with
  round_partial w (inl short) = round_short w short
  round_partial w (inr less) = elim (Bool-cases (ltb (length (Valid.contents b)) scheme_size)) [
    | inl short ↦ round_short w (ltb→lt _ _ short)
    | inr long ↦
        round_read (size_of (Valid.contents b)) w (ltb→le _ _ long) refl
        ∙ ap (λ r. r >>= λ r'. round_with v r' b w)
            (read_into-none (take scheme_size (Valid.contents b) ++ drop scheme_size picked) b
              (size_of (Valid.contents b)) ok less)
  ]

  module _ (m rest : List ℕ) (k : IsMessage v.expected m) (e : Valid.contents b ≡ m ++ rest) where
    long : length (Valid.contents b) ≡ length m + length rest
    long = ap length e ∙ length-append m rest

    second_read :
        read_into (take scheme_size (Valid.contents b) ++ drop scheme_size picked) b (length m)
        ≡ done (some (laid picked m))
    second_read =
        let c = Valid.contents b in
        let l : length (take scheme_size c ++ drop scheme_size picked) ≡ array_size = omega (
          arith,
          long,
          k.has_scheme,
          whole,
          length-append (take scheme_size c) (drop scheme_size picked),
          length-take scheme_size c,
          length-drop scheme_size picked,
        ) in
        read_into-some (take scheme_size c ++ drop scheme_size picked) b (length m) ok
          (omega (arith, long)) (omega (arith, l, k.fits))
        ∙ ap₂ (λ x y. done (some (x ++ y))) (ap (take (length m)) e ∙ take-append_length m rest)
            (drop-scheme c picked (length m) (omega (arith, long, k.has_scheme))
              (omega (arith, whole)) k.has_scheme)

    -- A whole message at the front.
    round_whole :
        (b' : IoBuffer) × Valid.IsValid b'
        × (Valid.contents b' ≡ rest)
        × ((w : W)
            → round v picked b w
              ≡ (v.handle (laid picked m) w >>= λ w'. done (again (laid picked m) b' w')))
    unfolding take_message round_with
    round_whole =
        let c = Valid.contents b in
        let (b', e', (ok', left, _, _, _)) = Valid.pop-Popped b (length m) ok in
        let len : size_of (laid picked m) ≡ length m =
          size_of-append m (drop (length m) picked) k.has_scheme ∙ k.of_size in
        let typ : msg_of (laid picked m) ≡ v.expected =
          byte_at-append m (drop (length m) picked) 0 (omega (arith, k.has_scheme)) ∙ k.of_type in
        (
          b',
          ok',
          left
              ∙ (remove_enough (length m) c (omega (arith, long))
                  ∙ (ap (drop (length m)) e ∙ drop-append_length m rest)),
          λ w.
              round_read (length m) w (omega (arith, long, k.has_scheme))
                (ap size_of e ∙ (size_of-append m rest k.has_scheme ∙ k.of_size))
              ∙ (ap (λ r. r >>= λ r'. round_with v r' b w) second_read
                  ∙ rw (len, e', ◌>>=◌, typ, ==_self v.expected)),
        )

module _ {ℓ} {W : Type ℓ} (v : Receiver W) where
  -- The loop calls the handler once for each whole message in the buffer, in order, with the array as
  -- the message and what earlier ones left behind it make it, and stops at what is not yet whole,
  -- which stays in the buffer: given a round more than there are messages.
  pub rounds_lem :
      (ms : List (List ℕ)) (tail : List ℕ) (fuel : ℕ) (picked : List ℕ) (b : IoBuffer)
      → AreMessages v.expected ms
      → IsPartial tail
      → length ms < fuel
      → length picked ≡ array_size
      → Valid.IsValid b
      → Valid.contents b ≡ joined ms tail
      → (b' : IoBuffer) × Valid.IsValid b'
        × (Valid.contents b' ≡ tail)
        × ((w : W) → rounds v fuel picked b w ≡ (handled v picked ms w >>= λ w'. done (b', w')))
  unfolding rounds
  rounds_lem ms tail zero picked b ks p f whole ok e = absurd (omega arith)
  rounds_lem [] tail (suc fuel) picked b ks p f whole ok e =
      (b, ok, e, λ w. rw (round_partial v picked whole b ok w (subst IsPartial (sym e) p), ◌>>=◌))
  rounds_lem (m ∷ ms) tail (suc fuel) picked b (k, ks) p f whole ok e =
      let l : length (laid picked m) ≡ array_size = omega (
        arith,
        k.fits,
        whole,
        length-append m (drop (length m) picked),
        length-drop (length m) picked,
      ) in
      let (b', ok', e', r) = round_whole v picked whole b ok m (joined ms tail) k e in
      let (b'', ok'', e'', rs) =
        rounds_lem ms tail fuel (laid picked m) b' ks p (omega (arith, f)) l ok' e' in
      let go : Round W → Outcome (IoBuffer × W) =
        λ r'. elim r' [ again p₁ b₁ w₁ ↦ rounds v fuel p₁ b₁ w₁ | stop b₁ w₁ ↦ done (b₁, w₁) ] in
      (
        b'',
        ok'',
        e'',
        λ w.
            ap (λ r'. r' >>= go) (r w)
            ∙ (>>=_assoc (v.handle (laid picked m) w) (λ w'. done (again (laid picked m) b' w')) go
                ∙ (ap (λ g. v.handle (laid picked m) w >>= g) (λ i w'. rs w' i)
                    ∙ sym (
                        >>=_assoc (v.handle (laid picked m) w)
                          (λ w'. handled v (laid picked m) ms w') (λ w'. done (b'', w'))))),
      )

  length-joined :
      (ms : List (List ℕ)) (tail : List ℕ)
      → AreMessages v.expected ms
      → length ms ≤ length (joined ms tail)
  length-joined [] tail ks = omega arith
  length-joined (m ∷ ms) tail (k, ks) =
      omega (arith, length-joined ms tail ks, length-append m (joined ms tail), k.has_scheme)

  -- A call of `on_receive` ends, with one call of the handler for each whole message in the buffer,
  -- in order, and with what is not yet whole left in the buffer. The array keeps what a message
  -- before has left in it, where the next is shorter.
  pub on_receive_lem :
      (ms : List (List ℕ)) (tail : List ℕ) (b : IoBuffer)
      → AreMessages v.expected ms
      → IsPartial tail
      → Valid.IsValid b
      → Valid.contents b ≡ joined ms tail
      → (b' : IoBuffer) × Valid.IsValid b'
        × (Valid.contents b' ≡ tail)
        × ((w : W)
            → on_receive v b w ≡ (handled v (replicate array_size 0) ms w >>= λ w'. done (b', w')))
  unfolding on_receive
  on_receive_lem ms tail b ks p ok e =
      rounds_lem ms tail (suc b.buffer_offset) (replicate array_size 0) b ks p
        (omega (arith, length-joined ms tail ks, ap length e, Valid.length-contents b ok))
        (length-replicate {A = ℕ} array_size 0) ok e
