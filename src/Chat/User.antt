-- ===== src/Chat/User.antt =====
-- The program of a user of the chat (examples/chatclient/main.cpp): what it sends for a line of
-- input, and what it shows.
use rioring.Prelude.{
  ℕ, ◌+◌, ◌≡◌, min, refl, sym, ap, ◌∙◌, List, [], ◌∷◌, ◌++◌, length, take, drop, replicate,
  length-append, length-take, length-drop, length-replicate, append_assoc, if◌then◌else◌, Outcome,
  done, ◌>>=◌, arith,
}
use rioring.Chat.Scheme.{
  request_chat, request_chat_size, array_size, req_chat, resp_chat, size_of, int_at, is_positive,
  c_string, short_bytes, int_bytes, overwrite, overwrite_within, write_at, write_at-front,
  size_of-short_bytes, sent_bytes, sent_bytes_lem,
}
use rioring.Chat.Picking.{Receiver}

-- The rest of a line beyond a thousand bytes is not sent.
abbrev pub chat_text : List ℕ → List ℕ
chat_text input = take (min (length input) 1000) input

-- `request` in its array, and what `socket->send( request, request->size )` sends of it.
pub request : List ℕ → Outcome (List ℕ)
request input = do
  b₀ ← overwrite request_chat (replicate array_size 0)
  b₁ ← write_at request_chat_size (chat_text input) b₀
  b₂ ← write_at 3 (int_bytes (min (length input) 1000)) b₁
  b₃ ← write_at 1 (short_bytes (size_of b₂ + min (length input) 1000)) b₂
  sent_bytes b₃

-- A line on the screen: who says it, and what.
pub record Line : Type 0 where
  pub name : List ℕ
  pub text : List ℕ

unfoldable pub show : List ℕ → List Line → Outcome (List Line)
show resp lines = c_string (drop 3 resp) >>= λ name.
    c_string (drop 27 resp) >>= λ text. done (lines ++ record { name = name; text = text } ∷ [])

-- The loop of `on_receive`, on the lines that are shown.
unfoldable pub user_receiver : Receiver (List Line)
unfolding show
user_receiver = record {
  expected = resp_chat;
  handle = λ resp lines. if is_positive (int_at resp 23) then show resp lines else done lines;
  other = λ lines. done lines;
}

-- What stands before the text in a message of a user.
abbrev pub request_head : ℕ → List ℕ
request_head n = req_chat ∷ short_bytes (request_chat_size + n) ++ int_bytes n

pub length-chat_text : (input : List ℕ) → length (chat_text input) ≡ min (length input) 1000
length-chat_text input = omega (arith, length-take (min (length input) 1000) input)

area : List ℕ
area = drop request_chat_size (replicate array_size 0)

length-area : length area ≡ 1017
unfolding area
length-area = omega (
  arith,
  length-drop {A = ℕ} request_chat_size (replicate array_size 0),
  length-replicate {A = ℕ} array_size 0,
)

fresh : overwrite request_chat (replicate array_size 0) ≡ done (request_chat ++ area)
unfolding area
fresh =
    overwrite_within request_chat (replicate array_size 0)
      (omega (arith, length-replicate {A = ℕ} array_size 0))

-- For a line, the program sends its scheme, the number of its bytes, and the bytes, up to a thousand.
pub request_lem :
    (input : List ℕ)
    → request input ≡ done (request_head (length (chat_text input)) ++ chat_text input)
unfolding request
request_lem input =
    let t = chat_text input in
    let n = min (length input) 1000 in
    let len = length-chat_text input in
    let rest = drop (length t) area in
    let all = request_head n ++ (t ++ rest) in
    let size : size_of all ≡ request_chat_size + n =
      size_of-short_bytes req_chat (request_chat_size + n) (int_bytes n ++ (t ++ rest))
        (omega arith) in
    let whole : length (request_head n ++ t) ≡ request_chat_size + n =
      omega (arith, length-append (request_head n) t, len) in
    rw
      (
        fresh,
        ◌>>=◌,
        write_at-front request_chat_size request_chat t area refl (omega (arith, len, length-area)),
        ◌>>=◌,
        write_at-front 3 (req_chat ∷ 7 ∷ 0 ∷ []) (int_bytes n) (replicate 4 0 ++ (t ++ rest)) refl
            (omega arith),
        ◌>>=◌,
        write_at-front 1 (req_chat ∷ []) (short_bytes (request_chat_size + n))
            (7 ∷ 0 ∷ (int_bytes n ++ (t ++ rest))) refl (omega arith),
        ◌>>=◌,
      )
      (sent_bytes_lem all (request_head n ++ t) rest (sym (append_assoc (request_head n) t rest))
          (size ∙ sym whole)
        ∙ ap (λ k. done (request_head k ++ t)) (sym len))
