-- ===== src/Chat/Talk.antt =====
-- A line of input on its way through the chat: examples/chatclient/main.cpp,
-- examples/chatserver/receiver.cpp, examples/chatserver/client.cpp, and back.
use rioring.Prelude.{
  ℕ, ◌+◌, ◌-◌, ◌%◌, ◌/◌, ◌≤◌, ◌<◌, ◌≡◌, inl, refl, sym, ap, ◌∙◌, List, [], ◌∷◌, ◌++◌, length, drop,
  replicate, length-append, length-replicate, append_assoc, append-nil, drop-nil, drop-replicate,
  drop-behind, take_all, done, ◌>>=◌, arith, done-injective, >>=_done,
}
use rioring.IoBuffer.{IoBuffer}
use rioring.IoBuffer.Valid
use rioring.Chat.Scheme.{
  array_size, resp_chat, response_chat_size, size_of-short_bytes, int_at, int_at-int_bytes,
  int_bytes, is_positive_lem, c_string, IsText, c_string-zeros, c_string-padded, sent_bytes,
}
use rioring.Chat.Picking.{on_receive}
use rioring.Chat.Picking.Series.{IsMessage, laid}
use rioring.Chat.Picking.Series
use rioring.Chat.Client.{compose, compose_lem, response_head}
use rioring.Chat.User.{Line, user_receiver, show, request, request_lem, chat_text}
use rioring.Sockets.{Sockets}
use rioring.Chat.Server.{Client, Hall, chat, server_receiver}
use rioring.Chat.Server.Served.{IsSent, encode}
use rioring.Chat.Server.Served

-- A name that the server gives, and a text that it has room for.
module _ (name msg : List ℕ) (named : IsText name) (short : length name ≤ 19) (text : IsText msg)
    (some_bytes : 0 < length msg) (fits : length msg ≤ 996) where
  field : List ℕ
  field = name ++ replicate (20 - length name) 0

  length-field : length field ≡ 20
  unfolding field
  length-field = omega (
    arith,
    length-append name (replicate (20 - length name) 0),
    length-replicate {A = ℕ} (20 - length name) 0,
  )

  response : List ℕ
  response = response_head name (length msg) ++ msg

  response-eq : response ≡ response_head name (length msg) ++ msg
  unfolding response
  response-eq = refl

  length-response : length response ≡ response_chat_size + length msg
  unfolding response field
  length-response = omega (
    arith,
    length-append (response_head name (length msg)) msg,
    length-append field (int_bytes (length msg)),
    length-field,
  )

  response-IsMessage : IsMessage resp_chat response
  unfolding response field
  response-IsMessage = record {
    of_type = refl;
    of_size =
        size_of-short_bytes resp_chat (response_chat_size + length msg)
          ((field ++ int_bytes (length msg)) ++ msg) (omega (arith, fits))
        ∙ sym length-response;
    has_scheme = omega (arith, length-response);
    fits = omega (arith, length-response, fits);
  }

  -- The array that the message is read into.
  array : List ℕ
  array = response ++ replicate (997 - length msg) 0

  laid-array : laid (replicate array_size 0) response ≡ array
  unfolding array
  laid-array = ap (◌++◌ response) (
      drop-replicate 0 (length response) array_size (omega (arith, length-response, fits))
      ∙ ap (λ k. replicate k 0) {x = array_size - length response} {y = 997 - length msg}
          (omega (arith, length-response, fits)))

  behind : List ℕ
  behind = int_bytes (length msg) ++ (msg ++ replicate (997 - length msg) 0)

  array-shape :
      array
      ≡ resp_chat
        ∷ (response_chat_size + length msg) % 256
        ∷ (response_chat_size + length msg) / 256 % 256
        ∷ (field ++ behind)
  unfolding array response field behind
  array-shape =
      ap
        (λ x.
          resp_chat
          ∷ (response_chat_size + length msg) % 256
          ∷ (response_chat_size + length msg) / 256 % 256
          ∷ x)
        (append_assoc (field ++ int_bytes (length msg)) msg (replicate (997 - length msg) 0)
          ∙ append_assoc field (int_bytes (length msg)) (msg ++ replicate (997 - length msg) 0))

  name_read : c_string (drop 3 array) ≡ done name
  unfolding field
  name_read =
      ap (λ x. c_string (drop 3 x)) array-shape
      ∙ (ap c_string (append_assoc name (replicate (20 - length name) 0) behind)
          ∙ c_string-padded name (20 - length name) behind named (omega (arith, short)))

  count_read : int_at array 23 ≡ length msg
  unfolding behind
  count_read =
      ap (λ x. int_at x 23) array-shape
      ∙ int_at-int_bytes
          (resp_chat
            ∷ (response_chat_size + length msg) % 256
            ∷ (response_chat_size + length msg) / 256 % 256
            ∷ field)
          (length msg) 23 (msg ++ replicate (997 - length msg) 0) (omega (arith, length-field))
          (omega (arith, fits))

  text_read : c_string (drop 27 array) ≡ done msg
  unfolding behind
  text_read =
      ap (λ x. c_string (drop 27 x)) array-shape
      ∙ (ap c_string (drop-behind 24 4 field behind (omega (arith, length-field)))
          ∙ c_string-zeros msg (997 - length msg) text (omega (arith, fits)))

  handle_shown :
      (lines : List Line)
      → user_receiver.handle array lines ≡ done (lines ++ record { name = name; text = msg } ∷ [])
  unfolding user_receiver show
  handle_shown lines = rw (
    count_read,
    is_positive_lem (length msg) some_bytes (omega (arith, fits)),
    name_read,
    ◌>>=◌,
    text_read,
    ◌>>=◌,
  )

  -- A user's program shows what the server sends.
  shown :
      (b : IoBuffer)
      → Valid.IsValid b
      → Valid.contents b ≡ response
      → (b' : IoBuffer) × (Valid.contents b' ≡ [])
        × ((lines : List Line)
            → on_receive user_receiver b lines
              ≡ done (b', lines ++ record { name = name; text = msg } ∷ []))
  unfolding user_receiver
  shown b ok e =
      let (b', ok', e', r) =
        Series.on_receive_lem user_receiver (response ∷ []) [] b (response-IsMessage, omega arith)
          (inl (omega arith)) ok (e ∙ sym (append-nil response)) in
      (b', e', λ lines. r lines ∙ rw (laid-array, handle_shown lines, ◌>>=◌))

module _ {ℓ} {W : Type ℓ} (ops : Sockets W) (hall : Hall) (cl : Client) (named : IsText cl.name)
    (short : length cl.name ≤ 19) where
  -- A line that a user's program has sent, alone in the server's buffer, is sent to every client.
  pub on_line :
      (input : List ℕ) (b : IoBuffer)
      → IsText input
      → 0 < length input
      → length input ≤ 996
      → Valid.IsValid b
      → Valid.contents b ≡ encode input
      → (b' : IoBuffer) × (Valid.contents b' ≡ [])
        × ((w : W)
            → on_receive (server_receiver ops hall cl) b w ≡ (
                Served.told ops hall cl hall.clients
                  (response_head cl.name (length input) ++ input)
                  w
                >>= λ w'. done (b', w')))
  on_line input b text some_bytes fits ok e =
      let (rc, e', (s, _)) = compose_lem cl.name short input fits in
      let v : IsSent input = record {
        is_text = text;
        some_bytes = some_bytes;
        short = omega (arith, fits);
      } in
      let (b', _, left, run) =
        Served.passed_on_lem ops hall cl (input ∷ []) [] b (v, omega arith) (inl (omega arith)) ok
          (e ∙ sym (append-nil (encode input))) in
      (
        b',
        left,
        λ w.
            run w
            ∙ ap (λ x. x >>= λ w'. done (b', w'))
                (>>=_done (chat ops hall cl (Served.over [] input) w)
                  ∙ (ap (λ x. chat ops hall cl x w)
                        (ap (◌++◌ input) (drop-nil (length input)) ∙ append-nil input)
                      ∙ Served.chat_lem ops hall cl input rc
                          (response_head cl.name (length input) ++ input) w e' s)),
      )

  -- A line of 1 to 996 bytes, none of them 0, that a user's program has sent, alone in the server's
  -- buffer, is sent to every client of the server; and a program that has that alone in its buffer
  -- shows the name of the client and the line as it was typed. Both buffers are empty afterwards.
  pub roundtrip :
      (input sent answer : List ℕ) (b₁ b₂ : IoBuffer) (w : W) (lines : List Line)
      → IsText input
      → 0 < length input
      → length input ≤ 996
      → request input ≡ done sent
      → (compose cl.name input >>= λ rc. sent_bytes rc) ≡ done answer
      → Valid.IsValid b₁
      → Valid.contents b₁ ≡ sent
      → Valid.IsValid b₂
      → Valid.contents b₂ ≡ answer
      → ((b₁' : IoBuffer) × (Valid.contents b₁' ≡ [])
          × (on_receive (server_receiver ops hall cl) b₁ w
              ≡ (Served.told ops hall cl hall.clients answer w >>= λ w'. done (b₁', w'))))
        × ((b₂' : IoBuffer) × (Valid.contents b₂' ≡ [])
            × (on_receive user_receiver b₂ lines
                ≡ done (b₂', lines ++ record { name = cl.name; text = input } ∷ [])))
  roundtrip input sent answer b₁ b₂ w lines text some_bytes fits r c ok₁ e₁ ok₂ e₂ =
      let whole : chat_text input ≡ input = take_all _ input (omega (arith, fits)) in
      let is_sent : sent ≡ encode input =
        done-injective (sym r ∙ request_lem input) ∙ ap encode whole in
      let (rc, e, (s, _)) = compose_lem cl.name short input fits in
      let reply : answer ≡ response_head cl.name (length input) ++ input =
        done-injective (sym c ∙ (ap (λ x. x >>= λ y. sent_bytes y) e ∙ s)) in
      let (b₁', left, run) = on_line input b₁ text some_bytes fits ok₁ (e₁ ∙ is_sent) in
      (
        (
          b₁',
          left,
          run w
              ∙ ap (λ x. Served.told ops hall cl hall.clients x w >>= λ w'. done (b₁', w'))
                  (sym reply),
        ),
        (let (b₂', left', run') =
              shown cl.name input named short text some_bytes fits b₂ ok₂
                (e₂ ∙ (reply ∙ sym (response-eq cl.name input named short text some_bytes fits))) in
            (b₂', left', run' lines)),
      )
