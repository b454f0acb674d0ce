-- ===== src/Chat/Server/Served.antt =====
-- What the chat server (examples/chatserver/receiver.cpp) passes on of a series of texts.
use rioring.Prelude.{
  ℕ, zero, suc, ◌+◌, ◌-◌, ◌≤◌, ◌<◌, ◌≡◌, refl, sym, ap, ap₂, ◌∙◌, List, [], ◌∷◌, ◌++◌, map, length,
  take, drop, replicate, length-append, length-drop, append_assoc, drop-append, drop-behind,
  drop-replicate, replicate-append, if◌then◌else◌, Outcome, done, ◌>>=◌, arith,
}
use rioring.IoBuffer.{IoBuffer}
use rioring.IoBuffer.Valid
use rioring.Chat.Scheme.{
  array_size, req_chat, request_chat_size, size_of-short_bytes, int_at, int_at-int_bytes, int_bytes,
  is_positive, c_string, IsText, c_string-zeros, is_positive_lem, sent_bytes,
}
use rioring.Chat.Picking.{on_receive}
use rioring.Chat.Picking.Series
use rioring.Chat.Picking.Series.{IsMessage, AreMessages, IsPartial, joined, laid, handled}
use rioring.Chat.User.{request_head}
use rioring.Chat.Client.{compose}
use rioring.Sockets.{Sockets}
use rioring.Chat.Server.{Client, Hall, chat, chat_all, server_receiver}

IsText-append : (s t : List ℕ) → IsText s → IsText t → IsText (s ++ t)
IsText-append [] t h k = k
IsText-append (x ∷ s) t (h, hs) k = (h, IsText-append s t hs k)

IsText-drop : (n : ℕ) (s : List ℕ) → IsText s → IsText (drop n s)
IsText-drop zero s h = h
IsText-drop (suc n) [] h = h
IsText-drop (suc n) (x ∷ s) (h, hs) = IsText-drop n s hs

-- A text that a user sends: up to a thousand bytes, at least one.
pub record IsSent (t : List ℕ) : Type 0 where
  pub is_text : IsText t
  pub some_bytes : 0 < length t
  pub short : length t ≤ 1000

abbrev pub AreSent : List (List ℕ) → Type 0
AreSent [] = 0 ≤ 0
AreSent (t ∷ ts) = IsSent t × AreSent ts

-- The message that carries a text.
abbrev pub encode : List ℕ → List ℕ
encode t = request_head (length t) ++ t

-- A text as it is passed on when `before` was the last: over the front of it.
abbrev pub over : List ℕ → List ℕ → List ℕ
over before t = t ++ drop (length t) before

abbrev pub passed_on : List ℕ → List (List ℕ) → List (List ℕ)
passed_on before [] = []
passed_on before (t ∷ ts) = over before t ∷ passed_on (over before t) ts

pub encode-IsMessage : (t : List ℕ) → IsSent t → IsMessage req_chat (encode t)
encode-IsMessage t v = record {
  of_type = refl;
  of_size =
      size_of-short_bytes req_chat (request_chat_size + length t) (int_bytes (length t) ++ t)
        (omega (arith, v.short))
      ∙ omega arith;
  has_scheme = omega arith;
  fits = omega (arith, v.short);
}

-- An array whose text area holds `before` and zeros.
record Holds (before picked : List ℕ) : Type 0 where
  head : List ℕ
  shape : picked ≡ head ++ (before ++ replicate (1017 - length before) 0)
  of_head : length head ≡ request_chat_size
  is_text : IsText before
  short : length before ≤ 1000

fresh-Holds : Holds [] (replicate array_size 0)
fresh-Holds = record {
  head = replicate 7 0;
  shape = replicate-append 0 array_size 7 1017 (omega arith);
  of_head = omega arith;
  is_text = omega arith;
  short = omega arith;
}

module _ (before picked t : List ℕ) (h : Holds before picked) (v : IsSent t) where
  behind :
      drop (length (encode t)) picked
      ≡ drop (length t) before ++ replicate (1017 - length (over before t)) 0
  behind =
      let n = length t in
      let room = 1017 - length before in
      ap (drop (length (encode t))) h.shape
      ∙ (drop-behind (length (encode t)) n h.head (before ++ replicate room 0)
            (omega (arith, h.of_head))
          ∙ (drop-append n before (replicate room 0)
              ∙ (ap (◌++◌ (drop n before))
                    (drop-replicate 0 (n - length before) room (omega (arith, h.short, v.short)))
                  ∙ ap (λ k. drop n before ++ replicate k 0) {x = room - (n - length before)}
                      {y = 1017 - length (over before t)}
                      (omega (
                        arith,
                        length-append t (drop n before),
                        length-drop n before,
                        h.short,
                        v.short,
                      )))))

  laid-shape :
      laid picked (encode t)
      ≡ request_head (length t) ++ (over before t ++ replicate (1017 - length (over before t)) 0)
  laid-shape =
      ap (◌++◌ (encode t)) behind
      ∙ (append_assoc (request_head (length t)) t _
          ∙ ap (◌++◌ (request_head (length t))) (
              sym (
                append_assoc t (drop (length t) before)
                  (replicate (1017 - length (over before t)) 0))))

  laid-Holds : Holds (over before t) (laid picked (encode t))
  laid-Holds = record {
    head = request_head (length t);
    shape = laid-shape;
    of_head = omega arith;
    is_text =
        IsText-append t (drop (length t) before) v.is_text
          (IsText-drop (length t) before h.is_text);
    short = omega (
      arith,
      length-append t (drop (length t) before),
      length-drop (length t) before,
      h.short,
      v.short,
    );
  }

module _ {ℓ} {W : Type ℓ} (ops : Sockets W) (hall : Hall) (cl : Client) where
  abbrev pub chats : List (List ℕ) → W → Outcome W
  chats [] w = done w
  chats (m ∷ ms) w = chat ops hall cl m w >>= λ w'. chats ms w'

  -- The same bytes go to each client.
  abbrev pub told : List (ℕ × Client) → List ℕ → W → Outcome W
  told [] bytes w = done w
  told ((k, c) ∷ cs) bytes w = ops.send c.socket bytes w >>= λ w'. told cs bytes w'

  chat_all_lem :
      (cs : List (ℕ × Client)) (rc bytes : List ℕ) (w : W)
      → sent_bytes rc ≡ done bytes
      → chat_all ops cs rc w ≡ told cs bytes w
  unfolding chat_all
  chat_all_lem [] rc bytes w e = refl
  chat_all_lem ((k, c) ∷ cs) rc bytes w e =
      rw (e, ◌>>=◌)
        (ap (◌>>=◌ (ops.send c.socket bytes w)) (λ i w'. chat_all_lem cs rc bytes w' e i))

  pub chat_lem :
      (msg rc bytes : List ℕ) (w : W)
      → compose cl.name msg ≡ done rc
      → sent_bytes rc ≡ done bytes
      → chat ops hall cl msg w ≡ told hall.clients bytes w
  unfolding chat
  chat_lem msg rc bytes w c e =
      ap (λ r. r >>= λ x. chat_all ops hall.clients x w) c ∙ chat_all_lem hall.clients rc bytes w e

  handle_lem :
      (before picked t : List ℕ) (w : W)
      → Holds before picked
      → IsSent t
      → (server_receiver ops hall cl).handle (laid picked (encode t)) w
        ≡ chat ops hall cl (over before t) w
  unfolding server_receiver
  handle_lem before picked t w h v =
      let x = laid picked (encode t) in
      let now = over before t in
      let room = 1017 - length now in
      let shape = laid-shape before picked t h v in
      let after = laid-Holds before picked t h v in
      let count : int_at x 3 ≡ length t =
        ap (λ y. int_at y 3) shape
        ∙ int_at-int_bytes (take 3 (encode t)) (length t) 3 (now ++ replicate room 0) refl
            (omega (arith, v.short)) in
      let text : c_string (drop 7 x) ≡ done now =
        ap (λ y. c_string (drop 7 y)) shape
        ∙ c_string-zeros now room after.is_text (omega (arith, after.short)) in
      ap₂ (λ b r. if b then (r >>= λ msg. chat ops hall cl msg w) else done w)
        (ap is_positive count ∙ is_positive_lem (length t) v.some_bytes (omega (arith, v.short)))
        text

  handled_lem :
      (ts : List (List ℕ)) (before picked : List ℕ) (w : W)
      → Holds before picked
      → AreSent ts
      → handled (server_receiver ops hall cl) picked (map encode ts) w
        ≡ chats (passed_on before ts) w
  handled_lem [] before picked w h vs = refl
  handled_lem (t ∷ ts) before picked w h (v, vs) =
      ap₂ (λ r g. r >>= g) (handle_lem before picked t w h v)
        (λ i w'.
          handled_lem ts (over before t) (laid picked (encode t)) w'
            (laid-Holds before picked t h v) vs i)

  map-AreMessages : (ts : List (List ℕ)) → AreSent ts → AreMessages req_chat (map encode ts)
  map-AreMessages [] vs = vs
  map-AreMessages (t ∷ ts) (v, vs) = (encode-IsMessage t v, map-AreMessages ts vs)

  -- Whatever number of whole messages from a user the receive buffer holds, and whatever part of the
  -- next: the server passes on one text for each, in order, and keeps the part. A text is passed on
  -- as it was sent, but for a longer one before it in the buffer, whose end stays behind it.
  pub passed_on_lem :
      (ts : List (List ℕ)) (tail : List ℕ) (b : IoBuffer)
      → AreSent ts
      → IsPartial tail
      → Valid.IsValid b
      → Valid.contents b ≡ joined (map encode ts) tail
      → (b' : IoBuffer) × Valid.IsValid b'
        × (Valid.contents b' ≡ tail)
        × ((w : W)
            → on_receive (server_receiver ops hall cl) b w
              ≡ (chats (passed_on [] ts) w >>= λ w'. done (b', w')))
  unfolding server_receiver
  passed_on_lem ts tail b vs p ok e =
      let (b', ok', e', r) =
        Series.on_receive_lem (server_receiver ops hall cl) (map encode ts) tail b
          (map-AreMessages ts vs) p ok e in
      (
        b',
        ok',
        e',
        λ w.
            r w
            ∙ ap (λ x. x >>= λ w'. done (b', w'))
                (handled_lem ts [] (replicate array_size 0) w fresh-Holds vs),
      )
