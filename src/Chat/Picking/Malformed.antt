-- ===== src/Chat/Picking/Malformed.antt =====
-- What the loop of the chat example does with a size that no message has.
use rioring.Prelude.{
  ℕ, zero, suc, ◌≤◌, ◌<◌, ◌≡◌, refl, ap, ap₂, ◌∙◌, List, ◌++◌, length, take, drop, replicate,
  length-append, length-take, length-drop, length-replicate, ==_self, done, fault, hang, ◌>>=◌,
  arith,
}
use rioring.ByteQueue.{peek_enough, remove_enough}
use rioring.IoBuffer.{IoBuffer}
use rioring.IoBuffer.Valid
use rioring.Chat.Scheme.{scheme_size, array_size, msg_of, size_of, overwrite_beyond}
use rioring.Chat.Picking.{
  read_into, again, Receiver, round_with, take_message, round, rounds, on_receive,
}
use rioring.Chat.Picking.Series.{round_read, read_into-some, size_of-scheme, drop-scheme}

read_into-fault :
    (picked : List ℕ) (b : IoBuffer) (n : ℕ)
    → Valid.IsValid b
    → n ≤ length (Valid.contents b)
    → length picked < n
    → read_into picked b n ≡ fault
unfolding read_into
read_into-fault picked b n v h le = rw (
  Valid.read_lem b n v,
  peek_enough n (Valid.contents b) h,
  ◌>>=◌,
  overwrite_beyond (take n (Valid.contents b)) picked
      (omega (arith, length-take n (Valid.contents b))),
  ◌>>=◌,
)

-- The array after the scheme has been read.
abbrev pub schemed : IoBuffer → List ℕ → List ℕ
schemed b picked = take scheme_size (Valid.contents b) ++ drop scheme_size picked

length-schemed :
    (b : IoBuffer) (picked : List ℕ)
    → scheme_size ≤ length (Valid.contents b)
    → length picked ≡ array_size
    → length (schemed b picked) ≡ array_size
length-schemed b picked h whole = omega (
  arith,
  length-append (take scheme_size (Valid.contents b)) (drop scheme_size picked),
  length-take scheme_size (Valid.contents b),
  length-drop scheme_size picked,
)

module _ {ℓ} {W : Type ℓ} (v : Receiver W) where
  -- A message that announces more bytes than the array has is copied past the end of the array as
  -- soon as the buffer holds so many bytes, whatever its type.
  pub on_receive-fault :
      (b : IoBuffer) (w : W)
      → Valid.IsValid b
      → array_size < size_of (Valid.contents b)
      → size_of (Valid.contents b) ≤ length (Valid.contents b)
      → on_receive v b w ≡ fault
  unfolding on_receive rounds
  on_receive-fault b w ok large held =
      let picked : List ℕ = replicate array_size 0 in
      let whole : length picked ≡ array_size = length-replicate {A = ℕ} array_size 0 in
      let long : scheme_size ≤ length (Valid.contents b) = omega (arith, large, held) in
      let r : round v picked b w ≡ fault =
        round_read v picked whole b ok (size_of (Valid.contents b)) w long refl
        ∙ ap (λ x. x >>= λ y. round_with v y b w)
            (read_into-fault (schemed b picked) b (size_of (Valid.contents b)) ok held
              (omega (arith, length-schemed b picked long whole, large))) in
      rw (r, ◌>>=◌)

  -- A round on a message of no bytes takes nothing out of the buffer.
  round_empty :
      (picked : List ℕ) (b : IoBuffer)
      → length picked ≡ array_size
      → Valid.IsValid b
      → scheme_size ≤ length (Valid.contents b)
      → size_of (Valid.contents b) ≡ 0
      → msg_of (schemed b picked) ≡ v.expected
      → (b' : IoBuffer) × Valid.IsValid b'
        × (Valid.contents b' ≡ Valid.contents b)
        × ((w : W)
            → round v picked b w
              ≡ (v.handle (schemed b picked) w >>= λ w'. done (again (schemed b picked) b' w')))
  unfolding take_message round_with
  round_empty picked b whole ok long none_announced typ =
      let p = schemed b picked in
      let (b', e', (ok', same, _, _, _)) = Valid.pop-Popped b 0 ok in
      let size : size_of p ≡ 0 =
        size_of-scheme (Valid.contents b) (drop scheme_size picked) long ∙ none_announced in
      (
        b',
        ok',
        same ∙ remove_enough 0 (Valid.contents b) (omega arith),
        λ w.
            round_read v picked whole b ok 0 w long none_announced
            ∙ (ap (λ x. x >>= λ y. round_with v y b w)
                  (read_into-some p b 0 ok (omega arith) (omega arith))
                ∙ rw (size, e', ◌>>=◌, typ, ==_self v.expected)),
      )

  -- If the handler changes nothing, such a message is handled for ever.
  pub rounds-hang :
      (fuel : ℕ) (picked : List ℕ) (b : IoBuffer) (w : W)
      → length picked ≡ array_size
      → Valid.IsValid b
      → scheme_size ≤ length (Valid.contents b)
      → size_of (Valid.contents b) ≡ 0
      → msg_of (schemed b picked) ≡ v.expected
      → v.handle (schemed b picked) w ≡ done w
      → rounds v fuel picked b w ≡ hang
  unfolding rounds
  rounds-hang zero picked b w whole ok long none_announced typ quiet = refl
  rounds-hang (suc fuel) picked b w whole ok long none_announced typ quiet =
      let p = schemed b picked in
      let (b', ok', same, r) = round_empty picked b whole ok long none_announced typ in
      let same_array : schemed b' p ≡ p =
        ap₂ (λ c x. take scheme_size c ++ x) same
          (drop-scheme (Valid.contents b) picked scheme_size long (omega (arith, whole))
            (omega arith)) in
      rw (r w, quiet, ◌>>=◌)
        (rounds-hang fuel p b' w (length-schemed b picked long whole) ok'
          (omega (arith, ap length same, long)) (ap size_of same ∙ none_announced)
          (ap msg_of same_array ∙ typ) (ap (λ x. v.handle x w) same_array ∙ quiet))
