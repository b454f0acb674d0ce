-- ===== src/Chat/Server/Stalled.antt =====
-- A request of no bytes at the chat server (examples/chatserver/receiver.cpp).
use rioring.Prelude.{
  ℕ, ◌≡◌, ap, List, ◌∷◌, ◌++◌, drop, take, length, length-replicate, replicate, hang, arith,
}
use rioring.IoBuffer.{IoBuffer}
use rioring.IoBuffer.Valid
use rioring.Chat.Scheme.{array_size, req_chat, scheme_size, msg_of, size_of}
use rioring.Chat.Picking.{rounds}
use rioring.Chat.Picking.Malformed.{rounds-hang, schemed}
use rioring.Sockets.{Sockets}
use rioring.Chat.Server.{Client, Hall, server_receiver}

module _ {ℓ} {W : Type ℓ} (ops : Sockets W) (hall : Hall) (cl : Client) where
  -- The loop of the server does not end, after any number of rounds, on a buffer that starts with a
  -- request that announces no bytes.
  pub server-hang :
      (fuel : ℕ) (rest : List ℕ) (b : IoBuffer) (w : W)
      → Valid.IsValid b
      → Valid.contents b ≡ req_chat ∷ 0 ∷ 0 ∷ rest
      → rounds (server_receiver ops hall cl) fuel (replicate array_size 0) b w ≡ hang
  unfolding server_receiver
  server-hang fuel rest b w ok e =
      let array : schemed b (replicate array_size 0)
          ≡ req_chat ∷ 0 ∷ 0 ∷ drop 3 (replicate array_size 0) =
        ap (λ c. take scheme_size c ++ drop scheme_size (replicate array_size 0)) e in
      rounds-hang (server_receiver ops hall cl) fuel (replicate array_size 0) b w
        (length-replicate {A = ℕ} array_size 0) ok (omega (arith, ap length e)) (ap size_of e)
        (ap msg_of array) (ap (λ p. (server_receiver ops hall cl).handle p w) array)
