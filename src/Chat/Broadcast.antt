-- ===== src/Chat/Broadcast.antt =====
-- The pool of the chat server on the sockets of the library: examples/chatserver/receiver.cpp and
-- pool.cpp, over src/tcp_socket.cpp and src/socket_object.cpp.
use rioring.Prelude.{
  ℕ, ◌≤◌, ◌<◌, ◌≡◌, refl, ap, ◌∙◌, true, List, [], ◌∷◌, ◌++◌, length, length-append, All, contains,
  Distinct, Pointwise, done, ◌>>=◌, Returns, arith,
}
use rioring.Memory.{Allocator, IsAllocator}
use rioring.IoBuffer.{IoBuffer}
use rioring.IoBuffer.Valid
use rioring.IoDoubleBuffer.Valid.{HasRooms}
use rioring.SocketObject.{SocketObject, graceful}
use rioring.IoService.{Uring}
use rioring.Session.Requests.{IsUring}
use rioring.Sockets.{World, tcp_sockets}
use rioring.Sockets.Calls.{number_of, numbers, IsInOrder}
use rioring.Sockets.Series.{each_of, Each, each_lem}
use rioring.Sockets.Methods.{is_open, Queued, Left, shutdowns_of, send-IsMethod, close-IsMethod}
use rioring.Chat.Scheme.{IsText}
use rioring.Chat.Picking.{on_receive}
use rioring.Chat.Client.{response_head}
use rioring.Chat.Server.{Client, Hall, leave_all, server_receiver}
use rioring.Chat.Server.Served.{encode, told}
use rioring.Chat.Talk.{on_line}

-- The sockets of the clients of a pool.
abbrev pub sockets_of : List (ℕ × Client) → List ℕ
sockets_of [] = []
sockets_of ((k, c) ∷ cs) = c.socket ∷ sockets_of cs

-- The clients of a pool have sockets of the program, each its own.
pub record IsPool (h : Hall) (w : World) : Type 0 where
  pub own : Distinct (sockets_of h.clients)
  pub known : All (λ k. contains k (numbers w.sockets) ≡ true) (sockets_of h.clients)

nothing_needed :
    (ks : List ℕ) (os : List SocketObject)
    → All (λ o. contains (number_of o) ks ≡ true → Unit {0}) os
nothing_needed ks [] = tt
nothing_needed ks (o ∷ os) = (λ i. tt, nothing_needed ks os)

module _ (u : Uring) (f : IsUring u) (a : Allocator) (m : IsAllocator a) where
  told_each :
      (h : Hall) (cl : Client) (cs : List (ℕ × Client)) (bytes : List ℕ) (w : World)
      → (some_bytes : 0 < length bytes)
      → told (tcp_sockets u a) h cl cs bytes w
        ≡ each_of _ _ _ (send-IsMethod u f a m bytes some_bytes) (sockets_of cs) w
  unfolding tcp_sockets
  told_each h cl [] bytes w some_bytes = refl
  told_each h cl ((k, c) ∷ cs) bytes w some_bytes =
      ap (◌>>=◌ ((tcp_sockets u a).send c.socket bytes w))
        (λ i w'. told_each h cl cs bytes w' some_bytes i)

  -- A line of 1 to 996 bytes, none of them 0, that a client says whose name has at most 19, alone in
  -- the buffer of its socket, where each open socket has room for the answer: the server takes it, and
  -- each client whose socket is open has the message with it behind all that waits to be sent to it,
  -- once; a client whose socket is not has what it had. No other socket of the program changes, and
  -- nothing is asked of the kernel for one.
  pub said_lem :
      (h : Hall) (cl : Client) (input : List ℕ) (b : IoBuffer) (w : World)
      → IsText cl.name
      → length cl.name ≤ 19
      → IsText input
      → 0 < length input
      → length input ≤ 996
      → Valid.IsValid b
      → Valid.contents b ≡ encode input
      → IsPool h w
      → IsInOrder w
      → All
          (λ o.
            contains (number_of o) (sockets_of h.clients) ≡ true
            → is_open o ≡ true
            → HasRooms o.send_buffer (length (response_head cl.name (length input) ++ input)))
          w.sockets
      → Returns (on_receive (server_receiver (tcp_sockets u a) h cl) b w) (λ r.
        (Valid.contents r.0 ≡ [])
        × IsInOrder r.1
        × Pointwise
            (Each
              (λ s s'. Queued (response_head cl.name (length input) ++ input) s.sock s'.sock)
              (sockets_of h.clients)
              w
              r.1)
            w.sockets
            r.1.sockets)
  said_lem h cl input b w named short text some_bytes fits ok e pool v rooms =
      let answer = response_head cl.name (length input) ++ input in
      let long : 0 < length answer =
        omega (arith, some_bytes, length-append (response_head cl.name (length input)) input) in
      let (b', left, run) =
        on_line (tcp_sockets u a) h cl named short input b text some_bytes fits ok e in
      let (w', e', q) =
        each_lem _ _ _ (send-IsMethod u f a m answer long) (sockets_of h.clients) w v pool.own
          pool.known rooms in
      (
        (b', w'),
        run w ∙ ap (λ x. x >>= λ w'. done (b', w')) (told_each h cl h.clients answer w long ∙ e'),
        (left, q.0, q.1),
      )

  left_each :
      (cs : List (ℕ × Client)) (w : World)
      → leave_all (tcp_sockets u a) cs w ≡ each_of _ _ _ (close-IsMethod u f) (sockets_of cs) w
  unfolding leave_all tcp_sockets
  left_each [] w = refl
  left_each ((k, c) ∷ cs) w =
      ap (◌>>=◌ ((tcp_sockets u a).close graceful c.socket w)) (λ i w'. left_each cs w' i)

  -- `leave_all` closes the socket of each client with grace and once: the bytes that wait for it stay,
  -- and its shutdown is requested if there are none and remembered otherwise. No other socket of the
  -- program changes, and nothing is asked of the kernel for one.
  pub leave_all_lem :
      (h : Hall) (w : World)
      → IsPool h w
      → IsInOrder w
      → Returns (leave_all (tcp_sockets u a) h.clients w) (λ w'.
        IsInOrder w'
        × Pointwise
            (Each
              (λ s s'. Left s.sock s'.sock (shutdowns_of s) (shutdowns_of s'))
              (sockets_of h.clients)
              w
              w')
            w.sockets
            w'.sockets)
  leave_all_lem h w pool v =
      let (w', e, q) =
        each_lem _ _ _ (close-IsMethod u f) (sockets_of h.clients) w v pool.own pool.known
          (nothing_needed (sockets_of h.clients) w.sockets) in
      (w', left_each h.clients w ∙ e, q)
