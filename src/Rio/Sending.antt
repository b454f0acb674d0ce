-- ===== src/Rio/Sending.antt =====
-- The sending half of a TCP socket on Windows (src/tcp_socket.cpp and src/socket_object.cpp under
-- WIN32): what is requested is a copy of the front of what waits.
use rioring.Prelude.{
  ℕ, ◌≤◌, ◌<◌, ◌≡◌, ◌⊎◌, min, inl, inr, refl, sym, ap, subst, ◌∙◌, false, Bool-cases, List, [], ◌∷◌,
  ◌++◌, length, take, drop, take-append_le, take-append_length, take-take, length-take, Option,
  some, done, ◌>>=◌, Returns, arith,
}
use rioring.Memory.{Allocator, IsAllocator, bytes_of}
use rioring.Memory.Copy.{read_bytes_within}
use rioring.IoBuffer.Valid
use rioring.IoDoubleBuffer
use rioring.IoDoubleBuffer.{IoDoubleBuffer}
use rioring.IoDoubleBuffer.Valid.{
  IsReady, IsFront, HasRooms, contents, contents-nil, length-contents, empty→size, busy→size,
}
use rioring.IoDoubleBuffer.Push.{push-Queued}
use rioring.IoContext.{IoContext, IoType, Sockaddr, data_buffer_size}
use rioring.Rio.{RioBuf, RioTable, allocate_context, submit}
use rioring.Rio.Requests.{view, writes, writes-split, submit_lem}
use rioring.Rio.Socket.{
  RioSession, with_object, filled, destination, submit_sending, push_send, queue_and_send,
}

abbrev pub buffer_of : RioSession → IoDoubleBuffer
buffer_of s = s.sock.object.send_buffer

abbrev pub pending : RioSession → List IoContext
pending s = writes s.sock.object.base.obj_id s.service.submitted

-- A request sends bytes from the front of what waits, which have been copied to the array.
abbrev pub Copies : IoContext → RioSession → Type 0
Copies ctx s =
    (0 < ctx.iov_len)
    × (ctx.iov_len ≤ IoDoubleBuffer.size (buffer_of s))
    × (take ctx.iov_len s.sock.send_bind_buffer ≡ take ctx.iov_len (contents (buffer_of s)))

-- Nothing waits and no write is outstanding, or one is, for bytes that wait.
abbrev pub Flight : RioSession → Type 0
Flight s =
    ((contents (buffer_of s) ≡ []) × (pending s ≡ []))
    ⊎ ((ctx : IoContext) × (pending s ≡ ctx ∷ []) × Copies ctx s)

pub record IsSending (s : RioSession) : Type 0 where
  pub unlocked : s.sock.object.lock ≡ false
  pub ready : IsReady (buffer_of s)
  pub front : IsFront (buffer_of s)
  pub flight : Flight s

-- What a call leaves that works under the lock.
pub record Sends (bytes : List ℕ) (s' : RioSession) : Type 0 where
  pub s_ready : IsReady (buffer_of s')
  pub s_front : IsFront (buffer_of s')
  pub s_flight : Flight s'
  pub s_waiting : contents (buffer_of s') ≡ bytes

take_min :
    (d : IoDoubleBuffer) (n : ℕ)
    → IsReady d
    → n ≤ IoDoubleBuffer.size d
    → take n (bytes_of d.main_buffer.raw_buffer) ≡ take n (contents d)
take_min d n v h =
    sym (take-take n d.main_buffer.buffer_offset (bytes_of d.main_buffer.raw_buffer) h)
    ∙ sym (
        take-append_le n (Valid.contents d.main_buffer) (Valid.contents d.sub_buffer)
          (omega (arith, Valid.length-contents d.main_buffer v.main_valid)))

module _ (rio : RioTable) where
  -- A request for what waits: the buffer is as before, and the front of it is copied and sent.
  pub submit_sending_lem :
      (addr : Option Sockaddr) (s : RioSession) (to : Sockaddr)
      → destination s.sock.object.socket_type addr s.sock.object.addr_storage ≡ done to
      → IsReady (buffer_of s)
      → IsFront (buffer_of s)
      → 0 < IoDoubleBuffer.size (buffer_of s)
      → pending s ≡ []
      → Returns (submit_sending rio addr s) (Sends (contents (buffer_of s)))
  unfolding submit_sending allocate_context
  submit_sending_lem addr s to known v fr some_bytes none_out =
      let d = buffer_of s in
      let n = min (IoDoubleBuffer.size d) data_buffer_size in
      let (ctx, service) = filled s IoType.write s.sock.send_buffer_id n (some to) in
      let bytes : List ℕ = take n (bytes_of d.main_buffer.raw_buffer) in
      let len : length bytes ≡ n = omega (
        arith,
        length-take n (bytes_of d.main_buffer.raw_buffer),
        v.main_valid.within,
        v.main_valid.whole,
      ) in
      let q = submit_lem rio ctx service in
      let obj = s.sock.object.base.obj_id in
      (
        record s {
          sock = record s.sock { send_bind_buffer = bytes ++ drop n s.sock.send_bind_buffer };
          service = submit rio ctx service;
        },
        rw (
          known,
          ◌>>=◌,
          read_bytes_within d.main_buffer.raw_buffer 0 n
              (omega (arith, v.main_valid.within, v.main_valid.whole)),
          ◌>>=◌,
        ),
        record {
          s_ready = v;
          s_front = fr;
          s_flight = inr (
            (view q.request).ctx,
            ap (writes obj) q.added
                ∙ (writes-split obj s.service.submitted [] q.request q.same_type q.same_handler
                    ∙ ap (λ l. l ++ (view q.request).ctx ∷ []) none_out),
            subst
                (λ k.
                  (0 < k)
                  × (k ≤ IoDoubleBuffer.size d)
                  × (take k (bytes ++ drop n s.sock.send_bind_buffer) ≡ take k (contents d)))
                (sym (ap (λ (b : RioBuf). b.length) q.same_buf))
                (
                  omega (arith, some_bytes),
                  omega arith,
                  ap (λ k. take k (bytes ++ drop n s.sock.send_bind_buffer)) (sym len)
                      ∙ (take-append_length bytes (drop n s.sock.send_bind_buffer)
                          ∙ take_min d n v (omega arith)),
                ),
          );
          s_waiting = refl;
        },
      )

  module _ (a : Allocator) (m : IsAllocator a) where
    -- What is copied stays the front of what waits when bytes go behind it.
    kept-Flight :
        (s : RioSession) (bytes : List ℕ) (d : IoDoubleBuffer)
        → IsReady (buffer_of s)
        → Flight s
        → 0 < IoDoubleBuffer.size (buffer_of s)
        → IoDoubleBuffer.size (buffer_of s) ≤ IoDoubleBuffer.size d
        → contents d ≡ contents (buffer_of s) ++ bytes
        → Flight (with_object s (record s.sock.object { send_buffer = d }))
    kept-Flight s bytes d v fl size longer e = elim fl [
      | inl (nothing, _) ↦ absurd (omega (arith, size, contents-nil (buffer_of s) v nothing))
      | inr (ctx, one, (some', covered, same)) ↦ inr (
        ctx,
        one,
        (
          some',
          omega (arith, covered, longer),
          same
              ∙ (sym (
                    take-append_le ctx.iov_len (contents (buffer_of s)) bytes
                      (omega (arith, covered, length-contents (buffer_of s) v)))
                  ∙ ap (take ctx.iov_len) (sym e)),
        ),
      )
    ]

    pub queue_lem :
        (s : RioSession) (bytes : List ℕ) (addr : Option Sockaddr) (to : Sockaddr)
        → destination s.sock.object.socket_type addr s.sock.object.addr_storage ≡ done to
        → IsReady (buffer_of s)
        → IsFront (buffer_of s)
        → Flight s
        → HasRooms (buffer_of s) (length bytes)
        → 0 < length bytes
        → Returns (queue_and_send rio a bytes addr s) (Sends (contents (buffer_of s) ++ bytes))
    unfolding queue_and_send push_send
    queue_lem s bytes addr to known v fr fl room some_bytes =
        let (d, e, w) = push-Queued a m (buffer_of s) bytes v fr room in
        let s₁ = with_object s (record s.sock.object { send_buffer = d }) in
        elim (Bool-cases (IoDoubleBuffer.empty (buffer_of s))) [
          | inl idle ↦
              let size : IoDoubleBuffer.size d ≡ length bytes = elim w.place [
                | inl (h, _) ↦ absurd (omega (arith, h, empty→size (buffer_of s) idle))
                | inr (_, n) ↦ n
              ] in
              let none_out : pending s ≡ [] = elim fl [
                | inl (_, p) ↦ p
                | inr (ctx, _, (some', covered, _)) ↦
                    absurd (omega (arith, some', covered, empty→size (buffer_of s) idle))
              ] in
              let (s', e', q) =
                submit_sending_lem addr s₁ to known w.ready w.front
                  (omega (arith, size, some_bytes)) none_out in
              (
                s',
                rw (idle, queue_and_send, e, ◌>>=◌) e',
                record {
                  s_ready = q.s_ready;
                  s_front = q.s_front;
                  s_flight = q.s_flight;
                  s_waiting = q.s_waiting ∙ w.appended;
                },
              )
          | inr busy ↦
              let size = busy→size (buffer_of s) fr busy in
              let longer : IoDoubleBuffer.size (buffer_of s) ≤ IoDoubleBuffer.size d =
                elim w.place [
                  | inl (_, (_, l, _)) ↦ l
                  | inr (nothing, _) ↦
                      absurd (omega (arith, size, contents-nil (buffer_of s) v nothing))
                ] in
              (
                s₁,
                rw (busy, queue_and_send, e, ◌>>=◌),
                record {
                  s_ready = w.ready;
                  s_front = w.front;
                  s_flight = kept-Flight s bytes d v fl size longer w.appended;
                  s_waiting = w.appended;
                },
              )
        ]
