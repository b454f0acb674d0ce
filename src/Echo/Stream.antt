-- ===== src/Echo/Stream.antt =====
-- A connection of the echo server (examples/echoserver/main.cpp) over any series of completed reads
-- and writes.
use rioring.Prelude.{
  ℕ, suc, ◌≤◌, ◌≡◌, refl, sym, ap, ap₂, ◌∙◌, List, ◌∷◌, ◌++◌, append_assoc, length, take,
  take-append-drop, some, done, Returns-at, subst, ◌<◌,
}
use rioring.Memory.{Allocator, IsAllocator}
use rioring.IoBuffer.Valid
use rioring.IoBuffer.Growth.{HasRoom}
use rioring.IoDoubleBuffer.Valid.{HasRooms, contents}
use rioring.IoContext.{IoType}
use rioring.SocketObject.{SocketObject}
use rioring.IoService.{Uring, Submission}
use rioring.Session.{Session}
use rioring.Session.Requests.{IsUring, outstanding, outstanding-without, is_type}
use rioring.Session.Sending.{reads}
use rioring.Session.Shutdowns.{IsPassive}
use rioring.Completion.{pos, complete}
use rioring.Completion.Stream.{
  given_back, memory, memory_covered, completed_write, Wrote, wrote_lem,
}
use rioring.Echo.{echo_user}
use rioring.Echo.Arrival.{IsEcho, filled, Arrived, arrived_lem}

-- A socket with the bytes that came from the peer and those that the kernel has taken back to it.
pub record Connection : Type 0 where
  pub session : Session
  pub received : List ℕ
  pub returned : List ℕ

module _ (u : Uring) (a : Allocator) where
  pub data Step (l : Connection) : Connection → Type 0 where
    -- A read of this socket completes with at least one byte, and there is room for them.
    arrives :
        (before after : List Submission) (e : Submission) (chunk : List ℕ) (n : ℕ) (s' : Session)
        → l.session.service.submitted ≡ before ++ e ∷ after
        → e.ctx.io_type ≡ IoType.read
        → e.ctx.handler ≡ some l.session.sock.obj_id
        → length chunk ≡ suc n
        → suc n ≤ e.ctx.iov_len
        → HasRoom l.session.sock.recv_buffer (suc n)
        → HasRooms l.session.sock.send_buffer (suc n)
        → complete u a
            (echo_user u a)
            e.ctx
            (pos (suc n))
            (given_back (filled l.session chunk) e.ring (before ++ after))
          ≡ done s'
        → Step l (record l { session = s'; received = l.received ++ chunk })
    -- A write of this socket completes with some of its bytes.
    wrote :
        (before after : List Submission) (e : Submission) (n : ℕ) (s' : Session)
        → l.session.service.submitted ≡ before ++ e ∷ after
        → e.ctx.io_type ≡ IoType.write
        → e.ctx.handler ≡ some l.session.sock.obj_id
        → suc n ≤ e.ctx.iov_len
        → complete u a
            (echo_user u a)
            e.ctx
            (pos (suc n))
            (given_back l.session e.ring (before ++ after))
          ≡ done s'
        → Step l (record l {
          session = s';
          returned = l.returned ++ take (suc n) (memory l.session e.ctx.iov_base);
        })

  pub data Reach (l : Connection) : Connection → Type 0 where
    here : Reach l l
    next : {k j : Connection} → Reach l k → Step k j → Reach l j

-- The socket is in order, and the peer has had back, or will have, what it sent.
pub record IsMirror (l : Connection) : Type 0 where
  pub echo : IsEcho l.session
  pub whole : l.returned ++ contents l.session.sock.send_buffer ≡ l.received

Wrote-IsEcho :
    (s s' : Session) (before after : List Submission) (e : Submission) (n : ℕ)
    → IsEcho s
    → s.service.submitted ≡ before ++ e ∷ after
    → e.ctx.io_type ≡ IoType.write
    → Wrote n s (given_back s e.ring (before ++ after)) s'
    → IsEcho s'
Wrote-IsEcho s s' before after e n v es t w =
    let o = w.w_sock in
    let (ctx, one, len) = v.reading in
    let obj = s.sock.obj_id in
    let kept : outstanding IoType.read obj (before ++ after) ≡ reads s = sym (
      ap (outstanding IoType.read obj) es
      ∙ outstanding-without IoType.read obj before after e (ap (λ k. is_type k IoType.read) t)) in
    record {
      sending = w.w_sending;
      receiving = record {
        valid = subst (λ (x : SocketObject). Valid.IsValid x.recv_buffer) (sym o) v.receiving.valid;
        able = subst (λ (x : SocketObject). 0 < x.recv_buffer.block_size) (sym o) v.receiving.able;
        whole = ap (λ (x : SocketObject). length x.recv_bind_buffer) o ∙ v.receiving.whole;
      };
      connected = ap (λ (x : SocketObject). x.connected_flag) o ∙ v.connected;
      open' = ap (λ (x : SocketObject). x.shutdown_gracefully) o ∙ v.open';
      heard = ap (λ (x : SocketObject). x.recv_event) o ∙ v.heard;
      drained = ap (λ (x : SocketObject). Valid.contents x.recv_buffer) o ∙ v.drained;
      reading = (ctx, w.w_reads ∙ (kept ∙ one), len);
    }

module _ (u : Uring) (f : IsUring u) (a : Allocator) (m : IsAllocator a) where
  echo_user-IsPassive : IsPassive (echo_user u a)
  unfolding echo_user
  echo_user-IsPassive = record { quiet = λ s. (s, refl, (refl, refl)) }

  Step-IsMirror : {l k : Connection} → Step u a l k → IsMirror l → IsMirror k
  Step-IsMirror {l} (arrives before after e chunk n s' es t h len le room rooms r) v =
      let w =
        Returns-at (Arrived chunk l.session)
          (arrived_lem u f a m l.session before after e chunk n v.echo es t h len le room rooms)
          r in
      record {
        echo = w.a_echo;
        whole =
            ap (◌++◌ l.returned) w.a_waiting
            ∙ (sym (append_assoc l.returned (contents l.session.sock.send_buffer) chunk)
                ∙ ap (λ x. x ++ chunk) v.whole);
      }
  Step-IsMirror {l} (wrote before after e n s' es t h le r) v =
      let s = l.session in
      let cov = (completed_write s before after e v.echo.sending es t h).0 in
      let w =
        Returns-at (Wrote (suc n) s (given_back s e.ring (before ++ after)))
          (wrote_lem u f a m (echo_user u a) echo_user-IsPassive s before after e n v.echo.sending
            es t h le)
          r in
      record {
        echo = Wrote-IsEcho s s' before after e (suc n) v.echo es t w;
        whole =
            append_assoc l.returned _ _
            ∙ (ap₂ (λ x y. l.returned ++ (x ++ y))
                  (memory_covered s e.ctx (suc n) v.echo.sending.ready cov le) w.w_rest
                ∙ (ap (◌++◌ l.returned) (take-append-drop (suc n) (contents s.sock.send_buffer))
                    ∙ v.whole));
      }

  -- Over any series of reads and writes that complete, with any part of their bytes, a connection of
  -- the echo server keeps its read outstanding and its receive buffer empty, and what the peer has
  -- had back, with what waits behind it, is what the peer has sent: each byte once, in order.
  pub Reach-IsMirror : {l k : Connection} → IsMirror l → Reach u a l k → IsMirror k
  Reach-IsMirror v here = v
  Reach-IsMirror v (next r s) = Step-IsMirror s (Reach-IsMirror v r)
