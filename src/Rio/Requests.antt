-- ===== src/Rio/Requests.antt =====
-- What submitting a request adds on Windows (src/io_service.cpp), in the terms of the requests of the
-- other platform.
use rioring.Prelude.{
  ℕ, ◌≡◌, refl, ap, ◌∙◌, List, [], ◌∷◌, ◌++◌, map, append-nil, some, Option-cases, inl, inr,
}
use mathlib.Core.List.{map-append}
use rioring.IoContext.{IoContext, IoType, ContextType, tcp_context, udp_context, heap}
use rioring.IoService.{Submission, unprepared}
use rioring.SimplePool
use rioring.Rio.{
  RioBuf, RioContext, RioService, RioTable, Request, Call, rio_send, rio_send_ex, rio_receive,
  rio_receive_ex, submit_read, new_buf, submit, submit_as, submit_write, submit_plain, submit_ex,
  allocate_address_context, registered_address, register_buffer,
}
use rioring.Session.Requests.{outstanding, outstanding-append, outstanding-split}

-- A request as `Session.Requests` counts requests: its type, its object and its length.
abbrev pub view : Request → Submission
view r = record {
  ring = 0;
  sqe = unprepared;
  ctx = record {
    ident = r.ctx.buf.ident;
    io_type = r.ctx.io_type;
    ctype = r.ctx.ctype;
    iov_base = heap r.ctx.buf.buffer_id;
    iov_len = r.ctx.buf.length;
    handler = r.ctx.handler;
    msg_iovlen = 0;
    msg_namelen = 0;
    addr = r.ctx.addr;
  };
}

abbrev pub writes : ℕ → List Request → List IoContext
writes obj rs = outstanding IoType.write obj (map view rs)

-- What submitting leaves of a context, and what it adds.
pub record Added (ctx : RioContext) (s s' : RioService) : Type 0 where
  pub request : Request
  pub same_buf : request.ctx.buf ≡ ctx.buf
  pub same_type : request.ctx.io_type ≡ ctx.io_type
  pub same_handler : request.ctx.handler ≡ ctx.handler
  pub same_queue : request.ctx.rq ≡ ctx.rq
  pub added : s'.submitted ≡ s.submitted ++ request ∷ []
  pub same_array : s'.io_array ≡ s.io_array

module _ (rio : RioTable) where
  bound_lem :
      (ctx : RioContext) (s : RioService)
      → let r = registered_address rio ctx s in
        (r.0.buf ≡ ctx.buf)
        × (r.0.io_type ≡ ctx.io_type)
        × (r.0.handler ≡ ctx.handler)
        × (r.0.rq ≡ ctx.rq)
        × (r.1.submitted ≡ s.submitted)
        × (r.1.io_array ≡ s.io_array)
  unfolding registered_address register_buffer
  bound_lem ctx s = elim (Option-cases ctx.addr_buffer_id) [
    | inl e ↦ rw e (refl, refl, refl, refl, refl, refl)
    | inr (id, e) ↦ rw e (refl, refl, refl, refl, refl, refl)
  ]

  submit_plain_lem :
      (call : Call) (ctx : RioContext) (s : RioService) → Added ctx s (submit_plain rio call ctx s)
  unfolding submit_plain
  submit_plain_lem call ctx s = record {
    request = record { call = call; ctx = ctx };
    same_buf = refl;
    same_type = refl;
    same_handler = refl;
    same_queue = refl;
    added = refl;
    same_array = refl;
  }

  submit_ex_lem :
      (call : RioBuf → Call) (ctx : RioContext) (s : RioService)
      → Added ctx s (submit_ex rio call ctx s)
  unfolding submit_plain submit_ex allocate_address_context
  submit_ex_lem call ctx s =
      let (buf, pool) = SimplePool.pop new_buf s.address_pool in
      let (bound, ctx', s') = allocate_address_context rio ctx s in
      let request : Request = record { call = call bound; ctx = ctx' } in
      let (b, t, h, rq, q, same) = bound_lem ctx (record s { address_pool = pool }) in
      record {
        request = request;
        same_buf = b;
        same_type = t;
        same_handler = h;
        same_queue = rq;
        added = ap (λ l. l ++ request ∷ []) q;
        same_array = same;
      }

  submit_write_lem :
      (c : ContextType) (ctx : RioContext) (s : RioService) → Added ctx s (submit_write rio c ctx s)
  unfolding submit_write
  submit_write_lem tcp_context ctx s = submit_plain_lem rio_send ctx s
  submit_write_lem udp_context ctx s = submit_ex_lem rio_send_ex ctx s

  submit_read_lem :
      (c : ContextType) (ctx : RioContext) (s : RioService) → Added ctx s (submit_read rio c ctx s)
  unfolding submit_read
  submit_read_lem tcp_context ctx s = submit_plain_lem rio_receive ctx s
  submit_read_lem udp_context ctx s = submit_ex_lem rio_receive_ex ctx s

  submit_as_lem :
      (t : IoType) (ctx : RioContext) (s : RioService) → Added ctx s (submit_as rio t ctx s)
  unfolding submit_as
  submit_as_lem IoType.unknown ctx s = submit_write_lem ctx.ctype ctx s
  submit_as_lem IoType.accept ctx s = submit_write_lem ctx.ctype ctx s
  submit_as_lem IoType.read ctx s = submit_read_lem ctx.ctype ctx s
  submit_as_lem IoType.write ctx s = submit_write_lem ctx.ctype ctx s
  submit_as_lem IoType.shutdown ctx s = submit_write_lem ctx.ctype ctx s

  -- Whatever its type, submitting adds one request, with the buffer, the type and the handler that
  -- the context has.
  pub submit_lem : (ctx : RioContext) (s : RioService) → Added ctx s (submit rio ctx s)
  unfolding submit
  submit_lem ctx s = submit_as_lem ctx.io_type ctx s

pub writes-append :
    (obj : ℕ) (xs ys : List Request) → writes obj (xs ++ ys) ≡ writes obj xs ++ writes obj ys
writes-append obj xs ys =
    ap (outstanding IoType.write obj) (map-append view xs ys)
    ∙ outstanding-append IoType.write obj (map view xs) (map view ys)

-- One write among the others.
pub writes-split :
    (obj : ℕ) (before after : List Request) (r : Request)
    → r.ctx.io_type ≡ IoType.write
    → r.ctx.handler ≡ some obj
    → writes obj (before ++ r ∷ after) ≡ writes obj before ++ (view r).ctx ∷ writes obj after
writes-split obj before after r t h =
    ap (outstanding IoType.write obj) (map-append view before (r ∷ after))
    ∙ outstanding-split IoType.write obj (map view before) (map view after) (view r) t h

-- A request of another type is no write.
pub writes-other :
    (obj : ℕ) (rs : List Request) (r : Request)
    → r.ctx.io_type ≡ IoType.read
    → writes obj (rs ++ r ∷ []) ≡ writes obj rs
writes-other obj rs r t =
    writes-append obj rs (r ∷ [])
    ∙ (ap (◌++◌ (writes obj rs)) none_added ∙ append-nil (writes obj rs))
  where
    none_added : writes obj (r ∷ []) ≡ []
    none_added = rw t
