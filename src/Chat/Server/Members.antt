-- ===== src/Chat/Server/Members.antt =====
-- Which clients the pool of the chat server holds (examples/chatserver/pool.cpp, receiver.cpp).
use rioring.Prelude.{
  ℕ, suc, ◌<◌, ◌≡◌, refl, sym, ap, ◌∙◌, Bool, true, false, List, [], ◌∷◌, ◌==◌, if◌then◌else◌,
  Bool-cases, ==→eq, inl, inr, arith,
}
use rioring.SocketObject.{SocketObject}
use rioring.Chat.Server.{Client, Hall, has, erase, add, remove, on_accept, on_close, new_client}

-- What happens to a server: a socket is accepted, or a socket with an object id is closed.
pub data Event : Type 0 where
  joins : SocketObject → Event
  leaves : ℕ → Event

pub run_events : List Event → Hall → Hall
run_events [] h = h
run_events (joins o ∷ es) h = run_events es (on_accept o h).1
run_events (leaves obj_id ∷ es) h = run_events es (on_close obj_id h)

-- Whether the last event of an object is that it joins.
abbrev pub present : ℕ → Bool → List Event → Bool
present k p [] = p
present k p (joins o ∷ es) = present k (if o.base.obj_id == k then true else p) es
present k p (leaves obj_id ∷ es) = present k (if obj_id == k then false else p) es

-- How often a key stands in the map.
abbrev pub count : ℕ → List (ℕ × Client) → ℕ
count k [] = 0
count k ((j, c) ∷ cs) = if j == k then suc (count k cs) else count k cs

abbrev pub one_if : Bool → ℕ
one_if b = if b then 1 else 0

count-has : (k : ℕ) (cs : List (ℕ × Client)) → has k cs ≡ false → count k cs ≡ 0
count-has k [] e = refl
count-has k ((j, c) ∷ cs) e = ground (arith, count-has k cs)

count-erase :
    (k j : ℕ) (cs : List (ℕ × Client)) → count k (erase j cs) ≡ (if j == k then 0 else count k cs)
count-erase k j [] = ground arith
count-erase k j ((i, c) ∷ cs) = ground (arith, count-erase k j cs)

count-held : (k : ℕ) (cs : List (ℕ × Client)) → has k cs ≡ true → 0 < count k cs
count-held k [] e = ground arith
count-held k ((j, c) ∷ cs) e = ground (arith, count-held k cs)

one-held : (p : Bool) (n : ℕ) → n ≡ one_if p → 0 < n → n ≡ 1
one-held true n e h = e
one-held false n e h = absurd (omega (arith, e, h))

count-add :
    (k j : ℕ) (c : Client) (h : Hall) (p : Bool)
    → count k h.clients ≡ one_if p
    → count k (add j c h).clients ≡ one_if (if j == k then true else p)
unfolding add
count-add k j c h p e = elim (Bool-cases (has j h.clients)) [
  | inl held ↦
      rw (held, add)
        (elim (Bool-cases (j == k)) [
          | inl same ↦ rw same (
              one-held p (count k h.clients) e
                (count-held k h.clients (ap (λ i. has i h.clients) (sym (==→eq j k same)) ∙ held)))
          | inr other ↦ rw other e
        ])
  | inr new ↦
      rw (new, add)
        (elim (Bool-cases (j == k)) [
          | inl same ↦ rw same (
              ap suc
                (count-has k h.clients (ap (λ i. has i h.clients) (sym (==→eq j k same)) ∙ new)))
          | inr other ↦ rw other e
        ])
]

count-remove :
    (k j : ℕ) (h : Hall) (p : Bool)
    → count k h.clients ≡ one_if p
    → count k (remove j h).clients ≡ one_if (if j == k then false else p)
unfolding remove
count-remove k j h p e = rw (count-erase k j h.clients) (ground arith)

counted :
    (k : ℕ) (es : List Event) (h : Hall) (p : Bool)
    → count k h.clients ≡ one_if p
    → count k (run_events es h).clients ≡ one_if (present k p es)
unfolding run_events on_accept on_close new_client
counted k [] h p e = e
counted k (joins o ∷ es) h p e =
    counted k es _ _
      (count-add k o.base.obj_id (new_client o.base.obj_id h).0 (new_client o.base.obj_id h).1 p e)
counted k (leaves j ∷ es) h p e = counted k es _ _ (count-remove k j h p e)

-- After any series of sockets that are accepted and closed, a server that starts without clients
-- holds exactly one for each object that was accepted after it was last closed, and none for another.
pub members_lem :
    (k id : ℕ) (es : List Event)
    → count k (run_events es (record { clients = []; name_id = id })).clients
      ≡ one_if (present k false es)
members_lem k id es = counted k es (record { clients = []; name_id = id }) false refl
