-- ===== src/IoDoubleBuffer/Push.antt =====
-- io_double_buffer::push (src/io_double_buffer.cpp), by its four branches.
use rioring.Prelude.{
  ℕ, ◌+◌, ◌≤◌, ◌<◌, ◌≡◌, ◌⊎◌, inl, inr, refl, ap, ap₂, sym, ◌∙◌, List, [], ◌++◌, append_assoc,
  append-nil, length, take, max, ◌>>=◌, Returns, arith, Bool-cases, ltb, ◌==◌, add_size,
  add_size_lem, mul_size, mul_size_two, take-append_length, take-take, ltb→le, if◌then◌else◌, ==→eq,
  ==→ne,
}
use rioring.Memory.{address_of, Allocator, IsAllocator}
use rioring.IoBuffer
use rioring.IoBuffer.{IoBuffer}
use rioring.IoBuffer.Valid
use rioring.IoBuffer.Growth.{HasRoom}
use rioring.IoBuffer.Push.{push-Pushed}
use rioring.IoDoubleBuffer.{IoDoubleBuffer, push_main, push_sub, opened_sub, push, size}
use rioring.IoDoubleBuffer.Valid.{IsReady, HasRooms, contents, IsFront}

-- The first buffer of `d` is in `d'` at the same address, with the same bytes at its front.
abbrev pub Keeps : IoDoubleBuffer → IoDoubleBuffer → Type 0
Keeps d d' =
    (address_of d'.main_buffer.raw_buffer ≡ address_of d.main_buffer.raw_buffer)
    × (size d ≤ size d')
    × (take (size d) (Valid.contents d'.main_buffer) ≡ Valid.contents d.main_buffer)

-- What `push` changes.
pub record Queued (d : IoDoubleBuffer) (bytes : List ℕ) (d' : IoDoubleBuffer) : Type 0 where
  pub ready : IsReady d'
  pub appended : contents d' ≡ contents d ++ bytes
  pub front : IsFront d'
  -- What is being sent stays in place; an empty buffer takes the bytes where they can be sent.
  pub place : ((0 < size d) × Keeps d d') ⊎ ((contents d ≡ []) × (size d' ≡ length bytes))

append_before : (x y z w : List ℕ) → x ≡ w ++ z → y ≡ [] → x ++ y ≡ (w ++ y) ++ z
append_before x y z w e n = rw (n, e, append-nil (w ++ z), append-nil w)

take_front : (n : ℕ) (xs ys : List ℕ) → n ≡ length xs → take n (xs ++ ys) ≡ xs
take_front n xs ys e = rw e (take-append_length xs ys)

module _ (a : Allocator) (m : IsAllocator a) (d : IoDoubleBuffer) (bytes : List ℕ) (v : IsReady d)
    (fr : IsFront d) (room : HasRooms d (length bytes)) where
  main_branch :
      d.sub_buffer.buffer_offset ≡ 0
      → (size d ≡ 0)
        ⊎ ((0 < size d) × (d.main_buffer.buffer_offset + length bytes ≤ d.main_buffer.buffer_size))
      → Returns (push_main a d bytes) (Queued d bytes)
  unfolding push_main
  main_branch e fits =
      let (b, f, w) =
        push-Pushed a m d.main_buffer bytes v.main_valid room.main_room (inr v.able) in
      let none_behind = Valid.contents-empty d.sub_buffer e in
      (
        record d { main_buffer = b },
        rw (f, ◌>>=◌),
        record {
          ready = record {
            main_valid = w.valid;
            sub_valid = v.sub_valid;
            able = omega (arith, w.step, v.able);
          };
          appended =
              append_before (Valid.contents b) (Valid.contents d.sub_buffer) bytes
                (Valid.contents d.main_buffer) w.appended none_behind;
          front = inr e;
          place = elim fits [
            | inl all_sent ↦ inr (
              ap₂ ◌++◌ (Valid.contents-empty d.main_buffer all_sent) none_behind,
              omega (arith, w.longer, all_sent),
            )
            | inr (h, fit) ↦ inl (
              h,
              (
                (elim w.place [
                  | inl (here, _) ↦ here
                  | inr (over, _, _) ↦ absurd (omega (arith, over, fit))
                ]),
                omega (arith, w.longer),
                ap (take (size d)) w.appended
                    ∙ take_front (size d) (Valid.contents d.main_buffer) bytes
                        (sym (Valid.length-contents d.main_buffer v.main_valid)),
              ),
            )
          ];
        },
      )

  sub_branch :
      (sub : IoBuffer)
      → Valid.IsValid sub
      → Valid.contents sub ≡ Valid.contents d.sub_buffer
      → HasRoom sub (length bytes)
      → 0 < sub.block_size
      → 0 < size d
      → Returns (push_sub a d sub bytes) (Queued d bytes)
  unfolding push_sub
  sub_branch sub sv same sroom able busy =
      let (b, f, w) = push-Pushed a m sub bytes sv sroom (inr able) in
      (
        record d { sub_buffer = b },
        rw (f, ◌>>=◌),
        record {
          ready = record { main_valid = v.main_valid; sub_valid = w.valid; able = v.able };
          appended =
              ap (◌++◌ (Valid.contents d.main_buffer)) (w.appended ∙ ap (λ c. c ++ bytes) same)
              ∙ sym
                  (append_assoc (Valid.contents d.main_buffer) (Valid.contents d.sub_buffer) bytes);
          front = inl busy;
          place = inl (busy, (refl, omega arith, take-take (size d) (size d) _ (omega arith)));
        },
      )

  opened_branch :
      d.sub_buffer.buffer_offset ≡ 0
      → 0 < size d
      → Returns (push_sub a d (opened_sub a d (length bytes)) bytes) (Queued d bytes)
  unfolding opened_sub IoBuffer.assign
  opened_branch e h = elim (Bool-cases (IoBuffer.capacity d.sub_buffer == 0)) [
    | inl unused ↦
        let n = length bytes in
        let (sv, sc) =
          Valid.assign-IsValid a d.sub_buffer (max (mul_size n 2) d.main_buffer.buffer_size) m in
        rw (unused, opened_sub)
          (sub_branch _ sv (sc ∙ sym (Valid.contents-empty d.sub_buffer e))
            (omega (arith, room.fresh_room, mul_size_two n (omega (arith, room.fresh_room))))
            (omega (arith, v.main_valid.within, h)) h)
    | inr used ↦
        rw (used, opened_sub)
          (sub_branch d.sub_buffer v.sub_valid refl room.sub_room
            (omega (arith, v.sub_valid.steps, ==→ne _ _ used)) h)
  ]

  push_while_sending :
      d.sub_buffer.buffer_offset ≡ 0
      → 0 < size d
      → Returns
          (if ltb (IoBuffer.capacity d.main_buffer) (d.main_buffer.buffer_offset + length bytes)
            then push_sub a d (opened_sub a d (length bytes)) bytes
            else push_main a d bytes)
          (Queued d bytes)
  push_while_sending e h =
      elim (Bool-cases
        (ltb (IoBuffer.capacity d.main_buffer) (d.main_buffer.buffer_offset + length bytes))) [
          | inl full ↦ rw full (opened_branch e h)
          | inr fits ↦ rw fits (main_branch e (inr (h, ltb→le _ _ fits)))
        ]

  push_behind_none :
      d.sub_buffer.buffer_offset ≡ 0
      → Returns
          (if IoBuffer.empty d.main_buffer
            then push_main a d bytes
            else if ltb
                (IoBuffer.capacity d.main_buffer)
                (add_size d.main_buffer.buffer_offset (length bytes))
            then push_sub a d (opened_sub a d (length bytes)) bytes
            else push_main a d bytes)
          (Queued d bytes)
  push_behind_none e = elim (Bool-cases (IoBuffer.empty d.main_buffer)) [
    | inl all_sent ↦ rw all_sent (main_branch e (inl (==→eq _ _ all_sent)))
    | inr sending ↦
        rw
          (
            sending,
            add_size_lem d.main_buffer.buffer_offset (length bytes) (omega (arith, room.main_room)),
          )
          (push_while_sending e (omega (arith, ==→ne _ _ sending)))
  ]

  -- On a buffer that has been given its block and whose waiting bytes start in its first part,
  -- `push` returns; the bytes go behind all that wait; and if something is being sent, the first
  -- part stays at its address with the same bytes at its front, while an empty buffer takes the
  -- new bytes into its first part.
  pub push-Queued : Returns (push a d bytes) (Queued d bytes)
  unfolding push
  push-Queued = elim (Bool-cases (IoBuffer.empty d.sub_buffer)) [
    | inr waiting ↦
        rw (waiting, push)
          (sub_branch d.sub_buffer v.sub_valid refl room.sub_room
            (omega (arith, v.sub_valid.steps, ==→ne _ _ waiting, v.sub_valid.within))
            (omega (arith, fr, ==→ne _ _ waiting)))
    | inl none_waits ↦ rw (none_waits, push) (push_behind_none (==→eq _ _ none_waits))
  ]
