-- ===== src/Tests/Buffers.antt =====
-- The buffers (src/io_buffer.cpp, src/io_double_buffer.cpp) at concrete inputs.
use rioring.Prelude.{ℕ, ◌≡◌, inl, inr, refl, List, [], ◌∷◌, none, some, done, Returns, arith}
use rioring.ByteQueue.{Op, write, discard, look, peek, remove}
use rioring.ByteQueue
use rioring.IoBuffer.{push}
use rioring.IoBuffer.Valid.{IsValid, contents}
use rioring.IoBuffer.Growth.{HasRoom}
use rioring.IoBuffer.Push.{Pushed, push-Pushed}
use rioring.IoBuffer.Queue.{run, run_refines}
use rioring.IoDoubleBuffer
use rioring.IoDoubleBuffer.Valid.{HasRooms}
use rioring.IoDoubleBuffer.Push.{Queued, push-Queued}
use rioring.Tests.Fixtures.{
  sending_two-IsReady, heap_of_zeros, heap_of_zeros-IsAllocator, two_waiting, sending_two,
}

two_waiting-IsValid : IsValid two_waiting
two_waiting-IsValid = record { within = omega arith; whole = refl; steps = inr (omega arith) }

abbrev three : List ℕ
three = 1 ∷ 2 ∷ 3 ∷ []

two_waiting-HasRoom : HasRoom two_waiting 3
two_waiting-HasRoom = omega arith

-- A push that does not fit doubles the block here.
push-Pushed_example : Returns (push heap_of_zeros two_waiting three) (Pushed two_waiting three)
push-Pushed_example =
    push-Pushed heap_of_zeros heap_of_zeros-IsAllocator two_waiting three two_waiting-IsValid
      two_waiting-HasRoom (inr (omega arith))

abbrev calls : List Op
calls = write three ∷ look 4 ∷ discard 2 ∷ look 3 ∷ look 4 ∷ []

run_refines_example :
    run heap_of_zeros two_waiting calls ≡ done (ByteQueue.run (contents two_waiting) calls)
run_refines_example =
    run_refines heap_of_zeros heap_of_zeros-IsAllocator calls two_waiting two_waiting-IsValid
      (omega arith) (omega arith)

run-calls :
    ByteQueue.run (contents two_waiting) calls
    ≡ none ∷ some (10 ∷ 20 ∷ 1 ∷ 2 ∷ []) ∷ none ∷ some three ∷ none ∷ []
unfolding ByteQueue.run ByteQueue.step peek remove
run-calls = refl

sending_two-HasRooms : HasRooms sending_two 3
sending_two-HasRooms = record {
  main_room = omega arith;
  sub_room = omega arith;
  fresh_room = omega arith;
}

push-Queued_example :
    Returns (IoDoubleBuffer.push heap_of_zeros sending_two three) (Queued sending_two three)
push-Queued_example =
    push-Queued heap_of_zeros heap_of_zeros-IsAllocator sending_two three sending_two-IsReady
      (inl (omega arith)) sending_two-HasRooms
