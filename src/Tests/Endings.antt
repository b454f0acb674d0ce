-- ===== src/Tests/Endings.antt =====
-- The end of a TCP connection (src/socket_object.cpp, src/io_service.cpp) at concrete inputs.
use rioring.Prelude.{
  ℕ, none, inl, Outcome, fault, hang, ◌>>=◌, ◌≡◌, ◌++◌, refl, false, [], ◌∷◌, done, Returns, arith,
  true,
}
use rioring.IoContext.{IoContext, IoType, new_context}
use rioring.SocketObject.{force, graceful}
use rioring.SimplePool
use rioring.IoService.{submit, choose_ring, submit_on, allocate_context}
use rioring.Session.{Session, queue_and_send, send, close, submit_shutdown, submit_context}
use rioring.Session.Send.{locked}
use rioring.IoBuffer.{push_within}
use rioring.Session.Frame.{Keeps, Keeps-done, IsHarmless}
use rioring.Session.Sending.{pending}
use rioring.Session.Shutdowns.{shutdowns, request_if}
use rioring.Completion.{pos, complete, dispatch, close_descriptor}
use rioring.Completion.Descriptor.{
  SameDescriptor, SameDescriptor-IsFrame, IsClosedOnce, here, next, closes, completes,
  Reach-IsClosedOnce,
}
use rioring.Completion.Race.{send_passes, send_locked, race_lem}
use rioring.Completion.Ended.{IsEnded, IsSilent, ended_lem, late_write_lem}
use rioring.Chat.Leave.{leave, leave_waits, leave_lem}
use rioring.Tests.Sockets.{idle-IsSending}
use rioring.Tests.Fixtures.{
  heap_of_zeros, free_rings, free_rings-IsUring, idle_user, idle_user-IsPassive, connected, idle,
  sending_two, sending_two-IsReady,
}

-- Two bytes wait when the connection ends.
abbrev sending : Session
sending = record idle { sock = record connected { send_buffer = sending_two } }

idle_user-IsSilent : IsSilent idle_user
idle_user-IsSilent = record { silent = λ s. refl }

abbrev completed_as : IoType → IoContext
completed_as t = record (new_context 0) { io_type = t }

ended_lem_example :
    Returns
      (complete free_rings heap_of_zeros idle_user (completed_as IoType.read) (pos 0) sending)
      (λ s'.
        IsEnded s'
        × (send free_rings heap_of_zeros (5 ∷ []) s' ≡ done (false, s'))
        × (s'.sock.socket_handler ≡ sending.sock.socket_handler)
        × (s'.closed ≡ sending.closed)
        × (s'.service.submitted ≡ sending.service.submitted))
ended_lem_example =
    ended_lem free_rings heap_of_zeros idle_user (completed_as IoType.read) (pos 0) sending (5 ∷ [])
      idle_user-IsSilent refl refl refl refl sending_two-IsReady

-- A socket that was closing when its connection ended.
abbrev was_closing : Session
was_closing = record idle {
  sock = record connected { connected_flag = false; shutdown_gracefully = true };
}

late_write_lem_example :
    Returns
      (complete free_rings heap_of_zeros idle_user (completed_as IoType.write) (pos 2) was_closing)
      (λ s'.
        IsEnded s'
        × (pending s' ≡ pending was_closing)
        × ((asked : IoContext) × (shutdowns s' ≡ shutdowns was_closing ++ request_if true asked)))
late_write_lem_example =
    late_write_lem free_rings free_rings-IsUring heap_of_zeros idle_user idle_user-IsPassive
      (completed_as IoType.write) 1 was_closing
      (record { unconnected = refl; unlocked = refl; main_empty = refl; sub_empty = refl })
      (omega arith, omega arith) refl

idle_Keeps : (s : Session) → Keeps SameDescriptor s (done s)
idle_Keeps s = Keeps-done SameDescriptor SameDescriptor-IsFrame s s refl refl refl refl

idle_user-IsHarmless : IsHarmless SameDescriptor idle_user
idle_user-IsHarmless = record {
  at_receive = λ addr s. idle_Keeps s;
  at_sent = λ s. idle_Keeps s;
  at_close = λ s. idle_Keeps s;
}

-- The session behind a run that returns.
abbrev session_of : Outcome Session → Session → Session
session_of (done s) other = s
session_of fault other = other
session_of hang other = other

-- Closed by force twice, after which both requests complete.
abbrev closed_once : Session
closed_once = session_of (close free_rings force idle) idle

abbrev closed_twice : Session
closed_twice = session_of (close free_rings force closed_once) idle

abbrev shut : Session → Session
shut s =
    session_of
      (complete free_rings heap_of_zeros idle_user (completed_as IoType.shutdown) (pos 0) s) idle

Reach-IsClosedOnce_example : IsClosedOnce 9 [] (shut (shut closed_twice))
unfolding IsClosedOnce close submit_shutdown submit_context submit choose_ring submit_on
    allocate_context SimplePool.pop complete close_descriptor dispatch
Reach-IsClosedOnce_example =
    Reach-IsClosedOnce 9 [] free_rings heap_of_zeros idle_user idle_user-IsHarmless {s = idle}
      (inl (refl, refl))
      (next
        (next (next (next here (closes force closed_once refl)) (closes force closed_twice refl))
          (completes (completed_as IoType.shutdown) (pos 0) (shut closed_twice) refl))
        (completes (completed_as IoType.shutdown) (pos 0) (shut (shut closed_twice)) refl))

leave_lem_example :
    Returns
      (leave free_rings idle >>= λ s₁.
        complete free_rings heap_of_zeros idle_user (completed_as IoType.shutdown) (pos 0) s₁
        >>= λ s₂. complete free_rings heap_of_zeros idle_user (completed_as IoType.read) (pos 0) s₂)
      (λ s'. (leave_waits s' ≡ false) × (s'.sock.socket_handler ≡ 0) × (s'.closed ≡ 9 ∷ []))
leave_lem_example =
    leave_lem free_rings free_rings-IsUring heap_of_zeros idle_user idle_user-IsSilent
      (completed_as IoType.shutdown) (completed_as IoType.read) (pos 0) (pos 0) idle idle-IsSending
      refl refl refl refl

passes_sending : send_passes sending ≡ true
unfolding send_passes
passes_sending = refl

race_lem_example :
    Returns
      (complete free_rings heap_of_zeros idle_user (completed_as IoType.read) (pos 0) sending)
      (λ s'.
        (send free_rings heap_of_zeros (5 ∷ []) sending
          ≡ send_locked free_rings heap_of_zeros (5 ∷ []) sending)
        × (send_locked free_rings heap_of_zeros (5 ∷ []) s' ≡ hang)
        × ((fuel inner : ℕ)
            → push_within heap_of_zeros fuel inner s'.sock.send_buffer.main_buffer (5 ∷ []) ≡ hang)
        × (queue_and_send free_rings heap_of_zeros (5 ∷ []) none (locked s') ≡ hang)
        × (close free_rings graceful (locked s') ≡ hang)
        × (send free_rings heap_of_zeros (5 ∷ []) s' ≡ done (false, s')))
race_lem_example =
    race_lem free_rings heap_of_zeros idle_user (completed_as IoType.read) (pos 0) sending (5 ∷ [])
      idle_user-IsSilent refl refl refl refl sending_two-IsReady (omega arith) passes_sending
      (omega arith) (omega arith)
