-- ===== src/Chat/Picking.antt =====
-- The loop that picks messages out of a receive buffer, which examples/chatserver/receiver.cpp and
-- examples/chatclient/main.cpp share but for what they do with a message.
pub mod Series
pub mod Malformed
use rioring.Prelude.{
  ℕ, zero, suc, ◌+◌, List, Option, none, some, ◌==◌, if◌then◌else◌, Outcome, done, hang, ◌>>=◌,
  replicate,
}
use rioring.IoBuffer
use rioring.IoBuffer.{IoBuffer}
use rioring.Chat.Scheme.{scheme_size, array_size, msg_of, size_of, overwrite}

-- `buffer->read( &array[0], n )`: the array afterwards, or `none` where it returns false.
pub read_into : List ℕ → IoBuffer → ℕ → Outcome (Option (List ℕ))
read_into picked buf n = IoBuffer.read buf n >>= λ out. elim out [
  | none ↦ done none
  | some bytes ↦ (overwrite bytes picked >>= λ p. done (some p))
]

-- How a round of the loop ends: in the next round or in a `break`.
pub data Round {ℓ} (W : Type ℓ) : Type ℓ where
  again : (picked : List ℕ) (buf : IoBuffer) (w : W) → Round W
  stop : (buf : IoBuffer) (w : W) → Round W

-- What is done with a message of the type that is expected, and with another, on a state `W`.
pub record Receiver {ℓ} (W : Type ℓ) : Type ℓ where
  pub expected : ℕ
  pub handle : List ℕ → W → Outcome W
  pub other : W → Outcome W

module _ {ℓ} {W : Type ℓ} (v : Receiver W) where
  -- The round from `buffer->pop` on.
  pub take_message : List ℕ → IoBuffer → W → Outcome (Round W)
  take_message picked buf w = IoBuffer.pop buf (size_of picked) >>= λ b.
      if msg_of picked == v.expected
      then (v.handle picked w >>= λ w'. done (again picked b w'))
      else (v.other w >>= λ w'. done (stop b w'))

  pub round_with : Option (List ℕ) → IoBuffer → W → Outcome (Round W)
  unfolding take_message
  round_with none buf w = done (stop buf w)
  round_with (some picked) buf w = take_message picked buf w

  pub round_sized : Option (List ℕ) → IoBuffer → W → Outcome (Round W)
  unfolding round_with
  round_sized none buf w = done (stop buf w)
  round_sized (some picked) buf w =
      read_into picked buf (size_of picked) >>= λ r. round_with r buf w

  pub round : List ℕ → IoBuffer → W → Outcome (Round W)
  unfolding round_sized
  round picked buf w = read_into picked buf scheme_size >>= λ r. round_sized r buf w

  pub rounds : ℕ → List ℕ → IoBuffer → W → Outcome (IoBuffer × W)
  unfolding round
  rounds zero picked buf w = hang
  rounds (suc fuel) picked buf w = round picked buf w >>= λ r. elim r [
    | again p b w' ↦ rounds fuel p b w'
    | stop b w' ↦ done (b, w')
  ]

  -- A message of at least one byte takes a byte out of the buffer.
  pub on_receive : IoBuffer → W → Outcome (IoBuffer × W)
  unfolding rounds
  on_receive buf w = rounds (suc buf.buffer_offset) (replicate array_size 0) buf w
