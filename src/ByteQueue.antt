-- ===== src/ByteQueue.antt =====
-- What a buffer promises: a queue of bytes, oldest first, from which a reader takes exactly as many
-- bytes as it asks for or none.
use rioring.Prelude.{
  ℕ, ◌≤◌, ◌<◌, ◌≡◌, List, [], ◌∷◌, ◌++◌, Option, none, some, length, take, drop, leb, if◌then◌else◌,
  le→leb, lt→leb, ◌+◌, arith, length-drop,
}

pub data Op : Type 0 where
  write : List ℕ → Op
  discard : ℕ → Op
  look : ℕ → Op

unfoldable pub peek : ℕ → List ℕ → Option (List ℕ)
peek n q = if leb n (length q) then some (take n q) else none

unfoldable pub remove : ℕ → List ℕ → List ℕ
remove n q = if leb n (length q) then drop n q else q

-- What the queue holds after one call, and what the call shows.
unfoldable pub step : List ℕ → Op → List ℕ × Option (List ℕ)
step q (write bytes) = (q ++ bytes, none)
step q (discard n) = (remove n q, none)
step q (look n) = (q, peek n q)

-- What a series of calls shows.
unfoldable pub run : List ℕ → List Op → List (Option (List ℕ))
run q [] = []
run q (op ∷ ops) = let (q', out) = step q op in out ∷ run q' ops

pub peek_enough : (n : ℕ) (q : List ℕ) → n ≤ length q → peek n q ≡ some (take n q)
unfolding peek
peek_enough n q h = rw (le→leb n (length q) h)

pub peek_short : (n : ℕ) (q : List ℕ) → length q < n → peek n q ≡ none
unfolding peek
peek_short n q h = rw (lt→leb n (length q) h)

pub remove_enough : (n : ℕ) (q : List ℕ) → n ≤ length q → remove n q ≡ drop n q
unfolding remove
remove_enough n q h = rw (le→leb n (length q) h)

pub remove_short : (n : ℕ) (q : List ℕ) → length q < n → remove n q ≡ q
unfolding remove
remove_short n q h = rw (lt→leb n (length q) h)

-- How many bytes a series of calls writes.
abbrev pub written : List Op → ℕ
written [] = 0
written (write bytes ∷ ops) = length bytes + written ops
written (discard n ∷ ops) = written ops
written (look n ∷ ops) = written ops

pub length-remove : (n : ℕ) (q : List ℕ) → length (remove n q) ≤ length q
unfolding remove
length-remove n q = ground (arith, length-drop n q)
