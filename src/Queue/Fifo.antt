-- ===== src/Queue/Fifo.antt =====
-- What a client of the queue relies on: a first-in first-out list of at most `cap` entries.
use rdma_middleware.Prelude.{
  ℕ, Bool, true, false, Option, some, none, List, [], ◌∷◌, ◌++◌, length, ◌==◌, if◌then◌else◌,
}

module _ {ℓ} {A : Type ℓ} where
  unfoldable pub push : ℕ → List A → A → List A × Bool
  push cap xs x = if length xs == cap then (xs, false) else (xs ++ (x ∷ []), true)

  unfoldable pub pop : List A → List A
  pop [] = []
  pop (x ∷ xs) = xs

  unfoldable pub front : List A → Option A
  front [] = none
  front (x ∷ xs) = some x

  unfoldable pub is_empty : List A → Bool
  is_empty [] = true
  is_empty (x ∷ xs) = false

-- The calls that the threads make, with what each returns. `look` is `emptyQueue` and, if the queue
-- holds an entry, `topQueue`.
pub data Op {ℓ} (A : Type ℓ) : Type ℓ where
  put : A → Op A
  look : Op A
  remove : Op A

pub data Reply {ℓ} (A : Type ℓ) : Type ℓ where
  accepted : Bool → Reply A
  seen : Option A → Reply A
  done : Reply A

module _ {ℓ} {A : Type ℓ} where
  unfoldable pub run : ℕ → List A → List (Op A) → List (Reply A)
  run cap xs [] = []
  run cap xs (put x ∷ ops) = let (xs', ok) = push cap xs x in accepted ok ∷ run cap xs' ops
  run cap xs (look ∷ ops) = seen (front xs) ∷ run cap xs ops
  run cap xs (remove ∷ ops) = done ∷ run cap (pop xs) ops
