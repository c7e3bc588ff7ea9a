-- ===== src/Ring/Fifo.antt =====
-- What a ring promises: a queue of at most `Capacity - 1` items, oldest first.
use linux_opensource_univers.Prelude.{
  ◌==◌, if◌then◌else◌, length, ℕ, ◌+◌, Bool, true, false, Option, none, some, List, [], ◌∷◌, ◌++◌,
}

pub data Call (A : Type 0) : Type 0 where
  pushes : A → Call A
  pops : Call A

pub data Reply (A : Type 0) : Type 0 where
  pushed : Bool → Reply A
  popped : Option A → Reply A

module _ {A : Type 0} where
  unfoldable pub pop : List A → List A × Option A
  pop [] = ([], none)
  pop (x ∷ q) = (q, some x)

  module _ (cap : ℕ) where
    unfoldable pub push : List A → A → List A × Bool
    push q x = if length q + 1 == cap then (q, false) else (q ++ x ∷ [], true)

    unfoldable pub run : List A → List (Call A) → List (Reply A)
    run q [] = []
    run q (pushes x ∷ calls) = let (q', done) = push q x in pushed done ∷ run q' calls
    run q (pops ∷ calls) = let (q', out) = pop q in popped out ∷ run q' calls
