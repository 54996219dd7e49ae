-- ===== src/Queue.antt =====
-- src/queue.rs: the bounded FIFO behind a lock. Every method takes the write lock for its whole
-- body, so a method is one step on the state. It is the global run queue of the executor and the
-- queue of timer operations of the reactor.
pub mod Fifo
mod Tests
use awak.Prelude.{ℕ, ◌-◌, List, [], ◌∷◌, ◌++◌, ◌==◌, if◌then◌else◌, usize_max, wrapping_add}

-- `queue` and `length` are the fields of `Inner`, which the lock guards.
pub record Queue {ℓ} (A : Type ℓ) : Type ℓ where
  pub queue : List A
  pub length : ℕ
  pub capacity : ℕ

-- `ErrorFull` and `ErrorEmpty` of the file.
pub data Error : Type 0 where
  full empty : Error

pub data Result {ℓ} (A : Type ℓ) : Type ℓ where
  ok : A → Result A
  err : Error → Result A

module _ {ℓ} {A : Type ℓ} where
  unfoldable pub bound : ℕ → Queue A
  bound n = record { queue = []; length = 0; capacity = n }

  unfoldable pub unbound : Queue A
  unbound = record { queue = []; length = 0; capacity = usize_max }

  -- `VecDeque::pop_front().ok_or(ErrorEmpty)`: what is left, and the result.
  abbrev pop_front : List A → List A × Result A
  pop_front [] = ([], err empty)
  pop_front (x ∷ xs) = (xs, ok x)

  unfoldable pub pop : Queue A → Queue A × Result A
  pop q =
      if q.length == 0
      then (q, err empty)
      else (let (rest, r) = pop_front q.queue in
          (record q { queue = rest; length = q.length - 1 }, r))

  unfoldable pub push : Queue A → A → Queue A × Result (Unit {0})
  push q value =
      if q.capacity == q.length
      then (q, err full)
      else (record q { length = wrapping_add q.length 1; queue = q.queue ++ (value ∷ []) }, ok tt)

  unfoldable pub len : Queue A → ℕ
  len q = q.length
