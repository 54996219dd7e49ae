-- ===== src/Queue/Fifo.antt =====
-- src/queue.rs against a FIFO of its values.
use awak.Prelude.{
  ℕ, ◌≤◌, ◌≡◌, refl, List, [], ◌∷◌, ◌++◌, ◌==◌, if◌then◌else◌, length, length-append, usize_max,
  arith, inl, inr, Bool-cases,
}
use awak.Queue.{Queue, Result, ok, err, full, empty, bound, unbound, pop, push, len}

module _ {ℓ} {A : Type ℓ} where
  pub record IsValid (q : Queue A) : Type ℓ where
    pub counted : q.length ≡ length q.queue
    pub fits : q.length ≤ q.capacity
    pub small : q.capacity ≤ usize_max

  -- The specification: the values, oldest first.
  unfoldable pub spec_push : ℕ → List A → A → List A × Result (Unit {0})
  spec_push cap xs x = if cap == length xs then (xs, err full) else (xs ++ (x ∷ []), ok tt)

  unfoldable pub spec_pop : List A → List A × Result A
  spec_pop [] = ([], err empty)
  spec_pop (x ∷ xs) = (xs, ok x)

  pub bound-IsValid : (n : ℕ) → n ≤ usize_max → IsValid (bound {A = A} n)
  unfolding bound
  bound-IsValid n h = record { counted = refl; fits = omega arith; small = h }

  pub unbound-IsValid : IsValid (unbound {A = A})
  unfolding unbound
  unbound-IsValid = record { counted = refl; fits = omega arith; small = omega arith }

  pub push-IsValid : (q : Queue A) (x : A) → IsValid q → IsValid (push q x).0
  unfolding push
  push-IsValid q x v = ground (arith, length-append q.queue (x ∷ []))

  pub pop-IsValid : (q : Queue A) → IsValid q → IsValid (pop q).0
  unfolding pop
  pop-IsValid q v = ground arith

  pub capacity-push : (q : Queue A) (x : A) → (push q x).0.capacity ≡ q.capacity
  unfolding push
  capacity-push q x = ground arith

  pub capacity-pop : (q : Queue A) → (pop q).0.capacity ≡ q.capacity
  unfolding pop
  capacity-pop q = ground arith

  pub push_refines :
      (q : Queue A) (x : A)
      → IsValid q
      → let (q', r) = push q x in (q'.queue, r) ≡ spec_push q.capacity q.queue x
  unfolding push spec_push
  push_refines q x v =
      rw (← v.counted) (elim (Bool-cases (q.capacity == q.length)) [ inl e ↦ rw e | inr e ↦ rw e ])

  pub pop_refines :
      (q : Queue A) → IsValid q → let (q', r) = pop q in (q'.queue, r) ≡ spec_pop q.queue
  unfolding pop spec_pop
  pop_refines q v = ground arith

-- A caller's sequence of calls, and what each returns.
pub data Call {ℓ} (A : Type ℓ) : Type ℓ where
  pushes : A → Call A
  pops lens : Call A

pub data Reply {ℓ} (A : Type ℓ) : Type ℓ where
  pushed : Result (Unit {0}) → Reply A
  popped : Result A → Reply A
  counted : ℕ → Reply A

module _ {ℓ} {A : Type ℓ} where
  unfoldable pub run : Queue A → List (Call A) → List (Reply A)
  unfolding push pop len
  run q [] = []
  run q (pushes x ∷ cs) = let (q', r) = push q x in pushed r ∷ run q' cs
  run q (pops ∷ cs) = let (q', r) = pop q in popped r ∷ run q' cs
  run q (lens ∷ cs) = counted (len q) ∷ run q cs

  unfoldable pub spec_run : ℕ → List A → List (Call A) → List (Reply A)
  spec_run cap xs [] = []
  spec_run cap xs (pushes x ∷ cs) =
      let (xs', r) = spec_push cap xs x in pushed r ∷ spec_run cap xs' cs
  spec_run cap xs (pops ∷ cs) = let (xs', r) = spec_pop xs in popped r ∷ spec_run cap xs' cs
  spec_run cap xs (lens ∷ cs) = counted (length xs) ∷ spec_run cap xs cs

  -- No sequence of `push`, `pop` and `len` calls on a queue whose `length` counts its deque and is
  -- within a capacity that a `usize` holds tells it from the FIFO of its values, bounded by that
  -- capacity: the replies are the same, the errors `ErrorFull` and `ErrorEmpty` included.
  pub run_refines :
      (cs : List (Call A)) (q : Queue A) → IsValid q → run q cs ≡ spec_run q.capacity q.queue cs
  unfolding run spec_run
  run_refines [] q v = refl
  run_refines (pushes x ∷ cs) q v =
      rw (run_refines cs (push q x).0 (push-IsValid q x v), capacity-push q x, ← push_refines q x v)
  run_refines (pops ∷ cs) q v =
      rw (run_refines cs (pop q).0 (pop-IsValid q v), capacity-pop q, ← pop_refines q v)
  run_refines (lens ∷ cs) q v = rw (run_refines cs q v, v.counted)
