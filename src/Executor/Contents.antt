-- ===== src/Executor/Contents.antt =====
-- Where the tasks of src/executor.rs are: in the global queue and in the rings of the shards.
use awak.Prelude.{
  ℕ, zero, suc, ◌+◌, ◌-◌, ◌/◌, ◌^◌, ◌≤◌, ◌<◌, ◌≡◌, refl, sym, ap, ◌∙◌, subst, inl, inr, none, some,
  List, [], ◌∷◌, ◌++◌, ◌==◌, if◌then◌else◌, min, take, drop, length, take-append-drop, Bool-cases,
  lt-cases, arith,
}
use awak.Queue
use awak.Local
use awak.Local.{Local, value, error_empty}
use awak.Local.Fifo.{Holds, pop_refines, len-Holds, spec_pop}
use awak.Local.Steal.{QueueHolds, queue_source, shard_source, steal-Moves, pop_shard, pop_queue}
use awak.Executor.{State}
use awak.Executor.Search.{Runnable, set_ring, ring_of, pop_own, steal_shard, steal_global}

-- How often task `t` is in a list.
abbrev pub copies : ℕ → List ℕ → ℕ
copies t [] = 0
copies t (r ∷ rest) = (if t == r then 1 else 0) + copies t rest

pub copies-append :
    (t : ℕ) (front back : List ℕ) → copies t (front ++ back) ≡ copies t front + copies t back
copies-append t (r ∷ front) back = omega (arith, copies-append t front back)
copies-append t [] back = omega arith

pub copies-take-drop :
    (a n : ℕ) (xs : List ℕ) → copies a (take n xs) + copies a (drop n xs) ≡ copies a xs
copies-take-drop a n xs =
    sym (copies-append a (take n xs) (drop n xs)) ∙ ap (copies a) (take-append-drop n xs)

abbrev pub replace : (ℕ → List ℕ) → ℕ → List ℕ → ℕ → List ℕ
replace c i xs j = if i == j then xs else c j

-- The tasks `a` in the rings of the first `n` shards.
unfoldable pub shard_count : ℕ → (ℕ → List ℕ) → ℕ → ℕ
shard_count a c zero = 0
shard_count a c (suc n) = shard_count a c n + copies a (c n)

shard_count_above :
    (a : ℕ) (c : ℕ → List ℕ) (i : ℕ) (xs : List ℕ) (n : ℕ)
    → n ≤ i
    → shard_count a (replace c i xs) n ≡ shard_count a c n
unfolding shard_count
shard_count_above a c i xs zero h = refl
shard_count_above a c i xs (suc n) h = ground (arith, shard_count_above a c i xs n)

pub shard_count-replace :
    (a : ℕ) (c : ℕ → List ℕ) (i : ℕ) (xs : List ℕ) (n : ℕ)
    → i < n
    → shard_count a (replace c i xs) n + copies a (c i) ≡ shard_count a c n + copies a xs
unfolding shard_count
shard_count-replace a c i xs zero h = absurd (omega arith)
shard_count-replace a c i xs (suc n) h = elim (lt-cases i n) [
  | inl below ↦ ground (arith, shard_count-replace a c i xs n below)
  | inr last ↦ ground (arith, shard_count_above a c i xs n)
]

-- The queue holds `q`, and shard `i` holds `c i`, in a ring of `2 ^ k` slots.
pub record Stores (k : ℕ) (st : State Runnable) (q : List ℕ) (c : ℕ → List ℕ) : Type 0 where
  pub queue : QueueHolds st.queue q
  pub shards : (i : ℕ) → Holds k (ring_of st i) (c i)

ring_of-set_ring :
    (st : State Runnable) (i j : ℕ) (ring : Local Runnable)
    → ring_of (set_ring st i ring) j ≡ (if i == j then ring else ring_of st j)
ring_of-set_ring st i j ring = ground arith

pub Stores-set_ring :
    {k : ℕ} {st : State Runnable} {q : List ℕ} {c : ℕ → List ℕ} (i : ℕ) (ring : Local Runnable)
    (xs : List ℕ)
    → Stores k st q c
    → Holds k ring xs
    → Stores k (set_ring st i ring) q (replace c i xs)
Stores-set_ring {k} {st} {c = c} i ring xs s h = record { queue = s.queue; shards = all }
  where
    all : (j : ℕ) → Holds k (ring_of (set_ring st i ring) j) (replace c i xs j)
    all j = elim (Bool-cases (i == j)) [
      | inl e ↦ rw (ring_of-set_ring st i j ring, e) h
      | inr ne ↦ rw (ring_of-set_ring st i j ring, ne) (s.shards j)
    ]

module _ {k : ℕ} {st : State Runnable} {q : List ℕ} {c : ℕ → List ℕ} (s : Stores k st q c)
    (me : ℕ) where
  -- `pop` on the own ring.
  pub pop_own-empty :
      c me ≡ [] → (pop_own st me).1 ≡ none × Stores k (pop_own st me).0 q (replace c me [])
  unfolding spec_pop
  pop_own-empty e =
      let (h, popped) = pop_refines [] (subst (Holds k (ring_of st me)) e (s.shards me)) in
      rw (popped, pop_own) (refl, Stores-set_ring me (Local.pop (ring_of st me)).0 [] s h)

  pub pop_own-some :
      (x : ℕ) (xs : List ℕ)
      → c me ≡ x ∷ xs
      → (pop_own st me).1 ≡ some x × Stores k (pop_own st me).0 q (replace c me xs)
  unfolding spec_pop
  pop_own-some x xs e =
      let (h, popped) = pop_refines (x ∷ xs) (subst (Holds k (ring_of st me)) e (s.shards me)) in
      rw (popped, pop_own) (refl, Stores-set_ring me (Local.pop (ring_of st me)).0 xs s h)

  -- How many tasks a steal from a source of `n` takes.
  abbrev pub share : ℕ → ℕ
  share n = min ((n + 1) / 2) (2 ^ k - length (c me))

  pub steal_shard_moves :
      (j : ℕ)
      → let n = share (length (c j)) in
        Stores k
          (steal_shard st me j).0
          q
          (replace (replace c j (drop n (c j))) me (c me ++ take n (c j)))
        × ((steal_shard st me j).1 ≡ [])
  unfolding steal_shard
  steal_shard_moves j = rw (len-Holds (s.shards j)) (
      let m = steal-Moves (shard_source k) (length (c j)) (c j) (s.shards me) (s.shards j) in
      let r = Local.steal pop_shard (ring_of st me) (length (c j)) (ring_of st j) in
      (
        Stores-set_ring me r.into _
            (Stores-set_ring j r.source (drop (share (length (c j))) (c j)) s m.rest) m.into,
        m.none_lost,
      ))

  steal_global_asked :
      let n = share (Queue.len st.queue) in
      Stores k (steal_global st me).0 (drop n q) (replace c me (c me ++ take n q))
      × ((steal_global st me).1 ≡ [])
  unfolding steal_global
  steal_global_asked =
      let m = steal-Moves queue_source (Queue.len st.queue) q (s.shards me) s.queue in
      let r = Local.steal pop_queue (ring_of st me) (Queue.len st.queue) st.queue in
      (
        Stores-set_ring {st = record st { queue = r.source }} {c = c} me r.into _
            (record { queue = m.rest; shards = s.shards }) m.into,
        m.none_lost,
      )

  len-queue : Queue.len st.queue ≡ length q
  unfolding Queue.len
  len-queue = s.queue.0.counted ∙ ap length s.queue.1

  pub steal_global_moves :
      let n = share (length q) in
      Stores k (steal_global st me).0 (drop n q) (replace c me (c me ++ take n q))
      × ((steal_global st me).1 ≡ [])
  steal_global_moves =
      let (stored, none_lost) = steal_global_asked in
      (
        subst
            (λ n.
              Stores k (steal_global st me).0 (drop (share n) q)
                (replace c me (c me ++ take (share n) q)))
            len-queue stored,
        none_lost,
      )
