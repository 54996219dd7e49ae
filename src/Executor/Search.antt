-- ===== src/Executor/Search.antt =====
-- How the executor of src/executor.rs queues tasks and how a ticker finds them: `schedule`,
-- `search` and `tick`. A `Runnable` is known by a number. The calls of other threads come between
-- these calls, not within them.
use awak.Prelude.{
  ℕ, zero, suc, ◌%◌, Option, none, some, List, [], ◌∷◌, ◌++◌, Bool, true, false, ◌==◌,
  if◌then◌else◌, take, drop, wrapping_add,
}
use awak.Queue
use awak.Queue.{Queue}
use awak.Local
use awak.Local.{Local, Stolen, value, error_empty, uninit, ok, error_full}
use awak.Local.Steal.{pop_queue, pop_shard}
use awak.Sleepers.{Waker}
use awak.Executor.{State, Ticker, notify, sleep, wake}

abbrev pub Runnable : Type 0
Runnable = ℕ

-- The shard of thread `i` gets a new ring.
abbrev pub set_ring : State Runnable → ℕ → Local Runnable → State Runnable
set_ring st i ring = record st {
  local_queue = λ j. if i == j then record (st.local_queue i) { ring = ring } else st.local_queue j;
}

abbrev pub ring_of : State Runnable → ℕ → Local Runnable
ring_of st i = (st.local_queue i).ring

-- What a call of the closure `schedule` leaves: the state, the wakers woken, and whether `unwrap`
-- panicked on a full global queue.
pub record Scheduled : Type 0 where
  pub state : State Runnable
  pub woken : List Waker
  pub panicked : Bool

abbrev pub to_list {ℓ} : {A : Type ℓ} → Option A → List A
to_list none = []
to_list (some a) = a ∷ []

-- `state.queue.push(runnable).unwrap(); state.notify();`
unfoldable pub schedule_global : State Runnable → Runnable → Scheduled
schedule_global st runnable =
    let (queue, pushed) = Queue.push st.queue runnable in
    elim pushed [
      | Queue.ok _ ↦
          let (st', woken) = notify (record st { queue = queue }) in
          record { state = st'; woken = to_list woken; panicked = false }
      | Queue.err _ ↦ record { state = record st { queue = queue }; woken = []; panicked = true }
    ]

-- `state.local_queue.get()` is the shard of the thread that schedules, if it has one.
unfoldable pub schedule : State Runnable → Option ℕ → Runnable → Scheduled
schedule st none runnable = schedule_global st runnable
schedule st (some i) runnable =
    let (ring, pushed) = Local.push (ring_of st i) runnable in
    elim pushed [
      | ok ↦ record {
        state = set_ring st i ring;
        woken = (st.local_queue i).waker ∷ [];
        panicked = false;
      }
      | error_full e ↦ schedule_global (set_ring st i ring) e
    ]

-- `dropped` are the tasks that a failed push within `steal` gave up.
pub record Searched : Type 0 where
  pub state : State Runnable
  pub found : Option Runnable
  pub dropped : List Runnable

abbrev pub count_from : ℕ → ℕ → List ℕ
count_from i zero = []
count_from i (suc n) = i ∷ count_from (suc i) n

-- The shards in the order of `iter().chain(iter()).skip(start).take(n)`.
unfoldable pub rotation : ℕ → ℕ → List ℕ
rotation n start = take n (drop start (count_from 0 n ++ count_from 0 n))

-- The ticker takes the first task of its own ring.
abbrev pub pop_own : State Runnable → ℕ → State Runnable × Option Runnable
pop_own st me =
    let (ring, popped) = Local.pop (ring_of st me) in
    (set_ring st me ring, elim popped [ value r ↦ some r | _ ↦ none ])

-- `local_queue.local.steal(shard.local.len(), || shard.local.pop().ok())`
unfoldable pub steal_shard : State Runnable → ℕ → ℕ → State Runnable × List Runnable
steal_shard st me j =
    let r = Local.steal pop_shard (ring_of st me) (Local.len (ring_of st j)) (ring_of st j) in
    (set_ring (set_ring st j r.source) me r.into, r.dropped)

-- `local_queue.local.steal(self.state.queue.len(), || self.state.queue.pop().ok())`
unfoldable pub steal_global : State Runnable → ℕ → State Runnable × List Runnable
steal_global st me =
    let r = Local.steal pop_queue (ring_of st me) (Queue.len st.queue) st.queue in
    (set_ring (record st { queue = r.source }) me r.into, r.dropped)

-- The loop over the other shards.
unfoldable pub search_shards : State Runnable → ℕ → List ℕ → Searched
search_shards st me [] = record { state = st; found = none; dropped = [] }
search_shards st me (j ∷ js) =
    if me == j
    then search_shards st me js
    else (let (stolen, dropped) = steal_shard st me j in
        let (st', r) = pop_own stolen me in
        let rest = search_shards st' me js in
        elim r [
          | some t ↦ record { state = st'; found = some t; dropped = dropped }
          | none ↦ record rest { dropped = dropped ++ rest.dropped }
        ])

-- `start` is the random starting point.
unfoldable pub search : State Runnable → ℕ → ℕ → Searched
unfolding rotation
search st me start =
    let (own, r) = pop_own st me in
    elim r [
      | some t ↦ record { state = own; found = some t; dropped = [] }
      | none ↦
          let (queue, popped) = Queue.pop own.queue in
          elim popped [
            | Queue.ok t ↦
                let (stolen, dropped) = steal_global (record own { queue = queue }) me in
                record { state = stolen; found = some t; dropped = dropped }
            | Queue.err _ ↦
                search_shards (record own { queue = queue }) me (rotation own.threads start)
          ]
    ]

-- The poll of `tick`: the task if it is ready, the wakers woken, and what was dropped.
pub record Ticked : Type 0 where
  pub state : State Runnable
  pub ticker : Ticker
  pub ready : Option Runnable
  pub woken : List Waker
  pub dropped : List Runnable

unfoldable pub tick : State Runnable → Ticker → ℕ → Waker → ℕ → Ticked
tick st t me waker start =
    let s = search st me start in
    elim s.found [
      | none ↦
          let (st', t', _) = sleep s.state t waker in
          record { state = st'; ticker = t'; ready = none; woken = []; dropped = s.dropped }
      | some r ↦
          let (woken_up, t') = wake s.state t in
          let (notified, waker') = notify woken_up in
          let (st', dropped) =
            if t'.ticks % 64 == 0 then steal_global notified me else (notified, []) in
          record {
            state = st';
            ticker = record t' { ticks = wrapping_add t'.ticks 1 };
            ready = some r;
            woken = to_list waker';
            dropped = s.dropped ++ dropped;
          }
    ]
