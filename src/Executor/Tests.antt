-- ===== src/Executor/Tests.antt =====
-- Runs of the executor's state at small inputs.
use awak.Prelude.{
  ℕ, ◌≡◌, ◌≢◌, refl, none, some, List, [], ◌∷◌, ◌==◌, if◌then◌else◌, Bool-cases, inl, inr, true,
  arith,
}
use awak.Queue
use awak.Local
use awak.Local.{Local}
use awak.Local.Fifo.{Holds}
use awak.Local.Steal.{pop_shard}
use awak.Sleepers
use awak.Executor.{State, sleep, notify, new, ticker}
use awak.Executor.World.{World, sleeps, notifies, Reach, here, next}
use awak.Executor.Search.{
  Runnable, tick, schedule, search, search_shards, steal_shard, steal_global, rotation,
}
use awak.Executor.Contents.{Stores}
use awak.Executor.Shards.{Kept}
use awak.Executor.Tick.{tick_conserves}
use awak.Executor.Schedule.{Queues, Woken, schedule-Queues}

-- Ticker 0 sleeps with waker 7.
run : (s : World ℕ) × Reach 1 s
run = (_, next here (sleeps 0 7))

run_sleeps : (run.0.tickers 0).sleeping ≡ 1
unfolding run sleep new ticker Sleepers.insert
run_sleeps = refl

asleep : (run.0.tickers 0).sleeping ≢ 0
asleep e = omega (arith, run_sleeps, e)

abbrev idle_ring : Local Runnable
idle_ring = record { head = 0; tail = 0; mask = 1; buffer = none ∷ none ∷ []; capacity = 2 }

abbrev busy_ring : Local Runnable
busy_ring = record { head = 0; tail = 2; mask = 1; buffer = some 4 ∷ some 5 ∷ []; capacity = 2 }

idle_ring-Holds : Holds 1 idle_ring []
idle_ring-Holds = record {
  width = omega arith;
  sized = refl;
  masked = refl;
  slots = refl;
  in_range = omega arith;
  ends = refl;
  room = omega arith;
  held = tt;
}

busy_ring-Holds : Holds 1 busy_ring (4 ∷ 5 ∷ [])
busy_ring-Holds = record {
  width = omega arith;
  sized = refl;
  masked = refl;
  slots = refl;
  in_range = omega arith;
  ends = refl;
  room = omega arith;
  held = (refl, (refl, tt));
}

-- Two threads, of which thread 1 has two tasks.
abbrev two_threads : Local Runnable → State Runnable
two_threads ring = record {
  queue = record { queue = []; length = 0; capacity = 10 };
  notified = true;
  local_queue = λ i. record { ring = if i == 1 then ring else idle_ring; waker = i };
  threads = 2;
  sleepers = record { count = 0; wakers = []; id_gen = 1 };
}

abbrev held : List ℕ → ℕ → List ℕ
held xs i = if i == 1 then xs else []

two_threads-Stores :
    {ring : Local Runnable} {xs : List ℕ}
    → Holds 1 ring xs
    → Stores 1 (two_threads ring) [] (held xs)
two_threads-Stores h = record {
  queue = (omega arith, refl);
  shards =
      λ i. elim (Bool-cases (i == 1)) [ inl one ↦ rw one h | inr other ↦ rw other idle_ring-Holds ];
}

search_steals : (search (two_threads busy_ring) 0 1).found ≡ some 4
unfolding search search_shards steal_shard steal_global rotation pop_shard Queue.pop Local.pop
    Local.push Local.len Local.steal Local.steal_loop Local.slot
search_steals = refl

search_idle : (search (two_threads idle_ring) 0 1).found ≡ none
unfolding search search_shards steal_shard steal_global rotation pop_shard Queue.pop Local.pop
    Local.push Local.len Local.steal Local.steal_loop
search_idle = refl

tick_conserves_example :
    let r = tick (two_threads busy_ring) ticker 0 7 1 in
    Kept 1 2 [] (held (4 ∷ 5 ∷ [])) r.state r.ready r.dropped
tick_conserves_example =
    tick_conserves (two_threads-Stores busy_ring-Holds) ticker 0 7 1 (omega arith)

-- Thread 1 schedules task 6, and its ring is full.
schedule-Queues_example :
    let r = schedule (two_threads busy_ring) (some 1) 6 in
    Queues 1 2 [] (held (4 ∷ 5 ∷ [])) 6 (Woken (two_threads busy_ring) (some 1) r) r
schedule-Queues_example =
    schedule-Queues (two_threads-Stores busy_ring-Holds) (some 1) 6 (omega arith) (omega arith)

-- Tickers 0 and 1 sleep, and `notify` picks ticker 1, which is dropped: nothing takes it off the
-- list. However often ticker 0 is polled, `notify` does not wake it.
abandoned : (s : World ℕ) × Reach 4 s
abandoned = (_, next (next (next (next here (sleeps 0 7)) (sleeps 1 8)) notifies) (sleeps 0 7))

nobody_is_woken : (notify abandoned.0.state).1 ≡ none
unfolding abandoned sleep notify new ticker Sleepers.insert Sleepers.notify Sleepers.update
    Sleepers.is_notified
nobody_is_woken = refl
