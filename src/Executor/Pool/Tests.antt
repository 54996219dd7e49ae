-- ===== src/Executor/Pool/Tests.antt =====
-- Tests of the pool, and the theorems about it applied at concrete inputs.
use awak.Prelude.{ℕ, ◌<◌, ◌≡◌, ◌≢◌, refl, none, [], ◌∷◌, ◌++◌, true, false, arith}
use awak.Queue
use awak.Queue.Fifo
use awak.Local
use awak.Sleepers
use awak.Sleepers.{Waker}
use awak.Executor.{State, new, shard, ticker, notify, sleep, wake}
use awak.Executor.Search.{
  Runnable, schedule, schedule_global, tick, search, search_shards, steal_global,
}
use awak.Executor.Pool.{Pool, poll_tick, call_schedule, polls, schedules, start, Reach, here, next}
use awak.Executor.Pool.Served.{Served}
use awak.Executor.Pool.Progress.{somebody_is_up}
use awak.Executor.Gap.{sleep_all, lost_wakeup}

-- One thread; a thread without a shard schedules task 5, and the ticker runs it.
abbrev idle_again : Pool
idle_again = poll_tick (call_schedule (start 1) none 5) 0 0

idle_again-Reach : Reach 1 2 idle_again
unfolding start new Queue.unbound call_schedule schedule schedule_global notify Queue.push
    Sleepers.notify
idle_again-Reach =
    next (next here (schedules none 5 tt (omega arith))) (polls 0 0 (omega arith) (omega arith))

-- The only ticker sleeps, and then a thread without a shard schedules task 5.
abbrev called_up : Pool
called_up = call_schedule (poll_tick (start 1) 0 0) none 5

called_up-Reach : Reach 1 2 called_up
unfolding poll_tick start new Queue.unbound tick search search_shards steal_global Queue.pop
    Local.new Local.pop shard ticker sleep Sleepers.insert
called_up-Reach =
    next (next here (polls 0 0 (omega arith) (omega arith))) (schedules none 5 tt (omega arith))

somebody_is_up_example : Served called_up
somebody_is_up_example = somebody_is_up (omega arith) (omega arith) called_up-Reach

-- It searches once more, in vain, and does not sleep yet.
abbrev between : State Runnable
between = (search idle_again.state 0 0).state

in_vain : (search idle_again.state 0 0).found ≡ none
unfolding poll_tick start new Queue.unbound call_schedule schedule schedule_global notify Queue.push
    Sleepers.notify tick search search_shards steal_global wake Queue.pop Queue.len Local.new
    Local.pop Local.steal shard ticker
in_vain = refl

between_is :
    (between.queue ≡ Queue.unbound)
    × (between.notified ≡ true)
    × (between.sleepers ≡ record { count = 0; wakers = []; id_gen = 1 })
unfolding poll_tick start new Queue.unbound call_schedule schedule schedule_global notify Queue.push
    Sleepers.notify tick search search_shards steal_global wake Queue.pop Queue.len Local.new
    Local.pop Local.steal shard ticker
between_is = (refl, refl, refl)

still_awake : (i : ℕ) → (idle_again.tickers i).sleeping ≡ 0
unfolding poll_tick start new Queue.unbound call_schedule schedule schedule_global notify Queue.push
    Sleepers.notify tick search search_shards steal_global wake Queue.pop Queue.len Local.new
    Local.pop Local.steal shard ticker
still_awake i = ground arith

lost_wakeup_example :
    let r = schedule between none 6 in
    let (st', f') = sleep_all r.state idle_again.tickers (λ _. 0) 1 in
    (r.woken ≡ [])
    × ((i : ℕ) → i < 1 → (f' i).sleeping ≢ 0)
    × (st'.notified ≡ false)
    × (Sleepers.is_notified st'.sleepers ≡ false)
    × (st'.queue.queue ≡ between.queue.queue ++ (6 ∷ []))
unfolding poll_tick start new Queue.unbound call_schedule schedule schedule_global notify Queue.push
    Sleepers.notify tick search search_shards steal_global wake Queue.pop Queue.len Local.new
    Local.pop Local.steal shard ticker
lost_wakeup_example =
    lost_wakeup between idle_again.tickers (λ _. 0) refl refl (omega arith) still_awake 0 6
      Queue.Fifo.unbound-IsValid (omega arith) refl (omega arith)
