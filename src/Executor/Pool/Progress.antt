-- ===== src/Executor/Pool/Progress.antt =====
-- No task of src/executor.rs is left behind while all tickers sleep, when no call of another thread
-- comes between the search and the `sleep` of a poll.
use awak.Prelude.{ℕ, zero, suc, ◌+◌, ◌≤◌, ◌<◌, ◌≡◌, refl, sym, ◌∙◌, subst, inl, [], word, arith}
use awak.Queue
use awak.Queue.Fifo
use awak.Local.New.{new-Holds}
use awak.Executor.{new, shard, ticker}
use awak.Executor.World
use awak.Executor.World.{Agrees, update}
use awak.Executor.Wakeups
use awak.Executor.Search.{Runnable, tick}
use awak.Executor.Pool.{
  Pool, wake_all, clear, waker_of, poll_tick, call_schedule, Step, polls, schedules, start, Reach,
  here, next,
}
use awak.Executor.Pool.Frame.{schedule-Told, Told-wakers}
use awak.Executor.Pool.Asleep.{asleep}
use awak.Executor.Pool.Called.{Called}
use awak.Executor.Pool.Calls.{tick-Called, tick-wakers, schedule-Called}
use awak.Executor.Pool.Agreement.{same_sleeping, tick-Leaves, schedule-Leaves}
use awak.Executor.Pool.Served.{Served, empty_shards, tick-Served, schedule-Served}

record Holds (threads n : ℕ) (s : Pool) : Type 0 where
  served : Served s
  agrees : Agrees s.state s.tickers
  ids : s.state.sleepers.id_gen ≤ n + 1
  fixed : s.state.threads ≡ threads
  wakers : (i : ℕ) → waker_of s.state i ≡ i
  called : Called s.state s.tickers s.woken threads

Step-Holds :
    {threads n : ℕ} {s t : Pool}
    → 0 < threads
    → n + 2 < word
    → Step s t
    → Holds threads n s
    → Holds threads (suc n) t
unfolding poll_tick call_schedule
Step-Holds {threads} {s = s} some_thread few (polls i start below at_most) h =
    let l =
      tick-Leaves s.state s.tickers i (waker_of s.state i) (omega (arith, h.ids)) i start
        h.agrees in
    record {
      served = tick-Served s i start below at_most l h.served;
      agrees = l.agrees;
      ids = omega (arith, h.ids, l.ids);
      fixed = l.threads ∙ h.fixed;
      wakers = λ j. tick-wakers s.state (s.tickers i) i (waker_of s.state i) start j ∙ h.wakers j;
      called =
          subst
            (λ w.
              let r = tick s.state (s.tickers i) i w start in
              Called r.state (update s.tickers i r.ticker) (wake_all (clear s.woken w) r.woken)
                threads)
            (sym (h.wakers i))
            (tick-Called s.state s.tickers s.woken threads i i start (omega (arith, below, h.fixed))
              (omega (arith, few, h.ids)) h.agrees h.called);
    }
Step-Holds {threads} {s = s} some_thread few (schedules caller task thread room) h =
    let l = schedule-Leaves s.state s.tickers caller task h.agrees in
    let c = schedule-Called s.state s.tickers s.woken threads caller task h.called in
    record {
      served =
          schedule-Served s caller task threads some_thread h.fixed h.wakers c thread room l
            h.served;
      agrees = l.agrees;
      ids = omega (arith, h.ids, l.ids);
      fixed = l.threads ∙ h.fixed;
      wakers = λ j. Told-wakers j (schedule-Told s.state caller task) ∙ h.wakers j;
      called = c;
    }

none_asleep : (n : ℕ) → 0 ≡ asleep (λ _. ticker) n
unfolding ticker
none_asleep zero = refl
none_asleep (suc n) = omega (arith, none_asleep n)

start-Holds : (threads : ℕ) → Holds threads 0 (start threads)
unfolding start new shard ticker Queue.unbound
start-Holds threads =
    let (p, ring) = new-Holds {A = Runnable} 512 (omega arith) in
    let w = Wakeups.Reach-Holds {A = Runnable} (omega arith) World.here in
    record {
      served = record {
        exponent = p.exponent;
        waiting = [];
        held = λ _. [];
        stored = record { queue = (Queue.Fifo.unbound-IsValid, refl); shards = λ _. ring };
        up = inl (λ a. omega (arith, empty_shards a (λ _. []) threads (λ _ _. refl)));
      };
      agrees = same_sleeping refl refl (λ _. refl) w.agrees;
      ids = omega arith;
      fixed = refl;
      wakers = λ i. refl;
      called = record { each = λ i below p. absurd (p refl); counted = none_asleep threads };
    }

-- Let one thread or more run their tickers, and let fewer than `2 ^ 64 - 1` polls of `tick` and
-- calls of `schedule`, by these threads or by others, have been made in any order, none within
-- another, the queue never full. Then the queue and the rings are well-formed, and they hold no
-- task, or a ticker is awake, or the waker of one has been called since its last poll.
pub somebody_is_up :
    {threads n : ℕ} {s : Pool} → 0 < threads → n + 1 < word → Reach threads n s → Served s
somebody_is_up some_thread few r = (Reach-Holds some_thread few r).served
  where
    Reach-Holds :
        {threads n : ℕ} {s : Pool}
        → 0 < threads
        → n + 1 < word
        → Reach threads n s
        → Holds threads n s
    Reach-Holds {threads} some_thread few here = start-Holds threads
    Reach-Holds some_thread few (next r step) =
        Step-Holds some_thread (omega arith) step (Reach-Holds some_thread (omega arith) r)
