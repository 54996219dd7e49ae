-- ===== src/Time/Tests.antt =====
-- Runs of src/io/mod.rs, src/time/ and src/util/idle_timeout.rs at small inputs.
use awak.Prelude.{ℕ, ◌+◌, ◌*◌, ◌≤◌, ◌<◌, ◌≡◌, refl, ◌⊎◌, some, [], ◌∷◌, true, arith}
use awak.Timers.{Reactor, insert, process_timers}
use awak.Timers.Get.{contains}
use awak.CopyBuffer.{Poll, ready, pending}
use awak.Time.{
  Timer, Delay, delay_until, Interval, IdleTimeout, Timed, output, elapsed, poll_timeout,
  poll_timed, interval_at, new, new_idle, poll_idle,
}
use awak.Time.Registry.{Usable}
use awak.Time.Registered.{Remembered, pending_fires}
use awak.Time.Ticks.{ticks, instants, interval_at-ticks}
use awak.Time.Limits.{Kept, Decided, poll_waits, poll_timed_decides, poll_idle_keeps}

-- One operation is queued, and the queue has room for no other. Waker 13 waits for instant 30.
abbrev waiting : Reactor
waiting = record {
  timer_ops = record {
    queue = insert (record { when = 30; id = 3 }) 13 ∷ [];
    length = 1;
    capacity = 1;
  };
  timers = (record { when = 10; id = 1 }, 11) ∷ [];
  id_generator = 4;
  notifies = 0;
}

waiting-Usable : Usable waiting
waiting-Usable = (record { counted = refl; fits = omega arith; small = omega arith }, omega arith)

abbrev timer : Timer
timer = record { deadline = 30; key = 3; waker = some 13 }

timer-Remembered : Remembered timer waiting
unfolding awak.Timers.Process.view awak.Timers.key_lt awak.Timers.key_eq
timer-Remembered old e = e

pending_fires_example :
    (t' : Timer) × (r' : Reactor) × (poll_timeout timer waiting 25 14 ≡ some (t', r', pending))
    × (contains 14 (process_timers r' 31).1 ≡ true)
pending_fires_example =
    pending_fires timer waiting 25 31 14 waiting-Usable timer-Remembered (omega arith) (omega arith)

interval_at-ticks_example :
    (i : Interval) × (i' : Interval) × (n : ℕ) × (interval_at 20 5 ≡ some i)
    × (ticks i (
          record { reactor = waiting; now = 10; waker = 7 }
          ∷ record { reactor = waiting; now = 99; waker = 8 }
          ∷ record { reactor = waiting; now = 99; waker = 8 }
          ∷ [])
        ≡ some (i', instants 20 5 n))
    × (i'.delay.deadline ≡ 20 + n * 5)
interval_at-ticks_example =
    interval_at-ticks 20 5
      (record { reactor = waiting; now = 10; waker = 7 }
        ∷ record { reactor = waiting; now = 99; waker = 8 }
        ∷ record { reactor = waiting; now = 99; waker = 8 }
        ∷ [])
      (omega arith) (waiting-Usable, (waiting-Usable, (waiting-Usable, tt))) (omega arith)

abbrev waits : Poll ℕ
waits = pending

poll_timed_decides_example :
    (t' : Delay) × (r' : Reactor) × (poll_waits (delay_until 30) waiting ((25, 14) ∷ (26, 15) ∷ [])
      ≡ some (t', r'))
    × Decided waits 30 28 15 (poll_timed waits t' r' 28 15)
poll_timed_decides_example =
    poll_timed_decides waits 30 waiting ((25, 14) ∷ (26, 15) ∷ []) 28 15 waiting-Usable
      (omega arith, (omega arith, tt))

abbrev idle : IdleTimeout
idle = record { sleep = new 30; idle_timeout = 20; check_interval = 5; last_visited = 11 }

made : new_idle 20 5 10 11 ≡ some idle
unfolding new_idle awak.Time.add_instant
made = refl

poll_idle_keeps_example :
    (t' : IdleTimeout) × (r' : Reactor) × (q : Poll (Timed ℕ)) × (poll_idle waits idle waiting 17 18
        14
      ≡ some (t', r', q))
    × (((idle.sleep.deadline ≤ 17) × (q ≡ ready elapsed))
        ⊎ ((17 < idle.sleep.deadline)
            × (q ≡ pending)
            × Kept 1 t'
            × (t'.idle_timeout ≡ idle.idle_timeout)
            × (t'.check_interval ≡ idle.check_interval)
            × (18 + idle.idle_timeout ≤ t'.sleep.deadline + 1 + idle.check_interval)))
unfolding new
poll_idle_keeps_example =
    poll_idle_keeps idle waiting 17 18 1 14 waiting-Usable
      (record { at_most = omega arith; at_least = omega arith }) (omega arith) (omega arith)
