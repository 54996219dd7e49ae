-- ===== src/Reactor/Tests.antt =====
-- Runs of `react` of src/io/reactor.rs at small inputs.
use awak.Prelude.{◌≡◌, ◌⊎◌, refl, none, some, List, [], ◌∷◌, ◌++◌, map, true, false, arith}
use awak.Queue.Fifo.{IsValid}
use awak.Sleepers.{Waker}
use awak.Timers.Process.{view}
use awak.Timers.Due.{due}
use awak.Reactor.{Reactor, Waited, events, react}
use awak.Reactor.Thread.{Thread, Round, reacts, round, round-reacts}
use awak.Reactor.React.{grants, react_wakes_due}

-- A timer that is due at 15, and a source that waker 7 waits for.
abbrev busy : Reactor
busy = record {
  timers = record {
    timer_ops = record { queue = []; length = 0; capacity = 1 };
    timers = (record { when = 10; id = 1 }, 11) ∷ [];
    id_generator = 2;
    notifies = 0;
  };
  ticker = 5;
  sources = λ key. some (record {
    raw = 3;
    key = key;
    states = λ o. record { wakers = 7 ∷ []; tick = 0; ticks = some (5, 0) };
  });
}

abbrev readable : Waited
readable = events (record { key = 0; readable = true; writable = false } ∷ [])

busy-IsValid : IsValid busy.timers.timer_ops
busy-IsValid = record { counted = refl; fits = omega arith; small = omega arith }

react_wakes_due_example :
    (more : List Waker) × ((react grants busy none 15 readable 16).woken
      ≡ map (λ e. e.1) (due 15 (view busy.timers)) ++ more)
react_wakes_due_example = react_wakes_due busy none 15 readable 16 busy-IsValid

-- Another thread has reacted since the last round, and the reactor lock is taken in the first.
abbrev busy_round : Round
busy_round = record {
  tick = 6;
  is_free = false;
  tick_after = 7;
  block_on_count = 1;
  notified = false;
  tick_then = 6;
}

round-reacts_example :
    let late : Thread = record { last_tick = 5; sleeps = 3 } in
    let free_round : Round = record busy_round { is_free = true } in
    (reacts late busy_round ≡ true) ⊎ (reacts (round late busy_round).0 free_round ≡ true)
round-reacts_example =
    round-reacts (record { last_tick = 5; sleeps = 3 }) busy_round
      (record busy_round { is_free = true }) refl refl refl
