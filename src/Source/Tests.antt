-- ===== src/Source/Tests.antt =====
-- A task that waits for a source of src/io/reactor.rs, and its event.
use awak.Prelude.{[], ℕ, ◌≡◌, ◌≢◌, refl, ◌⊎◌, true, false, arith}
use awak.Sleepers.{Waker}
use awak.Source.{read, write, Event, ready, handle, poll_ready, will_wake}
use awak.Source.Ready.{System, polls, start, Reach, starts, steps}
use awak.Source.Events.{waiter_kept, event_wakes}

-- Waker 7 waits for reading at tick 5.
run : (c : System) × Reach c
run = (_, steps (starts 3 0 5) (polls read 7))

run_waits : will_wake 7 (run.0.source.states read).wakers ≡ true
unfolding run start poll_ready
run_waits = refl

abbrev readable : Event
readable = record { key = 0; readable = true; writable = false }

run_ticker : run.0.ticker ≡ 5
unfolding run start
run_ticker = refl

run_tick : (run.0.source.states read).tick ≡ 0
unfolding run start poll_ready
run_tick = refl

waiter_kept_example :
    ((other : Waker) (t : ℕ) → (poll_ready run.0.source read other t).1 ≢ ready)
    × ((will_wake 7 ((poll_ready run.0.source write 8 run.0.ticker).0.states read).wakers ≡ true)
        ⊎ (will_wake 7 [] ≡ true))
waiter_kept_example = waiter_kept read 7 run.1 run_waits (polls write 8)

event_wakes_example :
    (will_wake 7 (handle run.0.source run.0.ticker readable).1 ≡ true)
    × ((other : Waker) (t : ℕ)
        → (poll_ready (handle run.0.source run.0.ticker readable).0 read other t).1 ≡ ready)
event_wakes_example =
    event_wakes read 7 readable run.1 run_waits refl (omega (arith, run_ticker))
      (omega (arith, run_ticker, run_tick))
