-- ===== src/Timers/Tests.antt =====
-- Runs of the timers of src/io/reactor.rs at small inputs.
use awak.Prelude.{◌≡◌, refl, some, [], ◌∷◌, map, arith}
use awak.Queue.Fifo.{IsValid}
use awak.Timers.{Reactor, insert, map_insert, insert_timer, process_timers}
use awak.Timers.Process.{view}
use awak.Timers.Insert.{insert_timer_adds}
use awak.Timers.Due.{due, later, Sorted, Sleeps, process_timers_fires, process_timers-Sleeps}

-- A full queue of one operation, and two timers.
abbrev full_reactor : Reactor
full_reactor = record {
  timer_ops = record {
    queue = insert (record { when = 30; id = 3 }) 13 ∷ [];
    length = 1;
    capacity = 1;
  };
  timers = (record { when = 10; id = 1 }, 11) ∷ (record { when = 20; id = 2 }, 12) ∷ [];
  id_generator = 4;
  notifies = 0;
}

full_reactor-IsValid : IsValid full_reactor.timer_ops
full_reactor-IsValid = record { counted = refl; fits = omega arith; small = omega arith }

insert_timer_adds_example :
    (after : Reactor) × (insert_timer 2 full_reactor 15 14 ≡ some (after, 4))
    × (after.id_generator ≡ 5)
    × (after.notifies ≡ 1)
    × IsValid after.timer_ops
    × (after.timer_ops.capacity ≡ 1)
    × (view after ≡ map_insert (record { when = 15; id = 4 }) 14 (view full_reactor))
insert_timer_adds_example =
    insert_timer_adds full_reactor 15 14 0 full_reactor-IsValid (omega arith)

process_timers_fires_example :
    let (r', woken, _) = process_timers full_reactor 20 in
    (woken ≡ map (λ e. e.1) (due 20 (view full_reactor)))
    × (r'.timers ≡ later 20 (view full_reactor))
    × (r'.timer_ops.queue ≡ [])
    × IsValid r'.timer_ops
process_timers_fires_example = process_timers_fires full_reactor 20 full_reactor-IsValid

process_timers-Sleeps_example :
    let (r', _, dur) = process_timers full_reactor 20 in
    Sorted r'.timers × Sleeps 20 (due 20 (view full_reactor)) r'.timers dur
process_timers-Sleeps_example =
    process_timers-Sleeps full_reactor 20 full_reactor-IsValid ((omega arith, tt), (tt, tt))
