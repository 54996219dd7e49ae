-- ===== src/Local/Tests.antt =====
-- Runs of the ring of src/executor.rs at small inputs.
use awak.Prelude.{ℕ, ◌-◌, ◌^◌, ◌≡◌, refl, none, some, List, [], ◌∷◌, arith}
use awak.Queue.{Queue}
use awak.Local.{Local, value, error_empty, ok, error_full, next_power_of_two, steal}
use awak.Local.Fifo.{
  Holds, Call, pushes, pops, lens, pushed, popped, counted, run, spec_run, ring_refines,
}
use awak.Local.Steal.{Moves, QueueHolds, queue_source, pop_queue, steal-Moves}

-- Two slots, one value, and positions about to wrap.
abbrev wrapping : Local ℕ
wrapping = record {
  head = 2 ^ 64 - 1;
  tail = 0;
  mask = 1;
  buffer = none ∷ some 4 ∷ [];
  capacity = 2;
}

abbrev calls : List (Call ℕ)
calls = pushes 5 ∷ pushes 6 ∷ lens ∷ pops ∷ pops ∷ pops ∷ []

wrapping-Holds : Holds 1 wrapping (4 ∷ [])
wrapping-Holds = record {
  width = omega arith;
  sized = refl;
  masked = refl;
  slots = refl;
  in_range = omega arith;
  ends = refl;
  room = omega arith;
  held = (refl, tt);
}

run_to_the_end :
    run wrapping calls
    ≡ pushed ok
      ∷ pushed (error_full 6)
      ∷ counted 2
      ∷ popped (value 4)
      ∷ popped (value 5)
      ∷ popped error_empty
      ∷ []
unfolding run
run_to_the_end = refl

ticker_ring : next_power_of_two 512 ≡ 512
unfolding next_power_of_two
ticker_ring = refl

ring_refines_example : run wrapping calls ≡ spec_run 2 (4 ∷ []) calls
ring_refines_example = ring_refines calls wrapping-Holds

abbrev three : Queue ℕ
three = record { queue = 7 ∷ 8 ∷ 9 ∷ []; length = 3; capacity = 10 }

three-QueueHolds : QueueHolds three (7 ∷ 8 ∷ 9 ∷ [])
three-QueueHolds = (omega arith, refl)

steal-Moves_example :
    Moves 1 1 QueueHolds (4 ∷ []) (7 ∷ 8 ∷ 9 ∷ []) (steal pop_queue wrapping 3 three)
steal-Moves_example = steal-Moves queue_source 3 (7 ∷ 8 ∷ 9 ∷ []) wrapping-Holds three-QueueHolds
