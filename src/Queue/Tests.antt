-- ===== src/Queue/Tests.antt =====
-- Runs of src/queue.rs at small inputs.
use awak.Prelude.{ℕ, ◌≡◌, refl, List, [], ◌∷◌, arith}
use awak.Queue.{ok, err, full, empty, bound}
use awak.Queue.Fifo.{
  Call, pushes, pops, lens, pushed, popped, counted, run, spec_run, bound-IsValid, run_refines,
}

abbrev calls : List (Call ℕ)
calls = pushes 5 ∷ pushes 6 ∷ pushes 7 ∷ lens ∷ pops ∷ pops ∷ pops ∷ []

run_two :
    run (bound 2) calls
    ≡ pushed (ok tt)
      ∷ pushed (ok tt)
      ∷ pushed (err full)
      ∷ counted 2
      ∷ popped (ok 5)
      ∷ popped (ok 6)
      ∷ popped (err empty)
      ∷ []
unfolding run bound
run_two = refl

run_refines_example : run (bound 2) calls ≡ spec_run 2 [] calls
unfolding bound
run_refines_example = run_refines calls (bound 2) (bound-IsValid 2 (omega arith))
