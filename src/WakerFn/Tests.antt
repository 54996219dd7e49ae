-- ===== src/WakerFn/Tests.antt =====
-- Tests of `waker_fn`, and the theorem about it applied at a concrete input.
use awak.Prelude.{◌<◌, ◌≡◌, refl, false, arith}
use awak.WakerFn.{
  World, Reach, here, next, clones, wakes_once, waker_fn, clone, wake, wake_by_ref, drop,
}
use awak.WakerFn.Safety.{Owned, Works, no_use_after_free}

-- A clone is woken, and the closure runs.
run : (w : World) × Reach w
unfolding waker_fn clone wake drop
run = (_, next (next here (clones (omega arith) refl)) (wakes_once (omega arith) refl))

run_counts : run.0.block ≡ record { strong = 2; freed = false; calls = 1 }
unfolding run
run_counts = refl

woken_clone_runs : 0 < run.0.live
unfolding run
woken_clone_runs = omega arith

no_use_after_free_example :
    Owned run.0
    × Works (clone run.0.block)
    × Works (wake run.0.block)
    × Works (wake_by_ref run.0.block)
    × Works (drop run.0.block)
no_use_after_free_example = no_use_after_free run.1 woken_clone_runs
