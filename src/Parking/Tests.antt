-- ===== src/Parking/Tests.antt =====
-- A run of src/parking.rs: the parker goes to sleep, and is notified.
use awak.Prelude.{ℕ, ◌+◌, ◌≡◌, refl, none, ◌==◌, if◌then◌else◌, arith}
use awak.Parking.{
  notified, ParkPc, ParkMove, call, go_slow, set_parked, wait, find_parked, System, parks, unparks,
  Reach, here, next,
}
use awak.Parking.Invariant.{Pending}
use awak.Parking.Safety.{no_lost_wakeup, tokens_taken_once}

run : (s : System) × Reach s
run =
    let entered = next (next here (parks (call none))) (parks (go_slow (omega arith) (λ e. cc))) in
    let parked = next (next entered (parks (ParkMove.acquire refl))) (parks (set_parked refl)) in
    (_, next (next parked (parks wait)) (unparks 0 (find_parked refl)))

run_result :
    (run.0.parker ≡ ParkPc.waiting none) × (run.0.inner.state ≡ 2) × (run.0.inner.given ≡ 1)
unfolding run
run_result = (refl, refl, refl)

no_lost_wakeup_example : (i : ℕ) × Pending (run.0.unparker i)
unfolding run
no_lost_wakeup_example = no_lost_wakeup {t = none} run.1 refl refl

tokens_taken_once_example :
    run.0.inner.given ≡ run.0.inner.taken + (if run.0.inner.state == notified then 1 else 0)
tokens_taken_once_example = tokens_taken_once run.1
