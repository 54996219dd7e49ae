-- ===== src/Local/Race/Tests.antt =====
-- A race of two threads for one value of the ring of src/executor.rs.
use awak.Prelude.{ℕ, ◌≡◌, refl, List, [], ◌∷◌, ◌++◌, map, arith}
use awak.Local.{value, slot, new, next_power_of_two}
use awak.Local.Fifo.{Holds}
use awak.Local.Race.{
  System, push_load, push_write, push_store, pop_load, pop_test, pop_read, pop_win, pop_lose, Reach,
  here, next,
}
use awak.Local.Race.Safety.{popped-pushed}

-- 5 and 6 are pushed; threads 0 and 1 both read 5, thread 0 wins, and thread 1 has to load again.
race : (s : System ℕ) × Reach 2 s
unfolding new slot next_power_of_two
race =
    let pushed_5 =
      next (next (next here (push_load 5 refl)) (push_write 5 0 refl (omega arith)))
        (push_store 5 refl) in
    let pushed_6 =
      next (next (next pushed_5 (push_load 6 refl)) (push_write 6 0 refl (omega arith)))
        (push_store 6 refl) in
    let loaded = next (next pushed_6 (pop_load 0 refl)) (pop_load 1 refl) in
    let tested =
      next (next loaded (pop_test 0 0 refl (omega arith))) (pop_test 1 0 refl (omega arith)) in
    let read = next (next tested (pop_read 0 0 refl)) (pop_read 1 0 refl) in
    (_, next (next read (pop_win 0 0 _ refl refl)) (pop_lose 1 0 _ refl (omega arith)))

race_result : (race.0.popped ≡ value 5 ∷ []) × (race.0.pushed ≡ 5 ∷ 6 ∷ [])
unfolding race
race_result = (refl, refl)

popped-pushed_example :
    (k : ℕ) × (xs : List ℕ) × Holds k race.0.ring xs
    × (race.0.popped ++ map value xs ≡ map value race.0.pushed)
unfolding race
popped-pushed_example = popped-pushed {n = 2} (omega arith) race.1 (omega arith)
