-- ===== src/Executor/Run.antt =====
-- The loops of `Ticker::run` of src/executor.rs with `yield_now`: a poll of its future, which polls
-- `tick` and runs what it gives until `tick` is pending or 200 tasks have been run.
pub mod Turns
mod Tests
use awak.Prelude.{
  ℕ, zero, suc, ◌+◌, ◌-◌, Option, none, some, List, [], ◌∷◌, Bool, true, false, ◌==◌, if◌then◌else◌,
}
use awak.CopyBuffer.{Poll, ready, pending}

-- `YieldNow`: its field, and whether it wakes the task that polls it.
unfoldable pub poll_yield : Bool → Bool × Bool × Poll (Unit {0})
poll_yield done = if done then (true, false, ready tt) else (true, true, pending)

-- Where the future of `run` is suspended: in the `tick` of round `i` of the inner loop, or in the
-- `yield_now` after it, with its field.
pub data At : Type 0 where
  ticking : ℕ → At
  yielding : Bool → At

-- What a poll leaves: the state, where it is suspended, the tasks run, in order, and whether the
-- task woke itself.
pub record Polled (S T : Type 0) : Type 0 where
  pub state : S
  pub at : At
  pub run : List T
  pub woke_itself : Bool

-- The tasks that the inner loop runs before it yields.
abbrev pub tasks_per_turn : ℕ
tasks_per_turn = 200

-- `S` is all that a poll of `tick`, and a task that runs, may change. The inner loop is
-- in round `i`, with `left` rounds to go.
module _ {S T : Type 0} (tick : S → S × Option T) (run_task : T → S → S) where
  unfoldable pub inner : ℕ → ℕ → S → Polled S T
  unfolding poll_yield
  inner i zero s =
      let (done, wakes, r) = poll_yield false in
      record { state = s; at = yielding done; run = []; woke_itself = wakes }
  inner i (suc left) s =
      let (s', found) = tick s in
      elim found [
        | none ↦ record { state = s'; at = ticking i; run = []; woke_itself = false }
        | some t ↦
            let rest = inner (i + 1) left (run_task t s') in record rest { run = t ∷ rest.run }
      ]

  -- A poll of the future: `tick` is polled again, or `yield_now`.
  unfoldable pub poll_run : At → S → Polled S T
  unfolding poll_yield
  poll_run (ticking i) s = inner i (tasks_per_turn - i) s
  poll_run (yielding done) s =
      let (done', wakes, r) = poll_yield done in
      elim r [
        | ready _ ↦ inner 0 tasks_per_turn s
        | pending ↦ record { state = s; at = yielding done'; run = []; woke_itself = wakes }
      ]
