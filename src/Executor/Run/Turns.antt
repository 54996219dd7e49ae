-- ===== src/Executor/Run/Turns.antt =====
-- How many tasks a poll of `Ticker::run` of src/executor.rs runs, and how it ends.
use awak.Prelude.{
  ℕ, zero, suc, ◌+◌, ◌-◌, ◌<◌, ◌≡◌, refl, ◌⊎◌, inl, inr, Option, true, false, length, Option-cases,
  arith,
}
use awak.Executor.Run.{At, ticking, yielding, Polled, tasks_per_turn, inner, poll_run, poll_yield}

-- The tasks run since the last turn ended.
abbrev pub so_far : At → ℕ
so_far (ticking i) = i
so_far (yielding done) = 0

-- Where the future is between two polls: within the inner loop, or after a first poll of
-- `yield_now`.
abbrev pub IsSuspended : At → Type 0
IsSuspended (ticking i) = i < tasks_per_turn
IsSuspended (yielding done) = done ≡ true

-- With `n` tasks run before in this turn: `tick` has found none, and the task waits to be woken; or
-- the turn is over after `tasks_per_turn` tasks in all, and the task has woken itself.
pub Turn : {S T : Type 0} → ℕ → Polled S T → Type 0
Turn n p =
    ((i : ℕ) × (p.at ≡ ticking i)
      × (i < tasks_per_turn)
      × (n + length p.run ≡ i)
      × (p.woke_itself ≡ false))
    ⊎ ((p.at ≡ yielding true) × (n + length p.run ≡ tasks_per_turn) × (p.woke_itself ≡ true))

module _ {S T : Type 0} (tick : S → S × Option T) (run_task : T → S → S) where
  inner-Turn :
      (i left : ℕ) (s : S) → i + left ≡ tasks_per_turn → Turn i (inner tick run_task i left s)
  unfolding inner poll_yield Turn
  inner-Turn i zero s e = inr (refl, omega (arith, e), refl)
  inner-Turn i (suc left) s e = elim (Option-cases (tick s).1) [
    | inl nothing ↦ rw (nothing, inner) (inl (i, refl, omega (arith, e), omega arith, refl))
    | inr (t, found) ↦
        rw (found, inner)
          (elim (inner-Turn (i + 1) left (run_task t (tick s).0) (omega (arith, e))) [
            | inl (j, at, below, counted, woke) ↦ inl (j, at, below, omega (arith, counted), woke)
            | inr (at, counted, woke) ↦ inr (at, omega (arith, counted), woke)
          ])
  ]

  -- Whatever `tick` finds and the tasks do: a poll of the future of `run` that is suspended as
  -- polls leave it returns, leaves it so again, and runs at most the tasks that are left of the 200
  -- of the turn. It ends because `tick` is pending, with fewer than 200 tasks run since the turn
  -- began; or after exactly 200, in `yield_now`, and then the task has woken itself.
  pub poll_run-Turn :
      (at : At) (s : S) → IsSuspended at → Turn (so_far at) (poll_run tick run_task at s)
  unfolding poll_run poll_yield
  poll_run-Turn (ticking i) s h = inner-Turn i (tasks_per_turn - i) s (omega (arith, h))
  poll_run-Turn (yielding true) s h = inner-Turn 0 tasks_per_turn s refl
  poll_run-Turn (yielding false) s h = cc
