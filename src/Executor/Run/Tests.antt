-- ===== src/Executor/Run/Tests.antt =====
-- A run of `Ticker::run` at a small input, and the theorem about it applied to it.
use awak.Prelude.{ℕ, zero, suc, ◌≡◌, refl, Option, none, some, ◌∷◌, [], arith}
use awak.Executor.Run.{ticking, poll_run, inner}
use awak.Executor.Run.Turns.{Turn, poll_run-Turn}

-- A tick finds a task as long as the state is not zero.
abbrev tick : ℕ → ℕ × Option ℕ
tick zero = (0, none)
tick (suc n) = (n, some n)

ends_in_tick : (poll_run tick (λ t s. s) (ticking 197) 2).run ≡ 1 ∷ 0 ∷ []
unfolding poll_run inner
ends_in_tick = refl

poll_run-Turn_example : Turn 197 (poll_run tick (λ t s. s) (ticking 197) 5)
poll_run-Turn_example = poll_run-Turn tick (λ t s. s) (ticking 197) 5 (omega arith)
