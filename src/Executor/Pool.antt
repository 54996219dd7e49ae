-- ===== src/Executor/Pool.antt =====
-- A pool of threads that all run a ticker of one executor of src/executor.rs: polls of `tick` and
-- calls of `schedule`, each whole, in any order. All threads have made their shards.
pub mod Frame
pub mod Agreement
mod Asleep
mod Called
mod Calls
pub mod Served
pub mod Progress
mod Tests
use awak.Prelude.{
  ℕ, suc, ◌≤◌, ◌<◌, ◌≡◌, Option, none, List, [], ◌∷◌, Bool, true, false, ◌||◌, ◌==◌, if◌then◌else◌,
  length,
}
use awak.Sleepers.{Waker}
use awak.Executor.{State, Ticker, new, shard, ticker}
use awak.Executor.World.{update}
use awak.Executor.Search.{Runnable, schedule, tick}
use awak.Executor.Schedule.{IsThread}

-- `woken w`: the waker has been called since its thread last polled its ticker.
pub record Pool : Type 0 where
  pub state : State Runnable
  pub tickers : ℕ → Ticker
  pub woken : Waker → Bool

abbrev pub wake_all : (Waker → Bool) → List Waker → Waker → Bool
wake_all f [] w = f w
wake_all f (x ∷ xs) w = (x == w) || wake_all f xs w

abbrev pub clear : (Waker → Bool) → Waker → Waker → Bool
clear f w v = if w == v then false else f v

abbrev pub waker_of : State Runnable → ℕ → Waker
waker_of st i = (st.local_queue i).waker

-- Thread `i` polls its ticker with its waker.
unfoldable pub poll_tick : Pool → ℕ → ℕ → Pool
unfolding tick
poll_tick s i start =
    let r = tick s.state (s.tickers i) i (waker_of s.state i) start in
    record {
      state = r.state;
      tickers = update s.tickers i r.ticker;
      woken = wake_all (clear s.woken (waker_of s.state i)) r.woken;
    }

unfoldable pub call_schedule : Pool → Option ℕ → Runnable → Pool
unfolding schedule
call_schedule s caller task =
    let r = schedule s.state caller task in
    record s { state = r.state; woken = wake_all s.woken r.woken }

-- The global queue has room: its bound is the largest `usize`.
pub data Step (s : Pool) : Pool → Type 0 where
  polls :
      (i start : ℕ) → i < s.state.threads → start ≤ s.state.threads → Step s (poll_tick s i start)
  schedules :
      (caller : Option ℕ) (task : Runnable)
      → IsThread s.state.threads caller
      → length s.state.queue.queue < s.state.queue.capacity
      → Step s (call_schedule s caller task)

-- `threads` threads have entered `run`; the waker of thread `i` is `i`.
unfoldable pub start : ℕ → Pool
unfolding new shard ticker
start threads = record {
  state = record new { threads = threads; local_queue = shard };
  tickers = λ _. ticker;
  woken = λ _. false;
}

-- The pools of `threads` threads that `n` calls lead to.
pub data Reach (threads : ℕ) : ℕ → Pool → Type 0 where
  here : Reach threads 0 (start threads)
  next : {n : ℕ} {s t : Pool} → Reach threads n s → Step s t → Reach threads (suc n) t
