-- ===== src/Executor.antt =====
-- `State` and `Ticker` of src/executor.rs: how tickers go to sleep and are woken. Each of `sleep`,
-- `wake` and `notify` is one step here; the source holds the lock of `sleepers` for the whole of
-- `sleep`, and for all of `wake` but the swap of the ticker's own `sleeping`.
pub mod World
mod Settle
mod Agree
pub mod Wakeups
pub mod Search
pub mod Contents
mod Rotation
pub mod Shards
pub mod Conserve
pub mod Tick
pub mod Schedule
pub mod Pool
mod Gap
pub mod Run
mod Tests
use awak.Prelude.{ℕ, ◌+◌, Option, none, some, [], Bool, true, false, ◌==◌, if◌then◌else◌}
use awak.Queue
use awak.Queue.{Queue}
use awak.Local
use awak.Local.{Local}
use awak.Sleepers
use awak.Sleepers.{Sleepers, Waker}

-- `local` and `waker` of a ticker's shard.
pub record LocalQueue {ℓ} (A : Type ℓ) : Type ℓ where
  pub ring : Local A
  pub waker : Waker

-- `local_queue i` is the shard of the thread that comes `i`-th in the iterator of the thread-local;
-- there is one for each `i` below `threads`.
pub record State {ℓ} (A : Type ℓ) : Type ℓ where
  pub queue : Queue A
  pub notified : Bool
  pub local_queue : ℕ → LocalQueue A
  pub threads : ℕ
  pub sleepers : Sleepers

pub record Ticker : Type 0 where
  pub sleeping : ℕ
  pub ticks : ℕ

module _ {ℓ} {A : Type ℓ} where
  -- The shard that `run` makes for its thread.
  unfoldable pub shard : Waker → LocalQueue A
  shard waker = record { ring = Local.new 512; waker = waker }

  -- `Executor::new`
  unfoldable pub new : State A
  unfolding Queue.unbound shard
  new = record {
    queue = Queue.unbound;
    notified = false;
    local_queue = λ _. shard 0;
    threads = 0;
    sleepers = record { count = 0; wakers = []; id_gen = 1 };
  }

  -- The state, and the waker that is woken.
  unfoldable pub notify : State A → State A × Option Waker
  notify st =
      if st.notified
      then (st, none)
      else (let (sleepers, waker) = Sleepers.notify st.sleepers in
          (record st { notified = true; sleepers = sleepers }, waker))

  -- `self.state.notified.swap(sleepers.is_notified())` with the new list of sleepers.
  abbrev pub settle : State A → Sleepers → State A
  settle st sleepers = record st { sleepers = sleepers; notified = Sleepers.is_notified sleepers }

  unfoldable pub sleep : State A → Ticker → Waker → State A × Ticker × Bool
  sleep st t waker =
      if t.sleeping == 0
      then (let (sleepers, id) = Sleepers.insert st.sleepers waker in
          (settle st sleepers, record t { sleeping = id }, true))
      else (let (sleepers, moved) = Sleepers.update st.sleepers t.sleeping waker in
          if moved
          then (settle st sleepers, t, true)
          else (record st { sleepers = sleepers }, t, false))

  unfoldable pub wake : State A → Ticker → State A × Ticker
  wake st t =
      if t.sleeping == 0
      then (st, t)
      else (settle st (Sleepers.remove st.sleepers t.sleeping), record t { sleeping = 0 })

-- `Executor::ticker`
unfoldable pub ticker : Ticker
ticker = record { sleeping = 0; ticks = 0 }
