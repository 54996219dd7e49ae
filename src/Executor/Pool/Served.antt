-- ===== src/Executor/Pool/Served.antt =====
-- What the pool of src/executor.rs holds, and who is up to run it, after a poll of `tick` or a call
-- of `schedule`.
use awak.Prelude.{
  ℕ, zero, suc, ◌+◌, ◌≤◌, ◌<◌, ◌≡◌, refl, sym, ap, ◌∙◌, subst, ◌⊎◌, inl, inr, Option, none, some,
  List, [], ◌∷◌, Bool, true, length, Option-cases, ==_of_eq, arith,
}
use awak.Sleepers
use awak.Sleepers.{Waker}
use awak.Sleepers.Refine
use awak.Executor.{State, Ticker, wake}
use awak.Executor.World.{Agrees}
use awak.Executor.Search.{Runnable, tick, schedule, search}
use awak.Executor.Contents.{copies, shard_count, Stores}
use awak.Executor.Conserve.{search_finds}
use awak.Executor.Tick.{tick_conserves}
use awak.Executor.Schedule.{IsThread, Woken, schedule-Queues}
use awak.Executor.Pool.{Pool, wake_all, waker_of, poll_tick, call_schedule, start}
use awak.Executor.Pool.Frame.{schedule-Told, Told-threads, Told-wakers}
use awak.Executor.Pool.Called.{Called, someone}
use awak.Executor.Pool.Agreement.{Leaves}

-- Somebody is up: a ticker that is awake, or one whose waker has been called since its thread last
-- polled it.
pub data Up (s : Pool) : Type 0 where
  awake : (i : ℕ) → i < s.state.threads → (s.tickers i).sleeping ≡ 0 → Up s
  called : (i : ℕ) → i < s.state.threads → s.woken (waker_of s.state i) ≡ true → Up s

-- How often the queue and the rings hold task `a`, when they hold `q` and `c`.
abbrev pub all_copies : ℕ → List ℕ → (ℕ → List ℕ) → ℕ → ℕ
all_copies a q c n = copies a q + shard_count a c n

-- What the queue and the rings hold, and that it is nothing, or somebody is up.
pub record Served (s : Pool) : Type 0 where
  pub exponent : ℕ
  pub waiting : List ℕ
  pub held : ℕ → List ℕ
  pub stored : Stores exponent s.state waiting held
  pub up : ((a : ℕ) → all_copies a waiting held s.state.threads ≡ 0) ⊎ Up s

pub empty_shards :
    (a : ℕ) (c : ℕ → List ℕ) (n : ℕ) → ((j : ℕ) → j < n → c j ≡ []) → shard_count a c n ≡ 0
unfolding shard_count
empty_shards a c zero h = refl
empty_shards a c (suc n) h =
    rw (h n (omega arith)) (omega (arith, empty_shards a c n (λ j l. h j (omega arith))))

tick-awake :
    (st : State Runnable) (t : Ticker) (me : ℕ) (w : Waker) (start : ℕ) (r : Runnable)
    → (search st me start).found ≡ some r
    → (tick st t me w start).ticker.sleeping ≡ 0
unfolding tick wake
tick-awake st t me w start r e = rw (e, tick) (ground arith)

wake_all_head : (f : Waker → Bool) (w : Waker) → wake_all f (w ∷ []) w ≡ true
wake_all_head f w = rw (==_of_eq w w refl) refl

pub tick-Served :
    (s : Pool) (i start : ℕ)
    → i < s.state.threads
    → start ≤ s.state.threads
    → Leaves s.state (poll_tick s i start).state (poll_tick s i start).tickers
    → Served s
    → Served (poll_tick s i start)
unfolding poll_tick
tick-Served s i start below at_most l h =
    let w = waker_of s.state i in
    let k = tick_conserves h.stored (s.tickers i) i w start below in
    elim (Option-cases (search s.state i start).found) [
      | inl e ↦
          let (queue, rings) = search_finds i start h.stored below at_most e in
          record {
            exponent = h.exponent;
            waiting = k.waiting;
            held = k.held;
            stored = k.stored;
            up = inl (λ a.
                subst (λ n. all_copies a k.waiting k.held n ≡ 0) (sym l.threads)
                  (omega (
                    arith,
                    k.counted a,
                    ap (copies a) queue,
                    empty_shards a h.held s.state.threads rings,
                  )));
          }
      | inr (r, e) ↦ record {
        exponent = h.exponent;
        waiting = k.waiting;
        held = k.held;
        stored = k.stored;
        up = inr (
            awake i (subst (λ n. i < n) (sym l.threads) below)
              (rw (==_of_eq i i refl) (tick-awake s.state (s.tickers i) i w start r e)));
      }
    ]

somebody :
    (s : Pool) (caller : Option ℕ) (task : Runnable) (threads : ℕ)
    → 0 < threads
    → s.state.threads ≡ threads
    → ((i : ℕ) → waker_of s.state i ≡ i)
    → IsThread s.state.threads caller
    → let r = schedule s.state caller task in
      Agrees r.state s.tickers
      → Called r.state s.tickers (wake_all s.woken r.woken) threads
      → Woken s.state caller r ⊎ (r.state.notified ≡ true)
      → Up (record s { state = r.state; woken = wake_all s.woken r.woken })
somebody s caller task threads some_thread fixed wakers thread a k (inr set) =
    let r = schedule s.state caller task in
    let woken = wake_all s.woken r.woken in
    let t = schedule-Told s.state caller task in
    let picked = Sleepers.Refine.is_notified_refines a.tracks ∙ a.set_right set in
    let (i, below, up) = someone r.state s.tickers woken threads some_thread k picked in
    let is_thread : i < r.state.threads = omega (arith, Told-threads t, fixed, below) in
    elim up [
      | inl e ↦ awake i is_thread e
      | inr e ↦ called i is_thread (ap woken (Told-wakers i t ∙ wakers i) ∙ e)
    ]
somebody s none task threads some_thread fixed wakers thread a k (inl w) = absurd w
somebody s (some i) task threads some_thread fixed wakers thread a k (inl w) =
    let t = schedule-Told s.state (some i) task in
    called i (subst (λ n. i < n) (sym (Told-threads t)) thread)
      (rw (w, Told-wakers i t) (wake_all_head s.woken (waker_of s.state i)))

pub schedule-Served :
    (s : Pool) (caller : Option ℕ) (task : Runnable) (threads : ℕ)
    → 0 < threads
    → s.state.threads ≡ threads
    → ((i : ℕ) → waker_of s.state i ≡ i)
    → let s' = call_schedule s caller task in
      Called s'.state s'.tickers s'.woken threads
      → IsThread s.state.threads caller
      → length s.state.queue.queue < s.state.queue.capacity
      → Leaves s.state (call_schedule s caller task).state s.tickers
      → Served s
      → Served (call_schedule s caller task)
unfolding call_schedule
schedule-Served s caller task threads some_thread fixed wakers c thread room l h =
    let k =
      schedule-Queues h.stored caller task thread
        (subst (λ q. length q < s.state.queue.capacity) h.stored.queue.1 room) in
    record {
      exponent = h.exponent;
      waiting = k.waiting;
      held = k.held;
      stored = k.stored;
      up = inr (somebody s caller task threads some_thread fixed wakers thread l.agrees c k.wakes);
    }
