-- ===== src/Executor/Tick.antt =====
-- `tick` of src/executor.rs over what the queue and the rings hold.
use awak.Prelude.{
  ℕ, ◌%◌, ◌<◌, ◌≡◌, sym, subst, inl, inr, Option, none, some, List, ◌++◌, ◌==◌, take, drop, length,
  append-nil, Bool-cases, Option-cases, arith,
}
use awak.Local.Fifo.{Holds}
use awak.Sleepers.{Waker}
use awak.Executor.{State, Ticker, notify, sleep, wake}
use awak.Executor.Search.{Runnable, search, steal_global, tick}
use awak.Executor.Contents.{
  copies-append, copies-take-drop, replace, shard_count-replace, Stores, share, steal_global_moves,
}
use awak.Executor.Shards.{Kept}
use awak.Executor.Conserve.{search_conserves}

-- Neither `sleep` nor `wake` nor `notify` touches a task.
pub record Untouched (st st' : State Runnable) : Type 0 where
  pub queue : st'.queue ≡ st.queue
  pub shards : (i : ℕ) → st'.local_queue i ≡ st.local_queue i

sleep-Untouched : (st : State Runnable) (t : Ticker) (w : Waker) → Untouched st (sleep st t w).0
unfolding sleep
sleep-Untouched st t w = record { queue = ground arith; shards = λ i. ground arith }

wake-Untouched : (st : State Runnable) (t : Ticker) → Untouched st (wake st t).0
unfolding wake
wake-Untouched st t = record { queue = ground arith; shards = λ i. ground arith }

pub notify-Untouched : (st : State Runnable) → Untouched st (notify st).0
unfolding notify
notify-Untouched st = record { queue = ground arith; shards = λ i. ground arith }

pub Stores-same :
    {k : ℕ} {st st' : State Runnable} {q : List ℕ} {c : ℕ → List ℕ}
    → Untouched st st'
    → Stores k st q c
    → Stores k st' q c
Stores-same {k} {c = c} u s = record {
  queue = rw u.queue s.queue;
  shards = λ i. subst (λ l. Holds k l.ring (c i)) (sym (u.shards i)) (s.shards i);
}

module _ {k n : ℕ} {q : List ℕ} {c : ℕ → List ℕ} {st : State Runnable} {found : Option Runnable}
    {dropped : List Runnable} (kept : Kept k n q c st found dropped) where
  Kept-same : {st' : State Runnable} → Untouched st st' → Kept k n q c st' found dropped
  Kept-same u = record {
    waiting = kept.waiting;
    held = kept.held;
    stored = Stores-same u kept.stored;
    counted = kept.counted;
    none_lost = kept.none_lost;
  }

  -- A further steal from the global queue only moves tasks.
  Kept-steal_global :
      (me : ℕ)
      → me < n
      → let (st', more) = steal_global st me in Kept k n q c st' found (dropped ++ more)
  Kept-steal_global me below =
      let (stored, none_lost) = steal_global_moves kept.stored me in
      let m = share kept.stored me (length kept.waiting) in
      let moved = kept.held me ++ take m kept.waiting in
      record {
        waiting = drop m kept.waiting;
        held = replace kept.held me moved;
        stored = stored;
        counted = λ a. omega (
          arith,
          kept.counted a,
          shard_count-replace a kept.held me moved n below,
          copies-append a (kept.held me) (take m kept.waiting),
          copies-take-drop a m kept.waiting,
        );
        none_lost = rw (kept.none_lost, none_lost);
      }

module _ {k : ℕ} {st : State Runnable} {q : List ℕ} {c : ℕ → List ℕ} (s : Stores k st q c)
    (t : Ticker) (me : ℕ) (waker : Waker) (start : ℕ) (below : me < st.threads) where
  searched :
      (found : Option Runnable)
      → (search st me start).found ≡ found
      → Kept k st.threads q c (search st me start).state found (search st me start).dropped
  searched found e =
      subst (λ o. Kept k st.threads q c (search st me start).state o (search st me start).dropped) e
        (search_conserves me start s below)

  -- Let the queue hold `q`, shard `i` hold `c i` in a ring of `2 ^ k` slots, and `me` be a thread
  -- of the executor. A poll of `tick` by it, with any ticker and from any starting point, keeps the
  -- queue and the rings well-formed; the tasks that they hold, with the one that is returned, are
  -- those of before, each as often; and none is dropped by a failed push.
  pub tick_conserves :
      let r = tick st t me waker start in Kept k st.threads q c r.state r.ready r.dropped
  unfolding tick
  tick_conserves = elim (Option-cases (search st me start).found) [
    | inl e ↦
        rw (e, tick)
          (Kept-same (searched none e) (sleep-Untouched (search st me start).state t waker))
    | inr (r, e) ↦
        let found = search st me start in
        let up = wake found.state t in
        let awake = Kept-same (searched (some r) e) (wake-Untouched found.state t) in
        let told = Kept-same awake (notify-Untouched up.0) in
        elim (Bool-cases (up.1.ticks % 64 == 0)) [
          | inl fair ↦ rw (e, tick, fair) (Kept-steal_global told me below)
          | inr not_now ↦ rw (e, tick, not_now, append-nil found.dropped) told
        ]
  ]
