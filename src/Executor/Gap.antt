-- ===== src/Executor/Gap.antt =====
-- What `tick` of src/executor.rs leaves open between the search that finds nothing and the `sleep`
-- that follows it: a task that another thread schedules there.
use awak.Prelude.{
  ℕ, zero, suc, ◌+◌, ◌≤◌, ◌<◌, ◌≡◌, ◌≢◌, refl, ap, ◌∙◌, inl, inr, none, [], ◌∷◌, ◌++◌, true, false,
  ◌==◌, length, length-append, word, Bool-cases, ==_of_ne, ne_of_==, wrapping_add, arith,
}
use awak.Queue
use awak.Queue.Fifo
use awak.Sleepers
use awak.Sleepers.{Waker}
use awak.Executor.{State, Ticker, notify, sleep}
use awak.Executor.World.{update}
use awak.Executor.Search.{Runnable, schedule, schedule_global}
use awak.Executor.Schedule.{push-QueueHolds}

-- The tickers of threads 0, …, `n - 1` go to sleep one after the other.
unfoldable pub sleep_all :
    State Runnable → (ℕ → Ticker) → (ℕ → Waker) → ℕ → State Runnable × (ℕ → Ticker)
sleep_all st f waker zero = (st, f)
sleep_all st f waker (suc n) =
    let (st', f') = sleep_all st f waker n in
    let (asleep, t, _) = sleep st' (f' n) (waker n) in (asleep, update f' n t)

record Asleep (st : State Runnable) (f : ℕ → Ticker) (n : ℕ) (st' : State Runnable)
    (f' : ℕ → Ticker) : Type 0 where
  queue : st'.queue ≡ st.queue
  count : st'.sleepers.count ≡ n
  wakers : length st'.sleepers.wakers ≡ n
  id_gen : st'.sleepers.id_gen ≡ st.sleepers.id_gen + n
  notified : 0 < n → st'.notified ≡ false
  asleep : (i : ℕ) → i < n → (f' i).sleeping ≢ 0
  others : (i : ℕ) → n ≤ i → f' i ≡ f i

-- With `notified` set, `schedule` of a thread without a shard only queues the task.
flag_is_set :
    (st : State Runnable) (task : Runnable)
    → ((Queue.push st.queue task).1 ≡ Queue.ok tt)
    → st.notified ≡ true
    → schedule st none task ≡ record {
      state = record st { queue = (Queue.push st.queue task).0 };
      woken = [];
      panicked = false;
    }
unfolding schedule schedule_global notify
flag_is_set st task ok set = rw (ok, set, schedule, schedule_global, notify)

module _ (st : State Runnable) (f : ℕ → Ticker) (waker : ℕ → Waker)
    (no_sleeper : st.sleepers.count ≡ 0) (no_waker : st.sleepers.wakers ≡ [])
    (id_is_pos : 0 < st.sleepers.id_gen) (awake : (i : ℕ) → (f i).sleeping ≡ 0) where
  sleep_all-Asleep :
      (n : ℕ)
      → st.sleepers.id_gen + n < word
      → let (st', f') = sleep_all st f waker n in Asleep st f n st' f'
  unfolding sleep_all sleep Sleepers.insert Sleepers.is_notified
  sleep_all-Asleep zero lasts = record {
    queue = refl;
    count = no_sleeper;
    wakers = ap length no_waker;
    id_gen = omega arith;
    notified = λ p. absurd (omega (arith, p));
    asleep = λ i p. absurd (omega (arith, p));
    others = λ i p. refl;
  }
  sleep_all-Asleep (suc n) lasts =
      let h = sleep_all-Asleep n (omega arith) in
      let up : ((sleep_all st f waker n).1 n).sleeping ≡ 0 =
        ap (λ t. t.sleeping) (h.others n (omega arith)) ∙ awake n in
      let s = (sleep_all st f waker n).0.sleepers in
      let longer : length (s.wakers ++ ((s.id_gen, waker n) ∷ [])) ≡ suc n =
        omega (arith, length-append s.wakers ((s.id_gen, waker n) ∷ []), h.wakers) in
      let counted : wrapping_add s.count 1 ≡ suc n = omega (arith, h.count) in
      rw (up, sleep_all)
        (record {
          queue = h.queue;
          count = counted;
          wakers = longer;
          id_gen = omega (arith, h.id_gen);
          notified = λ _. rw (counted, longer) (ground arith);
          asleep = λ i below. elim (Bool-cases (n == i)) [
            | inl e ↦ rw e (λ z. omega (arith, h.id_gen, z))
            | inr ne ↦ rw ne (h.asleep i (omega (arith, ne_of_== n i ne)))
          ];
          others = λ i above. rw (==_of_ne n i (λ e. omega (arith, e))) (h.others i (omega arith));
        })

module _ (st : State Runnable) (f : ℕ → Ticker) (waker : ℕ → Waker)
    (no_sleeper : st.sleepers.count ≡ 0) (no_waker : st.sleepers.wakers ≡ [])
    (id_is_pos : 0 < st.sleepers.id_gen) (awake : (i : ℕ) → (f i).sleeping ≡ 0) where
  -- Let no ticker sleep, `notified` be set, and the global queue have room. A thread without a
  -- shard schedules a task, and then the tickers of threads 0, …, `n` go to sleep, as they do when
  -- they have searched before the task came. Then no waker has been called, all these tickers
  -- sleep, `notified` is clear, none of them is picked by `notify`, and the task is last in the
  -- global queue.
  pub lost_wakeup :
      (n : ℕ) (task : Runnable)
      → Queue.Fifo.IsValid st.queue
      → length st.queue.queue < st.queue.capacity
      → st.notified ≡ true
      → st.sleepers.id_gen + suc n < word
      → let r = schedule st none task in
        let (st', f') = sleep_all r.state f waker (suc n) in
        (r.woken ≡ [])
        × ((i : ℕ) → i < suc n → (f' i).sleeping ≢ 0)
        × (st'.notified ≡ false)
        × (Sleepers.is_notified st'.sleepers ≡ false)
        × (st'.queue.queue ≡ st.queue.queue ++ (task ∷ []))
  unfolding Sleepers.is_notified
  lost_wakeup n task v room set lasts =
      let (ok, held) = push-QueueHolds st.queue task (v, refl) room in
      let queued = record st { queue = (Queue.push st.queue task).0 } in
      let h = sleep_all-Asleep queued f waker no_sleeper no_waker id_is_pos awake (suc n) lasts in
      rw (flag_is_set st task ok set) (
        refl,
        h.asleep,
        h.notified (omega arith),
        rw (h.count, h.wakers) (ground arith),
        ap (λ q. q.queue) h.queue ∙ held.1,
      )
