-- ===== src/Executor/Wakeups.antt =====
-- The flag `notified` of src/executor.rs over histories of calls of `sleep`, `wake` and `notify`.
use awak.Prelude.{
  ℕ, suc, ◌+◌, ◌≤◌, ◌<◌, ◌≡◌, ◌≢◌, refl, ◌∙◌, inl, inr, [], true, ◌==◌, length, word, Bool-cases,
  eq_of_==, ne_of_==, arith,
}
use awak.Sleepers
use awak.Sleepers.{Sleepers, Waker}
use awak.Sleepers.Refine
use awak.Executor.{State, Ticker, new, notify, sleep, wake, ticker}
use awak.Executor.World.{
  World, update, Step, sleeps, wakes, notifies, Reach, here, next, Agrees, update_known,
  update_unique,
}
use awak.Executor.Settle.{fresh-Agrees}
use awak.Executor.Agree.{wake-Agrees, again-Agrees, notify-Agrees, counts}

module _ {A : Type 0} where
  flag_set : (st : State A) → (notify st).0.notified ≡ true
  unfolding notify
  flag_set st = ground arith

  -- What holds after `n` calls.
  pub record Holds (n : ℕ) (s : World A) : Type 0 where
    pub agrees : Agrees s.state s.tickers
    ids : s.state.sleepers.id_gen ≤ n + 1

  pub id_gen-sleep :
      (st : State A) (t : Ticker) (w : Waker)
      → (sleep st t w).0.sleepers.id_gen ≤ st.sleepers.id_gen + 1
  unfolding sleep Sleepers.insert Sleepers.update
  id_gen-sleep st t w = ground arith

  pub id_gen-wake : (st : State A) (t : Ticker) → (wake st t).0.sleepers.id_gen ≤ st.sleepers.id_gen
  unfolding wake Sleepers.remove
  id_gen-wake st t = ground arith

  pub id_gen-notify : (st : State A) → (notify st).0.sleepers.id_gen ≤ st.sleepers.id_gen
  unfolding notify Sleepers.notify
  id_gen-notify st = ground arith

  same-Agrees : (st : State A) (f : ℕ → Ticker) (i : ℕ) → Agrees st f → Agrees st (update f i (f i))
  same-Agrees st f i a = record {
    entries = a.entries;
    tracks = a.tracks;
    known = update_known f i (f i) a.entries (a.known i) (λ j ne. a.known j);
    unique = update_unique f i (f i) (λ j ne p q. ne (a.unique i j p q)) a.unique;
    set_right = a.set_right;
    clear_right = a.clear_right;
  }

  pub sleep-Agrees :
      (st : State A) (f : ℕ → Ticker) (i : ℕ) (w : Waker)
      → st.sleepers.id_gen + 1 < word
      → Agrees st f
      → Agrees (sleep st (f i) w).0 (update f i (sleep st (f i) w).1)
  unfolding sleep
  sleep-Agrees st f i w lasts a = elim (Bool-cases ((f i).sleeping == 0)) [
    | inl awake ↦
        rw (awake, sleep) (fresh-Agrees st f i w (eq_of_== (f i).sleeping 0 awake) lasts a)
    | inr asleep ↦ again-Agrees st f i w (ne_of_== (f i).sleeping 0 asleep) a
  ]

  pub wakes-Agrees :
      (st : State A) (f : ℕ → Ticker) (i : ℕ)
      → st.sleepers.id_gen < word
      → Agrees st f
      → Agrees (wake st (f i)).0 (update f i (wake st (f i)).1)
  unfolding wake
  wakes-Agrees st f i lasts a = elim (Bool-cases ((f i).sleeping == 0)) [
    | inl awake ↦ rw (awake, wake) (same-Agrees st f i a)
    | inr asleep ↦ rw (asleep, wake) (wake-Agrees st f i (ne_of_== (f i).sleeping 0 asleep) lasts a)
  ]

  Step-Holds : {n : ℕ} {s t : World A} → n + 2 < word → Step s t → Holds n s → Holds (suc n) t
  Step-Holds {s = s} few (sleeps i w) h = record {
    agrees = sleep-Agrees s.state s.tickers i w (omega (arith, h.ids)) h.agrees;
    ids = omega (arith, h.ids, id_gen-sleep s.state (s.tickers i) w);
  }
  Step-Holds {s = s} few (wakes i) h = record {
    agrees = wakes-Agrees s.state s.tickers i (omega (arith, h.ids)) h.agrees;
    ids = omega (arith, h.ids, id_gen-wake s.state (s.tickers i));
  }
  Step-Holds {s = s} few notifies h = record {
    agrees = notify-Agrees s.state s.tickers h.agrees;
    ids = omega (arith, h.ids, id_gen-notify s.state);
  }

  pub Reach-Holds : {n : ℕ} {s : World A} → n + 1 < word → Reach n s → Holds n s
  unfolding new ticker
  Reach-Holds few here = record {
    agrees = record {
      entries = [];
      tracks = record {
        counted = refl;
        listed = refl;
        distinct = tt;
        below = tt;
        few = omega arith;
      };
      known = λ i p. absurd (p refl);
      unique = λ i j p. absurd (p refl);
      set_right = λ e. refl;
      clear_right = λ e. refl;
    };
    ids = omega arith;
  }
  Reach-Holds few (next r st) = Step-Holds (omega arith) st (Reach-Holds (omega arith) r)

  -- After fewer than `2 ^ 64 - 1` calls of `sleep`, `wake` and `notify` by any tickers in any
  -- order, a further `State::notify` leaves the flag set, and rightly so: no ticker sleeps, or some
  -- sleeping ticker is notified. So there is a ticker that will search for the task just queued.
  pub notify_leaves_one_up :
      {n : ℕ} {s : World A}
      → n + 1 < word
      → Reach n s
      → let (st, woken) = notify s.state in
        (st.notified ≡ true) × (Sleepers.is_notified st.sleepers ≡ true)
  notify_leaves_one_up {n} {s} few r =
      let a = notify-Agrees s.state s.tickers (Reach-Holds few r).agrees in
      (
        flag_set s.state,
        Sleepers.Refine.is_notified_refines a.tracks ∙ a.set_right (flag_set s.state),
      )

  -- In such a state a ticker that sleeps is on the list: its `wake` takes exactly one off `count`,
  -- which does not underflow, and the list never has more wakers than `count`.
  pub wake_counts_down :
      {n : ℕ} {s : World A} (i : ℕ)
      → n + 1 < word
      → Reach n s
      → (s.tickers i).sleeping ≢ 0
      → let (st, t) = wake s.state (s.tickers i) in
        (st.sleepers.count + 1 ≡ s.state.sleepers.count)
        × (t.sleeping ≡ 0)
        × (length st.sleepers.wakers ≤ st.sleepers.count)
  wake_counts_down {n} {s} i few r asleep =
      counts s.state s.tickers i asleep (omega (arith, few, (Reach-Holds few r).ids))
        (Reach-Holds few r).agrees
