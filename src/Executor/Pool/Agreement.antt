-- ===== src/Executor/Pool/Agreement.antt =====
-- Polls of `tick` and calls of `schedule` of src/executor.rs keep the tickers in agreement with the
-- list of sleepers.
use awak.Prelude.{
  List, ℕ, ◌+◌, ◌%◌, ◌≤◌, ◌<◌, ◌≡◌, refl, sym, ap, ◌∙◌, inl, inr, Option, word, ◌==◌, Bool-cases,
  Option-cases, arith,
}
use awak.Sleepers.{Waker}
use awak.Executor.{State, Ticker, notify, sleep, wake}
use awak.Executor.World.{update, Agrees}
use awak.Executor.Agree.{notify-Agrees}
use awak.Executor.Wakeups.{sleep-Agrees, wakes-Agrees, id_gen-sleep, id_gen-wake, id_gen-notify}
use awak.Executor.Search.{Runnable, search, tick, schedule}
use awak.Executor.Pool.Frame.{
  SameRest, Told, quiet, told, search-SameRest, steal_global-SameRest, schedule-Told, Told-threads,
}

pub same_sleeping :
    {st st' : State Runnable} {f g : ℕ → Ticker}
    → (st'.sleepers ≡ st.sleepers)
    → (st'.notified ≡ st.notified)
    → ((j : ℕ) → (g j).sleeping ≡ (f j).sleeping)
    → Agrees st f
    → Agrees st' g
same_sleeping sleepers notified e a = record {
  entries = a.entries;
  tracks = rw sleepers a.tracks;
  known = λ j. rw (e j) (a.known j);
  unique = λ j k. rw (e j, e k) (a.unique j k);
  set_right = λ n. a.set_right (sym notified ∙ n);
  clear_right = λ n. a.clear_right (sym notified ∙ n);
}

-- What a call leaves: agreement, and at most one more id.
pub record Leaves (st st' : State Runnable) (g : ℕ → Ticker) : Type 0 where
  pub agrees : Agrees st' g
  pub ids : st'.sleepers.id_gen ≤ st.sleepers.id_gen + 1
  pub threads : st'.threads ≡ st.threads

sleep-threads :
    (st : State Runnable) (t : Ticker) (w : Waker) → (sleep st t w).0.threads ≡ st.threads
unfolding sleep
sleep-threads st t w = ground arith

up-threads : (st : State Runnable) (t : Ticker) → (notify (wake st t).0).0.threads ≡ st.threads
unfolding notify wake
up-threads st t = ground arith

module _ (st : State Runnable) (f : ℕ → Ticker) (i : ℕ) (w : Waker)
    (lasts : st.sleepers.id_gen + 1 < word) where
  asleep-Leaves :
      {mid : State Runnable}
      → SameRest st mid
      → Agrees mid f
      → Leaves st (sleep mid (f i) w).0 (update f i (sleep mid (f i) w).1)
  asleep-Leaves {mid} p a =
      let same = ap (λ s. s.id_gen) p.sleepers in
      record {
        agrees = sleep-Agrees mid f i w (omega (arith, same, lasts)) a;
        ids = omega (arith, same, id_gen-sleep mid (f i) w);
        threads = sleep-threads mid (f i) w ∙ p.threads;
      }

  -- The ticks of a ticker do not matter, nor where the tasks are.
  awake-Leaves :
      {mid st' : State Runnable} (ticks : ℕ)
      → SameRest st mid
      → Agrees mid f
      → SameRest (notify (wake mid (f i)).0).0 st'
      → Leaves st st' (update f i (record (wake mid (f i)).1 { ticks = ticks }))
  awake-Leaves {mid} {st'} ticks p a q =
      let same = ap (λ s. s.id_gen) p.sleepers in
      let later = ap (λ s. s.id_gen) q.sleepers in
      let up = wakes-Agrees mid f i (omega (arith, same, lasts)) a in
      record {
        agrees = same_sleeping q.sleepers q.notified (λ j. ground arith) (notify-Agrees _ _ up);
        ids = omega (arith, same, later, id_gen-wake mid (f i), id_gen-notify (wake mid (f i)).0);
        threads = q.threads ∙ up-threads mid (f i) ∙ p.threads;
      }

  pub tick-Leaves :
      (me start : ℕ)
      → Agrees st f
      → let r = tick st (f i) me w start in Leaves st r.state (update f i r.ticker)
  unfolding tick
  tick-Leaves me start a =
      let p = search-SameRest st me start in
      let mid = (search st me start).state in
      let b = same_sleeping {g = f} p.sleepers p.notified (λ j. refl) a in
      elim (Option-cases (search st me start).found) [
        | inl e ↦ rw (e, tick) (asleep-Leaves p b)
        | inr (r, e) ↦
            let up = wake mid (f i) in
            elim (Bool-cases (up.1.ticks % 64 == 0)) [
              | inl fair ↦
                  rw (e, tick, fair) (awake-Leaves _ p b (steal_global-SameRest (notify up.0).0 me))
              | inr not_now ↦
                  rw (e, tick, not_now)
                    (awake-Leaves _ p b (record {
                      notified = refl;
                      sleepers = refl;
                      threads = refl;
                      wakers = λ j. refl;
                    }))
            ]
      ]

Told-Leaves :
    {st st' : State Runnable} {ws : List Waker} {f : ℕ → Ticker}
    → Told st st' ws
    → Agrees st f
    → Leaves st st' f
Told-Leaves (quiet p) a = record {
  agrees = same_sleeping p.sleepers p.notified (λ j. refl) a;
  ids = omega (arith, ap (λ s. s.id_gen) p.sleepers);
  threads = p.threads;
}
Told-Leaves {f = f} (told mid p) a = record {
  agrees = notify-Agrees mid f (same_sleeping p.sleepers p.notified (λ j. refl) a);
  ids = omega (arith, ap (λ s. s.id_gen) p.sleepers, id_gen-notify mid);
  threads = Told-threads (told mid p);
}

pub schedule-Leaves :
    (st : State Runnable) (f : ℕ → Ticker) (caller : Option ℕ) (task : Runnable)
    → Agrees st f
    → Leaves st (schedule st caller task).state f
schedule-Leaves st f caller task = Told-Leaves (schedule-Told st caller task)
