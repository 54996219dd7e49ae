-- ===== src/Executor/Pool/Calls.antt =====
-- Polls of `tick` and calls of `schedule` of src/executor.rs: whose waker they call, and that each
-- shard keeps its waker.
use awak.Prelude.{
  ℕ, ◌+◌, ◌%◌, ◌<◌, ◌≡◌, refl, ap, ◌∙◌, inl, inr, Option, List, word, Bool, ◌==◌, Bool-cases,
  Option-cases, arith,
}
use awak.Sleepers.{Waker}
use awak.Executor.{State, Ticker, notify, sleep, wake}
use awak.Executor.World.{update, Agrees}
use awak.Executor.Search.{Runnable, search, tick, schedule}
use awak.Executor.Pool.{wake_all, clear}
use awak.Executor.Pool.Frame.{
  Told, quiet, told, search-SameRest, steal_global-SameRest, schedule-Told,
}
use awak.Executor.Pool.Agreement.{same_sleeping}
use awak.Executor.Pool.Called.{
  Called, same_sleepers, notify-Called, sleep-Called, wake-Called, wake_all-more,
}

module _ (st : State Runnable) (f : ℕ → Ticker) (woken : Waker → Bool) (n : ℕ) where
  Told-Called :
      {st' : State Runnable} {ws : List Waker}
      → Told st st' ws
      → Called st f woken n
      → Called st' f (wake_all woken ws) n
  Told-Called {ws = ws} (quiet p) h =
      same_sleepers p.sleepers (λ i. refl) (λ i e. wake_all-more woken ws i e) h
  Told-Called (told mid p) h =
      notify-Called mid f woken n (same_sleepers p.sleepers (λ i. refl) (λ i e. e) h)

  pub schedule-Called :
      (caller : Option ℕ) (task : Runnable)
      → Called st f woken n
      → let r = schedule st caller task in Called r.state f (wake_all woken r.woken) n
  schedule-Called caller task h = Told-Called (schedule-Told st caller task) h

  -- Thread `i` polls its ticker with the waker `i`.
  pub tick-Called :
      (i me start : ℕ)
      → i < n
      → st.sleepers.id_gen + 1 < word
      → Agrees st f
      → Called st f woken n
      → let r = tick st (f i) me i start in
        Called r.state (update f i r.ticker) (wake_all (clear woken i) r.woken) n
  unfolding tick
  tick-Called i me start below lasts a h =
      let p = search-SameRest st me start in
      let mid = (search st me start).state in
      let b = same_sleeping {g = f} p.sleepers p.notified (λ j. refl) a in
      let k = same_sleepers p.sleepers (λ j. refl) (λ j e. e) h in
      let same = ap (λ s. s.id_gen) p.sleepers in
      elim (Option-cases (search st me start).found) [
        | inl e ↦ rw (e, tick) (sleep-Called mid f woken n i below (omega (arith, same, lasts)) b k)
        | inr (r, e) ↦
            let up = wake mid (f i) in
            let awake = wake-Called mid f woken n i below (omega (arith, same, lasts)) b k in
            let told = notify-Called up.0 (update f i up.1) (clear woken i) n awake in
            elim (Bool-cases (up.1.ticks % 64 == 0)) [
              | inl fair ↦
                  rw (e, tick, fair)
                    (same_sleepers (steal_global-SameRest (notify up.0).0 me).sleepers
                      (λ j. ground arith) (λ j x. x) told)
              | inr not_now ↦
                  rw (e, tick, not_now) (same_sleepers refl (λ j. ground arith) (λ j x. x) told)
            ]
      ]

sleep-wakers :
    (st : State Runnable) (t : Ticker) (w : Waker) (i : ℕ)
    → ((sleep st t w).0.local_queue i).waker ≡ (st.local_queue i).waker
unfolding sleep
sleep-wakers st t w i = ground arith

up-wakers :
    (st : State Runnable) (t : Ticker) (i : ℕ)
    → ((notify (wake st t).0).0.local_queue i).waker ≡ (st.local_queue i).waker
unfolding notify wake
up-wakers st t i = ground arith

pub tick-wakers :
    (st : State Runnable) (t : Ticker) (me : ℕ) (w : Waker) (start i : ℕ)
    → ((tick st t me w start).state.local_queue i).waker ≡ (st.local_queue i).waker
unfolding tick
tick-wakers st t me w start i =
    let p = search-SameRest st me start in
    let mid = (search st me start).state in
    elim (Option-cases (search st me start).found) [
      | inl e ↦ rw (e, tick) (sleep-wakers mid t w i ∙ p.wakers i)
      | inr (r, e) ↦
          let up = wake mid t in
          let kept = up-wakers mid t i ∙ p.wakers i in
          elim (Bool-cases (up.1.ticks % 64 == 0)) [
            | inl fair ↦
                rw (e, tick, fair) ((steal_global-SameRest (notify up.0).0 me).wakers i ∙ kept)
            | inr not_now ↦ rw (e, tick, not_now) kept
          ]
    ]
