-- ===== src/Time/Limits.antt =====
-- `Timeout` of src/time/timeout.rs and `IdleTimeout` of src/util/idle_timeout.rs: when they give
-- up.
use awak.Prelude.{
  ℕ, ◌+◌, ◌-◌, ◌≤◌, ◌<◌, ◌≡◌, refl, sym, ◌∙◌, subst, inl, inr, ◌⊎◌, Option, some, List, [], ◌∷◌,
  lt-cases, lt→leb, le→leb, arith,
}
use awak.Sleepers.{Waker}
use awak.Timers.{Reactor}
use awak.CopyBuffer.{Poll, ready, pending}
use awak.Time.{
  Delay, Timed, output, elapsed, poll_delay, poll_timed, IdleTimeout, new_idle, new, delay_until,
  delay_for, and_then, poll_idle, instant_end,
}
use awak.Time.Registry.{Usable, registered}
use awak.Time.Registered.{Remembered, add_instant_fits, poll_timeout-Outcome, reset_registers}

-- What a poll of a `Timeout` gives.
abbrev pub Decided :
    {A : Type 0} → Poll A → ℕ → ℕ → Waker → Option (Delay × Reactor × Poll (Timed A)) → Type 0
Decided {A} p deadline now w o =
    (t' : Delay) × (r' : Reactor) × (q : Poll (Timed A)) × (o ≡ some (t', r', q))
    × (((v : A) × (p ≡ ready v) × (q ≡ ready (output v)))
        ⊎ (((p ≡ pending) × (deadline ≤ now) × (q ≡ ready elapsed))
            ⊎ ((p ≡ pending)
                × (now < deadline)
                × (q ≡ pending)
                × (registered r' deadline t'.key ≡ some w))))

poll_timed-Decided :
    {A : Type 0} (p : Poll A) (t : Delay) (r : Reactor) (now : ℕ) (w : Waker)
    → Usable r
    → Remembered t r
    → Decided p t.deadline now w (poll_timed p t r now w)
unfolding poll_timed poll_delay
poll_timed-Decided (ready v) t r now w u awaits =
    (t, r, ready (output v), refl, inl (v, refl, refl))
poll_timed-Decided pending t r now w u awaits =
    let d = poll_timeout-Outcome t r now w u in
    elim (lt-cases now t.deadline) [
      | inl early ↦
          let (is_pending, _, found) = d.early early in
          (
            d.timer,
            d.reactor,
            pending,
            simp (d.returns, is_pending) refl,
            inr (inr (refl, early, refl, found awaits)),
          )
      | inr late ↦
          let (is_ready, _) = d.due late in
          (
            d.timer,
            d.reactor,
            ready elapsed,
            simp (d.returns, is_ready) refl,
            inr (inl (refl, late, refl)),
          )
    ]

-- Polls of a `Timeout` whose future is pending, each at an instant with a waker, one after the
-- other on the same reactor.
unfoldable pub poll_waits : Delay → Reactor → List (ℕ × Waker) → Option (Delay × Reactor)
unfolding poll_timed
poll_waits t r [] = some (t, r)
poll_waits t r (v ∷ vs) =
    and_then (poll_timed {A = Unit {0}} pending t r v.0 v.1) (λ x. poll_waits x.0 x.1 vs)

abbrev pub EachBefore : ℕ → List (ℕ × Waker) → Type 0
EachBefore deadline [] = Unit
EachBefore deadline (v ∷ vs) = (v.0 < deadline) × EachBefore deadline vs

record Waits (deadline : ℕ) (o : Option (Delay × Reactor)) : Type 0 where
  delay : Delay
  reactor : Reactor
  returns : o ≡ some (delay, reactor)
  usable : Usable reactor
  remembered : Remembered delay reactor
  same : delay.deadline ≡ deadline

poll_waits-Waits :
    (t : Delay) (r : Reactor) (vs : List (ℕ × Waker))
    → Usable r
    → Remembered t r
    → EachBefore t.deadline vs
    → Waits t.deadline (poll_waits t r vs)
unfolding poll_waits poll_timed poll_delay
poll_waits-Waits t r [] u awaits early = record {
  delay = t;
  reactor = r;
  returns = refl;
  usable = u;
  remembered = awaits;
  same = refl;
}
poll_waits-Waits t r (v ∷ vs) u awaits (early, rest) =
    let d = poll_timeout-Outcome t r v.0 v.1 u in
    let (is_pending, set, found) = d.early early in
    let kept : Remembered d.timer d.reactor = λ old e. rw d.deadline (found awaits) ∙ sym set ∙ e in
    let after = poll_waits-Waits d.timer d.reactor vs d.usable kept (rw d.deadline rest) in
    simp (d.returns, is_pending, and_then)
      (record {
        delay = after.delay;
        reactor = after.reactor;
        returns = after.returns;
        usable = after.usable;
        remembered = after.remembered;
        same = after.same ∙ d.deadline;
      })

-- Let the queue of timer operations be well-formed and hold at least one. Let a new `Timeout` be
-- polled any number of times before its deadline, with any wakers, its future pending, and with no
-- other operation on the reactor in between. These polls return, and so does the next, at any
-- instant. If the future is ready, so is the timeout, with its output, even when the deadline has
-- come. If it is pending, the timeout has elapsed once the deadline has come; before, it is
-- pending, with the waker of this poll registered for the deadline.
pub poll_timed_decides :
    {A : Type 0} (p : Poll A) (deadline : ℕ) (r : Reactor) (earlier : List (ℕ × Waker)) (now : ℕ)
    (w : Waker)
    → Usable r
    → EachBefore deadline earlier
    → (t' : Delay) × (r' : Reactor) × (poll_waits (delay_until deadline) r earlier ≡ some (t', r'))
      × Decided p deadline now w (poll_timed p t' r' now w)
unfolding delay_until new
poll_timed_decides p deadline r earlier now w u early =
    let d =
      poll_waits-Waits (delay_until deadline) r earlier u (λ old e. absurd (ground arith)) early in
    (
      d.delay,
      d.reactor,
      d.returns,
      subst (λ x. Decided p x now w (poll_timed p d.delay d.reactor now w)) d.same
          (poll_timed-Decided p d.delay d.reactor now w d.usable d.remembered),
    )

-- The deadline is the idle time after the last visit, or at most `lag` earlier.
pub record Kept (lag : ℕ) (t : IdleTimeout) : Type 0 where
  pub at_most : t.sleep.deadline ≤ t.last_visited + t.idle_timeout
  pub at_least : t.last_visited + t.idle_timeout ≤ t.sleep.deadline + lag

-- A new idle timeout, whose deadline is an instant, lags by the time between its two readings of
-- the clock.
pub new_idle-Kept :
    (idle_timeout check_interval slept_at lag : ℕ)
    → slept_at + idle_timeout < instant_end
    → (t : IdleTimeout) × (new_idle idle_timeout check_interval slept_at (slept_at + lag) ≡ some t)
      × Kept lag t
unfolding new_idle delay_for delay_until new
new_idle-Kept idle_timeout check_interval slept_at lag fits = (
  record {
    sleep = new (slept_at + idle_timeout);
    idle_timeout = idle_timeout;
    check_interval = check_interval;
    last_visited = slept_at + lag;
  },
  rw (add_instant_fits slept_at idle_timeout fits) refl,
  record { at_most = omega arith; at_least = omega arith },
)

-- Let the queue of timer operations be well-formed and hold at least one, and let the deadline be
-- the idle time after the last visit, or at most `lag` earlier. Let `now` plus the idle time be an
-- instant. If the future is pending and the
-- deadline is to come when the delay is polled, and the clock is read again at `now`, not before
-- the last visit, then the idle timeout is pending. The deadline is again as in the hypothesis, the
-- settings are the same, and `now` plus the idle time is later than the deadline by at most the
-- check interval and `lag`: a future that is polled again before that is not timed out. If the
-- future is pending and the deadline has come, the idle timeout is ready with the error.
pub poll_idle_keeps :
    {A : Type 0} (t : IdleTimeout) (r : Reactor) (polled_at now lag : ℕ) (w : Waker)
    → Usable r
    → Kept lag t
    → t.last_visited ≤ now
    → now + t.idle_timeout < instant_end
    → (t' : IdleTimeout) × (r' : Reactor) × (q : Poll (Timed A)) × (poll_idle {A = A} pending t r
          polled_at now w
        ≡ some (t', r', q))
      × (((t.sleep.deadline ≤ polled_at) × (q ≡ ready elapsed))
          ⊎ ((polled_at < t.sleep.deadline)
              × (q ≡ pending)
              × Kept lag t'
              × (t'.idle_timeout ≡ t.idle_timeout)
              × (t'.check_interval ≡ t.check_interval)
              × (now + t.idle_timeout ≤ t'.sleep.deadline + lag + t.check_interval)))
unfolding poll_idle poll_delay
poll_idle_keeps {A} t r polled_at now lag w u kept since fits =
    let d = poll_timeout-Outcome t.sleep r polled_at w u in
    elim (lt-cases polled_at t.sleep.deadline) [
      | inr late ↦
          let (is_ready, _) = d.due late in
          (
            record t { sleep = d.timer },
            d.reactor,
            ready elapsed,
            simp (d.returns, is_ready) refl,
            inl (late, refl),
          )
      | inl early ↦
          let (is_pending, _, _) = d.early early in
          elim (lt-cases (now - t.last_visited) t.check_interval) [
            | inl soon ↦ (
              record t { sleep = d.timer },
              d.reactor,
              pending,
              simp (d.returns, is_pending, lt→leb _ _ soon) refl,
              inr (
                early,
                refl,
                record {
                  at_most = omega (arith, d.deadline, kept.at_most);
                  at_least = omega (arith, d.deadline, kept.at_least);
                },
                refl,
                refl,
                omega (arith, d.deadline, kept.at_least),
              ),
            )
            | inr checked ↦
                let (t', r', again, next, _, _, _) =
                  reset_registers d.timer d.reactor (now + t.idle_timeout) d.usable in
                let sum = add_instant_fits now t.idle_timeout fits in
                (
                  record t { sleep = t'; last_visited = now },
                  r',
                  pending,
                  simp (d.returns, is_pending, le→leb _ _ checked, sum, again) refl,
                  inr (
                    early,
                    refl,
                    record { at_most = omega (arith, next); at_least = omega (arith, next) },
                    refl,
                    refl,
                    omega (arith, next),
                  ),
                )
          ]
    ]
