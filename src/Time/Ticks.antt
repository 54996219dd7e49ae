-- ===== src/Time/Ticks.antt =====
-- `Interval` of src/time/interval.rs over a run of polls, and `Timeout` of src/time/timeout.rs.
use awak.Prelude.{
  ℕ, zero, suc, ◌+◌, ◌*◌, ◌≤◌, ◌<◌, ◌≡◌, refl, ap, ◌∙◌, inl, inr, ◌⊎◌, Option, some, List, [], ◌∷◌,
  length, lt-cases, lt→ltb, arith,
}
use awak.Sleepers.{Waker}
use awak.Timers.{Reactor}
use awak.CopyBuffer.{Poll, ready, pending}
use awak.Time.{
  Interval, and_then, instant_end, poll_delay, poll_tick, interval_at, delay_until, new,
}
use awak.Time.Registry.{Usable}
use awak.Time.Registered.{add_instant_fits, poll_timeout-Outcome, reset_registers}

-- What a poll of the interval gives.
record Ticked (i : Interval) (now : ℕ) (o : Option (Interval × Reactor × Poll ℕ)) : Type 0 where
  after : Interval
  reactor : Reactor
  result : Poll ℕ
  returns : o ≡ some (after, reactor, result)
  usable : Usable reactor
  period : after.period ≡ i.period
  outcome :
      ((i.delay.deadline ≤ now)
        × (result ≡ ready i.delay.deadline)
        × (after.delay.deadline ≡ i.delay.deadline + i.period))
      ⊎ ((now < i.delay.deadline) × (result ≡ pending) × (after.delay.deadline ≡ i.delay.deadline))

poll_tick-Ticked :
    (i : Interval) (r : Reactor) (now : ℕ) (w : Waker)
    → Usable r
    → i.delay.deadline + i.period < instant_end
    → Ticked i now (poll_tick i r now w)
unfolding poll_tick poll_delay
poll_tick-Ticked i r now w u fits =
    let d = poll_timeout-Outcome i.delay r now w u in
    elim (lt-cases now i.delay.deadline) [
      | inl early ↦
          let (is_pending, _, _) = d.early early in
          simp (d.returns, is_pending, and_then)
            (record {
              after = record i { delay = d.timer };
              reactor = d.reactor;
              result = pending;
              returns = refl;
              usable = d.usable;
              period = refl;
              outcome = inr (early, refl, d.deadline);
            })
      | inr late ↦
          let (is_ready, _) = d.due late in
          let (t', r', again, next, _, u', _) =
            reset_registers d.timer d.reactor (d.timer.deadline + i.period) d.usable in
          let sum = add_instant_fits d.timer.deadline i.period (rw d.deadline fits) in
          simp (d.returns, is_ready, and_then, sum, again)
            (record {
              after = record i { delay = t' };
              reactor = r';
              result = ready d.timer.deadline;
              returns = refl;
              usable = u';
              period = refl;
              outcome = inl (late, ap ready d.deadline, next ∙ ap (λ x. x + i.period) d.deadline);
            })
    ]

-- A poll of a ticker finds a reactor, an instant and a waker.
pub record Visit : Type 0 where
  pub reactor : Reactor
  pub now : ℕ
  pub waker : Waker

abbrev pub EachUsable : List Visit → Type 0
EachUsable [] = Unit
EachUsable (v ∷ vs) = Usable v.reactor × EachUsable vs

abbrev before : Poll ℕ → List ℕ → List ℕ
before (ready at) rest = at ∷ rest
before pending rest = rest

-- The polls of an interval one after the other, and the instants of those that are ready.
unfoldable pub ticks : Interval → List Visit → Option (Interval × List ℕ)
ticks i [] = some (i, [])
ticks i (v ∷ vs) =
    and_then (poll_tick i v.reactor v.now v.waker)
      (λ x. and_then (ticks x.0 vs) (λ y. some (y.0, before x.2 y.1)))

abbrev pub instants : ℕ → ℕ → ℕ → List ℕ
instants start period zero = []
instants start period (suc n) = start ∷ instants (start + period) period n

record Ticks (start period : ℕ) (o : Option (Interval × List ℕ)) : Type 0 where
  after : Interval
  count : ℕ
  returns : o ≡ some (after, instants start period count)
  next : after.delay.deadline ≡ start + count * period

-- A poll leaves room for the polls that are left.
fits_after :
    {o : Option (Interval × Reactor × Poll ℕ)} (i : Interval) (now : ℕ) (vs : List Visit)
    (d : Ticked i now o)
    → i.delay.deadline + suc (length vs) * i.period < instant_end
    → d.after.delay.deadline + length vs * d.after.period < instant_end
fits_after i now vs d fits = elim d.outcome [
  | inl (_, _, next) ↦ rw (next, d.period) (omega (arith, fits))
  | inr (_, _, same) ↦ rw (same, d.period) (omega (arith, fits))
]

ticks-Ticks :
    (i : Interval) (vs : List Visit)
    → EachUsable vs
    → i.delay.deadline + length vs * i.period < instant_end
    → Ticks i.delay.deadline i.period (ticks i vs)
unfolding ticks
ticks-Ticks i [] us fits = record { after = i; count = 0; returns = refl; next = omega arith }
ticks-Ticks i (v ∷ vs) (u, us) fits =
    let d = poll_tick-Ticked i v.reactor v.now v.waker u (omega (arith, fits)) in
    let rest = ticks-Ticks d.after vs us (fits_after i v.now vs d fits) in
    elim d.outcome [
      | inl (late, is_ready, next) ↦ record {
        after = rest.after;
        count = suc rest.count;
        returns = simp (d.returns, rest.returns, is_ready, next, d.period) refl;
        next = rest.next ∙ rw (next, d.period) (omega arith);
      }
      | inr (early, is_pending, same) ↦ record {
        after = rest.after;
        count = rest.count;
        returns = simp (d.returns, rest.returns, is_pending, same, d.period) refl;
        next = rest.next ∙ rw (same, d.period) refl;
      }
    ]

-- Let the period be positive, and let each poll find a reactor whose queue of timer operations is
-- well-formed and holds at least one, at any instant and whatever was done to the reactor between
-- two polls. Let the sum of `start` and a period for each poll be an instant. Then every poll of
-- the interval returns, and the instants that its ready polls give are `start`, `start + period`
-- and so on, one after the other without a gap or a drift, however late the polls come.
pub interval_at-ticks :
    (start period : ℕ) (vs : List Visit)
    → 0 < period
    → EachUsable vs
    → start + length vs * period < instant_end
    → (i : Interval) × (i' : Interval) × (n : ℕ) × (interval_at start period ≡ some i)
      × (ticks i vs ≡ some (i', instants start period n))
      × (i'.delay.deadline ≡ start + n * period)
unfolding interval_at delay_until new
interval_at-ticks start period vs pos us fits =
    let i : Interval = record { delay = delay_until start; period = period } in
    let d = ticks-Ticks i vs us fits in
    (i, d.after, d.count, rw (lt→ltb 0 period pos) refl, d.returns, d.next)
