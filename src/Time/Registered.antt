-- ===== src/Time/Registered.antt =====
-- `Timer` of src/io/mod.rs against the timers of the reactor: what a poll, a reset and a drop leave
-- registered.
use awak.Prelude.{
  ℕ, ◌+◌, ◌≤◌, ◌<◌, ◌≡◌, refl, ap, ◌∙◌, inl, inr, ◌⊎◌, Option, none, some, ◌==◌, true, lt-cases,
  lt→ltb, le→ltb, le→leb, lt→leb, Option-cases, Bool-cases, eq_of_==, arith,
}
use awak.Sleepers.{Waker}
use awak.Timers.{Reactor, process_timers}
use awak.Timers.Process.{view}
use awak.Timers.Due.{process_timers_fires}
use awak.Timers.Get.{contains, get-due}
use awak.CopyBuffer.{Poll, ready, pending}
use awak.Time.{Timer, and_then, instant_end, add_instant, reset, poll_timeout, drop}
use awak.Time.Registry.{
  Usable, registered, Registers, insert-Registers, remove-Removes, register_anew-Registers,
}

-- The waker that a timer remembers is registered under its deadline and its key.
abbrev pub Remembered : Timer → Reactor → Type 0
Remembered t r = (old : Waker) → t.waker ≡ some old → registered r t.deadline t.key ≡ some old

-- A sum that is an instant does not panic.
pub add_instant_fits : (a d : ℕ) → a + d < instant_end → add_instant a d ≡ some (a + d)
unfolding add_instant
add_instant_fits a d fits = rw (lt→ltb _ _ fits) refl

-- What `poll_timeout` returns, and what it leaves.
pub record Outcome (t : Timer) (r : Reactor) (now : ℕ) (w : Waker)
    (o : Option (Timer × Reactor × Poll ℕ)) : Type 0 where
  pub timer : Timer
  pub reactor : Reactor
  pub result : Poll ℕ
  pub returns : o ≡ some (timer, reactor, result)
  pub usable : Usable reactor
  pub deadline : timer.deadline ≡ t.deadline
  pub due :
      t.deadline ≤ now
      → (result ≡ ready t.deadline) × ((t.key ≡ 0) ⊎ (registered reactor t.deadline t.key ≡ none))
  pub early :
      now < t.deadline
      → (result ≡ pending)
        × (timer.waker ≡ some w)
        × (Remembered t r → registered reactor t.deadline timer.key ≡ some w)

module _ (t : Timer) (r : Reactor) (now : ℕ) (w : Waker) (u : Usable r) where
  poll_due : t.deadline ≤ now → Outcome t r now w (poll_timeout t r now w)
  unfolding poll_timeout
  poll_due late = elim (lt-cases 0 t.key) [
    | inl pos ↦
        let removed = remove-Removes r t.deadline t.key u in
        rw (le→leb _ _ late, poll_timeout, lt→ltb _ _ pos, removed.returns)
          (record {
            timer = t;
            reactor = removed.after;
            result = ready t.deadline;
            returns = refl;
            usable = removed.usable;
            deadline = refl;
            due = λ _. (refl, inr removed.gone);
            early = λ e. absurd (omega arith);
          })
    | inr unset ↦
        rw (le→leb _ _ late, poll_timeout, le→ltb _ _ unset)
          (record {
            timer = t;
            reactor = r;
            result = ready t.deadline;
            returns = refl;
            usable = u;
            deadline = refl;
            due = λ _. (refl, inl (omega arith));
            early = λ e. absurd (omega arith);
          })
  ]

  -- A registration of `w` in place of the timer's.
  anew :
      now < t.deadline
      → {o : Option (Reactor × ℕ)} → Registers w t.deadline o
      → Outcome t r now w
          (and_then o (λ x. some (record t { key = x.1; waker = some w }, x.0, pending)))
  anew early d =
      rw (d.returns, and_then)
        (record {
          timer = record t { key = d.id; waker = some w };
          reactor = d.after;
          result = pending;
          returns = refl;
          usable = d.usable;
          deadline = refl;
          due = λ late. absurd (omega arith);
          early = λ _. (refl, refl, λ _. d.found);
        })

  poll_early : now < t.deadline → Outcome t r now w (poll_timeout t r now w)
  unfolding poll_timeout
  poll_early early = rw (lt→leb _ _ early) (elim (Option-cases t.waker) [
    | inl unset ↦ simp (unset, poll_timeout) (anew early (insert-Registers r t.deadline w u))
    | inr (old, set) ↦ elim (Bool-cases (old == w)) [
      | inr other ↦
          simp (set, poll_timeout, other) (anew early (register_anew-Registers t r t.deadline w u))
      | inl same ↦
          let is_w = eq_of_== old w same in
          simp (set, poll_timeout, same)
            (record {
              timer = t;
              reactor = r;
              result = pending;
              returns = refl;
              usable = u;
              deadline = refl;
              due = λ late. absurd (omega arith);
              early = λ _. (refl, set ∙ ap some is_w, λ awaits. awaits old set ∙ ap some is_w);
            })
    ]
  ])

  pub poll_timeout-Outcome : Outcome t r now w (poll_timeout t r now w)
  poll_timeout-Outcome = elim (lt-cases now t.deadline) [
    | inl early ↦ poll_early early
    | inr late ↦ poll_due late
  ]

  -- Let the reactor's queue of timer operations be well-formed and hold at least one, and let the
  -- waker that the timer remembers be registered. Then `poll_timeout` returns. Either the deadline
  -- has come: it is ready with the deadline, and a registration that the timer had is gone. Or the
  -- deadline is to come: it is pending, and the waker of this poll is the one remembered and
  -- registered, under the same deadline and the timer's new key.
  pub poll_timeout_registers :
      Remembered t r
      → (t' : Timer) × (r' : Reactor) × (p : Poll ℕ) × (poll_timeout t r now w ≡ some (t', r', p))
        × (t'.deadline ≡ t.deadline)
        × (((t.deadline ≤ now)
              × (p ≡ ready t.deadline)
              × ((t.key ≡ 0) ⊎ (registered r' t.deadline t.key ≡ none)))
            ⊎ ((now < t.deadline)
                × (p ≡ pending)
                × (t'.waker ≡ some w)
                × (registered r' t.deadline t'.key ≡ some w)))
  poll_timeout_registers awaits =
      let d = poll_timeout-Outcome in
      (
        d.timer,
        d.reactor,
        d.result,
        d.returns,
        d.deadline,
        elim (lt-cases now t.deadline) [
          | inl early ↦
              let (is_pending, remembered, found) = d.early early in
              inr (early, is_pending, remembered, found awaits)
          | inr late ↦ let (is_ready, gone) = d.due late in inl (late, is_ready, gone)
        ],
      )

-- A timer that is registered in a usable reactor is fired: `process_timers` at any later instant
-- than its deadline wakes its waker.
registered_fires :
    (r : Reactor) (when id : ℕ) (w : Waker) (now : ℕ)
    → Usable r
    → registered r when id ≡ some w
    → when < now
    → contains w (process_timers r now).1 ≡ true
registered_fires r when id w now u found early =
    ap (contains w) (process_timers_fires r now u.0).0
    ∙ get-due (record { when = when; id = id }) w now (view r) early found

-- On a reactor whose queue of timer operations is well-formed and holds at least one, and with the
-- waker that the timer remembers registered, a timer polled before its deadline is not forgotten:
-- it is pending, and, with no operation on the reactor in between, `process_timers` at any instant
-- after the deadline wakes the waker of that poll.
pub pending_fires :
    (t : Timer) (r : Reactor) (now later : ℕ) (w : Waker)
    → Usable r
    → Remembered t r
    → now < t.deadline
    → t.deadline < later
    → (t' : Timer) × (r' : Reactor) × (poll_timeout t r now w ≡ some (t', r', pending))
      × (contains w (process_timers r' later).1 ≡ true)
pending_fires t r now later w u awaits early after =
    let p = poll_timeout-Outcome t r now w u in
    let (is_pending, _, found) = p.early early in
    (
      p.timer,
      p.reactor,
      p.returns ∙ ap (λ x. some (p.timer, p.reactor, x)) is_pending,
      registered_fires p.reactor t.deadline p.timer.key w later p.usable (found awaits) after,
    )

-- On a reactor whose queue of timer operations is well-formed and holds at least one, `reset`
-- returns: the deadline is the new one, and the waker that the timer remembers, if any, is the same
-- and registered under the new deadline and the timer's new key.
pub reset_registers :
    (t : Timer) (r : Reactor) (when : ℕ)
    → Usable r
    → (t' : Timer) × (r' : Reactor) × (reset t r when ≡ some (t', r'))
      × (t'.deadline ≡ when)
      × (t'.waker ≡ t.waker)
      × Usable r'
      × ((t.waker ≡ none) ⊎ (registered r' when t'.key ≡ t.waker))
unfolding reset
reset_registers t r when u = elim (Option-cases t.waker) [
  | inl unset ↦ rw (unset, reset) (record t { deadline = when }, r, refl, refl, unset, u, inl refl)
  | inr (old, set) ↦
      let d = register_anew-Registers t r when old u in
      rw (set, reset, d.returns)
        (record t { deadline = when; key = d.id }, d.after, refl, refl, set, d.usable, inr d.found)
]

-- On a reactor whose queue of timer operations is well-formed and holds at least one, `drop` of a
-- timer that remembers a waker returns, and the timer is no longer registered.
pub drop_deregisters :
    (t : Timer) (r : Reactor) (w : Waker)
    → Usable r
    → t.waker ≡ some w
    → (r' : Reactor) × (drop t r ≡ some r') × Usable r' × (registered r' t.deadline t.key ≡ none)
unfolding drop
drop_deregisters t r w u set =
    let d = remove-Removes r t.deadline t.key u in
    rw (set, drop) (d.after, d.returns, d.usable, d.gone)
