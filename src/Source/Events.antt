-- ===== src/Source/Events.antt =====
-- What a task that waits for an I/O source of src/io/reactor.rs can rely on.
use awak.Prelude.{
  ℕ, ◌≤◌, ◌<◌, ◌≡◌, ◌≢◌, refl, sym, ap, ◌∙◌, inl, inr, ◌⊎◌, Option, some, List, [], ◌∷◌, ◌++◌, Bool,
  true, false, ◌||◌, ◌==◌, Bool-cases, ==_of_ne, usize_max, wrapping_add, arith,
}
use awak.Sleepers.{Waker}
use awak.Source.{
  Source, Direction, Op, read, write, Event, ready, pending, deliver, handle, poll_ready, set_state,
  wait, delivered, Interest, will_wake,
}
use awak.Source.Ready.{concerns, System, Step, polls, bumps, handles, Reach, Reach-Valid, Tracks}

will_wake-append :
    (w : Waker) (xs ys : List Waker) → will_wake w (xs ++ ys) ≡ (will_wake w xs || will_wake w ys)
will_wake-append w [] ys = refl
will_wake-append w (x ∷ xs) ys =
    ap (λ b. (x == w) || b) (will_wake-append w xs ys) ∙ or_assoc (x == w)
  where
    or_assoc :
        (a : Bool)
        → (a || (will_wake w xs || will_wake w ys)) ≡ ((a || will_wake w xs) || will_wake w ys)
    or_assoc true = refl
    or_assoc false = refl

or-left : (a b : Bool) → a ≡ true → (a || b) ≡ true
or-left a b e = rw e

or-right : (a b : Bool) → b ≡ true → (a || b) ≡ true
or-right true b e = refl
or-right false b e = e

-- A waiter of a direction that tracks its ticks has not been sent an event, and has its ticks.
undelivered :
    {t : ℕ} {d : Direction} (w : Waker)
    → Tracks t d
    → will_wake w d.wakers ≡ true
    → (delivered d ≡ false) × ((a : ℕ) × (b : ℕ) × (d.ticks ≡ some (a, b)))
undelivered w h waits = elim h.waiting [
  | inl nobody ↦
      absurd (let e : false ≡ true = ap (will_wake w) (sym nobody) ∙ waits in ground arith)
  | inr not_yet ↦ not_yet
]

poll-pending :
    (s : Source) (o : Op) (w : Waker) (t : ℕ)
    → delivered (s.states o) ≡ false
    → (i : Option Interest) × ((poll_ready s o w t).1 ≡ pending i)
unfolding poll_ready
poll-pending s o w t not_yet = rw not_yet (_, refl)

poll-ready :
    (s : Source) (o : Op) (w : Waker) (t : ℕ)
    → delivered (s.states o) ≡ true
    → (poll_ready s o w t).1 ≡ ready
unfolding poll_ready
poll-ready s o w t came = rw came

wait_keeps :
    (d : Direction) (w other : Waker) (t : ℕ)
    → will_wake w d.wakers ≡ true
    → will_wake w (wait d other t).wakers ≡ true
wait_keeps d w other t waits = elim (Bool-cases (will_wake other d.wakers)) [
  | inl known ↦ rw known waits
  | inr new ↦ rw new (will_wake-append w d.wakers (other ∷ []) ∙ or-left _ _ waits)
]

set_state_keeps :
    (s : Source) (d : Direction) (w : Waker) (p o : Op)
    → (will_wake w (s.states p).wakers ≡ true → will_wake w d.wakers ≡ true)
    → will_wake w (s.states o).wakers ≡ true
    → will_wake w ((set_state s p d).states o).wakers ≡ true
set_state_keeps s d w read read keeps waits = keeps waits
set_state_keeps s d w read write keeps waits = waits
set_state_keeps s d w write read keeps waits = waits
set_state_keeps s d w write write keeps waits = keeps waits

poll_ready_keeps :
    (s : Source) (p o : Op) (w other : Waker) (t : ℕ)
    → will_wake w (s.states o).wakers ≡ true
    → will_wake w ((poll_ready s p other t).0.states o).wakers ≡ true
unfolding poll_ready
poll_ready_keeps s p o w other t waits = elim (Bool-cases (delivered (s.states p))) [
  | inl came ↦ rw came (set_state_keeps s _ w p o (λ h. h) waits)
  | inr not_yet ↦ rw not_yet (set_state_keeps s _ w p o (wait_keeps (s.states p) w other t) waits)
]

deliver_keeps :
    (d : Direction) (w : Waker) (t : ℕ) (b : Bool)
    → will_wake w d.wakers ≡ true
    → (will_wake w (deliver d t b).0.wakers ≡ true) ⊎ (will_wake w (deliver d t b).1 ≡ true)
deliver_keeps d w t false waits = inl waits
deliver_keeps d w t true waits = inr waits

module _ (s : Source) (t : ℕ) (ev : Event) (w : Waker) where
  woken_by_read :
      will_wake w (deliver (s.states read) t ev.readable).1 ≡ true
      → will_wake w (handle s t ev).1 ≡ true
  unfolding handle
  woken_by_read e =
      will_wake-append w (deliver (s.states read) t ev.readable).1
        (deliver (s.states write) t ev.writable).1
      ∙ or-left _ _ e

  woken_by_write :
      will_wake w (deliver (s.states write) t ev.writable).1 ≡ true
      → will_wake w (handle s t ev).1 ≡ true
  unfolding handle
  woken_by_write e =
      will_wake-append w (deliver (s.states read) t ev.readable).1
        (deliver (s.states write) t ev.writable).1
      ∙ or-right _ _ e

  handle_keeps :
      (o : Op)
      → will_wake w (s.states o).wakers ≡ true
      → (will_wake w ((handle s t ev).0.states o).wakers ≡ true)
        ⊎ (will_wake w (handle s t ev).1 ≡ true)
  unfolding handle
  handle_keeps read waits = elim (deliver_keeps (s.states read) w t ev.readable waits) [
    | inl kept ↦ inl kept
    | inr woken ↦ inr (woken_by_read woken)
  ]
  handle_keeps write waits = elim (deliver_keeps (s.states write) w t ev.writable waits) [
    | inl kept ↦ inl kept
    | inr woken ↦ inr (woken_by_write woken)
  ]

Step-keeps :
    {c d : System} {ws : List Waker} (o : Op) (w : Waker)
    → Step c ws d
    → will_wake w (c.source.states o).wakers ≡ true
    → (will_wake w (d.source.states o).wakers ≡ true) ⊎ (will_wake w ws ≡ true)
Step-keeps o w (polls {c} p other) waits =
    inl (poll_ready_keeps c.source p o w other c.ticker waits)
Step-keeps o w (bumps small) waits = inl waits
Step-keeps o w (handles {c} ev small) waits = handle_keeps c.source c.ticker ev w o waits

new_tick :
    (d : Direction) (x a b : ℕ)
    → d.ticks ≡ some (a, b)
    → x ≢ a
    → x ≢ b
    → delivered (record d { wakers = []; tick = x }) ≡ true
new_tick d x a b e not_a not_b = rw (e, ==_of_ne x a not_a, ==_of_ne x b not_b)

pending≢ready : {i : Option Interest} → pending i ≢ ready
pending≢ready e = ground arith

-- In any state that polls, bumps of the ticker and events lead to from a registered source: while a
-- waker waits for a direction and the ticker has not wrapped, no poll of that direction is ready. A
-- step that takes the waker off the list of the direction wakes it.
pub waiter_kept :
    {c d : System} {ws : List Waker} (o : Op) (w : Waker)
    → Reach c
    → will_wake w (c.source.states o).wakers ≡ true
    → Step c ws d
    → ((other : Waker) (t : ℕ) → (poll_ready c.source o other t).1 ≢ ready)
      × ((will_wake w (d.source.states o).wakers ≡ true) ⊎ (will_wake w ws ≡ true))
waiter_kept {c} {d} {ws} o w r waits step =
    let (not_yet, _) = undelivered w (Reach-Valid r o) waits in
    (
      λ other t e.
          let (i, p) = poll-pending c.source o other t not_yet in
          absurd (pending≢ready (sym p ∙ e)),
      Step-keeps o w step waits,
    )

-- In such a state, let a waker wait for a direction, and let the poller report an event of that
-- direction in a `react` that has not handled one of it yet, at a ticker that does not wrap. The
-- waker is among those that `react` wakes, and the next poll of the direction is ready, whoever
-- polls and whatever the ticker is by then.
pub event_wakes :
    {c : System} (o : Op) (w : Waker) (ev : Event)
    → Reach c
    → will_wake w (c.source.states o).wakers ≡ true
    → concerns o ev ≡ true
    → c.ticker < usize_max
    → (c.source.states o).tick ≤ c.ticker
    → let (s', woken, _) = handle c.source c.ticker ev in
      (will_wake w woken ≡ true) × ((other : Waker) (t : ℕ) → (poll_ready s' o other t).1 ≡ ready)
unfolding handle
event_wakes {c} o w ev r waits happened small fresh =
    let h = Reach-Valid r o in
    let (_, (a, b, e)) = undelivered w h waits in
    let (x, y) = h.remembered a b e in
    let came =
      new_tick (c.source.states o) (wrapping_add c.ticker 1) a b e (λ t. absurd (omega arith))
        (λ t. absurd (omega arith)) in
    (woken o waits happened, λ other t. poll-ready _ o other t (sent o happened came))
  where
    woken :
        (o : Op)
        → will_wake w (c.source.states o).wakers ≡ true
        → concerns o ev ≡ true
        → will_wake w (handle c.source c.ticker ev).1 ≡ true
    woken read waits e = woken_by_read c.source c.ticker ev w (rw e waits)
    woken write waits e = woken_by_write c.source c.ticker ev w (rw e waits)

    sent :
        (o : Op)
        → concerns o ev ≡ true
        → delivered (record (c.source.states o) { wakers = []; tick = wrapping_add c.ticker 1 })
          ≡ true
        → delivered ((handle c.source c.ticker ev).0.states o) ≡ true
    sent read e came = rw e came
    sent write e came = rw e came
