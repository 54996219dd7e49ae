-- ===== src/Source/Ready.antt =====
-- The ticks of src/io/reactor.rs: what each step of the reactor and of the tasks keeps true of a
-- source. Calls of `react` exclude each other, so events are handled at the tick that the ticker
-- holds.
use awak.Prelude.{
  ℕ, ◌+◌, ◌≤◌, ◌<◌, ◌≡◌, refl, ap, subst, inl, inr, ◌⊎◌, Option, none, some, List, [], Bool, true,
  false, Bool-cases, usize_max, wrapping_add, arith,
}
use awak.Sleepers.{Waker}
use awak.Source.{
  Source, Direction, Op, read, write, Event, deliver, handle, poll_ready, set_state, wait,
  delivered,
}

-- An event of direction `op`.
abbrev pub concerns : Op → Event → Bool
concerns read ev = ev.readable
concerns write ev = ev.writable

pub record System : Type 0 where
  pub ticker : ℕ
  pub source : Source

-- A step and the wakers that it wakes: a poll of a task, the start of a `react`, or an event of it.
-- The ticker goes up once for each `react` and wraps at `2 ^ 64`; these histories are those in
-- which it has not come so far: no `react` starts, and none handles an event, at `usize_max`.
pub data Step : System → List Waker → System → Type 0 where
  polls :
      {c : System} (o : Op) (w : Waker)
      → Step c [] (record c { source = (poll_ready c.source o w c.ticker).0 })
  bumps :
      {c : System}
      → c.ticker < usize_max
      → Step c [] (record c { ticker = wrapping_add c.ticker 1 })
  handles :
      {c : System} (ev : Event)
      → c.ticker < usize_max
      → Step c
          (handle c.source c.ticker ev).1
          (record c { source = (handle c.source c.ticker ev).0 })

-- `insert_io`
unfoldable pub start : ℕ → ℕ → ℕ → System
start raw key ticker = record {
  ticker = ticker;
  source = record {
    raw = raw;
    key = key;
    states = λ _. record { wakers = []; tick = 0; ticks = none };
  };
}

pub data Reach : System → Type 0 where
  starts : (raw key ticker : ℕ) → Reach (start raw key ticker)
  steps : {c d : System} {ws : List Waker} → Reach c → Step c ws d → Reach d

-- The tick of a direction and the remembered ones, against the ticker; and whoever waits, waits for
-- an event that did not come yet.
pub record Tracks (t : ℕ) (d : Direction) : Type 0 where
  pub tick : d.tick ≤ t + 1
  pub remembered : (a b : ℕ) → d.ticks ≡ some (a, b) → (a ≤ t) × (b ≤ d.tick)
  pub waiting :
      (d.wakers ≡ []) ⊎ ((delivered d ≡ false) × ((a : ℕ) × (b : ℕ) × (d.ticks ≡ some (a, b))))

module _ {t : ℕ} {d : Direction} (h : Tracks t d) where
  Tracks-bump : Tracks (t + 1) d
  Tracks-bump = record {
    tick = omega (arith, h.tick);
    remembered = λ a b e. let (x, y) = h.remembered a b e in (omega arith, y);
    waiting = h.waiting;
  }

  Tracks-deliver : (b : Bool) → t < usize_max → Tracks t (deliver d t b).0
  Tracks-deliver false small = h
  Tracks-deliver true small = record {
    tick = omega arith;
    remembered = λ a b e. let (x, y) = h.remembered a b e in (x, omega (arith, h.tick));
    waiting = inl refl;
  }

  Tracks-reset : delivered d ≡ true → Tracks t (record d { ticks = none })
  Tracks-reset came = record {
    tick = h.tick;
    remembered = λ a b e. absurd (ground arith);
    waiting = elim h.waiting [ inl nobody ↦ inl nobody | inr (not_yet, _) ↦ absurd (ground arith) ];
  }

some_pair : {a b c d : ℕ} → ◌≡◌ {A = Option (ℕ × ℕ)} (some (a, b)) (some (c, d)) → (a ≡ c) × (b ≡ d)
some_pair {a} {b} e =
    (ap (λ o. elim o [ none ↦ a | some p ↦ p.0 ]) e, ap (λ o. elim o [ none ↦ b | some p ↦ p.1 ]) e)

waits :
    {t : ℕ} (d : Direction) (o : Option (ℕ × ℕ)) (w : Waker)
    → Tracks t (record d { ticks = o })
    → delivered (record d { ticks = o }) ≡ false
    → Tracks t (wait (record d { ticks = o }) w t)
waits {t} d none w h not_yet = record {
  tick = h.tick;
  remembered = λ a b e. let (x, y) = some_pair e in (omega arith, omega arith);
  waiting = inr (ground arith, (t, d.tick, refl));
}
waits d (some (a, b)) w h not_yet = record {
  tick = h.tick;
  remembered = h.remembered;
  waiting = inr (not_yet, (a, b, refl));
}

Tracks-wait :
    {t : ℕ} {d : Direction} (w : Waker) → Tracks t d → delivered d ≡ false → Tracks t (wait d w t)
Tracks-wait {d = d} w h not_yet = waits d d.ticks w h not_yet

-- Both directions of a source.
abbrev pub Valid : System → Type 0
Valid c = (o : Op) → Tracks c.ticker (c.source.states o)

start-Valid : (raw key ticker : ℕ) → Valid (start raw key ticker)
unfolding start
start-Valid raw key ticker o = record {
  tick = omega arith;
  remembered = λ a b e. absurd (ground arith);
  waiting = inl refl;
}

poll_ready-Valid :
    (c : System) (o : Op) (w : Waker)
    → Valid c
    → Valid (record c { source = (poll_ready c.source o w c.ticker).0 })
unfolding poll_ready
poll_ready-Valid c o w v p = elim (Bool-cases (delivered (c.source.states o))) [
  | inl came ↦ rw came (both o p (Tracks-reset (v o) came))
  | inr not_yet ↦ rw not_yet (both o p (Tracks-wait w (v o) not_yet))
]
  where
    both :
        {d : Direction} (o p : Op)
        → Tracks c.ticker d
        → Tracks c.ticker ((set_state c.source o d).states p)
    both read read h = h
    both read write h = v write
    both write read h = v read
    both write write h = h

Step-Valid : {c d : System} {ws : List Waker} → Step c ws d → Valid c → Valid d
unfolding handle
Step-Valid (polls {c} o w) v p = poll_ready-Valid c o w v p
Step-Valid (bumps {c} small) v p =
    subst (λ t. Tracks t (c.source.states p)) (omega (arith, small)) (Tracks-bump (v p))
Step-Valid (handles ev small) v read = Tracks-deliver (v read) ev.readable small
Step-Valid (handles ev small) v write = Tracks-deliver (v write) ev.writable small

pub Reach-Valid : {c : System} → Reach c → Valid c
Reach-Valid (starts raw key ticker) o = start-Valid raw key ticker o
Reach-Valid (steps r s) o = Step-Valid s (Reach-Valid r) o
