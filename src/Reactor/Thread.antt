-- ===== src/Reactor/Thread.antt =====
-- The loop of the thread that `Reactor::get` of src/io/reactor.rs starts: when it reacts in place
-- of the threads that block, and how long it sleeps between.
use awak.Prelude.{
  ℕ, ◌≡◌, ◌⊎◌, Option, none, some, List, [], ◌∷◌, Bool, true, false, ◌||◌, leb, ltb, ◌==◌,
  if◌then◌else◌, get_or, wrapping_add, arith,
}

pub record Thread : Type 0 where
  pub last_tick : ℕ
  pub sleeps : ℕ

-- What one round finds: the ticker at its start, whether the reactor lock is free, the ticker after
-- `react`, `block_on_count`, whether `park_timeout` is notified, and the ticker then.
pub record Round : Type 0 where
  pub tick : ℕ
  pub is_free : Bool
  pub tick_after : ℕ
  pub block_on_count : ℕ
  pub notified : Bool
  pub tick_then : ℕ

-- In microseconds.
abbrev pub delays : List ℕ
delays = 50 ∷ 75 ∷ 100 ∷ 250 ∷ 500 ∷ 750 ∷ 1000 ∷ 2500 ∷ 5000 ∷ []

unfoldable pub delay_us : ℕ → ℕ
delay_us sleeps = get_or delays sleeps 10000

-- With ten sleeps behind it the thread waits for the lock, and gets it.
abbrev pub gets_lock : Thread → Round → Bool
gets_lock t r = leb 10 t.sleeps || r.is_free

unfoldable pub reacts : Thread → Round → Bool
reacts t r = if t.last_tick == r.tick then gets_lock t r else false

-- The thread after the first half of a round.
unfoldable pub observe : Thread → Round → Thread
unfolding reacts
observe t r =
    if t.last_tick == r.tick
    then (if gets_lock t r then record { last_tick = r.tick_after; sleeps = 0 } else t)
    else record t { last_tick = r.tick }

-- A round: the thread after it, and the delay if it parks.
unfoldable pub round : Thread → Round → Thread × Option ℕ
unfolding observe delay_us
round t r =
    let t' = observe t r in
    if ltb 0 r.block_on_count
    then (
      if r.notified
          then record { last_tick = r.tick_then; sleeps = 0 }
          else record t' { sleeps = wrapping_add t'.sleeps 1 },
      some (delay_us t'.sleeps),
    )
    else (t', none)

-- Of two rounds one after the other during which no other thread reacts, so that the ticker is the
-- same at both starts and when a notification comes, and in the second of which the reactor lock is
-- free, one reacts.
pub round-reacts :
    (t : Thread) (first second : Round)
    → first.tick ≡ second.tick
    → first.tick_then ≡ second.tick
    → second.is_free ≡ true
    → (reacts t first ≡ true) ⊎ (reacts (round t first).0 second ≡ true)
unfolding round observe reacts
round-reacts t first second same same_then free = ground arith
