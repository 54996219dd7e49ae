-- ===== src/Time.antt =====
-- `Timer` of src/io/mod.rs and what src/time/ and src/util/idle_timeout.rs build on it: `Delay`,
-- `Timeout`, `Interval` and `IdleTimeout`. `Instant::now()` is an argument, and the reactor's
-- timers are passed on. An operation on the reactor is given two rounds for its loop; `none` says
-- that they were not enough, or that the sum of an instant and a duration overflows and panics.
pub mod Registry
pub mod Registered
pub mod Ticks
pub mod Limits
mod Tests
use awak.Prelude.{ℕ, ◌+◌, ◌-◌, Option, none, some, Bool, not, ltb, leb, ◌==◌, if◌then◌else◌}
use awak.Sleepers.{Waker}
use awak.Timers.{Reactor, insert_timer, remove_timer}
use awak.CopyBuffer.{Poll, ready, pending}

pub record Timer : Type 0 where
  pub deadline : ℕ
  pub key : ℕ
  pub waker : Option Waker

unfoldable pub new : ℕ → Timer
new deadline = record { deadline = deadline; key = 0; waker = none }

unfoldable pub is_elapsed : Timer → ℕ → Bool
is_elapsed t now = ltb t.deadline now

-- Two calls, one after the other, if the first returns.
abbrev pub and_then {ℓ κ} : {A : Type ℓ} {B : Type κ} → Option A → (A → Option B) → Option B
and_then none f = none
and_then (some a) f = f a

-- `remove_timer` of the old registration, then `insert_timer`.
abbrev pub register_anew : Timer → Reactor → ℕ → Waker → Option (Reactor × ℕ)
register_anew t r when w =
    and_then (remove_timer 2 r t.deadline t.key) (λ r'. insert_timer 2 r' when w)

unfoldable pub reset : Timer → Reactor → ℕ → Option (Timer × Reactor)
reset t r when = elim t.waker [
  | none ↦ some (record t { deadline = when }, r)
  | some w ↦
      and_then (register_anew t r when w) (λ x. some (record t { deadline = when; key = x.1 }, x.0))
]

unfoldable pub poll_timeout : Timer → Reactor → ℕ → Waker → Option (Timer × Reactor × Poll ℕ)
poll_timeout t r now w =
    if leb t.deadline now
    then (if ltb 0 t.key
        then and_then (remove_timer 2 r t.deadline t.key) (λ r'. some (t, r', ready t.deadline))
        else some (t, r, ready t.deadline))
    else elim t.waker [
      | none ↦
          and_then (insert_timer 2 r t.deadline w)
            (λ x. some (record t { key = x.1; waker = some w }, x.0, pending))
      | some old ↦
          if not (old == w)
          then and_then (register_anew t r t.deadline w)
              (λ x. some (record t { key = x.1; waker = some w }, x.0, pending))
          else some (t, r, pending)
    ]

-- The first number of nanoseconds that is not an `Instant`: it holds its seconds as an `i64`.
abbrev pub instant_end : ℕ
instant_end = 9223372036854775808000000000

-- `Instant + Duration`, which panics on overflow.
unfoldable pub add_instant : ℕ → ℕ → Option ℕ
add_instant at duration = if ltb (at + duration) instant_end then some (at + duration) else none

-- `Drop` of a timer: the reactor that is left.
unfoldable pub drop : Timer → Reactor → Option Reactor
drop t r = elim t.waker [ none ↦ some r | some w ↦ remove_timer 2 r t.deadline t.key ]

-- src/time/delay.rs
abbrev pub Delay : Type 0
Delay = Timer

unfoldable pub delay_until : ℕ → Delay
unfolding new
delay_until deadline = new deadline

unfoldable pub delay_for : ℕ → ℕ → Option Delay
unfolding delay_until
delay_for duration now = and_then (add_instant now duration) (λ when. some (delay_until when))

abbrev to_unit : Poll ℕ → Poll (Unit {0})
to_unit (ready at) = ready tt
to_unit pending = pending

unfoldable pub poll_delay : Delay → Reactor → ℕ → Waker → Option (Delay × Reactor × Poll (Unit {0}))
unfolding poll_timeout
poll_delay t r now w = and_then (poll_timeout t r now w) (λ x. some (x.0, x.1, to_unit x.2))

-- src/time/timeout.rs. The future inside is known by what its poll returns.
pub data Timed (A : Type 0) : Type 0 where
  output : A → Timed A
  elapsed : Timed A

unfoldable pub poll_timed :
    {A : Type 0} → Poll A → Delay → Reactor → ℕ → Waker → Option (Delay × Reactor × Poll (Timed A))
unfolding poll_delay
poll_timed (ready v) t r now w = some (t, r, ready (output v))
poll_timed pending t r now w =
    and_then (poll_delay t r now w)
      (λ x. some (x.0, x.1, elim x.2 [ ready _ ↦ ready elapsed | pending ↦ pending ]))

-- src/time/interval.rs
pub record Interval : Type 0 where
  pub delay : Delay
  pub period : ℕ

-- `none` where the assertion panics.
unfoldable pub interval_at : ℕ → ℕ → Option Interval
unfolding delay_until
interval_at start period =
    if ltb 0 period then some (record { delay = delay_until start; period = period }) else none

unfoldable pub poll_tick : Interval → Reactor → ℕ → Waker → Option (Interval × Reactor × Poll ℕ)
unfolding poll_delay reset
poll_tick i r now w = and_then (poll_delay i.delay r now w) (λ x. elim x.2 [
  | pending ↦ some (record i { delay = x.0 }, x.1, pending)
  | ready _ ↦ and_then (add_instant x.0.deadline i.period) (λ when.
      and_then (reset x.0 x.1 when) (λ y. some (record i { delay = y.0 }, y.1, ready x.0.deadline)))
])

-- src/util/idle_timeout.rs
pub record IdleTimeout : Type 0 where
  pub sleep : Delay
  pub idle_timeout : ℕ
  pub check_interval : ℕ
  pub last_visited : ℕ

-- The clock is read once by `delay_for` and once after it.
unfoldable pub new_idle : ℕ → ℕ → ℕ → ℕ → Option IdleTimeout
unfolding delay_for
new_idle idle_timeout check_interval slept_at now =
    and_then (delay_for idle_timeout slept_at) (λ sleep. some (record {
      sleep = sleep;
      idle_timeout = idle_timeout;
      check_interval = check_interval;
      last_visited = now;
    }))

-- The clock is read once for the poll of the delay and once, not earlier, after it. `Timed.elapsed`
-- is the error `TimedOut`.
unfoldable pub poll_idle :
    {A : Type 0}
    → Poll A
    → IdleTimeout
    → Reactor
    → ℕ
    → ℕ
    → Waker
    → Option (IdleTimeout × Reactor × Poll (Timed A))
unfolding poll_delay reset
poll_idle (ready v) t r polled_at now w = some (t, r, ready (output v))
poll_idle pending t r polled_at now w = and_then (poll_delay t.sleep r polled_at w) (λ x. elim x.2 [
  | ready _ ↦ some (record t { sleep = x.0 }, x.1, ready elapsed)
  | pending ↦
      if leb t.check_interval (now - t.last_visited)
      then and_then (add_instant now t.idle_timeout) (λ when.
        and_then (reset x.0 x.1 when)
          (λ y. some (record t { sleep = y.0; last_visited = now }, y.1, pending)))
      else some (record t { sleep = x.0 }, x.1, pending)
])
