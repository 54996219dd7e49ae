-- ===== src/Timers.antt =====
-- The timers of src/io/reactor.rs: `insert_timer` and `remove_timer` queue operations, which
-- `process_timer_ops` applies to the map of timers, and `process_timers` takes out those that are
-- due. `Instant`s and `Duration`s are numbers of ticks of the clock. The queue is one step per
-- call, and so is the map under its lock; a caller's loop is not interleaved with other threads.
pub mod Process
pub mod Insert
pub mod Due
pub mod Get
mod Tests
use awak.Prelude.{
  ℕ, zero, suc, ◌+◌, ◌-◌, Option, none, some, List, [], ◌∷◌, map, Bool, true, false, not, ◌&&◌,
  ◌||◌, ltb, ◌==◌, if◌then◌else◌, filter, wrapping_add,
}
use awak.Queue
use awak.Queue.{Queue}
use awak.Sleepers.{Waker}

-- `(Instant, usize)`
pub record Key : Type 0 where
  pub when : ℕ
  pub id : ℕ

pub data TimerOp : Type 0 where
  insert : Key → Waker → TimerOp
  remove : Key → TimerOp

-- The derived order of the pairs.
unfoldable pub key_lt : Key → Key → Bool
key_lt a b = ltb a.when b.when || ((a.when == b.when) && ltb a.id b.id)

unfoldable pub key_eq : Key → Key → Bool
key_eq a b = (a.when == b.when) && (a.id == b.id)

-- A `BTreeMap`, as its entries in the order of the keys.
abbrev pub Timers : Type 0
Timers = List (Key × Waker)

abbrev pub map_insert : Key → Waker → Timers → Timers
map_insert k w [] = (k, w) ∷ []
map_insert k w (e ∷ m) =
    let rest = map_insert k w m in
    if key_lt k e.0 then (k, w) ∷ e ∷ m else if key_eq k e.0 then (k, w) ∷ m else e ∷ rest

abbrev pub map_remove : Key → Timers → Timers
map_remove k m = filter (λ e. not (key_eq k e.0)) m

-- `BTreeMap::split_off`: what stays, and what comes at `k` or after.
abbrev pub split_off : Key → Timers → Timers × Timers
split_off k m = (filter (λ e. key_lt e.0 k) m, filter (λ e. not (key_lt e.0 k)) m)

-- The fields of `Reactor` that timers need, `ID_GENERATOR`, and how often `insert_timer` has called
-- `notify`.
pub record Reactor : Type 0 where
  pub timer_ops : Queue TimerOp
  pub timers : Timers
  pub id_generator : ℕ
  pub notifies : ℕ

abbrev pub default_time_op_size : ℕ
default_time_op_size = 1000

unfoldable pub new : Reactor
unfolding Queue.bound
new = record {
  timer_ops = Queue.bound default_time_op_size;
  timers = [];
  id_generator = 1;
  notifies = 0;
}

abbrev pub apply : TimerOp → Timers → Timers
apply (insert k w) m = map_insert k w m
apply (remove k) m = map_remove k m

-- The rounds of the `for` loop.
unfoldable pub process_loop : ℕ → Queue TimerOp → Timers → Queue TimerOp × Timers
process_loop zero q m = (q, m)
process_loop (suc n) q m =
    let (q', popped) = Queue.pop q in
    elim popped [ Queue.ok op ↦ process_loop n q' (apply op m) | Queue.err _ ↦ (q', m) ]

unfoldable pub process_timer_ops : Reactor → Reactor
process_timer_ops r =
    let (q, m) = process_loop r.timer_ops.capacity r.timer_ops r.timers in
    record r { timer_ops = q; timers = m }

-- `while self.timer_ops.push(op).is_err() { ... }`, on fuel.
unfoldable pub push_loop : ℕ → Reactor → TimerOp → Option Reactor
push_loop zero r op = none
push_loop (suc n) r op =
    let (q, pushed) = Queue.push r.timer_ops op in
    elim pushed [
      | Queue.ok _ ↦ some (record r { timer_ops = q })
      | Queue.err _ ↦ push_loop n (process_timer_ops (record r { timer_ops = q })) op
    ]

-- The result is the identity of the timer: `fetch_add` wraps. `notify` is called after the loop.
unfoldable pub insert_timer : ℕ → Reactor → ℕ → Waker → Option (Reactor × ℕ)
insert_timer fuel r when w =
    let id = r.id_generator in
    let asked = record r { id_generator = wrapping_add id 1 } in
    elim (push_loop fuel asked (insert (record { when = when; id = id }) w)) [
      | some r' ↦ some (record r' { notifies = r'.notifies + 1 }, id)
      | none ↦ none
    ]

unfoldable pub remove_timer : ℕ → Reactor → ℕ → ℕ → Option Reactor
remove_timer fuel r when id = push_loop fuel r (remove (record { when = when; id = id }))

-- The time from `now` to the first key.
abbrev pub next_timer : Timers → ℕ → Option ℕ
next_timer [] now = none
next_timer (e ∷ m) now = some (e.0.when - now)

abbrev pub duration : Timers → Timers → ℕ → Option ℕ
duration [] pending now = next_timer pending now
duration (e ∷ ready) pending now = some 0

-- The wakers of the ready timers are appended to `wakers`; the result is the time to the next.
unfoldable pub process_timers : Reactor → ℕ → Reactor × List Waker × Option ℕ
process_timers r now =
    let r' = process_timer_ops r in
    let (ready, pending) = split_off (record { when = now; id = 0 }) r'.timers in
    (record r' { timers = pending }, map (λ e. e.1) ready, duration ready pending now)
