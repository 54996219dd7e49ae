-- ===== src/Parking.antt =====
-- `Inner::park` and `Inner::unpark` of src/parking.rs, one step for each access of shared memory:
-- one thread that parks, any number that unpark, in any interleaving. The atomic is sequentially
-- consistent in the source (`SeqCst`).
pub mod Invariant
mod Moves
mod Unparks
pub mod Safety
mod Tests
use awak.Prelude.{ℕ, zero, suc, ◌+◌, ◌≤◌, ◌<◌, ◌≡◌, ◌≢◌, Option, none, some, ◌==◌, if◌then◌else◌}

-- EMPTY, PARKED and NOTIFIED.
abbrev pub empty : ℕ
empty = 0

abbrev pub parked : ℕ
parked = 1

abbrev pub notified : ℕ
notified = 2

pub data Lock : Type 0 where
  free by_parker : Lock
  by_unparker : ℕ → Lock

-- `state` and `lock` of `Inner`. The counts are no part of the program: `given` counts the swaps of
-- `unpark` that found no notification pending, and `taken` the calls of `park` that return true.
pub record Inner : Type 0 where
  pub state : ℕ
  pub lock : Lock
  pub given : ℕ
  pub taken : ℕ

-- Where a call of `park` stands. A timeout is `none` or a number of nanoseconds.
pub data ParkPc : Type 0 where
  idle : ParkPc
  entered : (timeout : Option ℕ) → ParkPc  -- before the first exchange
  locking : (timeout : Option ℕ) → ParkPc  -- before `lock.lock()`
  locked : (timeout : Option ℕ) → ParkPc  -- before the exchange of EMPTY for PARKED
  taking : ParkPc  -- before the swap of `Err(NOTIFIED)`
  sleepy : (timeout : Option ℕ) → ParkPc  -- before the wait, `lock` still held
  waiting : (timeout : Option ℕ) → ParkPc  -- on the condition variable
  woken : (timeout : Option ℕ) → ParkPc  -- before the wait has `lock` again
  relocked : (timeout : Option ℕ) → ParkPc  -- after the wait
  panicked : ParkPc

-- Where a call of `unpark` stands.
pub data UnparkPc : Type 0 where
  idle : UnparkPc
  waking : UnparkPc  -- PARKED was found; before `lock.lock()`
  holding : UnparkPc  -- before `drop`
  notifying : UnparkPc  -- before `notify_one`
  panicked : UnparkPc

pub data ParkMove (m : Inner) : ParkPc → Inner → ParkPc → Type 0 where
  call : (timeout : Option ℕ) → ParkMove m ParkPc.idle m (ParkPc.entered timeout)
  take_fast :
      {timeout : Option ℕ}
      → m.state ≡ notified
      → ParkMove m
          (ParkPc.entered timeout)
          (record m { state = empty; taken = m.taken + 1 })
          ParkPc.idle
  give_up :
      {timeout : Option ℕ}
      → m.state ≢ notified
      → timeout ≡ some 0
      → ParkMove m (ParkPc.entered timeout) m ParkPc.idle
  go_slow :
      {timeout : Option ℕ}
      → m.state ≢ notified
      → timeout ≢ some 0
      → ParkMove m (ParkPc.entered timeout) m (ParkPc.locking timeout)
  acquire :
      {timeout : Option ℕ}
      → m.lock ≡ free
      → ParkMove m (ParkPc.locking timeout) (record m { lock = by_parker }) (ParkPc.locked timeout)
  set_parked :
      {timeout : Option ℕ}
      → m.state ≡ empty
      → ParkMove m (ParkPc.locked timeout) (record m { state = parked }) (ParkPc.sleepy timeout)
  found_notified :
      {timeout : Option ℕ} → m.state ≡ notified → ParkMove m (ParkPc.locked timeout) m ParkPc.taking
  invalid :
      {timeout : Option ℕ}
      → m.state ≢ empty
      → m.state ≢ notified
      → ParkMove m (ParkPc.locked timeout) m ParkPc.panicked
  take_slow :
      m.state ≡ notified
      → ParkMove m ParkPc.taking
          (record m { state = empty; lock = free; taken = m.taken + 1 })
          ParkPc.idle
  changed :
      m.state ≢ notified → ParkMove m ParkPc.taking (record m { state = empty }) ParkPc.panicked
  wait :
      {timeout : Option ℕ}
      → ParkMove m (ParkPc.sleepy timeout) (record m { lock = free }) (ParkPc.waiting timeout)
  -- A spurious wake-up, or the timeout of `wait_timeout`.
  wake_up : {timeout : Option ℕ} → ParkMove m (ParkPc.waiting timeout) m (ParkPc.woken timeout)
  reacquire :
      {timeout : Option ℕ}
      → m.lock ≡ free
      → ParkMove m (ParkPc.woken timeout) (record m { lock = by_parker }) (ParkPc.relocked timeout)
  take_woken :
      {timeout : Option ℕ}
      → m.state ≡ notified
      → ParkMove m
          (ParkPc.relocked timeout)
          (record m { state = empty; lock = free; taken = m.taken + 1 })
          ParkPc.idle
  -- `park` with no timeout goes round its loop.
  wait_again :
      {timeout : Option ℕ}
      → timeout ≡ none
      → m.state ≢ notified
      → ParkMove m (ParkPc.relocked timeout) m (ParkPc.sleepy timeout)
  timed_out :
      {timeout : Option ℕ}
      → timeout ≢ none
      → m.state ≡ parked
      → ParkMove m (ParkPc.relocked timeout) (record m { state = empty; lock = free }) ParkPc.idle
  inconsistent :
      {timeout : Option ℕ}
      → timeout ≢ none
      → m.state ≢ notified
      → m.state ≢ parked
      → ParkMove m (ParkPc.relocked timeout) (record m { state = empty }) ParkPc.panicked

pub data UnparkMove (i : ℕ) (m : Inner) : UnparkPc → Inner → UnparkPc → Type 0 where
  no_one :
      m.state ≡ empty
      → UnparkMove i m UnparkPc.idle
          (record m { state = notified; given = m.given + 1 })
          UnparkPc.idle
  already : m.state ≡ notified → UnparkMove i m UnparkPc.idle m UnparkPc.idle
  find_parked :
      m.state ≡ parked
      → UnparkMove i m UnparkPc.idle
          (record m { state = notified; given = m.given + 1 })
          UnparkPc.waking
  bad_state :
      m.state ≢ empty
      → m.state ≢ notified
      → m.state ≢ parked
      → UnparkMove i m UnparkPc.idle (record m { state = notified }) UnparkPc.panicked
  acquire :
      m.lock ≡ free
      → UnparkMove i m UnparkPc.waking (record m { lock = by_unparker i }) UnparkPc.holding
  release : UnparkMove i m UnparkPc.holding (record m { lock = free }) UnparkPc.notifying

-- `notify_one` wakes the parker if it waits, and is lost otherwise.
abbrev pub notify_one : ParkPc → ParkPc
notify_one (ParkPc.waiting timeout) = ParkPc.woken timeout
notify_one p = p

pub record System : Type 0 where
  pub inner : Inner
  pub parker : ParkPc
  pub unparker : ℕ → UnparkPc

abbrev pub update : (ℕ → UnparkPc) → ℕ → UnparkPc → ℕ → UnparkPc
update f i u j = if i == j then u else f j

pub data Step (s : System) : System → Type 0 where
  parks :
      {m : Inner} {p : ParkPc}
      → ParkMove s.inner s.parker m p
      → Step s (record s { inner = m; parker = p })
  unparks :
      (i : ℕ) {m : Inner} {u : UnparkPc}
      → UnparkMove i s.inner (s.unparker i) m u
      → Step s (record s { inner = m; unparker = update s.unparker i u })
  notifies :
      (i : ℕ)
      → s.unparker i ≡ UnparkPc.notifying
      → Step s
          (record s { parker = notify_one s.parker; unparker = update s.unparker i UnparkPc.idle })

-- `Parker::new`
abbrev pub start : System
start = record {
  inner = record { state = empty; lock = free; given = 0; taken = 0 };
  parker = ParkPc.idle;
  unparker = λ _. UnparkPc.idle;
}

pub data Reach : System → Type 0 where
  here : Reach start
  next : {s t : System} → Reach s → Step s t → Reach t
