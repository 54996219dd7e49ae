-- ===== src/Blocking.antt =====
-- `block_on` of src/blocking.rs with its waker, `Poller::wait` and `Poller::notify` of
-- src/io/poller/mod.rs: one step for each access of memory that threads share, in any
-- interleaving. One call of `block_on`, any number of calls of its waker, and another thread that
-- may hold the reactor: `ReactorLock` lets in one at a time. `park` and `unpark` are one step each,
-- as src/parking.rs has them. `Reactor::unpark` and `block_on_count` only speed up the thread of
-- the reactor, which is one of the others, and the test of 500 microseconds may go either way. That
-- an event descriptor that was written makes `epoll_wait` return, and is read empty by `wait`, is
-- what src/io/poller/epoll.rs relies on.
pub mod Invariant
mod Others
pub mod Safety
mod Tests
use awak.Prelude.{ℕ, suc, ◌+◌, ◌≡◌, Bool, true, false}

-- Who holds `Reactor::lock`.
pub data Lock : Type 0 where
  free by_blocker by_other : Lock

-- `token` is a notification pending in the parker, `pending` a write of the event descriptor that
-- has not been read. Of the calls of the waker that found no token, `loading` are before the load
-- of `io_blocked`; of the calls of `Poller::notify`, `notifying` are before the exchange and
-- `writing` before the write. `drained`: the other thread has read the event descriptor and has
-- not reset `notified` yet.
pub record Shared : Type 0 where
  pub token : Bool
  pub io_blocked : Bool
  pub notified : Bool
  pub pending : Bool
  pub lock : Lock
  pub drained : Bool
  pub loading : ℕ
  pub notifying : ℕ
  pub writing : ℕ

-- `react(Some(0))`, or `react(None)` in the inner loop.
pub data Round : Type 0 where
  once blocked : Round

-- Where `block_on` stands.
pub data BlockPc : Type 0 where
  polling : BlockPc  -- before the poll of the future
  returned : BlockPc
  checking : BlockPc  -- before the check for a notification after the poll
  trying : BlockPc  -- before `try_lock`, with a notification
  locking : BlockPc  -- before `try_lock`, with none
  entering : BlockPc  -- before the store of `io_blocked`
  first_check : BlockPc  -- before the first check in the inner loop
  waiting : Round → BlockPc  -- in the wait of the poller
  reading : Round → BlockPc  -- before the reset of `notified`
  waking : Round → BlockPc  -- in the wakers of `react`
  second_check : BlockPc  -- before the second check in the inner loop
  again : BlockPc  -- before the guard of a round of the inner loop is dropped
  leaving : BlockPc  -- the same, after `break`
  unlocking : BlockPc  -- before the reactor lock is dropped
  giving_up : BlockPc  -- before `drop(reactor_lock)`
  parked_blocked : BlockPc  -- before `park` returns in the inner loop
  unblocking : BlockPc  -- before the guard is dropped, without the lock
  parked : BlockPc  -- before `park` returns without the lock

pub data BlockMove (m : Shared) : BlockPc → Shared → BlockPc → Type 0 where
  finish : BlockMove m polling m returned
  poll_pending : BlockMove m polling m checking
  found : m.token ≡ true → BlockMove m checking (record m { token = false }) trying
  not_found : m.token ≡ false → BlockMove m checking m locking
  try_once : m.lock ≡ free → BlockMove m trying (record m { lock = by_blocker }) (waiting once)
  busy : BlockMove m trying m polling
  try_block : m.lock ≡ free → BlockMove m locking (record m { lock = by_blocker }) entering
  busy_park : BlockMove m locking m parked
  block : BlockMove m entering (record m { io_blocked = true }) first_check
  found_first : m.token ≡ true → BlockMove m first_check (record m { token = false }) leaving
  wait : m.token ≡ false → BlockMove m first_check m (waiting blocked)
  -- The wait returns, with a write of the event descriptor or without, and has read it.
  wake_up : {r : Round} → BlockMove m (waiting r) (record m { pending = false }) (reading r)
  -- The wait fails before it reads the event descriptor, as when it is interrupted. To arm the
  -- descriptor again after the read is taken not to fail.
  fail : {r : Round} → BlockMove m (waiting r) m (waking r)
  reset : {r : Round} → BlockMove m (reading r) (record m { notified = false }) (waking r)
  -- `react` calls the waker of this very `block_on`: `IO_POLLING` is set.
  wake_self : {r : Round} → BlockMove m (waking r) (record m { token = true }) (waking r)
  react_once : BlockMove m (waking once) m unlocking
  react_blocked : BlockMove m (waking blocked) m second_check
  found_second : m.token ≡ true → BlockMove m second_check (record m { token = false }) leaving
  go_round : m.token ≡ false → BlockMove m second_check m again
  too_long : m.token ≡ false → BlockMove m second_check m giving_up
  next_round : BlockMove m again (record m { io_blocked = false }) entering
  leave : BlockMove m leaving (record m { io_blocked = false }) unlocking
  unlock : BlockMove m unlocking (record m { lock = free }) polling
  give_up : BlockMove m giving_up (record m { lock = free }) parked_blocked
  unpark_blocked :
      m.token ≡ true → BlockMove m parked_blocked (record m { token = false }) unblocking
  unblock : BlockMove m unblocking (record m { io_blocked = false }) polling
  unpark : m.token ≡ true → BlockMove m parked (record m { token = false }) polling

-- The calls of the waker and of `Poller::notify`, and the other thread.
pub data OtherMove (m : Shared) : Shared → Type 0 where
  wake : m.token ≡ false → OtherMove m (record m { token = true; loading = m.loading + 1 })
  wake_again : m.token ≡ true → OtherMove m m
  -- `IO_POLLING` is set for a thread that holds the reactor in its own `block_on`.
  wake_polling : m.lock ≡ by_other → OtherMove m (record m { token = true })
  load_blocked :
      {n : ℕ}
      → m.loading ≡ suc n
      → m.io_blocked ≡ true
      → OtherMove m (record m { loading = n; notifying = m.notifying + 1 })
  load_unblocked :
      {n : ℕ} → m.loading ≡ suc n → m.io_blocked ≡ false → OtherMove m (record m { loading = n })
  -- `Reactor::notify` for the waker of another `block_on`.
  notify_other : OtherMove m (record m { notifying = m.notifying + 1 })
  exchange :
      {n : ℕ}
      → m.notifying ≡ suc n
      → m.notified ≡ false
      → OtherMove m (record m { notified = true; notifying = n; writing = m.writing + 1 })
  already :
      {n : ℕ} → m.notifying ≡ suc n → m.notified ≡ true → OtherMove m (record m { notifying = n })
  write : {n : ℕ} → m.writing ≡ suc n → OtherMove m (record m { pending = true; writing = n })
  acquire : m.lock ≡ free → OtherMove m (record m { lock = by_other })
  drain : m.lock ≡ by_other → OtherMove m (record m { pending = false; drained = true })
  reset_other :
      m.lock ≡ by_other
      → m.drained ≡ true
      → OtherMove m (record m { notified = false; drained = false })
  release : m.lock ≡ by_other → m.drained ≡ false → OtherMove m (record m { lock = free })

pub record System : Type 0 where
  pub shared : Shared
  pub blocker : BlockPc

pub data Step (s : System) : System → Type 0 where
  blocks :
      {m : Shared} {p : BlockPc}
      → BlockMove s.shared s.blocker m p
      → Step s (record { shared = m; blocker = p })
  others : {m : Shared} → OtherMove s.shared m → Step s (record s { shared = m })

-- `block_on` is called on a poller that nobody waits on or notifies.
abbrev pub start : System
start = record {
  shared = record {
    token = false;
    io_blocked = false;
    notified = false;
    pending = false;
    lock = free;
    drained = false;
    loading = 0;
    notifying = 0;
    writing = 0;
  };
  blocker = polling;
}

pub data Reach : System → Type 0 where
  here : Reach start
  next : {s t : System} → Reach s → Step s t → Reach t
