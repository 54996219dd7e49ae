-- ===== src/Lib.antt =====
-- A verification library for awak, an asynchronous runtime: an executor of tasks, a reactor of I/O
-- events and timers, and what is built on the two.
--
-- The program. `Executor` (src/executor.rs) keeps runnable tasks in a global queue (src/queue.rs)
-- and in one bounded ring (`Local`) for each thread that runs tasks; a thread without a task goes
-- to sleep in `Sleepers` and is notified when one is scheduled. `block_on` (src/blocking.rs) polls
-- one future on a thread that parks (src/parking.rs) or, when it gets the lock of the reactor,
-- waits for I/O in its place. `Reactor` (src/io/reactor.rs) fires timers, waits in the poller
-- (src/io/poller/), and wakes the tasks that wait for a `Source`. `Async` and `Timer`
-- (src/io/mod.rs) are what tasks hold of the reactor; src/time/, src/util/ and src/net/ build on
-- them.
--
-- The files.
-- - Prelude: numbers, tests, lists and words. A `usize` or `u64` is a number whose wrap-around is
--   written out (`wrapping_add`); bounds on how far a counter has come are hypotheses.
-- - Queue: `Queue` of src/queue.rs; Queue/Fifo: the bounded FIFO that it refines.
-- - Local: the ring `Local` of src/executor.rs as one thread sees it, with `steal`; Local/Fifo, New,
--   Steal, Window: its FIFO. Local/Race: `push` and `pop` one shared access at a time, one pusher
--   and any number of poppers in any interleaving.
-- - Sleepers: the list of sleeping tickers of src/executor.rs; Sleepers/Spec, Refine and Lemmas: the
--   list of sleeping tickers that it stands for, each with its waker until it is notified.
-- - Executor: `State::notify`, `Ticker::sleep` and `wake`; Executor/Search: the closure `schedule` of
--   `Executor::spawn`, `Ticker::search` and `Ticker::tick`. Executor/World, Settle, Agree and
--   Wakeups: who is notified over any sequence of calls. Executor/Contents, Shards, Rotation,
--   Conserve, Tick and Schedule: where the tasks go. Executor/Pool: polls of `tick` and calls of
--   `schedule` by any number of threads, each whole, and whose wakers they call; Executor/Gap: calls of `schedule` between the
--   search and the `sleep` of a poll. Executor/Run: the loops of `Ticker::run` and `yield_now`.
-- - Parking: `Inner::park` and `Inner::unpark` of src/parking.rs, one shared access at a time.
-- - Blocking: `block_on` with its waker, `Poller::wait` and `Poller::notify`, one shared access at a
--   time, with the reactor lock; park and unpark are one step each there.
-- - Poller: `Poller` of src/io/poller/mod.rs over a backend, one call after the other; Poller/Epoll
--   and Kqueue: the two backends, each system call a parameter. Poller/Reports: the events that
--   they make of what the system reports; Armed: what the epoll instance watches; Receipts: which
--   changes fail; Notify: repeated notifications, and how they are read; Delivers: what reaches the
--   reactor.
-- - Timers: the timer operations and the map of timers of src/io/reactor.rs, `insert_timer`,
--   `remove_timer` and `process_timers`; Timers/Get looks a timer up.
-- - Source: `Source::poll_ready` and the handling of an event in `Reactor::react`; Source/Ready and
--   Events: any sequence of polls, bumps of the ticker and events.
-- - Reactor: `Reactor::react`, `insert_io` and `remove_io`, over Timers and Source; Reactor/Thread:
--   the loop of the thread that `Reactor::get` starts.
-- - Async: `Async` of src/io/mod.rs with its read and write loops, over Source and Reactor;
--   Async/Ready, Wakes and Drop: what they leave behind. Async/Traits: its `AsyncRead` and
--   `AsyncWrite`.
-- - Time: `Timer` of src/io/mod.rs, `Delay`, `Timeout` and `Interval` of src/time/, and `IdleTimeout`
--   of src/util/idle_timeout.rs, over Timers. Time/Registry, Registered, Ticks and Limits:
--   what they promise.
-- - CopyBuffer: `CopyBuffer::poll_copy` of src/util/copy_buffer.rs, and CopyBuffer/Bidirectional:
--   src/util/copy_bidirectional.rs. CopyBuffer/Reads, Inv and Returns: one buffer; Frame, Lane,
--   Both and Polls: two directions over shared ends, poll after poll.
-- - Net: the loops over addresses of src/net/, and `TcpStream::connect_addr`. Net/Stream: the streams
--   with their halves, and `UnixStream::connect`; Net/Udp and Datagram: `UdpSocket`
--   and `UnixDatagram`; Net/Listener: the listeners. Net/First, Connects, Halves and Incoming:
--   what they promise.
-- - WakerFn: `waker_fn` of src/waker_fn.rs over the count of an `Arc`.
-- The modules named Tests run the definitions at small inputs.
--
-- State and calls. A method that changes its object takes the object and returns the new one beside
-- its result. `Instant::now()` is an argument, a number; a waker is a number, and `will_wake` is
-- equality. `none` stands for a panic, or, where a comment says so, for too few rounds of a loop.
-- `Instant + Duration` panics on overflow, so that what adds them is an `Option` (`add_instant`).
-- What a lock protects for the length of a call is one step; elsewhere a step is one access of
-- shared memory, and memory is sequentially consistent. The source asks for SeqCst almost
-- everywhere; the weaker orderings of `io_blocked` in `block_on` and of the ring are taken as
-- SeqCst too.
--
-- Fuel. The loops of `insert_timer` and `remove_timer` are given two rounds, `poll_copy` and the
-- loops of `Async` a number of rounds that is an argument. For the timers two are enough because a
-- push that finds the queue full is followed by `process_timer_ops`, which empties it, and no other
-- thread pushes in between (with others that do, the loop may go round more often); for a poll
-- of `Async` two, because a source that was ready is not so again without an event; and `poll_copy`
-- needs at most two more rounds than there are reads with bytes to come. The kqueue backend reads
-- its stream empty with fuel above what there is to read. All other loops recurse on their data.
--
-- Outside code. Reader and writer, the handle of `Async`, the system calls of `connect_addr` and of
-- the two backends, and, for the reactor, the answers of the poller are arguments. The slab of
-- sources is a function from keys; a removal of a vacant key panics, as its documentation says. What
-- other threads do to the reactor between the two removals of `into_inner` is an argument. A
-- flag word of libc is the set of its flags. `BTreeMap` is a list in the order of the keys.
--
-- Not modelled: the threads that src/lib.rs starts, and the methods of src/net/ that only ask the
-- standard library for an address or an option.
mod Prelude
pub mod Poller
pub mod WakerFn
pub mod Queue
pub mod Executor
pub mod Local
pub mod Net
pub mod Parking
pub mod Sleepers
pub mod Timers
pub mod Source
pub mod CopyBuffer
pub mod Async
pub mod Blocking
pub mod Time
pub mod Reactor
