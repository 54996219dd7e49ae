-- ===== src/Async/Traits.antt =====
-- The impls of `AsyncRead` and `AsyncWrite` for `Async` and `&Async` of src/io/mod.rs: each poll
-- makes a future of `read_with` or `write_with`, polls it once and drops it. The state `S` is the
-- handle with the buffers that the calls fill or send; `rounds` bounds the rounds of the loop.
use awak.Prelude.{ℕ, Option, some, Bool, if◌then◌else◌}
use awak.Sleepers.{Waker}
use awak.Source.{Source, Op, Interest}
use awak.CopyBuffer.{ErrorKind, Io, ok, ready}
use awak.Async.{Looped, poll_with, resume_with}

-- `Read` and `Write` of the handle.
pub record Handle (S : Type 0) : Type 0 where
  pub read : S → S × Io ℕ
  pub read_vectored : S → S × Io ℕ
  pub write : S → S × Io ℕ
  pub write_vectored : S → S × Io ℕ
  pub flush : S → S × Io (Unit {0})

-- The reactor as a poll sees it: what it refuses, and its ticker; with the waker of the poll.
pub record Context : Type 0 where
  pub refuses : Interest → Option ErrorKind
  pub waker : Waker
  pub ticker : ℕ

module _ {S R : Type 0} (op : S → S × Io R) (cx : Context) (rounds : ℕ) where
  -- A poll of the future of `read_with`: the first, or one that awaits the source.
  unfoldable pub read_with : Bool → Source → S → Option (Looped S R)
  read_with awaits src s =
      if awaits
      then resume_with op cx.refuses Op.read cx.waker cx.ticker rounds src s
      else poll_with op cx.refuses Op.read cx.waker cx.ticker rounds src s

  unfoldable pub write_with : Bool → Source → S → Option (Looped S R)
  write_with awaits src s =
      if awaits
      then resume_with op cx.refuses Op.write cx.waker cx.ticker rounds src s
      else poll_with op cx.refuses Op.write cx.waker cx.ticker rounds src s

  -- `poll_read_with` and `poll_write_with`
  unfoldable pub poll_read_with : Source → S → Option (Looped S R)
  poll_read_with src s = poll_with op cx.refuses Op.read cx.waker cx.ticker rounds src s

  unfoldable pub poll_write_with : Source → S → Option (Looped S R)
  poll_write_with src s = poll_with op cx.refuses Op.write cx.waker cx.ticker rounds src s

-- `poll_future`: the future is new.
abbrev pub poll_future :
    {S R : Type 0} → (Bool → Source → S → Option (Looped S R)) → Source → S → Option (Looped S R)
poll_future fut = fut Bool.false

module _ {S : Type 0} (h : Handle S) (cx : Context) (rounds : ℕ) where
  unfoldable pub poll_read : Source → S → Option (Looped S ℕ)
  poll_read = poll_future (read_with h.read cx rounds)

  unfoldable pub poll_read_vectored : Source → S → Option (Looped S ℕ)
  poll_read_vectored = poll_future (read_with h.read_vectored cx rounds)

  unfoldable pub poll_write : Source → S → Option (Looped S ℕ)
  poll_write = poll_future (write_with h.write cx rounds)

  unfoldable pub poll_write_vectored : Source → S → Option (Looped S ℕ)
  poll_write_vectored = poll_future (write_with h.write_vectored cx rounds)

  unfoldable pub poll_flush : Source → S → Option (Looped S (Unit {0}))
  poll_flush = poll_future (write_with h.flush cx rounds)

  unfoldable pub poll_close : Source → S → Option (Looped S (Unit {0}))
  poll_close src s = some (record { source = src; state = s; result = ready (ok tt) })

-- The impls for `&Async`, over `Read` and `Write` of a reference to the handle.
module _ {S : Type 0} (h : Handle S) (cx : Context) (rounds : ℕ) where
  unfoldable pub ref_poll_read : Source → S → Option (Looped S ℕ)
  ref_poll_read = poll_future (read_with h.read cx rounds)

  unfoldable pub ref_poll_read_vectored : Source → S → Option (Looped S ℕ)
  ref_poll_read_vectored = poll_future (read_with h.read_vectored cx rounds)

  unfoldable pub ref_poll_write : Source → S → Option (Looped S ℕ)
  ref_poll_write = poll_future (write_with h.write cx rounds)

  unfoldable pub ref_poll_write_vectored : Source → S → Option (Looped S ℕ)
  ref_poll_write_vectored = poll_future (write_with h.write_vectored cx rounds)

  unfoldable pub ref_poll_flush : Source → S → Option (Looped S (Unit {0}))
  ref_poll_flush = poll_future (write_with h.flush cx rounds)

  unfoldable pub ref_poll_close : Source → S → Option (Looped S (Unit {0}))
  ref_poll_close src s = some (record { source = src; state = s; result = ready (ok tt) })
