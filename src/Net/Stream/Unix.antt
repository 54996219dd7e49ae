-- ===== src/Net/Stream/Unix.antt =====
-- `UnixStream` of src/net/unix/stream.rs.
use awak.Prelude.{ℕ, Option, some, Bool, if◌then◌else◌}
use awak.Source.{Source}
use awak.CopyBuffer.{ErrorKind, Io, ok, err, ready}
use awak.Async.{Looped}
use awak.Async.Traits
use awak.Async.Traits.{Context}
use awak.Net.{and_then}
use awak.Net.Stream.{Socket, write}

-- What the calls of `connect` return: `in_progress` is the test of EINPROGRESS or `WouldBlock` on
-- the error of `connect`. On other systems than Linux the socket is made nonblocking by a call of
-- its own.
pub record Attempt (T : Type 0) : Type 0 where
  pub address : Io (Unit {0})
  pub linux : Bool
  pub socket : Io (Unit {0})
  pub nonblocking : Io (Unit {0})
  pub connected : Io (Unit {0})
  pub in_progress : ErrorKind → Bool
  pub stream : Io T
  pub writable : Io (Unit {0})
  pub peer_addr : Io (Unit {0})

abbrev pub made : {T : Type 0} → Attempt T → Io (Unit {0})
made t = and_then t.socket (λ _. if t.linux then ok tt else t.nonblocking)

abbrev pub started : {T : Type 0} → Attempt T → Io (Unit {0})
started t = elim t.connected [ ok _ ↦ ok tt | err e ↦ if t.in_progress e then ok tt else err e ]

unfoldable pub connect : {T : Type 0} → Attempt T → Io T
connect t = and_then t.address (λ _. and_then (made t) (λ _. and_then (started t) (λ _.
    and_then t.stream
      (λ stream. and_then t.writable (λ _. and_then t.peer_addr (λ _. ok stream))))))

module _ {S : Type 0} (socket : Socket S) (cx : Context) (rounds : ℕ) where
  unfoldable pub poll_read : Source → S → Option (Looped S ℕ)
  poll_read = Traits.poll_read socket.handle cx rounds

  unfoldable pub poll_read_vectored : Source → S → Option (Looped S ℕ)
  poll_read_vectored = Traits.poll_read_vectored socket.handle cx rounds

  unfoldable pub poll_write : Source → S → Option (Looped S ℕ)
  poll_write = Traits.poll_write socket.handle cx rounds

  unfoldable pub poll_write_vectored : Source → S → Option (Looped S ℕ)
  poll_write_vectored = Traits.poll_write_vectored socket.handle cx rounds

  unfoldable pub poll_flush : Source → S → Option (Looped S (Unit {0}))
  poll_flush = Traits.poll_flush socket.handle cx rounds

  -- The socket is shut down for writing at once.
  unfoldable pub poll_close : Source → S → Option (Looped S (Unit {0}))
  poll_close src s =
      let (s', r) = socket.shutdown write s in
      some (record { source = src; state = s'; result = ready r })

-- The impls for references.
module _ {S : Type 0} (socket : Socket S) (cx : Context) (rounds : ℕ) where
  unfoldable pub ref_poll_read : Source → S → Option (Looped S ℕ)
  ref_poll_read = Traits.ref_poll_read socket.handle cx rounds

  unfoldable pub ref_poll_read_vectored : Source → S → Option (Looped S ℕ)
  ref_poll_read_vectored = Traits.ref_poll_read_vectored socket.handle cx rounds

  unfoldable pub ref_poll_write : Source → S → Option (Looped S ℕ)
  ref_poll_write = Traits.ref_poll_write socket.handle cx rounds

  unfoldable pub ref_poll_write_vectored : Source → S → Option (Looped S ℕ)
  ref_poll_write_vectored = Traits.ref_poll_write_vectored socket.handle cx rounds

  unfoldable pub ref_poll_flush : Source → S → Option (Looped S (Unit {0}))
  ref_poll_flush = Traits.ref_poll_flush socket.handle cx rounds

  unfoldable pub ref_poll_close : Source → S → Option (Looped S (Unit {0}))
  ref_poll_close src s =
      let (s', r) = socket.shutdown write s in
      some (record { source = src; state = s'; result = ready r })
