-- ===== src/Net/Stream/Tcp.antt =====
-- `TcpStream` of src/net/tcp/stream.rs and its halves, which `split` makes of one stream.
use awak.Prelude.{ℕ, Option, some, Bool}
use awak.Source.{Source}
use awak.CopyBuffer.{ready}
use awak.Async.{Looped}
use awak.Async.Traits
use awak.Async.Traits.{Context}
use awak.Net.Stream.{Socket, write}

module _ {S : Type 0} (socket : Socket S) (cx : Context) (rounds : ℕ) where
  -- A poll of the future of `peek`.
  unfoldable pub peek : Bool → Source → S → Option (Looped S ℕ)
  peek = Traits.read_with socket.peek cx rounds

  unfoldable pub poll_read : Source → S → Option (Looped S ℕ)
  poll_read = Traits.poll_read socket.handle cx rounds

  unfoldable pub poll_read_vectored : Source → S → Option (Looped S ℕ)
  poll_read_vectored = Traits.poll_read_vectored socket.handle cx rounds

  unfoldable pub poll_write : Source → S → Option (Looped S ℕ)
  poll_write = Traits.poll_write socket.handle cx rounds

  unfoldable pub poll_write_vectored : Source → S → Option (Looped S ℕ)
  poll_write_vectored = Traits.poll_write_vectored socket.handle cx rounds

  unfoldable pub poll_flush : Source → S → Option (Looped S (Unit {0}))
  poll_flush = Traits.poll_flush socket.handle cx rounds

  -- The socket is shut down for writing at once.
  unfoldable pub poll_close : Source → S → Option (Looped S (Unit {0}))
  poll_close src s =
      let (s', r) = socket.shutdown write s in
      some (record { source = src; state = s'; result = ready r })

-- The impls for references.
module _ {S : Type 0} (socket : Socket S) (cx : Context) (rounds : ℕ) where
  unfoldable pub ref_poll_read : Source → S → Option (Looped S ℕ)
  ref_poll_read = Traits.ref_poll_read socket.handle cx rounds

  unfoldable pub ref_poll_read_vectored : Source → S → Option (Looped S ℕ)
  ref_poll_read_vectored = Traits.ref_poll_read_vectored socket.handle cx rounds

  unfoldable pub ref_poll_write : Source → S → Option (Looped S ℕ)
  ref_poll_write = Traits.ref_poll_write socket.handle cx rounds

  unfoldable pub ref_poll_write_vectored : Source → S → Option (Looped S ℕ)
  ref_poll_write_vectored = Traits.ref_poll_write_vectored socket.handle cx rounds

  unfoldable pub ref_poll_flush : Source → S → Option (Looped S (Unit {0}))
  ref_poll_flush = Traits.ref_poll_flush socket.handle cx rounds

  unfoldable pub ref_poll_close : Source → S → Option (Looped S (Unit {0}))
  ref_poll_close src s =
      let (s', r) = socket.shutdown write s in
      some (record { source = src; state = s'; result = ready r })

-- `ReadHalf` and `WriteHalf`: each holds a reference of the stream.
module _ {S : Type 0} (socket : Socket S) (cx : Context) (rounds : ℕ) where
  unfoldable pub half_poll_read : Source → S → Option (Looped S ℕ)
  half_poll_read = ref_poll_read socket cx rounds

  unfoldable pub half_poll_read_vectored : Source → S → Option (Looped S ℕ)
  half_poll_read_vectored = ref_poll_read_vectored socket cx rounds

  unfoldable pub half_poll_write : Source → S → Option (Looped S ℕ)
  half_poll_write = ref_poll_write socket cx rounds

  unfoldable pub half_poll_write_vectored : Source → S → Option (Looped S ℕ)
  half_poll_write_vectored = ref_poll_write_vectored socket cx rounds

  unfoldable pub half_poll_flush : Source → S → Option (Looped S (Unit {0}))
  half_poll_flush = ref_poll_flush socket cx rounds

  unfoldable pub half_poll_close : Source → S → Option (Looped S (Unit {0}))
  half_poll_close src s =
      let (s', r) = socket.shutdown write s in
      some (record { source = src; state = s'; result = ready r })
