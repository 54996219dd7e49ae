-- ===== src/Net/Stream.antt =====
-- `TcpStream` of src/net/tcp/stream.rs with its halves, and `UnixStream` of src/net/unix/stream.rs:
-- each forwards to `Async`. A stream is the source of its `Async` with a state `S`.
pub mod Tcp
pub mod Unix
use awak.Prelude.{ℕ}
use awak.CopyBuffer.{Io}
use awak.Async.Traits.{Handle}

-- `Shutdown`
pub data How : Type 0 where
  read write both : How

-- What the streams use of the standard library.
pub record Socket (S : Type 0) : Type 0 where
  pub handle : Handle S
  pub shutdown : How → S → S × Io (Unit {0})
  pub peek : S → S × Io ℕ
