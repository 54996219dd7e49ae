-- ===== src/Net/Datagram.antt =====
-- `UnixDatagram` of src/net/unix/datagram.rs. The state `S` is the socket with the buffer of the
-- call.
use awak.Prelude.{ℕ, Option, Bool}
use awak.Source.{Source}
use awak.CopyBuffer.{Io, ok}
use awak.Async.{Looped}
use awak.Async.Traits.{Context, read_with, write_with, poll_read_with, poll_write_with}
use awak.Net.{and_then}

-- What `UnixDatagram` uses of the standard library, for paths and addresses `A`.
pub record Socket (S A : Type 0) : Type 0 where
  pub recv : S → S × Io ℕ
  pub recv_from : S → S × Io (ℕ × A)
  pub send : S → S × Io ℕ
  pub send_to : A → S → S × Io ℕ

-- `new` is `Async::new`, and `bound` what the standard library returns.
unfoldable pub bind : {T U : Type 0} → Io T → (T → Io U) → Io U
bind bound new = and_then bound new

unfoldable pub pair : {T U : Type 0} → Io (T × T) → (T → Io U) → Io (U × U)
pair made from_std =
    and_then made
      (λ socks. and_then (from_std socks.0) (λ a. and_then (from_std socks.1) (λ b. ok (a, b))))

module _ {S A : Type 0} (socket : Socket S A) (cx : Context) (rounds : ℕ) where
  -- A poll of the future, the first or a later one.
  unfoldable pub recv : Bool → Source → S → Option (Looped S ℕ)
  recv = read_with socket.recv cx rounds

  unfoldable pub recv_from : Bool → Source → S → Option (Looped S (ℕ × A))
  recv_from = read_with socket.recv_from cx rounds

  unfoldable pub send : Bool → Source → S → Option (Looped S ℕ)
  send = write_with socket.send cx rounds

  unfoldable pub send_to : A → Bool → Source → S → Option (Looped S ℕ)
  send_to addr = write_with (socket.send_to addr) cx rounds

  unfoldable pub poll_recv : Source → S → Option (Looped S ℕ)
  poll_recv = poll_read_with socket.recv cx rounds

  unfoldable pub poll_recv_from : Source → S → Option (Looped S (ℕ × A))
  poll_recv_from = poll_read_with socket.recv_from cx rounds

  unfoldable pub poll_send : Source → S → Option (Looped S ℕ)
  poll_send = poll_write_with socket.send cx rounds

  unfoldable pub poll_send_to : A → Source → S → Option (Looped S ℕ)
  poll_send_to addr = poll_write_with (socket.send_to addr) cx rounds
