-- ===== src/Net/Udp.antt =====
-- `UdpSocket` of src/net/udp.rs. The state `S` is the socket with the buffer of the call.
use awak.Prelude.{ℕ, Option, List, Bool}
use awak.Source.{Source}
use awak.CopyBuffer.{Io, ok, err}
use awak.Async.{Looped}
use awak.Async.Traits.{Context, read_with, write_with, poll_read_with, poll_write_with}
use awak.Net.{connect}

-- What `UdpSocket` uses of the standard library, for addresses `A`.
pub record Socket (S A : Type 0) : Type 0 where
  pub recv : S → S × Io ℕ
  pub recv_from : S → S × Io (ℕ × A)
  pub send : S → S × Io ℕ
  pub send_to : A → S → S × Io ℕ

-- `bind_addr` with `net::UdpSocket::bind` and `Async::new`, which change the system `W`.
unfoldable pub bind_addr :
    {A W T U : Type 0} → (A → W → W × Io T) → (T → W → W × Io U) → A → W → W × Io U
bind_addr bind_std new addr w =
    let (w', bound) = bind_std addr w in elim bound [ ok t ↦ new t w' | err e ↦ (w', err e) ]

-- `addrs` is what the address resolves to.
unfoldable pub bind :
    {A W T U : Type 0} → (A → W → W × Io T) → (T → W → W × Io U) → Io (List A) → W → W × Io U
unfolding bind_addr
bind bind_std new addrs w = connect (bind_addr bind_std new) addrs w

module _ {S A : Type 0} (socket : Socket S A) (cx : Context) (rounds : ℕ) where
  -- A poll of the future, the first or a later one.
  unfoldable pub recv : Bool → Source → S → Option (Looped S ℕ)
  recv = read_with socket.recv cx rounds

  unfoldable pub recv_from : Bool → Source → S → Option (Looped S (ℕ × A))
  recv_from = read_with socket.recv_from cx rounds

  unfoldable pub send : Bool → Source → S → Option (Looped S ℕ)
  send = write_with socket.send cx rounds

  unfoldable pub send_to : A → Bool → Source → S → Option (Looped S ℕ)
  send_to addr = write_with (socket.send_to addr) cx rounds

  unfoldable pub poll_recv : Source → S → Option (Looped S ℕ)
  poll_recv = poll_read_with socket.recv cx rounds

  unfoldable pub poll_recv_from : Source → S → Option (Looped S (ℕ × A))
  poll_recv_from = poll_read_with socket.recv_from cx rounds

  unfoldable pub poll_send : Source → S → Option (Looped S ℕ)
  poll_send = poll_write_with socket.send cx rounds

  unfoldable pub poll_send_to : A → Source → S → Option (Looped S ℕ)
  poll_send_to addr = poll_write_with (socket.send_to addr) cx rounds
