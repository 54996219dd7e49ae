-- ===== src/Net.antt =====
-- Connecting and binding in src/net/: the loops over the addresses of `TcpStream::connect`,
-- `UdpSocket::bind` and `UdpSocket::connect`, and `TcpStream::connect_addr`. The system calls are
-- outside: `W` is the state of the system, and what they return is an argument.
pub mod First
pub mod Stream
pub mod Udp
pub mod Datagram
pub mod Connects
pub mod Listener
pub mod Halves
pub mod Incoming
mod Tests
use awak.Prelude.{ℕ, Option, none, some, List, [], ◌∷◌, Bool, true, false, ◌||◌, if◌then◌else◌}
use awak.CopyBuffer.{ErrorKind, Io, ok, err}

-- "could not resolve to any address"
abbrev pub invalid_input : ErrorKind
invalid_input = 2

abbrev pub unwrap_or : Option ErrorKind → ErrorKind → ErrorKind
unwrap_or none e = e
unwrap_or (some e) d = e

-- The loop, after `last_err`. `op` connects or binds one address.
unfoldable pub try_each :
    {A B W : Type 0} → (A → W → W × Io B) → List A → Option ErrorKind → W → W × Io B
try_each op [] last_err w = (w, err (unwrap_or last_err invalid_input))
try_each op (a ∷ rest) last_err w =
    let (w', res) = op a w in elim res [ ok b ↦ (w', ok b) | err e ↦ try_each op rest (some e) w' ]

-- `addrs` is what the address resolves to.
unfoldable pub connect : {A B W : Type 0} → (A → W → W × Io B) → Io (List A) → W → W × Io B
unfolding try_each
connect op (ok addrs) w = try_each op addrs none w
connect op (err e) w = (w, err e)

-- What the calls of `connect_addr` return for an address: `in_progress` is the test of EINPROGRESS
-- or `WouldBlock` on the error of `connect`.
pub record Attempt (T : Type 0) : Type 0 where
  pub socket : Io (Unit {0})
  pub nonblocking : Io (Unit {0})
  pub connected : Io (Unit {0})
  pub in_progress : ErrorKind → Bool
  pub stream : Io T
  pub writable : Io (Unit {0})
  pub take_error : Io (Option ErrorKind)

-- The `?` operator.
abbrev pub and_then : {A B : Type 0} → Io A → (A → Io B) → Io B
and_then (ok a) f = f a
and_then (err e) f = err e

abbrev pub started : {T : Type 0} → Attempt T → Io (Unit {0})
started t = elim t.connected [ ok _ ↦ ok tt | err e ↦ if t.in_progress e then ok tt else err e ]

unfoldable pub connect_addr : {T : Type 0} → Attempt T → Io T
connect_addr t = and_then t.socket (λ _. and_then t.nonblocking (λ _. and_then (started t) (λ _.
    and_then t.stream (λ stream.
      and_then t.writable
        (λ _. and_then t.take_error (λ e. elim e [ none ↦ ok stream | some e ↦ err e ]))))))
