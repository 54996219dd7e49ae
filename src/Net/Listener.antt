-- ===== src/Net/Listener.antt =====
-- `TcpListener` of src/net/tcp/listener.rs with its stream of connections, and `UnixListener` of
-- src/net/unix/listener.rs, whose `accept` is the same.
use awak.Prelude.{ℕ, Option, none, some, Bool}
use awak.Source.{Source}
use awak.CopyBuffer.{Io, ok, err, Poll, ready, pending}
use awak.Async.{Looped}
use awak.Async.Traits.{Context, read_with, poll_future}

-- A result of `accept`, with what `from_std` makes of the stream.
abbrev pub accepted : {C T A : Type 0} → (C → Io T) → Io (C × A) → Io (T × A)
accepted from_std (err e) = err e
accepted from_std (ok (stream, addr)) = elim (from_std stream) [
  | ok t ↦ ok (t, addr)
  | err e ↦ err e
]

abbrev pub map_poll : {A B : Type 0} → (A → B) → Poll A → Poll B
map_poll f pending = pending
map_poll f (ready a) = ready (f a)

abbrev pub map_looped : {S R Q : Type 0} → (Io R → Io Q) → Option (Looped S R) → Option (Looped S Q)
map_looped f none = none
map_looped f (some l) =
    some (record { source = l.source; state = l.state; result = map_poll f l.result })

-- What a poll of the stream `Incoming` leaves and returns.
pub record Next (S T : Type 0) : Type 0 where
  pub source : Source
  pub state : S
  pub item : Poll (Option (Io T))

-- `?` on the result, and `Some(Ok(stream))`.
abbrev pub item_of : {T A : Type 0} → Io (T × A) → Option (Io T)
item_of (err e) = some (err e)
item_of (ok (stream, addr)) = some (ok stream)

-- `C` is what the standard library accepts, and `A` its addresses.
module _ {S C T A : Type 0} (accept_std : S → S × Io (C × A)) (from_std : C → Io T) (cx : Context)
    (rounds : ℕ) where
  -- A poll of the future of `accept`.
  unfoldable pub accept : Bool → Source → S → Option (Looped S (T × A))
  accept awaits src s = map_looped (accepted from_std) (read_with accept_std cx rounds awaits src s)

  -- `Incoming::poll_next`: a new future of `accept` each time.
  unfoldable pub poll_next : Source → S → Option (Next S T)
  poll_next src s = elim (poll_future accept src s) [
    | none ↦ none
    | some l ↦
        some (record { source = l.source; state = l.state; item = map_poll item_of l.result })
  ]
