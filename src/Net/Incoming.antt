-- ===== src/Net/Incoming.antt =====
-- The stream of connections `Incoming` of src/net/tcp/listener.rs.
use awak.Prelude.{◌≡◌, ◌⊎◌, inl, inr, refl, ap, Option, some, true}
use awak.Sleepers.{Waker}
use awak.Source.{Source, read, will_wake}
use awak.CopyBuffer.{Io, ok, err, ready, pending}
use awak.Async.Ready.{poll_with-Answers}
use awak.Async.Traits.{Context, read_with}
use awak.Net.Listener.{Next, accept, poll_next, accepted, map_poll, item_of}

item_of-some : {T A : Type 0} (r : Io (T × A)) → (item : Io T) × (item_of r ≡ some item)
item_of-some (ok (t, a)) = (ok t, refl)
item_of-some (err e) = (err e, refl)

-- A poll that returns: it waits for a connection, or it gives an item.
abbrev pub GoesOn : {S T : Type 0} → Waker → Option (Next S T) → Type 0
GoesOn {S} {T} w o =
    (n : Next S T) × (o ≡ some n)
    × (((n.item ≡ pending) × (will_wake w (n.source.states read).wakers ≡ true))
        ⊎ ((item : Io T) × (n.item ≡ ready (some item))))

module _ {S C T A : Type 0} (accept_std : S → S × Io (C × A)) (from_std : C → Io T)
    (cx : Context) where
  -- `Incoming` never ends. With two rounds each poll returns, whatever the listener answers and
  -- whether the accepted socket can be registered or not: it is pending, and its waker waits for
  -- the listener to be readable, or it gives a stream or an error, never the end.
  pub incoming-GoesOn :
      (src : Source) (s : S) → GoesOn cx.waker (poll_next accept_std from_std cx 2 src s)
  unfolding poll_next accept read_with
  incoming-GoesOn src s =
      let a = poll_with-Answers accept_std cx.refuses read cx.waker cx.ticker src s in
      let l = a.looped in
      let n : Next S T = record {
        source = l.source;
        state = l.state;
        item = map_poll item_of (map_poll (accepted from_std) l.result);
      } in
      (
        n,
        rw (a.returns, poll_next) refl,
        elim a.outcome [
          | inl (answered, result) ↦
              let (item, e) = item_of-some (accepted from_std a.answer) in
              inr (item, rw (result) (ap ready e))
          | inr (blocked, inl (asked, e, refused, result)) ↦ inr (err e, rw (result) refl)
          | inr (blocked, inr (result, waits)) ↦ inl (rw (result) refl, waits)
        ],
      )
