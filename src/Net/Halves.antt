-- ===== src/Net/Halves.antt =====
-- The halves of a stream of src/net/tcp/stream.rs, and the connections of src/net/tcp/listener.rs.
use awak.Prelude.{
  ℕ, zero, suc, ◌≡◌, inl, inr, refl, subst, ◌∙◌, Option, none, some, Bool-cases, arith,
}
use awak.Sleepers.{Waker}
use awak.Source.{Source, Op, read, write, Interest, Polled, poll_ready}
use awak.CopyBuffer.{ErrorKind, Io, err, ready, pending}
use awak.Reactor.{refusal}
use awak.Async.{Looped, is_blocked, poll_with}
use awak.Async.Ready.{poll_with-Answers}
use awak.Async.Traits
use awak.Async.Traits.{Context, read_with, write_with}
use awak.Net.Stream.{Socket, How}
use awak.Net.Stream.Tcp

abbrev pub other : Op → Op
other read = write
other write = read

poll_ready-other :
    (src : Source) (dir : Op) (w : Waker) (ticker : ℕ)
    → (poll_ready src dir w ticker).0.states (other dir) ≡ src.states (other dir)
unfolding poll_ready
poll_ready-other src read w ticker = ground arith
poll_ready-other src write w ticker = ground arith

-- Whatever a poll leaves, it is not in the other direction.
abbrev pub Apart : {S R : Type 0} → Op → Source → Option (Looped S R) → Type 0
Apart dir src none = Unit
Apart dir src (some l) = l.source.states (other dir) ≡ src.states (other dir)

Apart-trans :
    {S R : Type 0} (dir : Op) (src src' : Source) (o : Option (Looped S R))
    → src'.states (other dir) ≡ src.states (other dir)
    → Apart dir src' o
    → Apart dir src o
Apart-trans dir src src' none e a = tt
Apart-trans dir src src' (some l) e a = a ∙ e

module _ {S R : Type 0} (op : S → S × Io R) (refuses : Interest → Option ErrorKind) (dir : Op)
    (w : Waker) (ticker : ℕ) where
  poll_with-Apart :
      (n : ℕ) (src : Source) (s : S) → Apart dir src (poll_with op refuses dir w ticker n src s)
  unfolding poll_with
  poll_with-Apart zero src s = tt
  poll_with-Apart (suc n) src s = elim (Bool-cases (is_blocked (op s).1)) [
    | inl blocked ↦
        rw (blocked, poll_with)
          (awaited (poll_ready src dir w ticker).1
            (poll_with-Apart n (poll_ready src dir w ticker).0 (op s).0))
    | inr answered ↦ rw (answered, poll_with) refl
  ]
    where
      awaited :
          (answer : Polled)
          → Apart dir
              (poll_ready src dir w ticker).0
              (poll_with op refuses dir w ticker n (poll_ready src dir w ticker).0 (op s).0)
          → Apart dir src (elim answer as (λ _. Option (Looped S R)) [
            | Polled.ready ↦
                poll_with op refuses dir w ticker n (poll_ready src dir w ticker).0 (op s).0
            | Polled.pending asked ↦ some (record {
              source = (poll_ready src dir w ticker).0;
              state = (op s).0;
              result = elim (refusal refuses asked) [ some e ↦ ready (err e) | none ↦ pending ];
            })
          ])
      awaited Polled.ready rest =
          Apart-trans dir src (poll_ready src dir w ticker).0 _ (poll_ready-other src dir w ticker)
            rest
      awaited (Polled.pending asked) rest = poll_ready-other src dir w ticker

-- A poll that returns and keeps out of the other direction.
abbrev pub Keeps : {S R : Type 0} → Op → Source → Option (Looped S R) → Type 0
Keeps {S} {R} dir src o =
    (l : Looped S R) × (o ≡ some l) × (l.source.states (other dir) ≡ src.states (other dir))

keeps :
    {S R : Type 0} (op : S → S × Io R) (refuses : Interest → Option ErrorKind) (dir : Op)
    (w : Waker) (ticker : ℕ) (src : Source) (s : S)
    → Keeps dir src (poll_with op refuses dir w ticker 2 src s)
keeps op refuses dir w ticker src s =
    let a = poll_with-Answers op refuses dir w ticker src s in
    (
      a.looped,
      a.returns,
      subst (Apart dir src) a.returns (poll_with-Apart op refuses dir w ticker 2 src s),
    )

module _ {S : Type 0} (socket : Socket S) (cx : Context) (src : Source) (s : S) where
  -- The halves of a stream do not disturb each other, whatever the socket answers: with two rounds
  -- each poll of the reading half returns and leaves the writing direction of the source, its
  -- waiting wakers and its ticks, as it was; each poll of the writing half returns and leaves the
  -- reading direction as it was; and closing the writing half shuts the socket down for writing and
  -- leaves the whole source as it was.
  pub halves_apart :
      Keeps read src (Tcp.half_poll_read socket cx 2 src s)
      × Keeps read src (Tcp.half_poll_read_vectored socket cx 2 src s)
      × Keeps write src (Tcp.half_poll_write socket cx 2 src s)
      × Keeps write src (Tcp.half_poll_write_vectored socket cx 2 src s)
      × Keeps write src (Tcp.half_poll_flush socket cx 2 src s)
      × (Tcp.half_poll_close socket cx 2 src s
          ≡ some (record {
            source = src;
            state = (socket.shutdown How.write s).0;
            result = ready (socket.shutdown How.write s).1;
          }))
  unfolding Tcp.half_poll_read Tcp.half_poll_read_vectored Tcp.half_poll_write
      Tcp.half_poll_write_vectored Tcp.half_poll_flush Tcp.half_poll_close Tcp.ref_poll_read
      Tcp.ref_poll_read_vectored Tcp.ref_poll_write Tcp.ref_poll_write_vectored Tcp.ref_poll_flush
      Traits.ref_poll_read Traits.ref_poll_read_vectored Traits.ref_poll_write
      Traits.ref_poll_write_vectored Traits.ref_poll_flush read_with write_with
  halves_apart = (
    keeps socket.handle.read cx.refuses read cx.waker cx.ticker src s,
    keeps socket.handle.read_vectored cx.refuses read cx.waker cx.ticker src s,
    keeps socket.handle.write cx.refuses write cx.waker cx.ticker src s,
    keeps socket.handle.write_vectored cx.refuses write cx.waker cx.ticker src s,
    keeps socket.handle.flush cx.refuses write cx.waker cx.ticker src s,
    refl,
  )
