-- ===== src/Async/Wakes.antt =====
-- A poll of `read_with` or `write_with` of src/io/mod.rs and the next event of src/io/reactor.rs.
use awak.Prelude.{ℕ, ◌≡◌, subst, inl, inr, Option, some, List, [], ◌∷◌, ◌++◌, true, arith}
use awak.Sleepers.{Waker}
use awak.Source.Ready.{concerns}
use awak.Source.{Source, Op, read, write, Interest, Event, handle, will_wake}
use awak.CopyBuffer.{ErrorKind, Io, pending}
use awak.Async.{Looped, poll_with}
use awak.Async.Ready.{poll_with-Answers}

will_wake-front :
    (w : Waker) (xs ys : List Waker) → will_wake w xs ≡ true → will_wake w (xs ++ ys) ≡ true
will_wake-front w [] ys h = absurd (ground arith)
will_wake-front w (x ∷ xs) ys h = let back = will_wake-front w xs ys in ground arith

will_wake-back :
    (w : Waker) (xs ys : List Waker) → will_wake w ys ≡ true → will_wake w (xs ++ ys) ≡ true
will_wake-back w [] ys h = h
will_wake-back w (x ∷ xs) ys h = let back = will_wake-back w xs ys h in ground arith

-- An event wakes all that wait for its direction.
handle_wakes :
    (src : Source) (dir : Op) (w : Waker) (tick : ℕ) (ev : Event)
    → concerns dir ev ≡ true
    → will_wake w (src.states dir).wakers ≡ true
    → will_wake w (handle src tick ev).1 ≡ true
unfolding handle
handle_wakes src read w tick ev of_it on = rw (handle, of_it) (will_wake-front w _ _ on)
handle_wakes src write w tick ev of_it on = rw (handle, of_it) (will_wake-back w _ _ on)

-- A poll of the loops of `read_with` and `write_with` that is pending is not forgotten: the next
-- event of its direction, with no other call in between, wakes the waker of the poll.
pub poll_with_wakes :
    {S R : Type 0} (op : S → S × Io R) (refuses : Interest → Option ErrorKind) (dir : Op)
    (w : Waker) (ticker : ℕ) (src : Source) (s : S) (looped : Looped S R) (tick : ℕ) (ev : Event)
    → poll_with op refuses dir w ticker 2 src s ≡ some looped
    → looped.result ≡ pending
    → concerns dir ev ≡ true
    → will_wake w (handle looped.source tick ev).1 ≡ true
poll_with_wakes op refuses dir w ticker src s looped tick ev e is_pending of_it =
    let d = poll_with-Answers op refuses dir w ticker src s in
    let same : d.looped ≡ looped = cc in
    handle_wakes looped.source dir w tick ev of_it (
      subst (λ l. will_wake w (l.source.states dir).wakers ≡ true) same
        (elim d.outcome [
          | inl (_, answered) ↦ absurd (ground arith)
          | inr (_, inl (_, _, _, failed)) ↦ absurd (ground arith)
          | inr (_, inr (_, on)) ↦ on
        ]))
