-- ===== src/Poller/Delivers.antt =====
-- What `Poller::wait` of src/io/poller/mod.rs returns over the backend of src/io/poller/epoll.rs.
use mathlib.Core.List.{Memᴰ}
use awak.Prelude.{
  ◌≡◌, ◌≢◌, ap, subst, Option, List, map, filter, Bool, true, false, not, ◌||◌, ◌==◌, Bool-cases,
  inl, inr, ==_of_ne,
}
use awak.CopyBuffer.{Io, ok, err}
use awak.Source.{Event}
use awak.Poller.{Backend, Duration, Poller, wait, notify_key, ◌>>=◌}
use awak.Poller.Epoll
use awak.Poller.Epoll.{EpollEvent, System, Reactor, backend, decode, requested}
use awak.Poller.Reports.{IsReport, report_is_heard}

Mem-map : {A B : Type 0} (f : A → B) {x : A} {xs : List A} → Memᴰ x xs → Memᴰ (f x) (map f xs)
Mem-map f (Memᴰ.head e) = Memᴰ.head (ap f e)
Mem-map f (Memᴰ.tail m) = Memᴰ.tail (Mem-map f m)

Mem-filter :
    {A : Type 0} (p : A → Bool) {x : A} {xs : List A}
    → p x ≡ true
    → Memᴰ x xs
    → Memᴰ x (filter p xs)
Mem-filter p {x} passes (Memᴰ.head {x = y} {xs = ys} e) =
    rw (subst (λ z. p z ≡ true) e passes, filter) (Memᴰ.head e)
Mem-filter p passes (Memᴰ.tail {x = y} {xs = ys} m) = elim (Bool-cases (p y)) [
  | inl kept ↦ rw (kept, filter) (Memᴰ.tail (Mem-filter p passes m))
  | inr gone ↦ rw (gone, filter) (Mem-filter p passes m)
]

module _ {S : Type 0} where
  wait_lem :
      (sys : Backend S) (timeout : Option Duration) (p : Poller S) (events : List Event) (s' : S)
      → sys.wait timeout p.system ≡ (s', ok events)
      → wait sys timeout p ≡ (
        record { notified = false; system = s' },
        ok (filter (λ ev. not (ev.key == notify_key)) events),
      )
  unfolding wait
  wait_lem sys timeout p events s' h = ap finish h
    where
      finish : S × Io (List Event) → Poller S × Io (List Event)
      finish (s, ok evs) = (
        record { notified = false; system = s },
        ok (filter (λ ev. not (ev.key == notify_key)) evs),
      )
      finish (s, err e) = (record p { system = s }, err e)

  backend_wait :
      (sys : System S) (r : Reactor) (timeout : Option Duration) (s : S) (raw : List EpollEvent)
      → (Epoll.wait sys r timeout s).1 ≡ ok raw
      → (backend sys r).wait timeout s ≡ ((Epoll.wait sys r timeout s).0, ok (map decode raw))
  unfolding backend
  backend_wait sys r timeout s raw h = rw (h, ◌>>=◌)

-- The event that `Poller::wait` makes of a report is among those that it returns, and it is heard.
pub record Delivers {S : Type 0} (read write : Bool) (ev : EpollEvent) (s : S)
    (result : Poller S × Io (List Event)) : Type 0 where
  pub events : List Event
  pub returns : result ≡ (record { notified = false; system = s }, ok events)
  pub among : Memᴰ (decode ev) events
  pub heard : ((decode ev).readable || (decode ev).writable) ≡ true
  pub as_readable : (write || (decode ev).readable) ≡ true
  pub as_writable : (read || (decode ev).writable) ≡ true

-- `Poller::wait` over the epoll backend drops no report. Let the wait of the backend succeed,
-- whatever the calls in it do, with an event of the system among those reported whose token is not
-- the reserved key and whose flags are those that `interest` with `read` and `write` may bring.
-- Then `Poller::wait` succeeds, with `notified` cleared, and the event is among those it returns,
-- under its token: readable, unless `write` was asked for, writable, unless `read` was, and at any
-- rate one of them.
pub wait-Delivers :
    {S : Type 0} (sys : System S) (r : Reactor) (timeout : Option Duration) (p : Poller S)
    (raw : List EpollEvent) (read write : Bool) (ev : EpollEvent)
    → (Epoll.wait sys r timeout p.system).1 ≡ ok raw
    → Memᴰ ev raw
    → ev.token ≢ notify_key
    → IsReport (requested read write) ev.events
    → Delivers read write ev (Epoll.wait sys r timeout p.system).0 (wait (backend sys r) timeout p)
unfolding decode
wait-Delivers sys r timeout p raw read write ev done reported user report =
    let (heard, as_readable, as_writable) = report_is_heard read write ev report in
    record {
      events = filter (λ e. not (e.key == notify_key)) (map decode raw);
      returns =
          wait_lem (backend sys r) timeout p (map decode raw) _
            (backend_wait sys r timeout p.system raw done);
      among =
          Mem-filter (λ e. not (e.key == notify_key)) (ap not (==_of_ne ev.token notify_key user))
            (Mem-map decode reported);
      heard = heard;
      as_readable = as_readable;
      as_writable = as_writable;
    }
