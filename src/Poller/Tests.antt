-- ===== src/Poller/Tests.antt =====
-- Tests of the poller and its backends, and the theorems about them applied at concrete inputs.
use awak.Prelude.{
  ℕ, ◌+◌, ◌-◌, ◌<◌, ◌≡◌, ◌≢◌, refl, inl, inr, Option, none, some, List, [], ◌∷◌, map, true, false,
  ◌||◌, ◌==◌, if◌then◌else◌, Bool-cases, ==_of_eq, ==_of_ne, eq_of_==, subst, arith,
}
use awak.CopyBuffer.{Io, ok, err}
use mathlib.Core.List.{Memᴰ}
use awak.Poller
use awak.Poller.{Call, return, Backend, Fd, notify_key}
use awak.Poller.Epoll
use awak.Poller.Epoll.{EpollEvent}
use awak.Poller.Kqueue
use awak.Poller.Reports.{any, IsReport, backends_agree}
use awak.Poller.Armed.{
  Entry, absent, disarmed, armed, Weakens, stays, disarms, IsEpoll, Watches, wait-Watches,
}
use awak.Poller.Receipts.{Verdict, interest-Verdict}
use awak.Poller.Delivers.{Delivers, wait-Delivers}
use awak.Poller.Notify.{wait_ends}

abbrev input : EpollEvent
input = record { events = record Epoll.no_flags { epollin = true }; token = 4 }

asked : IsReport (Epoll.requested true false) input.events
unfolding Epoll.requested Epoll.read_flags Epoll.write_flags
asked = record {
  epollin = λ _. refl;
  epollpri = λ _. refl;
  epollout = λ e. cc;
  epollrdhup = λ _. refl;
  some_flag = refl;
}

-- The other side has closed, after some input.
abbrev closed : EpollEvent
closed = record { events = record Epoll.no_flags { epollin = true; epollrdhup = true }; token = 4 }

abbrev closed_read : Kqueue.Kevent
closed_read = record {
  ident = 9;
  filter = Kqueue.evfilt_read;
  flags = record (Kqueue.change false) { ev_eof = true };
  result = 0;
  udata = 4;
}

backends_agree_example :
    let events = map Kqueue.decode (closed_read ∷ []) in
    (any (λ e. e.readable) events ≡ (Epoll.decode closed).readable)
    × (any (λ e. e.writable) events ≡ ((Epoll.decode closed).writable || true))
backends_agree_example = backends_agree closed (closed_read ∷ []) (record {
  input = refl;
  output = refl;
  closed = refl;
  no_priority = refl;
  no_error = refl;
  no_hang_up = refl;
})

-- An epoll instance that only keeps its entries, and reports descriptor 5 at each wait.
abbrev change : (Fd → Entry) → Fd → Entry → Fd → Entry
change f fd e other = if fd == other then e else f other

abbrev disarm : Entry → Entry
disarm absent = absent
disarm disarmed = disarmed
disarm (armed ev) = disarmed

abbrev ctl : Epoll.Op → Fd → Option EpollEvent → Call (Fd → Entry) (Unit {0})
ctl Epoll.modify fd (some ev) f = elim (f fd) [
  | absent ↦ (f, err 7)
  | disarmed ↦ (change f fd (armed ev), ok tt)
  | armed old ↦ (change f fd (armed ev), ok tt)
]
ctl Epoll.add fd (some ev) f = (change f fd (armed ev), ok tt)
ctl Epoll.delete fd _ f = (change f fd absent, ok tt)
ctl _ fd none f = (f, err 7)

abbrev kept : Epoll.System (Fd → Entry)
kept = record {
  epoll_create = λ n. return 3;
  getfd = λ fd. return 0;
  setfd = λ fd n. return tt;
  getfl = λ fd. return 0;
  setfl = λ fd n. return tt;
  eventfd = return 5;
  timerfd_create = return 6;
  epoll_ctl = λ epoll op fd ev. ctl op fd ev;
  timerfd_settime = λ fd t. return tt;
  epoll_wait = λ epoll room ms f. (change f 5 (disarm (f 5)), ok (input ∷ []));
  read = λ fd. return 8;
  write = λ fd. return 8;
  close = λ fd. return tt;
  fd_cloexec = 1;
  o_nonblock = 2048;
}

modifies :
    (f : Fd → Entry) (fd : Fd) (ev : EpollEvent)
    → f fd ≢ absent
    → let (f', r) = ctl Epoll.modify fd (some ev) f in (r ≡ ok tt) × (f' fd ≡ armed ev)
modifies f fd ev there = go (f fd) there
  where
    go :
        (e : Entry)
        → e ≢ absent
        → let (f', r) = elim e as (λ _. (Fd → Entry) × Io (Unit {0})) [
          | absent ↦ (f, err 7)
          | disarmed ↦ (change f fd (armed ev), ok tt)
          | armed old ↦ (change f fd (armed ev), ok tt)
        ] in
          (r ≡ ok tt) × (f' fd ≡ armed ev)
    go absent h = absurd (h refl)
    go disarmed h = (refl, rw (==_of_eq fd fd refl))
    go (armed old) h = (refl, rw (==_of_eq fd fd refl))

weakens : (e : Entry) → Weakens e (disarm e)
weakens absent = stays
weakens disarmed = stays
weakens (armed ev) = disarms (λ e. cc)

reports : (f : Fd → Entry) (fd : Fd) → Weakens (f fd) (change f 5 (disarm (f 5)) fd)
reports f fd = elim (Bool-cases (5 == fd)) [
  | inl e ↦ rw e (subst (λ n. Weakens (f n) (disarm (f 5))) (eq_of_== 5 fd e) (weakens (f 5)))
  | inr ne ↦ rw ne stays
]

others :
    (op : Epoll.Op) (fd other : Fd) (ev : Option EpollEvent) (f : Fd → Entry)
    → fd ≢ other
    → (ctl op fd ev f).0 other ≡ f other
others Epoll.modify fd other (some ev) f ne = ground (arith, ==_of_ne fd other ne)
others Epoll.add fd other (some ev) f ne = rw (==_of_ne fd other ne)
others Epoll.delete fd other _ f ne = rw (==_of_ne fd other ne)
others Epoll.modify fd other none f ne = refl
others Epoll.add fd other none f ne = refl

kept-IsEpoll : IsEpoll kept 3 (λ f. f)
kept-IsEpoll = record {
  modifies = λ fd ev f. modifies f fd ev;
  others = λ op fd other ev f. others op fd other ev f;
  reports = λ room ms f h fd. reports f fd;
  interrupted = λ room ms f h. cc;
  settime = λ timer t f fd. refl;
  read = λ fd other f. refl;
  getfl = λ fd other f. refl;
  setfl = λ fd other n f. refl;
}

abbrev reactor : Epoll.Reactor
reactor = record { epoll_fd = 3; event_fd = 5; timer_fd = 6 }

abbrev at_first : Fd → Entry
at_first =
    change (change (λ _. absent) 6 disarmed) 5
      (armed (record { events = Epoll.requested true false; token = notify_key }))

wait-Watches_example : Watches reactor (λ f. f) (Epoll.wait kept reactor none at_first).0
wait-Watches_example =
    wait-Watches kept reactor (λ f. f) kept-IsEpoll (λ e. omega (arith, e)) none at_first
      (record { event = refl; timer = λ e. cc })

-- A kqueue that holds how many bytes there are to read, and refuses a change with EPIPE.
abbrev receipt : Kqueue.Kevent
receipt = record {
  ident = 9;
  filter = Kqueue.evfilt_write;
  flags = record (Kqueue.change false) { ev_error = true };
  result = 32;
  udata = 4;
}

abbrev piped : Kqueue.System ℕ
piped = record {
  kqueue = return 3;
  set_cloexec = λ fd. return tt;
  pair = return tt;
  set_nonblocking = λ s. return tt;
  stream_fd = λ s. 5;
  getfl = λ fd. return 0;
  setfl = λ fd n. return tt;
  kevent = λ fd changes room timeout. return (receipt ∷ []);
  read = λ n. if n == 0 then (0, err 7) else (n - 64, ok (n - (n - 64)));
  write = λ n. (n + 1, ok 1);
  o_nonblock = 4;
  enoent = 2;
  epipe = 32;
}

interest-Verdict_example :
    Verdict (2 ∷ 32 ∷ []) (receipt ∷ []) 0 (Kqueue.interest piped 3 9 4 true false 0)
interest-Verdict_example = interest-Verdict piped 3 9 4 true false 0 (receipt ∷ []) refl

wait_ends_example :
    (result : ℕ × Io (List Kqueue.Kevent)) × (Kqueue.wait piped 3 101 none 100 ≡ some result)
wait_ends_example = wait_ends piped (λ n. n) (λ n m h. less n m h) 101 3 none 100 (omega arith)
  where
    less : (n m : ℕ) → (piped.read n).1 ≡ ok m → (piped.read n).0 < n
    less n m h = ground arith

-- A backend that counts the calls of its `notify`.
abbrev counting : Backend ℕ
counting = record {
  wait = λ timeout. return [];
  notify = λ n. (n + 1, ok tt);
  remove = λ fd. return tt;
  insert = λ fd. return tt;
  interest = λ fd key read write. return tt;
}

reported : (Epoll.wait kept reactor none at_first).1 ≡ ok (input ∷ [])
unfolding Epoll.wait Epoll.collect Epoll.interest
reported = refl

wait-Delivers_example :
    Delivers true false input (Epoll.wait kept reactor none at_first).0 (
      Poller.wait (Epoll.backend kept reactor) none (record { notified = true; system = at_first }))
wait-Delivers_example =
    wait-Delivers kept reactor none (record { notified = true; system = at_first }) (input ∷ [])
      true false input reported (Memᴰ.head refl) (λ e. omega (arith, e)) asked
