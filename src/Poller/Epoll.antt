-- ===== src/Poller/Epoll.antt =====
-- `Reactor` and `Events` of src/io/poller/epoll.rs. A flag word of libc is the set of its flags:
-- its constants are different bits.
use awak.Prelude.{
  ℕ, Option, none, some, List, map, Bool, true, false, ◌||◌, ◌&&◌, ◌==◌, if◌then◌else◌, bit_or,
}
use awak.Source.{Event}
use awak.Poller.{Fd, Duration, Call, ◌>>=◌, ◌>>◌, return, ignore, Backend, notify_key}

pub record Flags : Type 0 where
  pub epollin : Bool
  pub epollpri : Bool
  pub epollout : Bool
  pub epollerr : Bool
  pub epollhup : Bool
  pub epollrdhup : Bool
  pub epolloneshot : Bool

abbrev pub no_flags : Flags
no_flags = record {
  epollin = false;
  epollpri = false;
  epollout = false;
  epollerr = false;
  epollhup = false;
  epollrdhup = false;
  epolloneshot = false;
}

-- `|`
abbrev pub union : Flags → Flags → Flags
union a b = record {
  epollin = a.epollin || b.epollin;
  epollpri = a.epollpri || b.epollpri;
  epollout = a.epollout || b.epollout;
  epollerr = a.epollerr || b.epollerr;
  epollhup = a.epollhup || b.epollhup;
  epollrdhup = a.epollrdhup || b.epollrdhup;
  epolloneshot = a.epolloneshot || b.epolloneshot;
}

-- `a & b != 0`
abbrev pub meets : Flags → Flags → Bool
meets a b =
    (a.epollin && b.epollin)
    || (a.epollpri && b.epollpri)
    || (a.epollout && b.epollout)
    || (a.epollerr && b.epollerr)
    || (a.epollhup && b.epollhup)
    || (a.epollrdhup && b.epollrdhup)
    || (a.epolloneshot && b.epolloneshot)

unfoldable pub read_flags : Flags
read_flags = record no_flags {
  epollin = true;
  epollrdhup = true;
  epollhup = true;
  epollerr = true;
  epollpri = true;
}

unfoldable pub write_flags : Flags
write_flags = record no_flags { epollout = true; epollhup = true; epollerr = true }

-- `epoll_event`: `token` is `u64`.
pub record EpollEvent : Type 0 where
  pub events : Flags
  pub token : ℕ

pub data Op : Type 0 where
  add modify delete : Op

-- The timeout of `epoll_wait`: 0 or -1.
pub data Millis : Type 0 where
  zero_ms forever : Millis

-- The system calls, each with what the source passes.
pub record System (S : Type 0) : Type 0 where
  pub epoll_create : ℕ → Call S Fd
  pub getfd : Fd → Call S ℕ
  pub setfd : Fd → ℕ → Call S (Unit {0})
  pub getfl : Fd → Call S ℕ
  pub setfl : Fd → ℕ → Call S (Unit {0})
  pub eventfd : Call S Fd
  pub timerfd_create : Call S Fd
  pub epoll_ctl : Fd → Op → Fd → Option EpollEvent → Call S (Unit {0})
  pub timerfd_settime : Fd → Duration → Call S (Unit {0})
  pub epoll_wait : Fd → ℕ → Millis → Call S (List EpollEvent)
  pub read : Fd → Call S ℕ
  pub write : Fd → Call S ℕ
  pub close : Fd → Call S (Unit {0})
  pub fd_cloexec : ℕ
  pub o_nonblock : ℕ

pub record Reactor : Type 0 where
  pub epoll_fd : Fd
  pub event_fd : Fd
  pub timer_fd : Fd

abbrev pub ts_zero : Duration
ts_zero = record { secs = 0; nanos = 0 }

abbrev pub value_of : Option Duration → Duration
value_of none = ts_zero
value_of (some t) = t

abbrev pub is_zero : Option Duration → Bool
is_zero none = false
is_zero (some t) = (t.secs == 0) && (t.nanos == 0)

unfoldable pub requested : Bool → Bool → Flags
unfolding read_flags write_flags
requested read write =
    let flags = record no_flags { epolloneshot = true } in
    let flags = if read then union flags read_flags else flags in
    if write then union flags write_flags else flags

-- One item of `Events::iter`.
unfoldable pub decode : EpollEvent → Event
unfolding read_flags write_flags
decode ev = record {
  key = ev.token;
  readable = meets ev.events read_flags;
  writable = meets ev.events write_flags;
}

-- The room of `Events::new`.
abbrev pub events_room : ℕ
events_room = 1000

module _ {S : Type 0} (sys : System S) where
  module _ (r : Reactor) where
    unfoldable pub interest : Fd → ℕ → Bool → Bool → Call S (Unit {0})
    interest fd key read write =
        sys.epoll_ctl r.epoll_fd modify fd
          (some (record { events = requested read write; token = key }))

    unfoldable pub insert : Fd → Call S (Unit {0})
    insert fd = do
      flags ← sys.getfl fd
      sys.setfl fd (bit_or flags sys.o_nonblock)
      sys.epoll_ctl r.epoll_fd add fd
          (some (record { events = record no_flags { epolloneshot = true }; token = 0 }))

    unfoldable pub remove : Fd → Call S (Unit {0})
    remove fd = sys.epoll_ctl r.epoll_fd delete fd none

    -- `wait` after the timer is armed.
    unfoldable pub collect : Millis → Call S (List EpollEvent)
    collect ms = do
      events ← sys.epoll_wait r.epoll_fd events_room ms
      ignore (sys.read r.event_fd)
      interest r.event_fd notify_key true false
      return events

    unfoldable pub wait : Option Duration → Call S (List EpollEvent)
    wait timeout = do
      sys.timerfd_settime r.timer_fd (value_of timeout)
      interest r.timer_fd notify_key true false
      collect (if is_zero timeout then zero_ms else forever)

    unfoldable pub notify : Call S (Unit {0})
    notify = ignore (sys.write r.event_fd)

    -- `Drop::drop`
    unfoldable pub drop : Call S (Unit {0})
    drop = do
      ignore (remove r.event_fd)
      ignore (remove r.timer_fd)
      ignore (sys.close r.event_fd)
      ignore (sys.close r.epoll_fd)
      ignore (sys.close r.timer_fd)

    unfoldable pub backend : Backend S
    backend = record {
      wait = λ timeout. wait timeout >>= λ events. return (map decode events);
      notify = notify;
      remove = remove;
      insert = insert;
      interest = interest;
    }

  unfoldable pub new : Call S Reactor
  new = do
    epoll_fd ← sys.epoll_create 1024
    flags ← sys.getfd epoll_fd
    sys.setfd epoll_fd (bit_or flags sys.fd_cloexec)
    event_fd ← sys.eventfd
    timer_fd ← sys.timerfd_create
    registered (record { epoll_fd = epoll_fd; event_fd = event_fd; timer_fd = timer_fd })
    where
      registered : Reactor → Call S Reactor
      registered r = do
        insert r r.event_fd
        insert r r.timer_fd
        interest r r.event_fd notify_key true false
        return r
