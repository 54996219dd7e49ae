-- ===== src/Poller/Armed.antt =====
-- The epoll instance of src/io/poller/epoll.rs keeps watching the event descriptor of `notify`.
use awak.Prelude.{
  ℕ, ◌≡◌, ◌≢◌, refl, sym, ◌∙◌, Option, none, some, List, Bool, true, false, if◌then◌else◌, bit_or,
}
use awak.CopyBuffer.{ErrorKind, Io, ok, err}
use awak.Poller.{Fd, Duration, Call, ◌>>=◌, ◌>>◌, ignore, return, notify_key}
use awak.Poller.Epoll
use awak.Poller.Epoll.{
  EpollEvent, System, Reactor, requested, modify, add, delete, interest, insert, remove, collect,
  wait, value_of, is_zero, zero_ms, forever,
}

-- What an epoll instance keeps for a descriptor. A report under `EPOLLONESHOT` disarms it.
pub data Entry : Type 0 where
  absent disarmed : Entry
  armed : EpollEvent → Entry

-- An entry stays, or is disarmed.
pub data Weakens (before : Entry) : Entry → Type 0 where
  stays : Weakens before before
  disarms : before ≢ absent → Weakens before disarmed

present : {a b : Entry} → Weakens a b → a ≢ absent → b ≢ absent
present stays h = h
present (disarms p) h = λ e. cc

armed_present : {ev : EpollEvent} {a : Entry} → a ≡ armed ev → a ≢ absent
armed_present h e = cc

module _ {S : Type 0} where
  -- The documented behaviour of the calls on the epoll instance `epoll_fd`.
  pub record IsEpoll (sys : System S) (epoll_fd : Fd) (entry : S → Fd → Entry) : Type 0 where
    pub modifies :
        (fd : Fd) (ev : EpollEvent) (s : S)
        → entry s fd ≢ absent
        → let (s', r) = sys.epoll_ctl epoll_fd modify fd (some ev) s in
          (r ≡ ok tt) × (entry s' fd ≡ armed ev)
    -- No call of `epoll_ctl` changes the entry of another descriptor.
    pub others :
        (op : Epoll.Op) (fd other : Fd) (ev : Option EpollEvent) (s : S)
        → fd ≢ other
        → entry (sys.epoll_ctl epoll_fd op fd ev s).0 other ≡ entry s other
    pub reports :
        (room : ℕ) (ms : Epoll.Millis) (s : S) {events : List EpollEvent}
        → (sys.epoll_wait epoll_fd room ms s).1 ≡ ok events
        → (fd : Fd) → Weakens (entry s fd) (entry (sys.epoll_wait epoll_fd room ms s).0 fd)
    pub interrupted :
        (room : ℕ) (ms : Epoll.Millis) (s : S) {e : ErrorKind}
        → (sys.epoll_wait epoll_fd room ms s).1 ≡ err e
        → (fd : Fd) → entry (sys.epoll_wait epoll_fd room ms s).0 fd ≡ entry s fd
    pub settime :
        (timer : Fd) (t : Duration) (s : S) (fd : Fd)
        → entry (sys.timerfd_settime timer t s).0 fd ≡ entry s fd
    pub read : (fd other : Fd) (s : S) → entry (sys.read fd s).0 other ≡ entry s other
    pub getfl : (fd other : Fd) (s : S) → entry (sys.getfl fd s).0 other ≡ entry s other
    pub setfl : (fd other : Fd) (n : ℕ) (s : S) → entry (sys.setfl fd n s).0 other ≡ entry s other

  -- The event descriptor is watched for `notify`, and the timer descriptor is registered.
  pub record Watches (r : Reactor) (entry : S → Fd → Entry) (s : S) : Type 0 where
    pub event :
        entry s r.event_fd ≡ armed (record { events = requested true false; token = notify_key })
    pub timer : entry s r.timer_fd ≢ absent

  Watches-same :
      {r : Reactor} {entry : S → Fd → Entry} {s s' : S}
      → ((fd : Fd) → entry s' fd ≡ entry s fd)
      → Watches r entry s
      → Watches r entry s'
  Watches-same {r} same w = record {
    event = same r.event_fd ∙ w.event;
    timer = λ e. w.timer (sym (same r.timer_fd) ∙ e);
  }

  -- What holds after a call that fails, and after the rest, holds after both.
  >>=-keeps :
      {A B : Type 0} (Keeps : S → Type 0) (m : Call S A) (f : A → Call S B) (s : S)
      → ((e : ErrorKind) → (m s).1 ≡ err e → Keeps (m s).0)
      → ((a : A) → (m s).1 ≡ ok a → Keeps (f a (m s).0).0)
      → Keeps ((m >>= f) s).0
  >>=-keeps {A} {B} Keeps m f s failed done = go (m s).1 refl
    where
      go :
          (r : Io A)
          → (m s).1 ≡ r
          → Keeps (elim r as (λ _. S × Io B) [ ok a ↦ f a (m s).0 | err e ↦ ((m s).0, err e) ]).0
      go (ok a) h = done a h
      go (err e) h = failed e h

  module _ (sys : System S) (r : Reactor) (entry : S → Fd → Entry)
      (epoll : IsEpoll sys r.epoll_fd entry) (apart : r.event_fd ≢ r.timer_fd) where
    arm_timer :
        (s : S)
        → Watches r entry s
        → let (s', res) = interest sys r r.timer_fd notify_key true false s in
          Watches r entry s' × (res ≡ ok tt)
    unfolding interest
    arm_timer s w =
        let ev : EpollEvent = record { events = requested true false; token = notify_key } in
        let (done, now) = epoll.modifies r.timer_fd ev s w.timer in
        (
          record {
            event =
                epoll.others modify r.timer_fd r.event_fd (some ev) s (λ e. apart (sym e))
                ∙ w.event;
            timer = armed_present now;
          },
          done,
        )

    -- After a wait the event descriptor is watched again.
    arm_event :
        (s : S)
        → entry s r.event_fd ≢ absent
        → entry s r.timer_fd ≢ absent
        → let (s', res) = interest sys r r.event_fd notify_key true false s in
          Watches r entry s' × (res ≡ ok tt)
    unfolding interest
    arm_event s event timer =
        let ev : EpollEvent = record { events = requested true false; token = notify_key } in
        let (done, now) = epoll.modifies r.event_fd ev s event in
        (
          record {
            event = now;
            timer =
                λ e. timer (sym (epoll.others modify r.event_fd r.timer_fd (some ev) s apart) ∙ e);
          },
          done,
        )

    collect-Watches :
        (ms : Epoll.Millis) (s : S) → Watches r entry s → Watches r entry (collect sys r ms s).0
    unfolding collect
    collect-Watches ms s w =
        >>=-keeps (Watches r entry) (sys.epoll_wait r.epoll_fd Epoll.events_room ms)
          (λ events.
            ignore (sys.read r.event_fd)
            >> interest sys r r.event_fd notify_key true false
            >> return events)
          s (λ e h. Watches-same (epoll.interrupted _ ms s h) w)
          (λ events h.
            let reported = epoll.reports Epoll.events_room ms s h in
            let s' = (sys.read r.event_fd (sys.epoll_wait r.epoll_fd Epoll.events_room ms s).0).0 in
            let event : entry s' r.event_fd ≢ absent = λ e.
              present (reported r.event_fd) (armed_present w.event)
                (sym (epoll.read _ r.event_fd _) ∙ e) in
            let timer : entry s' r.timer_fd ≢ absent =
              λ e. present (reported r.timer_fd) w.timer (sym (epoll.read _ r.timer_fd _) ∙ e) in
            let (watches, done) = arm_event s' event timer in
            >>=-keeps (Watches r entry) (interest sys r r.event_fd notify_key true false)
              (λ _. return events) s' (λ e h. watches) (λ _ h. watches))

    -- On an instance that behaves as documented, and whose two descriptors differ: if the event
    -- descriptor is watched for `notify` and the timer descriptor is registered, that is so after
    -- `wait`, with any timeout and whatever the calls in it return.
    pub wait-Watches :
        (timeout : Option Duration) (s : S)
        → Watches r entry s
        → Watches r entry (wait sys r timeout s).0
    unfolding wait
    wait-Watches timeout s w =
        >>=-keeps (Watches r entry) (sys.timerfd_settime r.timer_fd (value_of timeout))
          (λ _.
            interest sys r r.timer_fd notify_key true false
            >> collect sys r (if is_zero timeout then zero_ms else forever))
          s (λ e h. Watches-same (epoll.settime _ _ s) w)
          (λ _ _.
            let s' = (sys.timerfd_settime r.timer_fd (value_of timeout) s).0 in
            let (watches, done) = arm_timer s' (Watches-same (epoll.settime _ _ s) w) in
            >>=-keeps (Watches r entry) (interest sys r r.timer_fd notify_key true false)
              (λ _. collect sys r (if is_zero timeout then zero_ms else forever)) s'
              (λ e h. watches) (λ _ h. collect-Watches _ _ watches))

    -- So it is after `insert`, `remove` and `interest` of any other descriptor.
    pub operations-Watch :
        (fd : Fd) (s : S)
        → r.event_fd ≢ fd
        → r.timer_fd ≢ fd
        → Watches r entry s
        → Watches r entry (insert sys r fd s).0
          × Watches r entry (remove sys r fd s).0
          × ((key : ℕ) (read write : Bool) → Watches r entry (interest sys r fd key read write s).0)
    unfolding insert remove interest
    operations-Watch fd s not_event not_timer w = (
      >>=-keeps (Watches r entry) (sys.getfl fd)
          (λ flags.
            sys.setfl fd (bit_or flags sys.o_nonblock)
            >> sys.epoll_ctl r.epoll_fd add fd (some fresh))
          s (λ _ _. got)
          (λ flags _.
            >>=-keeps (Watches r entry) (sys.setfl fd (bit_or flags sys.o_nonblock))
              (λ _. sys.epoll_ctl r.epoll_fd add fd (some fresh)) _ (λ _ _. set flags)
              (λ _ _. other add _ _ (set flags))),
      other delete none s w,
      λ key read write. other modify _ s w,
    )
      where
        fresh : EpollEvent
        fresh = record { events = record Epoll.no_flags { epolloneshot = true }; token = 0 }

        got : Watches r entry (sys.getfl fd s).0
        got = Watches-same (λ j. epoll.getfl fd j s) w

        set :
            (flags : ℕ)
            → Watches r entry (sys.setfl fd (bit_or flags sys.o_nonblock) (sys.getfl fd s).0).0
        set flags = Watches-same (λ j. epoll.setfl fd j _ _) got

        other :
            (op : Epoll.Op) (ev : Option EpollEvent) (s' : S)
            → Watches r entry s'
            → Watches r entry (sys.epoll_ctl r.epoll_fd op fd ev s').0
        other op ev s' v = record {
          event = epoll.others op fd r.event_fd ev s' (λ e. not_event (sym e)) ∙ v.event;
          timer =
              λ e. v.timer (sym (epoll.others op fd r.timer_fd ev s' (λ e. not_timer (sym e))) ∙ e);
        }
