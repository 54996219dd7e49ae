-- ===== src/Poller/Reports.antt =====
-- The events that src/io/poller/epoll.rs and src/io/poller/kqueue.rs make of what the system
-- reports.
use awak.Prelude.{◌≡◌, refl, ap, ◌∙◌, List, [], ◌∷◌, map, Bool, true, false, ◌||◌, ◌&&◌, arith}
use awak.Poller.Epoll
use awak.Poller.Epoll.{EpollEvent, requested, read_flags, write_flags}
use awak.Poller.Kqueue
use awak.Poller.Kqueue.{Kevent, is_read, is_write}

-- What `epoll_wait` may report for a registration: flags that were asked for, and at any time
-- `EPOLLERR` and `EPOLLHUP`; and at least one of them.
pub record IsReport (asked reported : Epoll.Flags) : Type 0 where
  pub epollin : reported.epollin ≡ true → asked.epollin ≡ true
  pub epollpri : reported.epollpri ≡ true → asked.epollpri ≡ true
  pub epollout : reported.epollout ≡ true → asked.epollout ≡ true
  pub epollrdhup : reported.epollrdhup ≡ true → asked.epollrdhup ≡ true
  pub some_flag :
      (reported.epollin || reported.epollpri || reported.epollout || reported.epollerr
        || reported.epollhup || reported.epollrdhup)
      ≡ true

-- An event reported for what `interest` of the epoll backend asked for, for any of the four values
-- of `read` and `write`, is readable, unless `write` was asked for, writable, unless `read` was,
-- and at any rate one of them.
pub report_is_heard :
    (read write : Bool) (ev : EpollEvent)
    → IsReport (requested read write) ev.events
    → let event = Epoll.decode ev in
      ((event.readable || event.writable) ≡ true)
      × ((write || event.readable) ≡ true)
      × ((read || event.writable) ≡ true)
unfolding requested read_flags write_flags Epoll.decode
report_is_heard true true ev r = ground arith
report_is_heard true false ev r = ground arith
report_is_heard false true ev r = ground arith
report_is_heard false false ev r = ground arith

-- Some event of a list passes the test.
abbrev pub any : {A : Type 0} → (A → Bool) → List A → Bool
any p [] = false
any p (x ∷ xs) = p x || any p xs

abbrev pub is_eof : Kevent → Bool
is_eof ev = is_read ev.filter && ev.flags.ev_eof

-- Both systems report the same of one descriptor: input or the end of it, room for output, and that
-- the other side has closed; and epoll reports nothing that kqueue has no word for.
pub record SameReport (reported : Epoll.Flags) (kevents : List Kevent) : Type 0 where
  pub input : reported.epollin ≡ any (λ ev. is_read ev.filter) kevents
  pub output : reported.epollout ≡ any (λ ev. is_write ev.filter) kevents
  pub closed : reported.epollrdhup ≡ any is_eof kevents
  pub no_priority : reported.epollpri ≡ false
  pub no_error : reported.epollerr ≡ false
  pub no_hang_up : reported.epollhup ≡ false

any_readable :
    (evs : List Kevent)
    → any (λ ev. ev.readable) (map Kqueue.decode evs) ≡ any (λ ev. is_read ev.filter) evs
unfolding Kqueue.decode
any_readable [] = refl
any_readable (ev ∷ evs) = ap (λ b. is_read ev.filter || b) (any_readable evs)

any_writable :
    (evs : List Kevent)
    → any (λ ev. ev.writable) (map Kqueue.decode evs)
      ≡ (any (λ ev. is_write ev.filter) evs || any is_eof evs)
unfolding Kqueue.decode
any_writable [] = refl
any_writable (ev ∷ evs) =
    exchange (is_write ev.filter) (is_eof ev) (any (λ e. is_write e.filter) evs) (any is_eof evs)
      (any_writable evs)
  where
    exchange : {d : Bool} (a b c e : Bool) → d ≡ (c || e) → ((a || b) || d) ≡ ((a || c) || (b || e))
    exchange true b c e h = refl
    exchange false true c e h = ground arith
    exchange false false c e h = h

eof_is_read :
    (evs : List Kevent)
    → (any (λ ev. is_read ev.filter) evs || any is_eof evs) ≡ any (λ ev. is_read ev.filter) evs
eof_is_read [] = refl
eof_is_read (ev ∷ evs) = ground (arith, eof_is_read evs)

read_part :
    (f : Epoll.Flags) {input closed : Bool}
    → f.epollin ≡ input
    → f.epollrdhup ≡ closed
    → (input || closed) ≡ input
    → f.epollpri ≡ false
    → f.epollerr ≡ false
    → f.epollhup ≡ false
    → input ≡ Epoll.meets f read_flags
unfolding read_flags
read_part f a b c d e g = ground arith

write_part :
    (f : Epoll.Flags) {output closed : Bool}
    → f.epollout ≡ output
    → f.epollrdhup ≡ closed
    → f.epollerr ≡ false
    → f.epollhup ≡ false
    → (output || closed) ≡ (Epoll.meets f write_flags || f.epollrdhup)
unfolding write_flags
write_part f a b c d = ground arith

-- Where epoll and kqueue report the same of a descriptor, and epoll has no error, hang-up or
-- priority flag set, an event of the epoll backend is readable if and only if one of the events of
-- the kqueue backend is; and one of these is writable if and only if the event of epoll is, or the
-- other side has closed.
pub backends_agree :
    (ev : EpollEvent) (kevents : List Kevent)
    → SameReport ev.events kevents
    → let event = Epoll.decode ev in
      let events = map Kqueue.decode kevents in
      (any (λ e. e.readable) events ≡ event.readable)
      × (any (λ e. e.writable) events ≡ (event.writable || ev.events.epollrdhup))
unfolding read_flags write_flags Epoll.decode
backends_agree ev kevents r = (
  any_readable kevents
      ∙ read_part ev.events r.input r.closed (eof_is_read kevents) r.no_priority r.no_error
          r.no_hang_up,
  any_writable kevents ∙ write_part ev.events r.output r.closed r.no_error r.no_hang_up,
)
