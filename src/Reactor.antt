-- ===== src/Reactor.antt =====
-- `Reactor::react` of src/io/reactor.rs, with the registration of sources. What the poller answers
-- is an argument: the outcome of `wait`, and which `interest` calls it refuses. The slab of sources
-- is a function, and the key of a vacant entry is an argument.
pub mod React
pub mod Thread
mod Tests
use awak.Prelude.{
  ℕ, ◌+◌, Option, none, some, List, [], ◌∷◌, ◌++◌, Bool, true, false, min, ◌==◌, if◌then◌else◌,
  wrapping_add,
}
use awak.Sleepers.{Waker}
use awak.Timers
use awak.Timers.{process_timers}
use awak.Source.{Source, Event, Interest, handle}
use awak.Source.Ready.{start}
use awak.CopyBuffer.{ErrorKind}

pub record Reactor : Type 0 where
  pub timers : Timers.Reactor
  pub ticker : ℕ
  pub sources : ℕ → Option Source

abbrev pub set_source : (ℕ → Option Source) → ℕ → Option Source → ℕ → Option Source
set_source ss key s i = if key == i then s else ss i

-- `Poller::wait`
pub data Waited : Type 0 where
  events : List Event → Waited
  interrupted : Waited
  failed : ErrorKind → Waited

-- The earlier of the next timer and the timeout.
abbrev pub earlier : Option ℕ → Option ℕ → Option ℕ
earlier none none = none
earlier (some t) none = some t
earlier none (some t) = some t
earlier (some a) (some b) = some (min a b)

abbrev pub is_zero : Option ℕ → Bool
is_zero none = false
is_zero (some t) = t == 0

-- What the loop over the events leaves: the sources, the wakers collected, and the error of a
-- refused interest, which ends it.
pub record Handled : Type 0 where
  pub sources : ℕ → Option Source
  pub wakers : List Waker
  pub error : Option ErrorKind

-- The error of `interest` for a registration that is renewed.
abbrev pub refusal : (Interest → Option ErrorKind) → Option Interest → Option ErrorKind
refusal refuses none = none
refusal refuses (some i) = refuses i

unfoldable pub handle_events :
    (Interest → Option ErrorKind) → ℕ → List Event → (ℕ → Option Source) → List Waker → Handled
handle_events refuses tick [] ss ws = record { sources = ss; wakers = ws; error = none }
handle_events refuses tick (ev ∷ evs) ss ws = elim (ss ev.key) [
  | none ↦ handle_events refuses tick evs ss ws
  | some s ↦
      let (s', woken, renewed) = handle s tick ev in
      let ss' = set_source ss ev.key (some s') in
      let rest = handle_events refuses tick evs ss' (ws ++ woken) in
      elim (refusal refuses renewed) [
        | some e ↦ record { sources = ss'; wakers = ws ++ woken; error = some e }
        | none ↦ rest
      ]
]

-- The state, the wakers that were woken, and the error that is returned.
pub record Reacted : Type 0 where
  pub state : Reactor
  pub woken : List Waker
  pub error : Option ErrorKind

-- A refused interest returns at once: the wakers collected so far are dropped.
abbrev pub finish : Reactor → Handled → Reacted
finish r h = elim h.error [
  | some e ↦ record { state = record r { sources = h.sources }; woken = []; error = some e }
  | none ↦ record { state = record r { sources = h.sources }; woken = h.wakers; error = none }
]

-- The clock reads `now` at the first `process_timers` and `later` at the second, if there is one.
unfoldable pub react : (Interest → Option ErrorKind) → Reactor → Option ℕ → ℕ → Waited → ℕ → Reacted
react refuses r timeout now waited later =
    let (timers, fired, next) = process_timers r.timers now in
    let limit = earlier next timeout in
    let r' = record r { timers = timers; ticker = wrapping_add r.ticker 1 } in
    let tick = r'.ticker in
    elim waited [
      | events [] ↦
          if is_zero limit
          then record { state = r'; woken = fired; error = none }
          else (let (timers', more, _) = process_timers timers later in
              record {
                state = record r' { timers = timers' };
                woken = fired ++ more;
                error = none;
              })
      | events (ev ∷ evs) ↦ finish r' (handle_events refuses tick (ev ∷ evs) r'.sources fired)
      | interrupted ↦ record { state = r'; woken = fired; error = none }
      | failed e ↦ record { state = r'; woken = fired; error = some e }
    ]

-- `vacant` is the key of the slab's vacant entry, and `inserted` what `Poller::insert` returns.
unfoldable pub insert_io : Reactor → ℕ → ℕ → Option ErrorKind → Reactor × Option Source
unfolding start
insert_io r raw vacant none =
    let s = (start raw vacant 0).source in
    (record r { sources = set_source r.sources vacant (some s) }, some s)
insert_io r raw vacant (some e) = (r, none)

-- `none` where the slab panics on a vacant key.
unfoldable pub remove_io : Reactor → Source → Option Reactor
remove_io r s = elim (r.sources s.key) [
  | some _ ↦ some (record r { sources = set_source r.sources s.key none })
  | none ↦ none
]
