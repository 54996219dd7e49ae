-- ===== src/Source.antt =====
-- `Source` and the event loop of `Reactor::react` in src/io/reactor.rs: how an I/O source remembers
-- who waits for it, and how the events of the poller reach them. The lock of `states` is held for
-- the whole of `poll_ready` and for the handling of one event, so each is one step. The poller is
-- outside: the registrations that it is asked for are values.
pub mod Ready
pub mod Events
mod Tests
use awak.Prelude.{
  ℕ, ◌+◌, Option, none, some, List, [], ◌∷◌, ◌++◌, Bool, true, false, not, ◌&&◌, ◌||◌, ◌==◌,
  if◌then◌else◌, wrapping_add,
}
use awak.Sleepers.{Waker}

-- `State`
pub record Direction : Type 0 where
  pub wakers : List Waker
  pub tick : ℕ
  pub ticks : Option (ℕ × ℕ)

-- `READ` and `WRITE`
pub data Op : Type 0 where
  read write : Op

pub record Source : Type 0 where
  pub raw : ℕ
  pub key : ℕ
  pub states : Op → Direction

abbrev pub is_empty : List Waker → Bool
is_empty [] = true
is_empty (w ∷ ws) = false

-- `wakers.iter().any(|w| w.will_wake(waker))`
abbrev pub will_wake : Waker → List Waker → Bool
will_wake w [] = false
will_wake w (x ∷ xs) = (x == w) || will_wake w xs

abbrev pub same_op : Op → Op → Bool
same_op read read = true
same_op write write = true
same_op read write = false
same_op write read = false

abbrev pub set_state : Source → Op → Direction → Source
set_state s op d = record s { states = λ o. if same_op op o then d else s.states o }

-- The arguments of `Poller::interest`.
pub record Interest : Type 0 where
  pub raw : ℕ
  pub key : ℕ
  pub read : Bool
  pub write : Bool

abbrev pub interest : Source → Interest
interest s = record {
  raw = s.raw;
  key = s.key;
  read = not (is_empty (s.states read).wakers);
  write = not (is_empty (s.states write).wakers);
}

-- Whether an event came since the ticks were remembered.
abbrev pub delivered : Direction → Bool
delivered d = elim d.ticks [ none ↦ false | some t ↦ not (d.tick == t.0) && not (d.tick == t.1) ]

-- The direction after a poll that stays pending.
abbrev pub wait : Direction → Waker → ℕ → Direction
wait d waker ticker = record d {
  wakers = if will_wake waker d.wakers then d.wakers else d.wakers ++ (waker ∷ []);
  ticks = elim d.ticks [ none ↦ some (ticker, d.tick) | some t ↦ some t ];
}

-- What a poll returns: ready, or pending with the registration that the poller is asked for.
pub data Polled : Type 0 where
  ready : Polled
  pending : Option Interest → Polled

-- `ticker` is what the reactor's ticker holds. If the poller refuses the interest, `poll_ready`
-- returns its error, with this same state.
unfoldable pub poll_ready : Source → Op → Waker → ℕ → Source × Polled
poll_ready s op waker ticker =
    let d = s.states op in
    if delivered d
    then (set_state s op (record d { ticks = none }), ready)
    else (let s' = set_state s op (wait d waker ticker) in
        (s', pending (if is_empty d.wakers then some (interest s') else none)))

-- An event of the poller.
pub record Event : Type 0 where
  pub key : ℕ
  pub readable : Bool
  pub writable : Bool

-- One direction at an event: it keeps no waker.
abbrev pub deliver : Direction → ℕ → Bool → Direction × List Waker
deliver d tick happened =
    if happened then (record d { wakers = []; tick = wrapping_add tick 1 }, d.wakers) else (d, [])

-- The body of the loop over the events for a source that is found: the wakers to wake, and the
-- interest that is renewed.
unfoldable pub handle : Source → ℕ → Event → Source × List Waker × Option Interest
handle s tick ev =
    let (r, readers) = deliver (s.states read) tick ev.readable in
    let (w, writers) = deliver (s.states write) tick ev.writable in
    let s' = set_state (set_state s read r) write w in
    (
      s',
      readers ++ writers,
      (if is_empty w.wakers && is_empty r.wakers then none else some (interest s')),
    )
