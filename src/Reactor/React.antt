-- ===== src/Reactor/React.antt =====
-- What `react` of src/io/reactor.rs wakes.
use awak.Prelude.{
  ℕ, ◌≡◌, refl, sym, ap, ◌∙◌, Option, none, some, List, [], ◌∷◌, ◌++◌, map, append-nil,
  append_assoc, Option-cases, Bool-cases, inl, inr, wrapping_add,
}
use awak.Queue.Fifo.{IsValid}
use awak.Sleepers.{Waker}
use awak.Timers.{process_timers}
use awak.Timers.Process.{view}
use awak.Timers.Due.{due, later, process_timers_fires}
use awak.Source.{Source, Event, Interest, handle}
use awak.CopyBuffer.{ErrorKind}
use awak.Reactor.{
  Reactor, Waited, events, interrupted, failed, handle_events, react, set_source, refusal, is_zero,
  earlier,
}

abbrev pub grants : Interest → Option ErrorKind
grants i = none

granted : (i : Option Interest) → refusal grants i ≡ none
granted none = refl
granted (some i) = refl

-- The wakers collected before stay in front.
handle_events_appends :
    (tick : ℕ) (evs : List Event) (ss : ℕ → Option Source) (ws : List Waker)
    → ((handle_events grants tick evs ss ws).error ≡ none)
      × ((more : List Waker) × ((handle_events grants tick evs ss ws).wakers ≡ ws ++ more))
unfolding handle_events
handle_events_appends tick [] ss ws = (refl, ([], sym (append-nil ws)))
handle_events_appends tick (ev ∷ evs) ss ws = elim (Option-cases (ss ev.key)) [
  | inl missing ↦ rw (missing, handle_events) (handle_events_appends tick evs ss ws)
  | inr (s, found) ↦
      let (s', woken, renewed) = handle s tick ev in
      let (fine, (more, e)) =
        handle_events_appends tick evs (set_source ss ev.key (some s')) (ws ++ woken) in
      rw (found, handle_events, granted renewed)
        (fine, (woken ++ more, e ∙ append_assoc ws woken more))
]

react_fires :
    (r : Reactor) (timeout : Option ℕ) (now : ℕ) (waited : Waited) (later : ℕ)
    → (more : List Waker) × ((react grants r timeout now waited later).woken
        ≡ (process_timers r.timers now).1 ++ more)
unfolding react
react_fires r timeout now (events []) later =
    elim (Bool-cases (is_zero (earlier (process_timers r.timers now).2 timeout))) [
      | inl zero_limit ↦ rw zero_limit ([], sym (append-nil _))
      | inr waits ↦ rw waits (_, refl)
    ]
react_fires r timeout now (events (ev ∷ evs)) later =
    let (fine, (more, e)) =
      handle_events_appends (wrapping_add r.ticker 1) (ev ∷ evs) r.sources
        (process_timers r.timers now).1 in
    rw fine (more, e)
react_fires r timeout now interrupted later = ([], sym (append-nil _))
react_fires r timeout now (failed e) later = ([], sym (append-nil _))

-- With a well-formed queue of timer operations, and a poller that refuses no interest: whatever
-- `wait` gives, no event, events, an interrupt or an error, `react` wakes the waker of every timer
-- that was due when it read the clock, in order and before all other wakers.
pub react_wakes_due :
    (r : Reactor) (timeout : Option ℕ) (now : ℕ) (waited : Waited) (later : ℕ)
    → IsValid r.timers.timer_ops
    → (more : List Waker) × ((react grants r timeout now waited later).woken
        ≡ map (λ e. e.1) (due now (view r.timers)) ++ more)
react_wakes_due r timeout now waited later v =
    let (more, e) = react_fires r timeout now waited later in
    (more, e ∙ ap (λ ws. ws ++ more) (process_timers_fires r.timers now v).0)

-- With a well-formed queue of timer operations: when the handling of the events of the poller meets
-- an interest that the poller refuses, `react` returns its error and wakes nobody; the timers that
-- were due are no longer in the map, as in any other `react`.
pub react_refused :
    (refuses : Interest → Option ErrorKind) (r : Reactor) (timeout : Option ℕ) (now : ℕ)
    (ev : Event) (evs : List Event) (later_now : ℕ) (e : ErrorKind)
    → IsValid r.timers.timer_ops
    → ((handle_events refuses
          (wrapping_add r.ticker 1)
          (ev ∷ evs)
          r.sources
          (process_timers r.timers now).1).error
        ≡ some e)
    → let res = react refuses r timeout now (events (ev ∷ evs)) later_now in
      (res.error ≡ some e)
      × (res.woken ≡ [])
      × (res.state.timers.timers ≡ later now (view r.timers))
unfolding react
react_refused refuses r timeout now ev evs later_now e v refused =
    rw refused (refl, refl, (process_timers_fires r.timers now v).1)
