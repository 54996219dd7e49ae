-- ===== src/Async/Tests.antt =====
-- Runs of `Async` of src/io/mod.rs at small inputs.
use awak.Prelude.{true, false, ℕ, ◌≡◌, refl, Option, none, some, List, [], ◌∷◌}
use awak.Async.Wakes.{poll_with_wakes}
use awak.Source.{poll_ready, handle, will_wake, Source, read, Interest}
use awak.CopyBuffer.{pending, ErrorKind, Io, ok, err}
use awak.Reactor.{Reactor, insert_io}
use awak.Async.{Looped, would_block, poll_with, into_inner}
use awak.Async.Ready.{Answers, poll_with-Answers}
use awak.Async.Drop.{into_inner_panics}

-- A handle that would block once, then gives what it has left.
abbrev op : List ℕ → List ℕ × Io ℕ
op [] = ([], err would_block)
op (x ∷ xs) = (xs, ok x)

abbrev accepts : Interest → Option ErrorKind
accepts i = none

-- An event has come since the last poll.
abbrev src : Source
src = record {
  raw = 3;
  key = 0;
  states = λ o. record { wakers = []; tick = 6; ticks = some (5, 0) };
}

poll_with-Answers_example : Answers op accepts read 9 (poll_with op accepts read 9 7 2 src [])
poll_with-Answers_example = poll_with-Answers op accepts read 9 7 src []

-- The first poll of the source is ready, the second waits.
abbrev waiting : Looped (List ℕ) ℕ
waiting = record {
  source = (poll_ready (poll_ready src read 9 7).0 read 9 7).0;
  state = [];
  result = pending;
}

poll_with_wakes_example :
    will_wake 9 (handle waiting.source 8 (record { key = 0; readable = true; writable = false })).1
    ≡ true
unfolding poll_with poll_ready
poll_with_wakes_example =
    poll_with_wakes op accepts read 9 7 src [] waiting 8
      (record { key = 0; readable = true; writable = false }) refl refl refl

abbrev quiet : Reactor
quiet = record {
  timers = record {
    timer_ops = record { queue = []; length = 0; capacity = 1 };
    timers = [];
    id_generator = 1;
    notifies = 0;
  };
  ticker = 7;
  sources = λ key. none;
}

abbrev registered : Reactor
registered = record quiet { sources = λ key. some src }

-- Another thread registers a source, and the slab gives it the key 1.
abbrev others : Reactor → Reactor
others r = (insert_io r 9 1 none).0

into_inner_panics_example :
    into_inner {T = ℕ} registered others (record { source = src; io = some 3 }) none ≡ none
unfolding insert_io
into_inner_panics_example =
    into_inner_panics registered others (record { source = src; io = some 3 }) none (λ r e. e)
