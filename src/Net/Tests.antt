-- ===== src/Net/Tests.antt =====
-- Runs of the loops of src/net/ at small inputs.
use awak.Prelude.{ℕ, zero, suc, ◌+◌, ◌≡◌, none, some, [], ◌∷◌}
use awak.Source.{Source, read, write}
use awak.Async.{would_block}
use awak.Async.Traits.{Context}
use awak.CopyBuffer.{Io, ok, err, ready}
use awak.Net.Stream.{Socket}
use awak.Net.Stream.Tcp
use awak.Net.Listener.{poll_next}
use awak.Net.Halves.{Keeps, halves_apart}
use awak.Net.Incoming.{GoesOn, incoming-GoesOn}
use awak.Net.{connect}
use awak.Net.First.{First, connect-First}

-- Only address 3 accepts; the state counts the calls.
abbrev op : ℕ → ℕ → ℕ × Io ℕ
op (suc (suc (suc zero))) w = (w + 1, ok 30)
op a w = (w + 1, err 5)

connect-First_example : First op (1 ∷ 3 ∷ 2 ∷ []) 0 none (connect op (ok (1 ∷ 3 ∷ 2 ∷ [])) 0)
connect-First_example = connect-First op (1 ∷ 3 ∷ 2 ∷ []) 0

-- A source that an event has made ready, and a socket without data.
abbrev src : Source
src = record {
  raw = 3;
  key = 0;
  states = λ o. record { wakers = []; tick = 6; ticks = some (5, 0) };
}

abbrev cx : Context
cx = record { refuses = λ i. none; waker = 9; ticker = 7 }

abbrev blocks : ℕ → ℕ × Io ℕ
blocks n = (n + 1, err would_block)

abbrev socket : Socket ℕ
socket = record {
  handle = record {
    read = blocks;
    read_vectored = blocks;
    write = λ n. (n + 1, ok 4);
    write_vectored = blocks;
    flush = λ n. (n, ok tt);
  };
  shutdown = λ how n. (n, ok tt);
  peek = blocks;
}

halves_apart_example :
    Keeps read src (Tcp.half_poll_read socket cx 2 src 0)
    × Keeps read src (Tcp.half_poll_read_vectored socket cx 2 src 0)
    × Keeps write src (Tcp.half_poll_write socket cx 2 src 0)
    × Keeps write src (Tcp.half_poll_write_vectored socket cx 2 src 0)
    × Keeps write src (Tcp.half_poll_flush socket cx 2 src 0)
    × (Tcp.half_poll_close socket cx 2 src 0
        ≡ some (record { source = src; state = 0; result = ready (ok tt) }))
halves_apart_example = halves_apart socket cx src 0

-- A listener with a connection, and no room to register it.
incoming-GoesOn_example :
    GoesOn 9
      (poll_next {S = ℕ} {C = ℕ} {T = ℕ} {A = ℕ} (λ n. (n, ok (4, 5))) (λ c. err 24) cx 2 src 0)
incoming-GoesOn_example =
    incoming-GoesOn {S = ℕ} {C = ℕ} {T = ℕ} {A = ℕ} (λ n. (n, ok (4, 5))) (λ c. err 24) cx src 0
