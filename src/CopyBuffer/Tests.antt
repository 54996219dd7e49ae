-- ===== src/CopyBuffer/Tests.antt =====
-- A copy of src/util/copy_buffer.rs between streams that are held in memory.
use awak.Prelude.{
  sym, ap, take-length, ℕ, zero, suc, ◌%◌, ◌^◌, ◌<◌, ◌≡◌, ◌≢◌, length-drop, refl, some, List, [],
  ◌∷◌, ◌++◌, false, min, take, drop, length, length-take-le, arith,
}
use awak.CopyBuffer.{Byte, Streams, CopyBuffer, Part, Poll, Io, ok, ready, poll_copy}
use awak.CopyBuffer.Returns.{IsFinite}
use awak.CopyBuffer.Bidirectional.{CopyBidirectional, copy_bidirectional, poll}
use awak.CopyBuffer.Lane.{Lane}
use awak.CopyBuffer.Both.{Copied}
use awak.CopyBuffer.Polls.{Rests, start, next, polls-Copied}
use awak.CopyBuffer.Reads.{Lawful, Copies}
use awak.CopyBuffer.Inv.{poll_copy_completes}

-- A reader has bytes to give and bytes given; a writer takes at most two bytes at once.
abbrev Reader : Type 0
Reader = List Byte × List Byte

abbrev memory : Streams Reader (List Byte)
memory = record {
  poll_read = λ r n. ((drop n r.0, r.1 ++ take n r.0), ready (ok (take n r.0)));
  poll_write = λ w bs. (w ++ take (min 2 (length bs)) bs, ready (ok (min 2 (length bs))));
  poll_flush = λ w. (w, ready (ok tt));
  poll_close = λ w. (w, ready (ok tt));
}

memory-Lawful : Lawful memory (λ r. r.1) (λ w. w)
memory-Lawful = record {
  read = λ r n. refl;
  read_fits = λ r n. length-take-le n r.0;
  write = λ w bs. refl;
  write_fits = λ w bs. omega arith;
  flush = λ w. refl;
}

abbrev small : CopyBuffer
small = record {
  read_done = false;
  pos = 0;
  cap = 0;
  amt = 0;
  buf = 0 ∷ 0 ∷ 0 ∷ [];
  need_flush = false;
}

abbrev source : Reader
source = (1 ∷ 2 ∷ 3 ∷ 4 ∷ [], [])

small-Copies : Copies (λ (r : Reader). r.1) (λ (w : List Byte). w) small source []
small-Copies = record { pos = omega arith; cap = omega arith; in_order = refl; counted = refl }

outcome : (p : Part Reader (List Byte)) × (poll_copy memory 3 small source [] ≡ some p)
unfolding poll_copy
outcome = (_, refl)

outcome_done : outcome.0.returned ≡ some (ready (ok 4))
unfolding outcome
outcome_done = refl

poll_copy_completes_example :
    (outcome.0.reader.1 ≡ outcome.0.writer) × (4 ≡ length outcome.0.writer % 2 ^ 64)
poll_copy_completes_example =
    poll_copy_completes memory-Lawful 3 small source [] outcome.0 4 small-Copies outcome.1
      outcome_done

memory_falls : (xs : List Byte) (n : ℕ) → take n xs ≢ [] → length (drop n xs) < length xs
memory_falls xs zero some_read = absurd (some_read refl)
memory_falls [] (suc n) some_read = absurd (some_read refl)
memory_falls (x ∷ xs) (suc n) some_read = omega (arith, length-drop n xs)

-- An end that is read and written: bytes to give, bytes given, and bytes taken.
record End : Type 0 where
  give : List Byte
  given : List Byte
  taken : List Byte

abbrev socket : Streams End End
socket = record {
  poll_read = λ e n. (
    record e { give = drop n e.give; given = e.given ++ take n e.give },
    ready (ok (take n e.give)),
  );
  poll_write = λ e bs. (record e { taken = e.taken ++ bs }, ready (ok (length bs)));
  poll_flush = λ e. (e, ready (ok tt));
  poll_close = λ e. (e, ready (ok tt));
}

socket-Lane : Lane socket (λ e. e.given) (λ e. e.taken) (λ e. e.taken) (λ e. e.given)
socket-Lane = record {
  lawful = record {
    read = λ r n. refl;
    read_fits = λ r n. length-take-le n r.give;
    write = λ w bs. ap (λ t. w.taken ++ t) (sym (take-length bs));
    write_fits = λ w bs. omega arith;
    flush = λ w. refl;
  };
  close = λ b. refl;
  read_apart = λ a n. refl;
  write_apart = λ b bs. refl;
  flush_apart = λ b. refl;
  close_apart = λ b. refl;
}

abbrev fresh : List Byte → End
fresh bytes = record { give = bytes; given = []; taken = [] }

-- The first poll of a copy between two ends.
abbrev before : CopyBidirectional End End
before = copy_bidirectional (fresh (1 ∷ 2 ∷ [])) (fresh (3 ∷ []))

exchange :
    (r : CopyBidirectional End End × Poll (Io (ℕ × ℕ))) × (poll socket socket 4 before ≡ some r)
unfolding poll copy_bidirectional
exchange = (_, refl)

exchange_done : exchange.0.1 ≡ ready (ok (2, 1))
unfolding exchange
exchange_done = refl

socket-IsFinite : IsFinite socket (λ e. length e.give)
socket-IsFinite = record { falls = λ r n. memory_falls r.give n }

socket-Rests : Rests socket (λ e. length e.give)
socket-Rests = record { write = λ b bs. refl; flush = λ b. refl; close = λ b. refl }

-- A second poll, after the first was ready.
polls-Copied_example :
    (c' : CopyBidirectional End End) × (result : Poll (Io (ℕ × ℕ))) × (poll socket socket 4
        exchange.0.0
      ≡ some (c', result))
    × Copied socket-Lane socket-Lane c' result
unfolding exchange
polls-Copied_example =
    polls-Copied socket-Lane socket-Lane socket-IsFinite socket-IsFinite socket-Rests socket-Rests
      {a = fresh (1 ∷ 2 ∷ [])} {b = fresh (3 ∷ [])} 4 refl refl refl refl
      (next 4 exchange.0.1 start exchange.1) (omega arith) (omega arith)
