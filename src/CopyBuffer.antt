-- ===== src/CopyBuffer.antt =====
-- src/util/copy_buffer.rs: `CopyBuffer::poll_copy`, which moves bytes from a reader to a writer.
-- The reader and the writer are outside: `Streams` holds what the code calls of them.
mod Slices
pub mod Bidirectional
pub mod Reads
pub mod Inv
pub mod Returns
mod Frame
pub mod Lane
pub mod Both
pub mod Polls
mod Tests
use awak.Prelude.{
  ℕ, zero, suc, ◌+◌, ◌-◌, Option, none, some, List, [], ◌∷◌, ◌++◌, Bool, true, false, not, ◌&&◌,
  ◌==◌, ltb, if◌then◌else◌, take, drop, replicate, length, wrapping_add,
}

abbrev pub Byte : Type 0
Byte = ℕ

-- The kind of an `io::Error`, by a number.
abbrev pub ErrorKind : Type 0
ErrorKind = ℕ

abbrev pub write_zero : ErrorKind
write_zero = 0

-- `io::Result`
pub data Io (A : Type 0) : Type 0 where
  ok : A → Io A
  err : ErrorKind → Io A

-- `std::task::Poll`
pub data Poll (A : Type 0) : Type 0 where
  ready : A → Poll A
  pending : Poll A

-- `AsyncRead` and `AsyncWrite`, on the states of a reader and of a writer. `poll_read` is given the
-- length of the buffer, and returns the bytes that it puts there.
pub record Streams (R W : Type 0) : Type 0 where
  pub poll_read : R → ℕ → R × Poll (Io (List Byte))
  pub poll_write : W → List Byte → W × Poll (Io ℕ)
  pub poll_flush : W → W × Poll (Io (Unit {0}))
  pub poll_close : W → W × Poll (Io (Unit {0}))

pub record CopyBuffer : Type 0 where
  pub read_done : Bool
  pub pos : ℕ
  pub cap : ℕ
  pub amt : ℕ
  pub buf : List Byte
  pub need_flush : Bool

unfoldable pub new : CopyBuffer
new = record {
  read_done = false;
  pos = 0;
  cap = 0;
  amt = 0;
  buf = replicate 2048 0;
  need_flush = false;
}

-- `&self.buf[self.pos..self.cap]`
abbrev pub slice : CopyBuffer → List Byte
slice b = take (b.cap - b.pos) (drop b.pos b.buf)

-- The buffer after a read of `bytes`.
abbrev pub fill : CopyBuffer → List Byte → CopyBuffer
fill b [] = record b { read_done = true }
fill b (x ∷ xs) = record b {
  pos = 0;
  cap = length (x ∷ xs);
  buf = (x ∷ xs) ++ drop (length (x ∷ xs)) b.buf;
}

-- A successful `poll_write` of `i` bytes.
abbrev pub advance : CopyBuffer → ℕ → CopyBuffer
advance b i = record b { pos = b.pos + i; amt = wrapping_add b.amt i; need_flush = true }

-- A part of the loop's body: the state, and what `poll_copy` returns if it returns here.
pub record Part (R W : Type 0) : Type 0 where
  pub buffer : CopyBuffer
  pub reader : R
  pub writer : W
  pub returned : Option (Poll (Io ℕ))

module _ {R W : Type 0} (io : Streams R W) where
  -- The reader has no progress: the writer is flushed.
  unfoldable pub flush_idle : CopyBuffer → R → W → Part R W
  flush_idle b r w =
      if b.need_flush
      then (let (w', flushed) = io.poll_flush w in
          elim flushed [
            | pending ↦ record { buffer = b; reader = r; writer = w'; returned = some pending }
            | ready (err e) ↦ record {
              buffer = b;
              reader = r;
              writer = w';
              returned = some (ready (err e));
            }
            | ready (ok _) ↦ record {
              buffer = record b { need_flush = false };
              reader = r;
              writer = w';
              returned = some pending;
            }
          ])
      else record { buffer = b; reader = r; writer = w; returned = some pending }

  unfoldable pub read_part : CopyBuffer → R → W → Part R W
  unfolding flush_idle
  read_part b r w =
      if (b.pos == b.cap) && not b.read_done
      then (let (r', got) = io.poll_read r (length b.buf) in
          elim got [
            | ready (ok bytes) ↦ record {
              buffer = fill b bytes;
              reader = r';
              writer = w;
              returned = none;
            }
            | ready (err e) ↦ record {
              buffer = b;
              reader = r';
              writer = w;
              returned = some (ready (err e));
            }
            | pending ↦ flush_idle b r' w
          ])
      else record { buffer = b; reader = r; writer = w; returned = none }

  -- The `while` loop, of as many rounds as there are bytes at most.
  unfoldable pub write_loop : ℕ → CopyBuffer → R → W → Part R W
  write_loop zero b r w = record { buffer = b; reader = r; writer = w; returned = none }
  write_loop (suc n) b r w =
      if ltb b.pos b.cap
      then (let (w', wrote) = io.poll_write w (slice b) in
          elim wrote [
            | pending ↦ record { buffer = b; reader = r; writer = w'; returned = some pending }
            | ready (err e) ↦ record {
              buffer = b;
              reader = r;
              writer = w';
              returned = some (ready (err e));
            }
            | ready (ok i) ↦
                let rest = write_loop n (advance b i) r w' in
                if i == 0
                then record {
                  buffer = b;
                  reader = r;
                  writer = w';
                  returned = some (ready (err write_zero));
                }
                else rest
          ])
      else record { buffer = b; reader = r; writer = w; returned = none }

  unfoldable pub write_part : CopyBuffer → R → W → Part R W
  unfolding write_loop
  write_part b r w = write_loop (b.cap - b.pos) b r w

  -- All is written and the reader is at its end.
  unfoldable pub finish_part : CopyBuffer → R → W → Part R W
  finish_part b r w =
      if (b.pos == b.cap) && b.read_done
      then (let (w', flushed) = io.poll_flush w in
          elim flushed [
            | pending ↦ record { buffer = b; reader = r; writer = w'; returned = some pending }
            | ready (err e) ↦ record {
              buffer = b;
              reader = r;
              writer = w';
              returned = some (ready (err e));
            }
            | ready (ok _) ↦ record {
              buffer = b;
              reader = r;
              writer = w';
              returned = some (ready (ok b.amt));
            }
          ])
      else record { buffer = b; reader = r; writer = w; returned = none }

  -- The rest of the body, unless a part has returned.
  abbrev pub then_part : Part R W → (CopyBuffer → R → W → Part R W) → Part R W
  then_part p next = elim p.returned [ none ↦ next p.buffer p.reader p.writer | some x ↦ p ]

  unfoldable pub body : CopyBuffer → R → W → Part R W
  unfolding read_part write_part finish_part
  body b r w = then_part (then_part (read_part b r w) write_part) finish_part

  -- The `loop`, on fuel: `none` if it is not over.
  unfoldable pub poll_copy : ℕ → CopyBuffer → R → W → Option (Part R W)
  unfolding body
  poll_copy zero b r w = none
  poll_copy (suc n) b r w =
      let p = body b r w in
      elim p.returned [ none ↦ poll_copy n p.buffer p.reader p.writer | some x ↦ some p ]
