-- ===== src/CopyBuffer/Reads.antt =====
-- What the read of src/util/copy_buffer.rs keeps between the bytes read and the bytes written.
use awak.Prelude.{
  ℕ, ◌%◌, ◌^◌, ◌≤◌, ◌≡◌, sym, ap, ◌∙◌, inl, inr, none, some, List, [], ◌∷◌, ◌++◌, not, ◌&&◌, ◌==◌,
  take, drop, length, length-append, append-nil, arith,
}
use awak.CopyBuffer.{
  Byte, ErrorKind, Io, ok, err, Poll, ready, pending, Streams, CopyBuffer, slice, fill, Part,
  flush_idle, read_part,
}
use awak.CopyBuffer.Slices.{take-all, empty_slice, both_left, never, if_P, Poll-cases}

abbrev pub bytes_of : Poll (Io (List Byte)) → List Byte
bytes_of (ready (ok bytes)) = bytes
bytes_of (ready (err e)) = []
bytes_of pending = []

abbrev pub count_of : Poll (Io ℕ) → ℕ
count_of (ready (ok n)) = n
count_of (ready (err e)) = 0
count_of pending = 0

-- What the code relies on: `got r` are the bytes that the reader has given, and `sent w` those that
-- the writer has taken. A read gives at most as many bytes as the buffer has, a write takes a
-- prefix of what it is given, and neither an error nor `Pending` moves a byte.
pub record Lawful {R W : Type 0} (io : Streams R W) (got : R → List Byte) (sent : W → List Byte)
    : Type 0 where
  pub read : (r : R) (n : ℕ) → got (io.poll_read r n).0 ≡ got r ++ bytes_of (io.poll_read r n).1
  pub read_fits : (r : R) (n : ℕ) → length (bytes_of (io.poll_read r n).1) ≤ n
  pub write :
      (w : W) (bs : List Byte)
      → sent (io.poll_write w bs).0 ≡ sent w ++ take (count_of (io.poll_write w bs).1) bs
  pub write_fits : (w : W) (bs : List Byte) → count_of (io.poll_write w bs).1 ≤ length bs
  pub flush : (w : W) → sent (io.poll_flush w).0 ≡ sent w

-- The bytes read are those written and those in the buffer, in order, and `amt` counts those
-- written, as a `u64`.
pub record Copies {R W : Type 0} (got : R → List Byte) (sent : W → List Byte) (b : CopyBuffer)
    (r : R) (w : W) : Type 0 where
  pub pos : b.pos ≤ b.cap
  pub cap : b.cap ≤ length b.buf
  pub in_order : got r ≡ sent w ++ slice b
  pub counted : b.amt ≡ length (sent w) % 2 ^ 64

module _ {R W : Type 0} {io : Streams R W} {got : R → List Byte} {sent : W → List Byte}
    (lawful : Lawful io got sent) where
  abbrev pub Kept : Part R W → Type 0
  Kept p =
      Copies got sent p.buffer p.reader p.writer
      × ((a : ℕ) → p.returned ≡ some (ready (ok a)) → (slice p.buffer ≡ []) × (a ≡ p.buffer.amt))

  pub keeps_on :
      {b : CopyBuffer} {r : R} {w : W}
      → Copies got sent b r w
      → Kept (record { buffer = b; reader = r; writer = w; returned = none })
  keeps_on h = (h, λ a e. absurd (ground arith))

  pub pends :
      {b : CopyBuffer} {r : R} {w : W}
      → Copies got sent b r w
      → Kept (record { buffer = b; reader = r; writer = w; returned = some pending })
  pends h = (h, λ a e. absurd (ground arith))

  pub fails :
      {b : CopyBuffer} {r : R} {w : W} {k : ErrorKind}
      → Copies got sent b r w
      → Kept (record { buffer = b; reader = r; writer = w; returned = some (ready (err k)) })
  fails h = (h, λ a e. absurd (let f = never e in ground arith))

  -- A writer that has taken nothing more.
  pub same_writer :
      {b : CopyBuffer} {r : R} {w w' : W}
      → sent w' ≡ sent w
      → Copies got sent b r w
      → Copies got sent b r w'
  same_writer e h = record {
    pos = h.pos;
    cap = h.cap;
    in_order = rw e h.in_order;
    counted = rw e h.counted;
  }

  same_reader :
      {b : CopyBuffer} {r r' : R} {w : W}
      → got r' ≡ got r
      → Copies got sent b r w
      → Copies got sent b r' w
  same_reader e h = record {
    pos = h.pos;
    cap = h.cap;
    in_order = e ∙ h.in_order;
    counted = h.counted;
  }

  flush_idle-Kept :
      (b : CopyBuffer) (r : R) (w : W) → Copies got sent b r w → Kept (flush_idle io b r w)
  unfolding flush_idle
  flush_idle-Kept b r w h =
      if_P Kept b.need_flush
        (λ _. elim (Poll-cases (io.poll_flush w).1) [
          | inl e ↦ rw e (pends (same_writer (lawful.flush w) h))
          | inr (inl (k, e)) ↦ rw e (fails (same_writer (lawful.flush w) h))
          | inr (inr (a, e)) ↦
              let h' = same_writer (lawful.flush w) h in
              rw e (
                pends (record {
                  pos = h'.pos;
                  cap = h'.cap;
                  in_order = h'.in_order;
                  counted = h'.counted;
                }))
        ])
        (λ _. pends h)

  no_bytes : (r : R) (n : ℕ) → bytes_of (io.poll_read r n).1 ≡ [] → got (io.poll_read r n).0 ≡ got r
  no_bytes r n e = lawful.read r n ∙ ap (λ t. got r ++ t) e ∙ append-nil (got r)

  pub not_taken :
      (w : W) (bs : List Byte)
      → count_of (io.poll_write w bs).1 ≡ 0
      → sent (io.poll_write w bs).0 ≡ sent w
  not_taken w bs e = lawful.write w bs ∙ ap (λ n. sent w ++ take n bs) e ∙ append-nil (sent w)

  -- A read into an empty buffer.
  fill-Copies :
      (b : CopyBuffer) (r r' : R) (w : W) (bytes : List Byte)
      → b.pos ≡ b.cap
      → got r' ≡ got r ++ bytes
      → length bytes ≤ length b.buf
      → Copies got sent b r w
      → Copies got sent (fill b bytes) r' w
  fill-Copies b r r' w [] empty e fits h =
      same_reader (e ∙ append-nil (got r))
        (record { pos = h.pos; cap = h.cap; in_order = h.in_order; counted = h.counted })
  fill-Copies b r r' w (x ∷ xs) empty e fits h = record {
    pos = omega arith;
    cap = omega (arith, length-append (x ∷ xs) (drop (length (x ∷ xs)) b.buf));
    in_order =
        e
        ∙ ap (λ t. t ++ (x ∷ xs))
            (h.in_order ∙ ap (λ t. sent w ++ t) (empty_slice b empty) ∙ append-nil (sent w))
        ∙ ap (λ t. sent w ++ t)
            (sym (
              ap (λ m. take m (x ∷ xs ++ drop (length (x ∷ xs)) b.buf)) {y = length (x ∷ xs)}
                (omega arith)
              ∙ take-all (x ∷ xs) (drop (length (x ∷ xs)) b.buf)));
    counted = h.counted;
  }

  pub read_part-Kept :
      (b : CopyBuffer) (r : R) (w : W) → Copies got sent b r w → Kept (read_part io b r w)
  unfolding read_part
  read_part-Kept b r w h =
      if_P Kept ((b.pos == b.cap) && not b.read_done)
        (λ reads. elim (Poll-cases (io.poll_read r (length b.buf)).1) [
          | inl e ↦
              rw e
                (flush_idle-Kept b _ w (same_reader (no_bytes r (length b.buf) (ap bytes_of e)) h))
          | inr (inl (k, e)) ↦
              rw e (fails (same_reader (no_bytes r (length b.buf) (ap bytes_of e)) h))
          | inr (inr (bytes, e)) ↦ rw e (
              keeps_on (
                fill-Copies b r _ w bytes (both_left b reads)
                  (lawful.read r (length b.buf) ∙ ap (λ t. got r ++ bytes_of t) e)
                  (omega
                    (arith, lawful.read_fits r (length b.buf), ap (λ t. length (bytes_of t)) e))
                  h))
        ])
        (λ _. keeps_on h)
