-- ===== src/CopyBuffer/Frame.antt =====
-- What the calls of src/util/copy_buffer.rs on the reader and the writer all keep, `poll_copy`
-- keeps.
use awak.Prelude.{
  ℕ, zero, suc, ◌-◌, ◌≡◌, ap, subst, inl, inr, none, some, List, not, ◌&&◌, ◌==◌, ltb, length,
  arith,
}
use awak.CopyBuffer.{
  Byte, Streams, CopyBuffer, slice, advance, Part, flush_idle, read_part, write_loop, write_part,
  finish_part, body, poll_copy, then_part,
}
use awak.CopyBuffer.Slices.{option_P, if_P, Poll-cases}

pub record Keeps {R W : Type 0} (io : Streams R W) (P : R → W → Type 0) : Type 0 where
  pub read : (r : R) (w : W) (n : ℕ) → P r w → P (io.poll_read r n).0 w
  pub write : (r : R) (w : W) (bs : List Byte) → P r w → P r (io.poll_write w bs).0
  pub flush : (r : R) (w : W) → P r w → P r (io.poll_flush w).0

module _ {R W : Type 0} {io : Streams R W} {P : R → W → Type 0} (keeps : Keeps io P) where
  abbrev Holds : Part R W → Type 0
  Holds p = P p.reader p.writer

  flush_idle-Holds : (b : CopyBuffer) (r : R) (w : W) → P r w → Holds (flush_idle io b r w)
  unfolding flush_idle
  flush_idle-Holds b r w h =
      if_P Holds b.need_flush
        (λ _. elim (Poll-cases (io.poll_flush w).1) [
          | inl e ↦ rw e (keeps.flush r w h)
          | inr (inl (k, e)) ↦ rw e (keeps.flush r w h)
          | inr (inr (a, e)) ↦ rw e (keeps.flush r w h)
        ])
        (λ _. h)

  read_part-Holds : (b : CopyBuffer) (r : R) (w : W) → P r w → Holds (read_part io b r w)
  unfolding read_part
  read_part-Holds b r w h =
      let after = keeps.read r w (length b.buf) h in
      if_P Holds ((b.pos == b.cap) && not b.read_done)
        (λ _. elim (Poll-cases (io.poll_read r (length b.buf)).1) [
          | inl e ↦ rw e (flush_idle-Holds b _ w after)
          | inr (inl (k, e)) ↦ rw e after
          | inr (inr (bytes, e)) ↦ rw e after
        ])
        (λ _. h)

  write_loop-Holds :
      (n : ℕ) (b : CopyBuffer) (r : R) (w : W) → P r w → Holds (write_loop io n b r w)
  unfolding write_loop
  write_loop-Holds zero b r w h = h
  write_loop-Holds (suc n) b r w h =
      let after = keeps.write r w (slice b) h in
      if_P Holds (ltb b.pos b.cap)
        (λ _. elim (Poll-cases (io.poll_write w (slice b)).1) [
          | inl e ↦ rw e after
          | inr (inl (k, e)) ↦ rw e after
          | inr (inr (i, e)) ↦
              rw e
                (if_P Holds (i == 0) (λ _. after) (λ _. write_loop-Holds n (advance b i) r _ after))
        ])
        (λ _. h)

  finish_part-Holds : (b : CopyBuffer) (r : R) (w : W) → P r w → Holds (finish_part io b r w)
  unfolding finish_part
  finish_part-Holds b r w h =
      if_P Holds ((b.pos == b.cap) && b.read_done)
        (λ _. elim (Poll-cases (io.poll_flush w).1) [
          | inl e ↦ rw e (keeps.flush r w h)
          | inr (inl (k, e)) ↦ rw e (keeps.flush r w h)
          | inr (inr (a, e)) ↦ rw e (keeps.flush r w h)
        ])
        (λ _. h)

  then_part-Holds :
      (p : Part R W) (next : CopyBuffer → R → W → Part R W)
      → Holds p
      → ((b : CopyBuffer) (r : R) (w : W) → P r w → Holds (next b r w))
      → Holds (then_part io p next)
  then_part-Holds p next h on =
      option_P Holds p.returned {f = λ _. p} (λ _. on p.buffer p.reader p.writer h) (λ _ _. h)

  body-Holds : (b : CopyBuffer) (r : R) (w : W) → P r w → Holds (body io b r w)
  unfolding body write_part
  body-Holds b r w h =
      then_part-Holds (then_part io (read_part io b r w) (write_part io)) (finish_part io)
        (then_part-Holds (read_part io b r w) (write_part io) (read_part-Holds b r w h)
          (λ c. write_loop-Holds (c.cap - c.pos) c))
        finish_part-Holds

  pub poll_copy_keeps :
      (n : ℕ) (b : CopyBuffer) (r : R) (w : W) (p : Part R W)
      → P r w
      → poll_copy io n b r w ≡ some p
      → P p.reader p.writer
  unfolding poll_copy
  poll_copy_keeps zero b r w p h e = absurd (ground arith)
  poll_copy_keeps (suc n) b r w p h e =
      let q = body io b r w in
      let k = body-Holds b r w h in
      option_P (λ res. res ≡ some p → Holds p) q.returned {f = λ _. some q}
        (λ _ on. poll_copy_keeps n q.buffer q.reader q.writer p k on)
        (λ _ _ same. subst Holds (ap (λ o. elim o [ none ↦ q | some x ↦ x ]) same) k) e
