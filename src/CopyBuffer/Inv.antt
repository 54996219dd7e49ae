-- ===== src/CopyBuffer/Inv.antt =====
-- What src/util/copy_buffer.rs keeps between the bytes read and the bytes written.
use awak.Prelude.{
  ℕ, zero, suc, ◌-◌, ◌%◌, ◌^◌, ◌≤◌, ◌<◌, ◌≡◌, sym, ap, ◌∙◌, subst, inl, inr, none, some, List, ◌++◌,
  ◌&&◌, ◌==◌, ltb, take, drop, length, length-append, append-nil, append_assoc, take-append-drop,
  eq_of_==, arith,
}
use awak.CopyBuffer.{
  Byte, then_part, ok, ready, Streams, CopyBuffer, slice, Part, read_part, advance, write_loop,
  write_part, finish_part, body, poll_copy,
}
use awak.CopyBuffer.Slices.{
  length-take, slice-advance, empty_slice, length-slice, and_left, below, ok_amt, option_P, if_P,
  Poll-cases,
}
use awak.CopyBuffer.Reads.{
  Lawful, count_of, Copies, Kept, keeps_on, pends, fails, same_writer, not_taken, read_part-Kept,
}

module _ {R W : Type 0} {io : Streams R W} {got : R → List Byte} {sent : W → List Byte}
    (lawful : Lawful io got sent) where
  advance-Copies :
      (b : CopyBuffer) (i : ℕ) (r : R) (w w' : W)
      → b.pos < b.cap
      → i ≤ length (slice b)
      → sent w' ≡ sent w ++ take i (slice b)
      → Copies got sent b r w
      → Copies got sent (advance b i) r w'
  advance-Copies b i r w w' some_left fits e h =
      let room : i ≤ b.cap - b.pos = omega (arith, length-slice b h.cap) in
      record {
        pos = omega arith;
        cap = h.cap;
        in_order =
            h.in_order
            ∙ ap (λ t. sent w ++ t) (sym (take-append-drop i (slice b)))
            ∙ sym (append_assoc (sent w) (take i (slice b)) (drop i (slice b)))
            ∙ sym (ap (λ t. t ++ drop i (slice b)) e)
            ∙ ap (λ t. sent w' ++ t) (sym (slice-advance b i room));
        counted = omega (
          arith,
          h.counted,
          ap length e,
          length-append (sent w) (take i (slice b)),
          length-take i (slice b) fits,
        );
      }

  write_loop-Kept :
      (n : ℕ) (b : CopyBuffer) (r : R) (w : W)
      → Copies got sent b r w
      → Kept lawful (write_loop io n b r w)
  unfolding write_loop
  write_loop-Kept zero b r w h = keeps_on lawful h
  write_loop-Kept (suc n) b r w h =
      if_P (Kept lawful) (ltb b.pos b.cap)
        (λ some_left. elim (Poll-cases (io.poll_write w (slice b)).1) [
          | inl e ↦
              rw e
                (pends lawful (same_writer lawful (not_taken lawful w (slice b) (ap count_of e)) h))
          | inr (inl (k, e)) ↦
              rw e
                (fails lawful (same_writer lawful (not_taken lawful w (slice b) (ap count_of e)) h))
          | inr (inr (i, e)) ↦ rw e (
              if_P (Kept lawful) (i == 0)
                (λ none_taken. fails lawful (
                  same_writer lawful
                    (not_taken lawful w (slice b) (ap count_of e ∙ eq_of_== i 0 none_taken)) h))
                (λ _. write_loop-Kept n (advance b i) r _ (
                  advance-Copies b i r w _ (below _ _ some_left)
                    (omega (arith, lawful.write_fits w (slice b), ap count_of e))
                    (lawful.write w (slice b) ∙ ap (λ t. sent w ++ take (count_of t) (slice b)) e)
                    h)))
        ])
        (λ _. keeps_on lawful h)

  finish_part-Kept :
      (b : CopyBuffer) (r : R) (w : W) → Copies got sent b r w → Kept lawful (finish_part io b r w)
  unfolding finish_part
  finish_part-Kept b r w h =
      if_P (Kept lawful) ((b.pos == b.cap) && b.read_done)
        (λ all.
          let h' = same_writer lawful (lawful.flush w) h in
          elim (Poll-cases (io.poll_flush w).1) [
            | inl e ↦ rw e (pends lawful h')
            | inr (inl (k, e)) ↦ rw e (fails lawful h')
            | inr (inr (a, e)) ↦
                rw e
                  (h', λ a e. (empty_slice b (eq_of_== b.pos b.cap (and_left _ _ all)), ok_amt e))
          ])
        (λ _. keeps_on lawful h)

  then_part-Kept :
      (p : Part R W) (next : CopyBuffer → R → W → Part R W)
      → Kept lawful p
      → (Copies got sent p.buffer p.reader p.writer → Kept lawful (next p.buffer p.reader p.writer))
      → Kept lawful (then_part io p next)
  then_part-Kept p next k after =
      option_P (Kept lawful) p.returned {f = λ _. p} (λ _. after k.0) (λ _ _. k)

  pub body-Kept :
      (b : CopyBuffer) (r : R) (w : W) → Copies got sent b r w → Kept lawful (body io b r w)
  unfolding body write_part
  body-Kept b r w h =
      let first = read_part-Kept lawful b r w h in
      let p = read_part io b r w in
      then_part-Kept (then_part io p (write_part io)) (finish_part io)
        (then_part-Kept p (write_part io) first
          (write_loop-Kept (p.buffer.cap - p.buffer.pos) p.buffer p.reader p.writer))
        (finish_part-Kept _ _ _)

  poll_copy-Kept :
      (n : ℕ) (b : CopyBuffer) (r : R) (w : W) (p : Part R W)
      → Copies got sent b r w
      → poll_copy io n b r w ≡ some p
      → Kept lawful p
  unfolding poll_copy
  poll_copy-Kept zero b r w p h e = absurd (ground arith)
  poll_copy-Kept (suc n) b r w p h e =
      let k = body-Kept b r w h in
      let q = body io b r w in
      option_P (λ res. res ≡ some p → Kept lawful p) q.returned {f = λ _. some q}
        (λ _ on. poll_copy-Kept n q.buffer q.reader q.writer p k.0 on)
        (λ _ _ same. subst (Kept lawful) (ap (λ o. elim o [ none ↦ q | some x ↦ x ]) same) k) e

  -- Let the reader and the writer behave as streams do, and let the bytes read be those written and
  -- those in the buffer, in order, with `amt` the number of those written, as a `u64`. Then this
  -- holds again whenever `poll_copy` returns, after errors and `Pending` too.
  pub poll_copy-Copies :
      (n : ℕ) (b : CopyBuffer) (r : R) (w : W) (p : Part R W)
      → Copies got sent b r w
      → poll_copy io n b r w ≡ some p
      → Copies got sent p.buffer p.reader p.writer
  poll_copy-Copies n b r w p h e = (poll_copy-Kept n b r w p h e).0

  -- If in the same situation `poll_copy` returns `Ready(Ok(amount))`, all bytes read are written,
  -- in order, and `amount` is their number, as a `u64`.
  pub poll_copy_completes :
      (n : ℕ) (b : CopyBuffer) (r : R) (w : W) (p : Part R W) (amount : ℕ)
      → Copies got sent b r w
      → poll_copy io n b r w ≡ some p
      → p.returned ≡ some (ready (ok amount))
      → (got p.reader ≡ sent p.writer) × (amount ≡ length (sent p.writer) % 2 ^ 64)
  poll_copy_completes n b r w p amount h e done =
      let (kept, finished) = poll_copy-Kept n b r w p h e in
      let (empty, all) = finished amount done in
      (
        kept.in_order ∙ ap (λ t. sent p.writer ++ t) empty ∙ append-nil (sent p.writer),
        all ∙ kept.counted,
      )
