-- ===== src/CopyBuffer/Returns.antt =====
-- The loops of src/util/copy_buffer.rs end, for a reader that has finitely many reads to give.
use awak.Prelude.{
  ℕ, zero, suc, ◌+◌, ◌-◌, ◌≤◌, ◌<◌, ◌≡◌, ◌≢◌, refl, sym, ap, ◌∙◌, ◌⊎◌, inl, inr, Option, none, some,
  List, [], ◌∷◌, Bool, true, false, not, ◌&&◌, ◌==◌, if◌then◌else◌, ltb, length, Bool-cases,
  ne_of_==, ==_of_eq, arith,
}
use awak.CopyBuffer.{
  Byte, Io, Poll, Streams, CopyBuffer, slice, fill, advance, Part, flush_idle, read_part,
  write_loop, write_part, finish_part, body, poll_copy, then_part,
}
use awak.CopyBuffer.Slices.{length-slice, below, option_P, if_P, Poll-cases}
use awak.CopyBuffer.Reads.{bytes_of, count_of, Lawful, Copies, read_part-Kept}
use awak.CopyBuffer.Inv.{body-Kept}

-- Each read that gives bytes brings `left` down.
pub record IsFinite {R W : Type 0} (io : Streams R W) (left : R → ℕ) : Type 0 where
  pub falls :
      (r : R) (n : ℕ) → bytes_of (io.poll_read r n).1 ≢ [] → left (io.poll_read r n).0 < left r

-- `poll_copy` returns.
pub record Returned {R W : Type 0} (o : Option (Part R W)) : Type 0 where
  pub part : Part R W
  pub result : Poll (Io ℕ)
  pub over : o ≡ some part
  pub returns : part.returned ≡ some result

not_none : {x : Poll (Io ℕ)} → ◌≡◌ {A = Option (Poll (Io ℕ))} (some x) none → ⊥
not_none e = ground arith

module _ {R W : Type 0} {io : Streams R W} {got : R → List Byte} {sent : W → List Byte}
    (lawful : Lawful io got sent) where
  -- What holds of a part of the body that goes on.
  abbrev Goes : (Part R W → Type 0) → Part R W → Type 0
  Goes P p = p.returned ≡ none → P p

  -- The `while` loop has written all, if it goes on.
  abbrev Written : R → Bool → Part R W → Type 0
  Written r read_done p =
      (p.buffer.pos ≡ p.buffer.cap) × (p.reader ≡ r) × (p.buffer.read_done ≡ read_done)

  write_loop_ends :
      (n : ℕ) (b : CopyBuffer) (r : R) (w : W)
      → b.pos ≤ b.cap
      → b.cap ≤ length b.buf
      → b.cap - b.pos ≤ n
      → Goes (Written r b.read_done) (write_loop io n b r w)
  unfolding write_loop
  write_loop_ends zero b r w le fits few = λ _. (omega arith, refl, refl)
  write_loop_ends (suc n) b r w le fits few =
      if_P (Goes (Written r b.read_done)) (ltb b.pos b.cap)
        (λ some_left. elim (Poll-cases (io.poll_write w (slice b)).1) [
          | inl e ↦ rw e (λ stop. absurd (not_none stop))
          | inr (inl (k, e)) ↦ rw e (λ stop. absurd (not_none stop))
          | inr (inr (i, e)) ↦ rw e (
              if_P (Goes (Written r b.read_done)) (i == 0) (λ _ stop. absurd (not_none stop))
                (λ some_taken.
                  let room : b.pos + i ≤ b.cap = omega (
                    arith,
                    lawful.write_fits w (slice b),
                    ap count_of e,
                    length-slice b fits,
                    below b.pos b.cap some_left,
                  ) in
                  write_loop_ends n (advance b i) r _ room fits
                    (omega (arith, ne_of_== i 0 some_taken))))
        ])
        (λ none_left _. (ground arith, refl, refl))

  module _ {left : R → ℕ} (finite : IsFinite io left) where
    -- What a read leaves, if the body goes on: less to read, or bytes still to write, or the end.
    abbrev Reads : CopyBuffer → R → Part R W → Type 0
    Reads b r p =
        (left p.reader < left r)
        ⊎ (((p.reader ≡ r) × (b.pos ≢ b.cap)) ⊎ (p.buffer.read_done ≡ true))

    flush_idle_returns :
        (b : CopyBuffer) (r r0 : R) (w : W) → Goes (Reads b r0) (flush_idle io b r w)
    unfolding flush_idle
    flush_idle_returns b r r0 w =
        if_P (Goes (Reads b r0)) b.need_flush
          (λ _. elim (Poll-cases (io.poll_flush w).1) [
            | inl e ↦ rw e (λ stop. absurd (not_none stop))
            | inr (inl (k, e)) ↦ rw e (λ stop. absurd (not_none stop))
            | inr (inr (a, e)) ↦ rw e (λ stop. absurd (not_none stop))
          ])
          (λ _ stop. absurd (not_none stop))

    fill-Reads :
        (b : CopyBuffer) (r r' : R) (w : W) (bytes : List Byte)
        → (bytes ≢ [] → left r' < left r)
        → Reads b r (record { buffer = fill b bytes; reader = r'; writer = w; returned = none })
    fill-Reads b r r' w [] less = inr (inr refl)
    fill-Reads b r r' w (x ∷ xs) less = inl (less (λ e. absurd (ground arith)))

    not_asked :
        (b : CopyBuffer)
        → ((b.pos == b.cap) && not b.read_done) ≡ false
        → (b.pos ≢ b.cap) ⊎ (b.read_done ≡ true)
    not_asked b e = elim (Bool-cases b.read_done) [
      | inl done ↦ inr done
      | inr more ↦ inl (λ same. absurd (ground arith))
    ]

    read_part-Reads : (b : CopyBuffer) (r : R) (w : W) → Goes (Reads b r) (read_part io b r w)
    unfolding read_part
    read_part-Reads b r w =
        if_P (Goes (Reads b r)) ((b.pos == b.cap) && not b.read_done)
          (λ _. elim (Poll-cases (io.poll_read r (length b.buf)).1) [
            | inl e ↦ rw e (flush_idle_returns b _ r w)
            | inr (inl (k, e)) ↦ rw e (λ stop. absurd (not_none stop))
            | inr (inr (bytes, e)) ↦ rw e (λ _.
                fill-Reads b r _ w bytes
                  (λ some_read. finite.falls r (length b.buf) (rw e some_read)))
          ])
          (λ asked _. elim (not_asked b asked) [
            | inl unwritten ↦ inr (inl (refl, unwritten))
            | inr done ↦ inr (inr done)
          ])

    -- The body goes on at its end only if something is left to do.
    abbrev Unfinished : CopyBuffer → R → Part R W → Type 0
    Unfinished b r p = (p.buffer ≡ b) × (p.reader ≡ r) × (((b.pos == b.cap) && b.read_done) ≡ false)

    finish_part-Unfinished :
        (b : CopyBuffer) (r : R) (w : W) → Goes (Unfinished b r) (finish_part io b r w)
    unfolding finish_part
    finish_part-Unfinished b r w =
        if_P (Goes (Unfinished b r)) ((b.pos == b.cap) && b.read_done)
          (λ _. elim (Poll-cases (io.poll_flush w).1) [
            | inl e ↦ rw e (λ stop. absurd (not_none stop))
            | inr (inl (k, e)) ↦ rw e (λ stop. absurd (not_none stop))
            | inr (inr (a, e)) ↦ rw e (λ stop. absurd (not_none stop))
          ])
          (λ more _. (refl, refl, more))

    -- A round of the loop that goes on has less to read after it, or found bytes still to write;
    -- and it has written all.
    abbrev Round : CopyBuffer → R → Part R W → Type 0
    Round b r p =
        (p.buffer.pos ≡ p.buffer.cap)
        × ((left p.reader < left r) ⊎ ((p.reader ≡ r) × (b.pos ≢ b.cap)))

    after_finish :
        (b : CopyBuffer) (r : R) (read q : Part R W)
        → Reads b r read
        → Written read.reader read.buffer.read_done q
        → Goes (Round b r) (finish_part io q.buffer q.reader q.writer)
    after_finish b r read q reads (all, same, flag) stop =
        let p = finish_part io q.buffer q.reader q.writer in
        let (buffer, reader, more) = finish_part-Unfinished q.buffer q.reader q.writer stop in
        (
          ap (λ c. c.pos) buffer ∙ all ∙ sym (ap (λ c. c.cap) buffer),
          elim reads [
            | inl less ↦ inl (omega (arith, ap left reader, ap left same))
            | inr (inl (kept, unwritten)) ↦ inr (reader ∙ same ∙ kept, unwritten)
            | inr (inr done) ↦ absurd (at_end q.buffer all (flag ∙ done) more)
          ],
        )
      where
        at_end :
            (c : CopyBuffer)
            → c.pos ≡ c.cap
            → c.read_done ≡ true
            → ((c.pos == c.cap) && c.read_done) ≡ false
            → ⊥
        at_end c e d h = ground arith

    body-Round :
        (b : CopyBuffer) (r : R) (w : W) → Copies got sent b r w → Goes (Round b r) (body io b r w)
    unfolding body write_part
    body-Round b r w h =
        let read = read_part io b r w in
        let kept = (read_part-Kept lawful b r w h).0 in
        let wrote = then_part io read (write_part io) in
        option_P (Goes (Round b r)) wrote.returned {f = λ _. wrote}
          (λ goes.
            option_P
              (λ q.
                q.returned ≡ none → Goes (Round b r) (finish_part io q.buffer q.reader q.writer))
              read.returned {f = λ _. read}
              (λ read_goes written.
                after_finish b r read (write_part io read.buffer read.reader read.writer)
                  (read_part-Reads b r w read_goes)
                  (write_loop_ends (read.buffer.cap - read.buffer.pos) read.buffer read.reader
                    read.writer kept.pos kept.cap (omega arith) written))
              (λ x returned goes_on. absurd (not_none (sym returned ∙ goes_on))) goes)
          (λ x returned goes_on. absurd (not_none (sym returned ∙ goes_on)))

    fewer :
        (n : ℕ) (b : CopyBuffer) (r : R) (p : Part R W)
        → left r + (if b.pos == b.cap then 0 else 1) < suc n
        → Round b r p
        → left p.reader + (if p.buffer.pos == p.buffer.cap then 0 else 1) < n
    fewer n b r p bound (all, inl less) = rw (==_of_eq _ _ all) (ground arith)
    fewer n b r p bound (all, inr (same, unwritten)) =
        rw (==_of_eq _ _ all) (ground (arith, ap left same))

    loop_returns :
        (n : ℕ) (b : CopyBuffer) (r : R) (w : W)
        → Copies got sent b r w
        → left r + (if b.pos == b.cap then 0 else 1) < n
        → Returned (poll_copy io n b r w)
    unfolding poll_copy
    loop_returns zero b r w h bound = absurd (omega arith)
    loop_returns (suc n) b r w h bound =
        let q = body io b r w in
        option_P Returned q.returned {f = λ _. some q}
          (λ goes.
            loop_returns n q.buffer q.reader q.writer (body-Kept lawful b r w h).0
              (fewer n b r q bound (body-Round b r w h goes)))
          (λ x e. record { part = q; result = x; over = refl; returns = e })

    pub poll_copy_returns :
        (n : ℕ) (b : CopyBuffer) (r : R) (w : W)
        → Copies got sent b r w
        → left r + 2 ≤ n
        → Returned (poll_copy io n b r w)
    poll_copy_returns n b r w h enough = loop_returns n b r w h (ground arith)
