-- ===== src/CopyBuffer/Polls.antt =====
-- src/util/copy_bidirectional.rs over a run of polls, from the state that `copy_bidirectional`
-- starts with.
use awak.Prelude.{ℕ, ◌+◌, ◌≤◌, ◌≡◌, refl, ◌∙◌, subst, inl, inr, Option, some, List, [], arith}
use awak.CopyBuffer.{Byte, Io, ok, Poll, ready, Streams, new}
use awak.CopyBuffer.Slices.{Poll-cases}
use awak.CopyBuffer.Reads.{Copies}
use awak.CopyBuffer.Returns.{IsFinite, poll_copy_returns}
use awak.CopyBuffer.Frame.{Keeps, poll_copy_keeps}
use awak.CopyBuffer.Bidirectional.{
  TransferState, running, close, done, Transferred, close_step, transfer_one_direction,
  CopyBidirectional, copy_bidirectional, poll,
}
use awak.CopyBuffer.Lane.{Lane, Carries, Carries-same, Within, Moved, transfer-Moved}
use awak.CopyBuffer.Both.{Copied, poll-Copied}

-- Writing to an end does not bring it more to read.
pub record Rests {A B : Type 0} (io : Streams A B) (left : B → ℕ) : Type 0 where
  pub write : (b : B) (bs : List Byte) → left (io.poll_write b bs).0 ≡ left b
  pub flush : (b : B) → left (io.poll_flush b).0 ≡ left b
  pub close : (b : B) → left (io.poll_close b).0 ≡ left b

module _ {A B : Type 0} {io : Streams A B} {got : A → List Byte} {sent : B → List Byte}
    {sent' : A → List Byte} {got' : B → List Byte} (lane : Lane io got sent sent' got')
    {left : A → ℕ} {left' : B → ℕ} (finite : IsFinite io left) (rests : Rests io left') where
  -- A direction that returns, and leaves as much to read of the end that it writes to.
  record Returns (b : B) (o : Option (Transferred A B)) : Type 0 where
    part : Transferred A B
    returns : o ≡ some part
    rest : left' part.into ≡ left' b

  close_rest : (n : ℕ) (a : A) (b : B) → left' (close_step io n a b).into ≡ left' b
  unfolding close_step
  close_rest n a b = elim (Poll-cases (io.poll_close b).1) [
    | inl e ↦ rw (e, close_step) (rests.close b)
    | inr (inl (k, e)) ↦ rw (e, close_step) (rests.close b)
    | inr (inr (u, e)) ↦ rw (e, close_step) (rests.close b)
  ]

  writes_rest : (b0 : B) → Keeps io (λ a b. left' b ≡ left' b0)
  writes_rest b0 = record {
    read = λ a b n h. h;
    write = λ a b bs h. rests.write b bs ∙ h;
    flush = λ a b h. rests.flush b ∙ h;
  }

  transfer-Returns :
      (fuel : ℕ) (st : TransferState) (a : A) (b : B)
      → Carries got sent st a b
      → left a + 2 ≤ fuel
      → Returns b (transfer_one_direction io fuel st a b)
  unfolding transfer_one_direction
  transfer-Returns fuel (done n) a b h enough = record {
    part = record { state = done n; from = a; into = b; result = ready (ok n) };
    returns = refl;
    rest = refl;
  }
  transfer-Returns fuel (close n) a b h enough = record {
    part = close_step io n a b;
    returns = refl;
    rest = close_rest n a b;
  }
  transfer-Returns fuel (running buf) a b h enough =
      let d = poll_copy_returns lane.lawful finite fuel buf a b h enough in
      let kept = poll_copy_keeps (writes_rest b) fuel buf a b d.part refl d.over in
      elim (Poll-cases d.result) [
        | inl e ↦
            rw (d.over, transfer_one_direction, d.returns, e)
              (record { part = _; returns = refl; rest = kept })
        | inr (inl (k, e)) ↦
            rw (d.over, transfer_one_direction, d.returns, e)
              (record { part = _; returns = refl; rest = kept })
        | inr (inr (n, e)) ↦
            rw (d.over, transfer_one_direction, d.returns, e)
              (record {
                part = close_step io n d.part.reader d.part.writer;
                returns = refl;
                rest = close_rest n d.part.reader d.part.writer ∙ kept;
              })
      ]

-- The polls of a copy between `a` and `b`, one after the other, that lead to a state. The ends are
-- used by nobody else.
pub data Polls {A B : Type 0} (there : Streams A B) (back : Streams B A) (a : A) (b : B)
    : CopyBidirectional A B → Type 0 where
  start : Polls there back a b (copy_bidirectional a b)
  next :
      {c c' : CopyBidirectional A B} (fuel : ℕ) (result : Poll (Io (ℕ × ℕ)))
      → Polls there back a b c
      → poll there back fuel c ≡ some (c', result)
      → Polls there back a b c'

module _ {A B : Type 0} {there : Streams A B} {back : Streams B A} {got_a sent_a : A → List Byte}
    {got_b sent_b : B → List Byte} (to_b : Lane there got_a sent_b sent_a got_b)
    (to_a : Lane back got_b sent_a sent_b got_a) where
  new-Copies :
      {X Y : Type 0} (got : X → List Byte) (sent : Y → List Byte) (x : X) (y : Y)
      → got x ≡ []
      → sent y ≡ []
      → Copies got sent new x y
  unfolding new
  new-Copies got sent x y p q = record {
    pos = omega arith;
    cap = omega arith;
    in_order = p ∙ rw q refl;
    counted = rw q refl;
  }

  record Both (c : CopyBidirectional A B) : Type 0 where
    a_to_b : Carries got_a sent_b c.a_to_b c.a c.b
    b_to_a : Carries got_b sent_a c.b_to_a c.b c.a

  Polls-Both :
      {a : A} {b : B} {c : CopyBidirectional A B}
      → (got_a a ≡ [])
      → (sent_b b ≡ [])
      → (got_b b ≡ [])
      → (sent_a a ≡ [])
      → Polls there back a b c
      → Both c
  unfolding copy_bidirectional
  Polls-Both {a} {b} ga sb gb sa start = record {
    a_to_b = new-Copies got_a sent_b a b ga sb;
    b_to_a = new-Copies got_b sent_a b a gb sa;
  }
  Polls-Both ga sb gb sa (next {c} {c'} fuel result before e) =
      let h = Polls-Both ga sb gb sa before in
      let done = poll-Copied to_b to_a fuel c c' result h.a_to_b h.b_to_a e in
      record { a_to_b = done.a_to_b; b_to_a = done.b_to_a }

  module _ {left_a : A → ℕ} {left_b : B → ℕ} (finite_a : IsFinite there left_a)
      (finite_b : IsFinite back left_b) (rests_a : Rests back left_a)
      (rests_b : Rests there left_b) where
    -- A poll that returns.
    record Answered (o : Option (CopyBidirectional A B × Poll (Io (ℕ × ℕ)))) : Type 0 where
      after : CopyBidirectional A B
      result : Poll (Io (ℕ × ℕ))
      returns : o ≡ some (after, result)

    poll_returns :
        (fuel : ℕ) (c : CopyBidirectional A B)
        → Both c
        → left_a c.a + 2 ≤ fuel
        → left_b c.b + 2 ≤ fuel
        → Answered (poll there back fuel c)
    unfolding poll
    poll_returns fuel c h enough_a enough_b =
        let x = transfer-Returns to_b finite_a rests_b fuel c.a_to_b c.a c.b h.a_to_b enough_a in
        let moved =
          subst (Within (Moved to_b c.a c.b)) x.returns
            (transfer-Moved to_b fuel c.a_to_b c.a c.b h.a_to_b) in
        let y =
          transfer-Returns to_a finite_b rests_a fuel c.b_to_a x.part.into x.part.from
            (Carries-same got_b sent_a c.b_to_a moved.into_kept moved.from_kept h.b_to_a)
            (omega (arith, x.rest, enough_b)) in
        elim (Poll-cases x.part.result) [
          | inl e ↦
              rw (x.returns, poll, e, y.returns) (record { after = _; result = _; returns = refl })
          | inr (inl (k, e)) ↦
              rw (x.returns, poll, e) (record { after = _; result = _; returns = refl })
          | inr (inr (n, e)) ↦
              rw (x.returns, poll, e, y.returns) (record { after = _; result = _; returns = refl })
        ]

    -- Let `a` and `b` behave as streams whose two sides do not touch each other, with nothing read
    -- or written so far, and let each have finitely many reads with bytes to give, which writing to
    -- it does not change. After any number of polls of `copy_bidirectional(a, b)`, whatever they
    -- returned, a further poll returns, with fuel for two more rounds than either end has reads.
    -- Each direction then has its bytes in order: those read are those written and those in its
    -- buffer, or, once it is closing or done, those written, with their number modulo `2 ^ 64`; and
    -- if the poll returns `Ready(Ok((m, n)))`, both directions are done, with these amounts.
    pub polls-Copied :
        {a : A} {b : B} {c : CopyBidirectional A B} (fuel : ℕ)
        → got_a a ≡ []
        → sent_b b ≡ []
        → got_b b ≡ []
        → sent_a a ≡ []
        → Polls there back a b c
        → left_a c.a + 2 ≤ fuel
        → left_b c.b + 2 ≤ fuel
        → (c' : CopyBidirectional A B) × (result : Poll (Io (ℕ × ℕ))) × (poll there back fuel c
            ≡ some (c', result))
          × Copied to_b to_a c' result
    polls-Copied {c = c} fuel ga sb gb sa polls enough_a enough_b =
        let h = Polls-Both ga sb gb sa polls in
        let d = poll_returns fuel c h enough_a enough_b in
        (
          d.after,
          d.result,
          d.returns,
          poll-Copied to_b to_a fuel c d.after d.result h.a_to_b h.b_to_a d.returns,
        )
