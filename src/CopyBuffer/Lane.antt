-- ===== src/CopyBuffer/Lane.antt =====
-- One direction of src/util/copy_bidirectional.rs, while the other shares its two ends.
use awak.Prelude.{
  ℕ, ◌%◌, ◌^◌, ◌≡◌, refl, ap, ◌∙◌, inl, inr, Option, none, some, List, length, Option-cases, arith,
}
use awak.CopyBuffer.{Byte, ok, ready, Streams, CopyBuffer, Part, poll_copy}
use awak.CopyBuffer.Slices.{Poll-cases}
use awak.CopyBuffer.Reads.{Lawful, Copies}
use awak.CopyBuffer.Inv.{poll_copy-Copies, poll_copy_completes}
use awak.CopyBuffer.Frame.{Keeps, poll_copy_keeps}
use awak.CopyBuffer.Bidirectional.{
  TransferState, running, close, done, Transferred, close_step, transfer_one_direction,
}

-- One direction over ends that the other direction uses too: what it does to the reading side of
-- one end leaves what was written to that end alone, and the other way round.
pub record Lane {A B : Type 0} (io : Streams A B) (got : A → List Byte) (sent : B → List Byte)
    (sent' : A → List Byte) (got' : B → List Byte) : Type 0 where
  pub lawful : Lawful io got sent
  pub close : (b : B) → sent (io.poll_close b).0 ≡ sent b
  pub read_apart : (a : A) (n : ℕ) → sent' (io.poll_read a n).0 ≡ sent' a
  pub write_apart : (b : B) (bs : List Byte) → got' (io.poll_write b bs).0 ≡ got' b
  pub flush_apart : (b : B) → got' (io.poll_flush b).0 ≡ got' b
  pub close_apart : (b : B) → got' (io.poll_close b).0 ≡ got' b

-- What a direction has done so far.
abbrev pub Carries :
    {A B : Type 0} → (A → List Byte) → (B → List Byte) → TransferState → A → B → Type 0
Carries got sent (running buf) a b = Copies got sent buf a b
Carries got sent (close n) a b = (got a ≡ sent b) × (n ≡ length (sent b) % 2 ^ 64)
Carries got sent (done n) a b = (got a ≡ sent b) × (n ≡ length (sent b) % 2 ^ 64)

pub Carries-same :
    {A B : Type 0} (got : A → List Byte) (sent : B → List Byte) (st : TransferState) {a a' : A}
    {b b' : B}
    → got a' ≡ got a
    → sent b' ≡ sent b
    → Carries got sent st a b
    → Carries got sent st a' b'
Carries-same got sent (running buf) p q h = record {
  pos = h.pos;
  cap = h.cap;
  in_order = rw (p, q) h.in_order;
  counted = rw q h.counted;
}
Carries-same got sent (close n) p q h = rw (p, q) h
Carries-same got sent (done n) p q h = rw (p, q) h

-- Of what is returned, if something is.
abbrev pub Within : {X : Type 0} → (X → Type 0) → Option X → Type 0
Within P none = Unit
Within P (some x) = P x

module _ {A B : Type 0} {io : Streams A B} {got : A → List Byte} {sent : B → List Byte}
    {sent' : A → List Byte} {got' : B → List Byte} (lane : Lane io got sent sent' got') where
  -- A step of the direction, from the ends `a` and `b`.
  pub record Moved (a : A) (b : B) (x : Transferred A B) : Type 0 where
    pub carried : Carries got sent x.state x.from x.into
    pub finished : (n : ℕ) → x.result ≡ ready (ok n) → x.state ≡ done n
    pub from_kept : sent' x.from ≡ sent' a
    pub into_kept : got' x.into ≡ got' b

  close_step-Moved :
      (n : ℕ) (a0 a : A) (b0 b : B)
      → sent' a ≡ sent' a0
      → got' b ≡ got' b0
      → Carries got sent (close n) a b
      → Moved a0 b0 (close_step io n a b)
  unfolding close_step
  close_step-Moved n a0 a b0 b p q h =
      let kept = Carries-same got sent (close n) {a = a} refl (lane.close b) h in
      elim (Poll-cases (io.poll_close b).1) [
        | inl e ↦
            rw (e, close_step)
              (record {
                carried = kept;
                finished = λ n e. absurd (ground arith);
                from_kept = p;
                into_kept = lane.close_apart b ∙ q;
              })
        | inr (inl (k, e)) ↦
            rw (e, close_step)
              (record {
                carried = kept;
                finished = λ n e. absurd (ground arith);
                from_kept = p;
                into_kept = lane.close_apart b ∙ q;
              })
        | inr (inr (u, e)) ↦
            rw (e, close_step)
              (record {
                carried = kept;
                finished = λ n e. ground arith;
                from_kept = p;
                into_kept = lane.close_apart b ∙ q;
              })
      ]

  apart : (a0 : A) (b0 : B) → Keeps io (λ a b. (sent' a ≡ sent' a0) × (got' b ≡ got' b0))
  apart a0 b0 = record {
    read = λ a b n h. (lane.read_apart a n ∙ h.0, h.1);
    write = λ a b bs h. (h.0, lane.write_apart b bs ∙ h.1);
    flush = λ a b h. (h.0, lane.flush_apart b ∙ h.1);
  }

  running-Moved :
      (fuel : ℕ) (buf : CopyBuffer) (a : A) (b : B) (p : Part A B)
      → Copies got sent buf a b
      → poll_copy io fuel buf a b ≡ some p
      → Within (Moved a b) (transfer_one_direction io fuel (running buf) a b)
  unfolding transfer_one_direction
  running-Moved fuel buf a b p h e =
      let kept = poll_copy-Copies lane.lawful fuel buf a b p h e in
      let (from, into) = poll_copy_keeps (apart a b) fuel buf a b p (refl, refl) e in
      rw (e, transfer_one_direction)
        (elim (Option-cases p.returned) [
          | inl stop ↦ rw stop tt
          | inr (x, returns) ↦ elim (Poll-cases x) [
            | inl is_pending ↦
                rw (returns, is_pending)
                  (record {
                    carried = kept;
                    finished = λ n e. absurd (ground arith);
                    from_kept = from;
                    into_kept = into;
                  })
            | inr (inl (k, is_err)) ↦
                rw (returns, is_err)
                  (record {
                    carried = kept;
                    finished = λ n e. absurd (ground arith);
                    from_kept = from;
                    into_kept = into;
                  })
            | inr (inr (n, is_ok)) ↦
                rw (returns, is_ok)
                  (close_step-Moved n a p.reader b p.writer from into (
                    poll_copy_completes lane.lawful fuel buf a b p n h e (returns ∙ ap some is_ok)))
          ]
        ])

  pub transfer-Moved :
      (fuel : ℕ) (st : TransferState) (a : A) (b : B)
      → Carries got sent st a b
      → Within (Moved a b) (transfer_one_direction io fuel st a b)
  unfolding transfer_one_direction
  transfer-Moved fuel (done n) a b h = record {
    carried = h;
    finished = λ m e. ground arith;
    from_kept = refl;
    into_kept = refl;
  }
  transfer-Moved fuel (close n) a b h = close_step-Moved n a a b b refl refl h
  transfer-Moved fuel (running buf) a b h = elim (Option-cases (poll_copy io fuel buf a b)) [
    | inl e ↦ rw (e, transfer_one_direction) tt
    | inr (p, e) ↦ running-Moved fuel buf a b p h e
  ]
