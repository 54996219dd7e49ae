-- ===== src/CopyBuffer/Both.antt =====
-- src/util/copy_bidirectional.rs: each direction copies all that it reads, though both share their
-- two ends.
use awak.Prelude.{ℕ, ◌≡◌, subst, inl, inr, Option, none, some, List, Option-cases, arith}
use awak.CopyBuffer.{Byte, Io, ok, err, Poll, ready, pending, Streams}
use awak.CopyBuffer.Slices.{Poll-cases}
use awak.CopyBuffer.Bidirectional.{
  done, Transferred, transfer_one_direction, CopyBidirectional, join, poll,
}
use awak.CopyBuffer.Lane.{Lane, Carries, Carries-same, Within, Moved, transfer-Moved}

join_ok :
    {m n : ℕ} (x y : Poll (Io ℕ))
    → join x y ≡ ready (ok (m, n))
    → (x ≡ ready (ok m)) × (y ≡ ready (ok n))
join_ok (ready (ok m)) (ready (ok n)) e = ground arith
join_ok (ready (ok m)) (ready (err k)) e = ground arith
join_ok (ready (ok m)) pending e = ground arith
join_ok (ready (err k)) y e = ground arith
join_ok pending (ready (ok n)) e = ground arith
join_ok pending (ready (err k)) e = ground arith
join_ok pending pending e = ground arith

module _ {A B : Type 0} {there : Streams A B} {back : Streams B A} {got_a sent_a : A → List Byte}
    {got_b sent_b : B → List Byte} (to_b : Lane there got_a sent_b sent_a got_b)
    (to_a : Lane back got_b sent_a sent_b got_a) where
  -- Both directions keep their bytes in order, and are over when `poll` returns their amounts.
  pub record Copied (c : CopyBidirectional A B) (result : Poll (Io (ℕ × ℕ))) : Type 0 where
    pub a_to_b : Carries got_a sent_b c.a_to_b c.a c.b
    pub b_to_a : Carries got_b sent_a c.b_to_a c.b c.a
    pub over : (m n : ℕ) → result ≡ ready (ok (m, n)) → (c.a_to_b ≡ done m) × (c.b_to_a ≡ done n)

  abbrev Polled : CopyBidirectional A B × Poll (Io (ℕ × ℕ)) → Type 0
  Polled r = Copied r.0 r.1

  both :
      (c : CopyBidirectional A B) (x : Transferred A B)
      → Moved to_b c.a c.b x
      → (y : Transferred B A) → Moved to_a x.into x.from y
      → Copied
          (record { a = y.into; b = y.from; a_to_b = x.state; b_to_a = y.state })
          (join x.result y.result)
  both c x moved y moved' = record {
    a_to_b = Carries-same got_a sent_b x.state moved'.into_kept moved'.from_kept moved.carried;
    b_to_a = moved'.carried;
    over = λ m n e.
        let (p, q) = join_ok x.result y.result e in (moved.finished m p, moved'.finished n q);
  }

  second-Polled :
      (c : CopyBidirectional A B) (x : Transferred A B)
      → Moved to_b c.a c.b x
      → (o : Option (Transferred B A)) → Within (Moved to_a x.into x.from) o
      → Within Polled (elim o [
        | none ↦ none
        | some y ↦ some (
          record { a = y.into; b = y.from; a_to_b = x.state; b_to_a = y.state },
          join x.result y.result,
        )
      ])
  second-Polled c x moved none h = tt
  second-Polled c x moved (some y) h = both c x moved y h

  first-Polled :
      (fuel : ℕ) (c : CopyBidirectional A B) (x : Transferred A B)
      → transfer_one_direction there fuel c.a_to_b c.a c.b ≡ some x
      → Moved to_b c.a c.b x
      → Carries got_b sent_a c.b_to_a x.into x.from
      → Within Polled (poll there back fuel c)
  unfolding poll
  first-Polled fuel c x e moved h =
      let second = transfer_one_direction back fuel c.b_to_a x.into x.from in
      let moved' = transfer-Moved to_a fuel c.b_to_a x.into x.from h in
      elim (Poll-cases x.result) [
        | inl res ↦ rw (e, poll, res) (second-Polled c x moved second moved')
        | inr (inl (k, res)) ↦
            rw (e, poll, res)
              (record { a_to_b = moved.carried; b_to_a = h; over = λ m n e. absurd (ground arith) })
        | inr (inr (m, res)) ↦ rw (e, poll, res) (second-Polled c x moved second moved')
      ]

  poll-Polled :
      (fuel : ℕ) (c : CopyBidirectional A B)
      → Carries got_a sent_b c.a_to_b c.a c.b
      → Carries got_b sent_a c.b_to_a c.b c.a
      → Within Polled (poll there back fuel c)
  unfolding poll
  poll-Polled fuel c h h' =
      elim (Option-cases (transfer_one_direction there fuel c.a_to_b c.a c.b)) [
        | inl e ↦ rw (e, poll) tt
        | inr (x, e) ↦
            let moved =
              subst (Within (Moved to_b c.a c.b)) e (transfer-Moved to_b fuel c.a_to_b c.a c.b h) in
            first-Polled fuel c x e moved
              (Carries-same got_b sent_a c.b_to_a moved.into_kept moved.from_kept h')
      ]

  -- Let both ends behave as streams whose two sides do not touch each other, and let each direction
  -- have its bytes in order: those read are those written and those in its buffer, or, once it is
  -- closing or done, those written, with their number modulo `2 ^ 64`. If `poll` returns, this
  -- holds again, after errors and `Pending` too; and if it returns `Ready(Ok((m, n)))`, both
  -- directions are done, with these amounts.
  pub poll-Copied :
      (fuel : ℕ) (c c' : CopyBidirectional A B) (result : Poll (Io (ℕ × ℕ)))
      → Carries got_a sent_b c.a_to_b c.a c.b
      → Carries got_b sent_a c.b_to_a c.b c.a
      → poll there back fuel c ≡ some (c', result)
      → Copied c' result
  poll-Copied fuel c c' result h h' e = subst (Within Polled) e (poll-Polled fuel c h h')
