-- ===== src/CopyBuffer/Bidirectional.antt =====
-- src/util/copy_bidirectional.rs: two directions of copying. Each of `a` and `b` is a reader and a
-- writer, with one state for both.
use awak.Prelude.{ℕ, Option, none, some}
use awak.CopyBuffer.{Io, ok, err, Poll, ready, pending, Streams, CopyBuffer, poll_copy, new}

pub data TransferState : Type 0 where
  running : CopyBuffer → TransferState
  close : ℕ → TransferState
  done : ℕ → TransferState

-- A part of a transfer: the state, the two ends and the result.
pub record Transferred (A B : Type 0) : Type 0 where
  pub state : TransferState
  pub from : A
  pub into : B
  pub result : Poll (Io ℕ)

module _ {A B : Type 0} (io : Streams A B) where
  -- The state `Close`.
  unfoldable pub close_step : ℕ → A → B → Transferred A B
  close_step count a b =
      let (b', closed) = io.poll_close b in
      elim closed [
        | pending ↦ record { state = close count; from = a; into = b'; result = pending }
        | ready (err e) ↦ record {
          state = close count;
          from = a;
          into = b';
          result = ready (err e);
        }
        | ready (ok _) ↦ record {
          state = done count;
          from = a;
          into = b';
          result = ready (ok count);
        }
      ]

  -- The loop goes through `Running`, `Close` and `Done` once each at most. The fuel is that of
  -- `poll_copy`.
  unfoldable pub transfer_one_direction : ℕ → TransferState → A → B → Option (Transferred A B)
  unfolding poll_copy close_step
  transfer_one_direction fuel (done count) a b =
      some (record { state = done count; from = a; into = b; result = ready (ok count) })
  transfer_one_direction fuel (close count) a b = some (close_step count a b)
  transfer_one_direction fuel (running buf) a b = elim (poll_copy io fuel buf a b) [
    | none ↦ none
    | some p ↦ elim p.returned [
      | none ↦ none
      | some pending ↦
          some (record {
            state = running p.buffer;
            from = p.reader;
            into = p.writer;
            result = pending;
          })
      | some (ready (err e)) ↦ some (record {
        state = running p.buffer;
        from = p.reader;
        into = p.writer;
        result = ready (err e);
      })
      | some (ready (ok count)) ↦ some (close_step count p.reader p.writer)
    ]
  ]

pub record CopyBidirectional (A B : Type 0) : Type 0 where
  pub a : A
  pub b : B
  pub a_to_b : TransferState
  pub b_to_a : TransferState

unfoldable pub copy_bidirectional : {A B : Type 0} → A → B → CopyBidirectional A B
unfolding new
copy_bidirectional a b = record { a = a; b = b; a_to_b = running new; b_to_a = running new }

-- Both results, once both are there.
abbrev pub join : Poll (Io ℕ) → Poll (Io ℕ) → Poll (Io (ℕ × ℕ))
join (ready (err e)) y = ready (err e)
join x (ready (err e)) = ready (err e)
join (ready (ok m)) (ready (ok n)) = ready (ok (m, n))
join (ready (ok m)) pending = pending
join pending (ready (ok n)) = pending
join pending pending = pending

-- The second direction is not polled after an error of the first.
unfoldable pub poll :
    {A B : Type 0}
    → Streams A B
    → Streams B A
    → ℕ
    → CopyBidirectional A B
    → Option (CopyBidirectional A B × Poll (Io (ℕ × ℕ)))
unfolding transfer_one_direction
poll there back fuel c = elim (transfer_one_direction there fuel c.a_to_b c.a c.b) [
  | none ↦ none
  | some x ↦
      let half = record c { a_to_b = x.state; a = x.from; b = x.into } in
      let second = transfer_one_direction back fuel c.b_to_a x.into x.from in
      elim x.result [
        | ready (err e) ↦ some (half, ready (err e))
        | _ ↦ elim second [
          | none ↦ none
          | some y ↦
              some
                (record half { b_to_a = y.state; b = y.from; a = y.into }, join x.result y.result)
        ]
      ]
]
