-- ===== src/Async/Ready.antt =====
-- The loops of `read_with` and `write_with` in src/io/mod.rs end, and wait for what they need.
use awak.Prelude.{
  ℕ, suc, ◌≡◌, refl, inl, inr, ◌⊎◌, Option, none, some, List, [], ◌∷◌, ◌++◌, true, false,
  Bool-cases, Option-cases, if◌then◌else◌, ==_of_eq, arith,
}
use awak.Sleepers.{Waker}
use awak.Source.{
  Source, Direction, Op, read, write, Interest, Polled, poll_ready, delivered, wait, set_state,
  same_op, will_wake, interest, is_empty,
}
use awak.CopyBuffer.{ErrorKind, Io, err, ready, pending}
use awak.Reactor.{refusal}
use awak.Async.{Looped, is_blocked, await, poll_with, resume_with}

same_op_refl : (o : Op) → same_op o o ≡ true
same_op_refl read = refl
same_op_refl write = refl

will_wake-append : (w : Waker) (ws : List Waker) → will_wake w (ws ++ (w ∷ [])) ≡ true
will_wake-append w [] = rw (==_of_eq w w refl) refl
will_wake-append w (x ∷ xs) = let h = will_wake-append w xs in ground arith

-- A waker that waits is on the list.
wait-will_wake :
    (d : Direction) (w : Waker) (ticker : ℕ) → will_wake w (wait d w ticker).wakers ≡ true
wait-will_wake d w ticker = elim (Bool-cases (will_wake w d.wakers)) [
  | inl on ↦ rw (on) on
  | inr off ↦ rw (off) (will_wake-append w d.wakers)
]

-- What `poll_ready` does to the direction that it is called for.
pub record Readied (src : Source) (dir : Op) (w : Waker) (ticker : ℕ) : Type 0 where
  pub after : Source
  pub answer : Polled
  pub returns : poll_ready src dir w ticker ≡ (after, answer)
  pub outcome :
      ((answer ≡ Polled.ready)
        × (delivered (src.states dir) ≡ true)
        × (delivered (after.states dir) ≡ false))
      ⊎ ((asked : Option Interest) × (answer ≡ Polled.pending asked)
          × (will_wake w (after.states dir).wakers ≡ true))

pub poll_ready-Readied :
    (src : Source) (dir : Op) (w : Waker) (ticker : ℕ) → Readied src dir w ticker
unfolding poll_ready
poll_ready-Readied src dir w ticker = elim (Bool-cases (delivered (src.states dir))) [
  | inl came ↦ record {
    after = set_state src dir (record (src.states dir) { ticks = none });
    answer = Polled.ready;
    returns = simp (poll_ready, came) refl;
    outcome = inl (refl, came, simp (same_op_refl dir) refl);
  }
  | inr before ↦
      let s' = set_state src dir (wait (src.states dir) w ticker) in
      let asked : Option Interest =
        if is_empty (src.states dir).wakers then some (interest s') else none in
      record {
        after = s';
        answer = Polled.pending asked;
        returns = simp (poll_ready, before) refl;
        outcome =
            inr (asked, refl, simp (same_op_refl dir) (wait-will_wake (src.states dir) w ticker));
      }
]

-- What a poll of the loop returns, after its last call of `op`.
pub record Answers {S R : Type 0} (op : S → S × Io R) (refuses : Interest → Option ErrorKind)
    (dir : Op) (w : Waker) (o : Option (Looped S R)) : Type 0 where
  pub looped : Looped S R
  pub returns : o ≡ some looped
  pub before : S
  pub answer : Io R
  pub last : op before ≡ (looped.state, answer)
  pub outcome :
      ((is_blocked answer ≡ false) × (looped.result ≡ ready answer))
      ⊎ ((is_blocked answer ≡ true)
          × (((asked : Option Interest) × (e : ErrorKind) × (refusal refuses asked ≡ some e)
                × (looped.result ≡ ready (err e)))
              ⊎ ((looped.result ≡ pending)
                  × (will_wake w (looped.source.states dir).wakers ≡ true))))

module _ {S R : Type 0} (op : S → S × Io R) (refuses : Interest → Option ErrorKind) (dir : Op)
    (w : Waker) (ticker : ℕ) where
  -- The source does not become ready, or it does and the loop goes on.
  await-Answers :
      (src : Source) (s s0 : S) (res : Io R) (next : Source → Option (Looped S R))
      → op s0 ≡ (s, res)
      → is_blocked res ≡ true
      → ((src' : Source)
          → delivered (src.states dir) ≡ true
          → delivered (src'.states dir) ≡ false
          → Answers op refuses dir w (next src'))
      → Answers op refuses dir w (await op refuses dir w ticker src s next)
  await-Answers src s s0 res next last blocked goes_on =
      let d = poll_ready-Readied src dir w ticker in
      elim d.outcome [
        | inl (is_ready, came, gone) ↦ simp (await, d.returns, is_ready) (goes_on d.after came gone)
        | inr (asked, is_pending, on) ↦ elim (Option-cases (refusal refuses asked)) [
          | inl fine ↦ record {
            looped = record { source = d.after; state = s; result = pending };
            returns = simp (await, d.returns, is_pending, fine) refl;
            before = s0;
            answer = res;
            last = last;
            outcome = inr (blocked, inr (refl, on));
          }
          | inr (e, refused) ↦ record {
            looped = record { source = d.after; state = s; result = ready (err e) };
            returns = simp (await, d.returns, is_pending, refused) refl;
            before = s0;
            answer = res;
            last = last;
            outcome = inr (blocked, inl (asked, e, refused, refl));
          }
        ]
      ]

  -- A round of the loop.
  round-Answers :
      (n : ℕ) (src : Source) (s : S)
      → ((src' : Source) (s' : S)
          → delivered (src.states dir) ≡ true
          → delivered (src'.states dir) ≡ false
          → Answers op refuses dir w (poll_with op refuses dir w ticker n src' s'))
      → Answers op refuses dir w (poll_with op refuses dir w ticker (suc n) src s)
  unfolding poll_with
  round-Answers n src s goes_on =
      let (s', res) = op s in
      elim (Bool-cases (is_blocked res)) [
        | inl blocked ↦
            rw (poll_with, blocked)
              (await-Answers src s' s res (λ src'. poll_with op refuses dir w ticker n src' s') refl
                blocked (λ src'. goes_on src' s'))
        | inr answered ↦ record {
          looped = record { source = src; state = s'; result = ready res };
          returns = rw (poll_with, answered) refl;
          before = s;
          answer = res;
          last = refl;
          outcome = inl (answered, refl);
        }
      ]

  -- Two rounds are enough for a poll of the loop, whatever `op` answers: in the second the source
  -- is not ready again. If the poll is pending, the last call of `op` would have blocked and the
  -- waker of the poll waits for the direction; if it is ready, it is with the answer of the last
  -- call, or with the error of the poller that refuses the interest.
  pub poll_with-Answers :
      (src : Source) (s : S) → Answers op refuses dir w (poll_with op refuses dir w ticker 2 src s)
  poll_with-Answers src s = round-Answers 1 src s (λ src' s' came gone.
      round-Answers 0 src' s' (λ src'' s'' again gone'. absurd (ground arith)))

  -- A poll of the future of `read_with` or `write_with` that awaits the source, after a call of
  -- `op` that would have blocked: one more round of the loop is enough, and it returns as above.
  resume_with-Answers :
      (src : Source) (s s0 : S) (res : Io R)
      → op s0 ≡ (s, res)
      → is_blocked res ≡ true
      → Answers op refuses dir w (resume_with op refuses dir w ticker 1 src s)
  unfolding resume_with
  resume_with-Answers src s s0 res last blocked =
      await-Answers src s s0 res (λ src'. poll_with op refuses dir w ticker 1 src' s) last blocked
        (λ src' came gone. round-Answers 0 src' s (λ src'' s'' again gone'. absurd (ground arith)))
