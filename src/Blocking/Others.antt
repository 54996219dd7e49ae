-- ===== src/Blocking/Others.antt =====
-- The calls of the waker of `block_on` and of `Poller::notify`, and the other threads that hold the
-- reactor, keep the invariant of src/blocking.rs.
use awak.Prelude.{◌+◌, ◌<◌, ◌≡◌, refl, ◌⊎◌, true, false, arith}
use awak.Blocking.{
  by_blocker, by_other, Shared, blocked, BlockPc, waiting, OtherMove, wake, wake_polling,
  load_unblocked, exchange, already, write, acquire, drain, reset_other, release,
}
use awak.Blocking.Invariant.{holds, blocks_on, waits, reads, Coming, Inv}

-- What waiting says.
waits-holds :
    (p : BlockPc) → waits p ≡ true → (holds p ≡ true) × (reads p ≡ false) × (blocks_on p ≡ true)
waits-holds (waiting blocked) e = (refl, refl, refl)
waits-holds _ e = absurd (ground arith)

other-locked :
    {m m' : Shared} (p : BlockPc) → OtherMove m m' → Inv m p → holds p ≡ true → m'.lock ≡ by_blocker
other-locked p (acquire e) v = λ w. ground arith
other-locked p (release e f) v = λ w. ground arith
other-locked p _ v = v.locked

other-other :
    {m m' : Shared} (p : BlockPc)
    → OtherMove m m'
    → Inv m p
    → m'.drained ≡ true
    → m'.lock ≡ by_other
other-other p (acquire e) v = λ w. ground arith
other-other p (release e f) v = λ w. ground arith
other-other p (drain e) v = λ w. ground arith
other-other p (reset_other e f) v = λ w. ground arith
other-other p _ v = v.other

other-flag :
    {m m' : Shared} (p : BlockPc)
    → OtherMove m m'
    → Inv m p
    → m'.notified ≡ true
    → Coming m' ⊎ ((m'.drained ≡ true) ⊎ (reads p ≡ true))
other-flag p (exchange e f) v = λ w. ground arith
other-flag p (write e) v = λ w. ground arith
other-flag p (drain e) v = λ w. ground arith
other-flag p (reset_other e f) v = λ w. ground arith
other-flag p _ v = v.flag

other-stored :
    {m m' : Shared} (p : BlockPc)
    → OtherMove m m'
    → Inv m p
    → blocks_on p ≡ true
    → m'.io_blocked ≡ true
other-stored p (wake e) v = λ w. ground arith
other-stored p _ v = v.stored

-- While `block_on` waits with a notification, the moves of the others leave it someone to come.
others_hear :
    {m m' : Shared}
    → OtherMove m m'
    → m.lock ≡ by_blocker
    → (m.notified ≡ true → Coming m)
    → m.io_blocked ≡ true
    → (m.token ≡ true → Coming m ⊎ (0 < m.loading + m.notifying))
    → m'.token ≡ true
    → Coming m' ⊎ (0 < m'.loading + m'.notifying)
others_hear (load_unblocked e f) l c b h = λ t. ground arith
others_hear (exchange e f) l c b h = λ t. ground arith
others_hear (already e f) l c b h = λ t. ground arith
others_hear (drain e) l c b h = λ t. ground arith
others_hear (wake_polling e) l c b h = λ t. ground arith
others_hear _ l c b h = λ t. ground arith

other-heard :
    {m m' : Shared} (p : BlockPc)
    → OtherMove m m'
    → Inv m p
    → waits p ≡ true
    → m'.token ≡ true
    → Coming m' ⊎ (0 < m'.loading + m'.notifying)
other-heard p mv v w =
    let (h, r, b) = waits-holds p w in
    let l = v.locked h in
    others_hear mv l (λ n. let f = v.flag n in let o = v.other in ground arith) (v.stored b)
      (v.heard w)

pub other-Inv : {m m' : Shared} {p : BlockPc} → OtherMove m m' → Inv m p → Inv m' p
other-Inv {p = p} mv v = record {
  locked = other-locked p mv v;
  other = other-other p mv v;
  flag = other-flag p mv v;
  stored = other-stored p mv v;
  heard = other-heard p mv v;
}
