-- ===== src/Blocking/Safety.antt =====
-- `block_on` of src/blocking.rs and the poller of src/io/poller/mod.rs over every reachable state.
use awak.Prelude.{◌+◌, ◌<◌, ◌≡◌, refl, inl, inr, ◌⊎◌, true, arith}
use awak.Blocking.{
  by_blocker, by_other, Shared, Round, blocked, BlockPc, waiting, reading, BlockMove, System,
  blocks, others, Reach, here, next, try_once, try_block, block, wait, reset,
}
use awak.Blocking.Others.{other-Inv}
use awak.Blocking.Invariant.{holds, blocks_on, waits, reads, Coming, Inv}

reads-reading : (p : BlockPc) → reads p ≡ true → (r : Round) × (p ≡ reading r)
reads-reading (reading r) e = (r, refl)
reads-reading _ e = absurd (ground arith)

block-locked :
    {m m' : Shared} {p p' : BlockPc}
    → BlockMove m p m' p'
    → Inv m p
    → holds p' ≡ true
    → m'.lock ≡ by_blocker
block-locked (try_block e) v = λ w. let l = v.locked in ground arith
block-locked _ v = λ w. let l = v.locked in ground arith

block-other :
    {m m' : Shared} {p p' : BlockPc}
    → BlockMove m p m' p'
    → Inv m p
    → m'.drained ≡ true
    → m'.lock ≡ by_other
block-other (try_once e) v = λ w. let l = v.locked in let o = v.other in ground arith
block-other (try_block e) v = λ w. let l = v.locked in let o = v.other in ground arith
block-other _ v = λ w. let l = v.locked in let o = v.other in ground arith

block-flag :
    {m m' : Shared} {p p' : BlockPc}
    → BlockMove m p m' p'
    → Inv m p
    → m'.notified ≡ true
    → Coming m' ⊎ ((m'.drained ≡ true) ⊎ (reads p' ≡ true))
block-flag reset v = λ w. let g = v.flag in ground arith
block-flag _ v = λ w. let g = v.flag in ground arith

block-stored :
    {m m' : Shared} {p p' : BlockPc}
    → BlockMove m p m' p'
    → Inv m p
    → blocks_on p' ≡ true
    → m'.io_blocked ≡ true
block-stored block v = λ w. let s = v.stored in ground arith
block-stored _ v = λ w. let s = v.stored in ground arith

block-heard :
    {m m' : Shared} {p p' : BlockPc}
    → BlockMove m p m' p'
    → Inv m p
    → waits p' ≡ true
    → m'.token ≡ true
    → Coming m' ⊎ (0 < m'.loading + m'.notifying)
block-heard (wait e) v = λ w. λ t. ground arith
block-heard _ v = λ w. λ t. ground arith

block-Inv : {m m' : Shared} {p p' : BlockPc} → BlockMove m p m' p' → Inv m p → Inv m' p'
block-Inv mv v = record {
  locked = block-locked mv v;
  other = block-other mv v;
  flag = block-flag mv v;
  stored = block-stored mv v;
  heard = block-heard mv v;
}

pub Reach-Inv : {s : System} → Reach s → Inv s.shared s.blocker
Reach-Inv here = record {
  locked = λ e. absurd (ground arith);
  other = λ e. absurd (ground arith);
  flag = λ e. absurd (ground arith);
  stored = λ e. absurd (ground arith);
  heard = λ e. absurd (ground arith);
}
Reach-Inv (next r (blocks mv)) = block-Inv mv (Reach-Inv r)
Reach-Inv (next r (others mv)) = other-Inv mv (Reach-Inv r)

-- No wake-up is lost in the poller: in every reachable state of a call of `block_on`, any number of
-- calls of its waker and of `Poller::notify`, and another thread that may hold the reactor,
-- whenever the call waits in `react(None)` while its parker has a notification, a write of the
-- event descriptor is there to end the wait, or some call has still to make it or to get to it.
pub no_lost_notification :
    {s : System}
    → Reach s
    → s.blocker ≡ waiting blocked
    → s.shared.token ≡ true
    → Coming s.shared ⊎ (0 < s.shared.loading + s.shared.notifying)
no_lost_notification r at t = (Reach-Inv r).heard (rw at refl) t

-- In every reachable state in which `Poller::notify` makes no write since `notified` is set, none
-- is needed: a write of the event descriptor is there or has still to be made, or a thread that
-- holds the reactor has come back from the wait and has still to reset `notified`.
pub notify_skips_safely :
    {s : System}
    → Reach s
    → s.shared.notified ≡ true
    → Coming s.shared ⊎ ((s.shared.drained ≡ true) ⊎ ((r : Round) × (s.blocker ≡ reading r)))
notify_skips_safely {s} r n = elim ((Reach-Inv r).flag n) [
  | inl coming ↦ inl coming
  | inr (inl drained) ↦ inr (inl drained)
  | inr (inr at) ↦ inr (inr (reads-reading s.blocker at))
]
