-- ===== src/Blocking/Invariant.antt =====
-- What holds of src/blocking.rs and src/io/poller/mod.rs between any two accesses of any threads.
use awak.Prelude.{◌+◌, ◌<◌, ◌≡◌, ◌⊎◌, Bool, true, false}
use awak.Blocking.{
  by_blocker, by_other, Shared, blocked, BlockPc, entering, first_check, waiting, reading, waking,
  second_check, again, leaving, unlocking, giving_up,
}

-- `block_on` holds the reactor.
abbrev pub holds : BlockPc → Bool
holds entering = true
holds first_check = true
holds (waiting r) = true
holds (reading r) = true
holds (waking r) = true
holds second_check = true
holds again = true
holds leaving = true
holds unlocking = true
holds giving_up = true
holds _ = false

-- The waiting that only a notification may end, and what comes before.
abbrev pub blocks_on : BlockPc → Bool
blocks_on first_check = true
blocks_on (waiting blocked) = true
blocks_on _ = false

abbrev pub waits : BlockPc → Bool
waits (waiting blocked) = true
waits _ = false

abbrev pub reads : BlockPc → Bool
reads (reading r) = true
reads _ = false

-- A write of the event descriptor that is to be read or to come.
abbrev pub Coming : Shared → Type 0
Coming m = (m.pending ≡ true) ⊎ (0 < m.writing)

pub record Inv (m : Shared) (p : BlockPc) : Type 0 where
  pub locked : holds p ≡ true → m.lock ≡ by_blocker
  pub other : m.drained ≡ true → m.lock ≡ by_other
  pub flag : m.notified ≡ true → Coming m ⊎ ((m.drained ≡ true) ⊎ (reads p ≡ true))
  pub stored : blocks_on p ≡ true → m.io_blocked ≡ true
  pub heard : waits p ≡ true → m.token ≡ true → Coming m ⊎ (0 < m.loading + m.notifying)
