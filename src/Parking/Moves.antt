-- ===== src/Parking/Moves.antt =====
-- Each access of `park` and `unpark` of src/parking.rs keeps the parts of the invariant.
use awak.Prelude.{ℕ, ◌+◌, ◌≤◌, ◌≡◌, refl, ◌∙◌, ◌==◌, if◌then◌else◌, arith}
use awak.Parking.{
  notified, Lock, free, by_parker, by_unparker, Inner, ParkPc, UnparkPc, ParkMove, call, take_fast,
  give_up, go_slow, set_parked, found_notified, invalid, take_slow, changed, wait, wake_up,
  reacquire, take_woken, wait_again, timed_out, inconsistent,
}
use awak.Parking.Invariant.{Parks, Unparks, Wakes}

abbrev Tokens : Inner → Type 0
Tokens m = m.given ≡ m.taken + (if m.state == notified then 1 else 0)

pub record Counts (m : Inner) : Type 0 where
  pub valid : m.state ≤ notified
  pub tokens : Tokens m

pub park-Counts :
    {m m' : Inner} {p p' : ParkPc} → ParkMove m p m' p' → Parks m p → Counts m → Counts m'
park-Counts (call t) k c = c
park-Counts (take_fast e) k c = ground arith
park-Counts (give_up n z) k c = c
park-Counts (go_slow n z) k c = c
park-Counts (ParkMove.acquire e) k c = ground arith
park-Counts (set_parked e) k c = ground arith
park-Counts (found_notified e) k c = c
park-Counts (invalid a b) k c = c
park-Counts (take_slow e) k c = ground arith
park-Counts (changed n) k c = absurd (n k.0)
park-Counts wait k c = ground arith
park-Counts wake_up k c = c
park-Counts (reacquire e) k c = ground arith
park-Counts (take_woken e) k c = ground arith
park-Counts (wait_again e n) k c = c
park-Counts (timed_out n e) k c = ground arith
park-Counts (inconsistent n a b) k c = absurd (omega arith)

pub park-Parks :
    {m m' : Inner} {p p' : ParkPc} → ParkMove m p m' p' → Counts m → Parks m p → Parks m' p'
park-Parks (call t) c k = k
park-Parks (take_fast e) c k = omega arith
park-Parks (give_up n z) c k = k
park-Parks (go_slow n z) c k = k
park-Parks (ParkMove.acquire e) c k = (k, refl)
park-Parks (set_parked e) c k = (omega arith, k.1)
park-Parks (found_notified e) c k = (e, k.1)
park-Parks (invalid a b) c k = omega arith
park-Parks (take_slow e) c k = omega arith
park-Parks (changed n) c k = n k.0
park-Parks wait c k = k.0
park-Parks wake_up c k = k
park-Parks (reacquire e) c k = (k, refl)
park-Parks (take_woken e) c k = omega arith
park-Parks (wait_again e n) c k = k
park-Parks (timed_out n e) c k = omega arith
park-Parks (inconsistent n a b) c k = omega arith

-- The lock is taken from a thread that unparks by nobody else.
pub other_holder :
    (m m' : Inner) (i : ℕ) (u : UnparkPc)
    → ¬ (m.lock ≡ by_unparker i)
    → Unparks m i u
    → Unparks m' i u
other_holder m m' i UnparkPc.idle no_lock k = tt
other_holder m m' i UnparkPc.waking no_lock k = tt
other_holder m m' i UnparkPc.holding no_lock k = absurd (no_lock k)
other_holder m m' i UnparkPc.notifying no_lock k = tt
other_holder m m' i UnparkPc.panicked no_lock k = k

pub same_lock :
    (m m' : Inner) (i : ℕ) (u : UnparkPc) → m'.lock ≡ m.lock → Unparks m i u → Unparks m' i u
same_lock m m' i UnparkPc.idle same k = tt
same_lock m m' i UnparkPc.waking same k = tt
same_lock m m' i UnparkPc.holding same k = same ∙ k
same_lock m m' i UnparkPc.notifying same k = tt
same_lock m m' i UnparkPc.panicked same k = k

pub free-ne : {l : Lock} (i : ℕ) → l ≡ free → ¬ (l ≡ by_unparker i)
free-ne i e h = cc

by_parker-ne : {l : Lock} (i : ℕ) → l ≡ by_parker → ¬ (l ≡ by_unparker i)
by_parker-ne i e h = cc

pub park-Unparks :
    {m m' : Inner} {p p' : ParkPc}
    → ParkMove m p m' p'
    → Parks m p
    → (i : ℕ) (u : UnparkPc) → Unparks m i u
    → Unparks m' i u
park-Unparks {m} {m'} (ParkMove.acquire e) k i u h = other_holder m m' i u (free-ne i e) h
park-Unparks {m} {m'} (take_slow e) k i u h = other_holder m m' i u (by_parker-ne i k.1) h
park-Unparks {m} {m'} wait k i u h = other_holder m m' i u (by_parker-ne i k.1) h
park-Unparks {m} {m'} (reacquire e) k i u h = other_holder m m' i u (free-ne i e) h
park-Unparks {m} {m'} (take_woken e) k i u h = other_holder m m' i u (by_parker-ne i k.1) h
park-Unparks {m} {m'} (timed_out n e) k i u h = other_holder m m' i u (by_parker-ne i k.1) h
park-Unparks {m} {m'} mv k i u h = same_lock m m' i u refl h

pub park-Wakes :
    {m m' : Inner} {p p' : ParkPc} (u : ℕ → UnparkPc)
    → ParkMove m p m' p'
    → Wakes m p u
    → Wakes m' p' u
park-Wakes u (set_parked e) w = λ e'. absurd (omega arith)
park-Wakes u wait w = λ e. let (i, q) = w e in (i, rw q tt)
park-Wakes u (wait_again t n) w = λ e. absurd (n e)
park-Wakes u (found_notified e) w = tt
park-Wakes u mv w = tt
