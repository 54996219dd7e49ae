-- ===== src/Parking/Invariant.antt =====
-- What holds of src/parking.rs between any two accesses of any threads.
use awak.Prelude.{ℕ, ◌+◌, ◌≤◌, ◌≡◌, ◌≢◌, ◌==◌, if◌then◌else◌}
use awak.Parking.{empty, parked, notified, by_parker, by_unparker, Inner, ParkPc, UnparkPc, System}

-- What the parker knows of `state` and `lock`.
abbrev pub Parks : Inner → ParkPc → Type 0
Parks m ParkPc.idle = m.state ≢ parked
Parks m (ParkPc.entered t) = m.state ≢ parked
Parks m (ParkPc.locking t) = m.state ≢ parked
Parks m (ParkPc.locked t) = (m.state ≢ parked) × (m.lock ≡ by_parker)
Parks m ParkPc.taking = (m.state ≡ notified) × (m.lock ≡ by_parker)
Parks m (ParkPc.sleepy t) = (m.state ≢ empty) × (m.lock ≡ by_parker)
Parks m (ParkPc.waiting t) = m.state ≢ empty
Parks m (ParkPc.woken t) = m.state ≢ empty
Parks m (ParkPc.relocked t) = (m.state ≢ empty) × (m.lock ≡ by_parker)
Parks m ParkPc.panicked = ⊥

abbrev pub Unparks : Inner → ℕ → UnparkPc → Type 0
Unparks m i UnparkPc.holding = m.lock ≡ by_unparker i
Unparks m i UnparkPc.panicked = ⊥
Unparks m i _ = Unit

-- A call of `unpark` that has yet to get past `notify_one`.
abbrev pub Pending : UnparkPc → Type 0
Pending UnparkPc.idle = ⊥
Pending UnparkPc.panicked = ⊥
Pending _ = Unit

-- Who will wake a parker that is about to wait, or that waits, though it has been notified.
abbrev pub Wakes : Inner → ParkPc → (ℕ → UnparkPc) → Type 0
Wakes m (ParkPc.sleepy t) u = m.state ≡ notified → (i : ℕ) × (u i ≡ UnparkPc.waking)
Wakes m (ParkPc.waiting t) u = m.state ≡ notified → (i : ℕ) × Pending (u i)
Wakes m _ u = Unit

pub record Inv (s : System) : Type 0 where
  pub valid : s.inner.state ≤ notified
  pub tokens : s.inner.given ≡ s.inner.taken + (if s.inner.state == notified then 1 else 0)
  pub parks : Parks s.inner s.parker
  pub unparks : (i : ℕ) → Unparks s.inner i (s.unparker i)
  pub wakes : Wakes s.inner s.parker s.unparker
