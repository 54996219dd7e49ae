-- ===== src/Parking/Unparks.antt =====
-- Each access of `unpark` of src/parking.rs keeps the parts of the invariant.
use awak.Prelude.{
  ℕ, ◌≡◌, ◌≢◌, refl, sym, ◌∙◌, inl, inr, subst, ◌==◌, Bool-cases, ==_of_eq, eq_of_==, arith,
}
use awak.Parking.{
  empty, notified, Lock, free, by_parker, by_unparker, Inner, ParkPc, UnparkPc, UnparkMove, no_one,
  already, find_parked, bad_state, release, update,
}
use awak.Parking.Invariant.{Parks, Unparks, Pending, Wakes}
use awak.Parking.Moves.{Counts, free-ne, other_holder, same_lock}

pub unpark-Counts :
    {i : ℕ} {m m' : Inner} {u u' : UnparkPc} → UnparkMove i m u m' u' → Counts m → Counts m'
unpark-Counts (no_one e) c = ground arith
unpark-Counts (already e) c = c
unpark-Counts (find_parked e) c = ground arith
unpark-Counts (bad_state a b d) c = absurd (omega arith)
unpark-Counts (UnparkMove.acquire e) c = ground arith
unpark-Counts release c = ground arith

-- The parker's view survives a notification, and a lock that it does not hold being passed on.
notify-Parks :
    (m m' : Inner) (p : ParkPc) → m'.state ≡ notified → m'.lock ≡ m.lock → Parks m p → Parks m' p
notify-Parks m m' ParkPc.idle e l k = omega arith
notify-Parks m m' (ParkPc.entered t) e l k = omega arith
notify-Parks m m' (ParkPc.locking t) e l k = omega arith
notify-Parks m m' (ParkPc.locked t) e l k = (omega arith, l ∙ k.1)
notify-Parks m m' ParkPc.taking e l k = (e, l ∙ k.1)
notify-Parks m m' (ParkPc.sleepy t) e l k = (omega arith, l ∙ k.1)
notify-Parks m m' (ParkPc.waiting t) e l k = omega arith
notify-Parks m m' (ParkPc.woken t) e l k = omega arith
notify-Parks m m' (ParkPc.relocked t) e l k = (omega arith, l ∙ k.1)
notify-Parks m m' ParkPc.panicked e l k = k

pass-Parks :
    (m m' : Inner) (p : ParkPc)
    → m'.state ≡ m.state
    → ¬ (m.lock ≡ by_parker)
    → Parks m p
    → Parks m' p
pass-Parks m m' ParkPc.idle e l k = omega arith
pass-Parks m m' (ParkPc.entered t) e l k = omega arith
pass-Parks m m' (ParkPc.locking t) e l k = omega arith
pass-Parks m m' (ParkPc.locked t) e l k = absurd (l k.1)
pass-Parks m m' ParkPc.taking e l k = absurd (l k.1)
pass-Parks m m' (ParkPc.sleepy t) e l k = absurd (l k.1)
pass-Parks m m' (ParkPc.waiting t) e l k = omega arith
pass-Parks m m' (ParkPc.woken t) e l k = omega arith
pass-Parks m m' (ParkPc.relocked t) e l k = absurd (l k.1)
pass-Parks m m' ParkPc.panicked e l k = k

free-not_parker : {l : Lock} → l ≡ free → ¬ (l ≡ by_parker)
free-not_parker e h = cc

unparker-not_parker : {l : Lock} {i : ℕ} → l ≡ by_unparker i → ¬ (l ≡ by_parker)
unparker-not_parker e h = cc

pub unpark-Parks :
    {i : ℕ} {m m' : Inner} {u u' : UnparkPc} (p : ParkPc)
    → UnparkMove i m u m' u'
    → Counts m
    → Unparks m i u
    → Parks m p
    → Parks m' p
unpark-Parks {m = m} {m' = m'} p (no_one e) c h k = notify-Parks m m' p refl refl k
unpark-Parks p (already e) c h k = k
unpark-Parks {m = m} {m' = m'} p (find_parked e) c h k = notify-Parks m m' p refl refl k
unpark-Parks p (bad_state a b d) c h k = absurd (omega (arith, c.valid))
unpark-Parks {m = m} {m' = m'} p (UnparkMove.acquire e) c h k =
    pass-Parks m m' p refl (free-not_parker e) k
unpark-Parks {m = m} {m' = m'} p release c h k = pass-Parks m m' p refl (unparker-not_parker h) k

-- The thread that moves, and every other one.
pub unpark-own :
    {i : ℕ} {m m' : Inner} {u u' : UnparkPc} → UnparkMove i m u m' u' → Counts m → Unparks m' i u'
unpark-own (no_one e) c = tt
unpark-own (already e) c = tt
unpark-own (find_parked e) c = tt
unpark-own (bad_state a b d) c = omega (arith, c.valid)
unpark-own (UnparkMove.acquire e) c = refl
unpark-own release c = tt

same_holder : {l : Lock} (i j : ℕ) → l ≡ by_unparker i → l ≡ by_unparker j → i ≡ j
same_holder i j a b = cc

pub unpark-others :
    {i : ℕ} {m m' : Inner} {u u' : UnparkPc} (j : ℕ) (w : UnparkPc)
    → i ≢ j
    → UnparkMove i m u m' u'
    → Unparks m i u
    → Unparks m j w
    → Unparks m' j w
unpark-others {m = m} {m' = m'} j w ne (UnparkMove.acquire e) k h =
    other_holder m m' j w (free-ne j e) h
unpark-others {i} {m} {m'} j w ne release k h =
    other_holder m m' j w (λ e. ne (same_holder i j k e)) h
unpark-others {m = m} {m' = m'} j w ne (no_one e) k h = same_lock m m' j w refl h
unpark-others {m = m} {m' = m'} j w ne mv k h = same_lock m m' j w refl h

update_self : (f : ℕ → UnparkPc) (i : ℕ) (u : UnparkPc) → update f i u i ≡ u
update_self f i u = rw (==_of_eq i i refl)

pub update-Pending :
    (f : ℕ → UnparkPc) (i j : ℕ) (u : UnparkPc)
    → (Pending (f i) → Pending u)
    → Pending (f j)
    → Pending (update f i u j)
update-Pending f i j u step k = elim (Bool-cases (i == j)) [
  | inl e ↦ rw e (step (subst (λ n. Pending (f n)) (sym (eq_of_== i j e)) k))
  | inr ne ↦ rw ne k
]

-- What another thread waits to do is not touched.
pub update-waking :
    (f : ℕ → UnparkPc) (i j : ℕ) (u : UnparkPc)
    → f i ≢ UnparkPc.waking
    → f j ≡ UnparkPc.waking
    → update f i u j ≡ UnparkPc.waking
update-waking f i j u ne k = elim (Bool-cases (i == j)) [
  | inl e ↦ absurd (ne (subst (λ n. f n ≡ UnparkPc.waking) (sym (eq_of_== i j e)) k))
  | inr other ↦ rw other k
]

unpark-sleepy :
    {m m' : Inner} {u u' : UnparkPc} (f : ℕ → UnparkPc) (i : ℕ)
    → UnparkMove i m u m' u'
    → f i ≡ u
    → Counts m
    → (m.state ≢ empty) × (m.lock ≡ by_parker)
    → (m.state ≡ notified → (j : ℕ) × (f j ≡ UnparkPc.waking))
    → m'.state ≡ notified
    → (j : ℕ) × (update f i u' j ≡ UnparkPc.waking)
unpark-sleepy f i (no_one e) at c k w s = absurd (k.0 e)
unpark-sleepy f i (already e) at c k w s =
    let (j, q) = w s in (j, update-waking f i j UnparkPc.idle (λ h. cc) q)
unpark-sleepy f i (find_parked e) at c k w s = (i, update_self f i UnparkPc.waking)
unpark-sleepy f i (bad_state a b d) at c k w s = absurd (omega (arith, c.valid))
unpark-sleepy f i (UnparkMove.acquire e) at c k w s = absurd (free-not_parker e k.1)
unpark-sleepy f i release at c k w s =
    let (j, q) = w s in (j, update-waking f i j UnparkPc.notifying (λ h. cc) q)

unpark-waiting :
    {m m' : Inner} {u u' : UnparkPc} (f : ℕ → UnparkPc) (i : ℕ)
    → UnparkMove i m u m' u'
    → f i ≡ u
    → Counts m
    → m.state ≢ empty
    → (m.state ≡ notified → (j : ℕ) × Pending (f j))
    → m'.state ≡ notified
    → (j : ℕ) × Pending (update f i u' j)
unpark-waiting f i (no_one e) at c k w s = absurd (k e)
unpark-waiting f i (already e) at c k w s =
    let (j, q) = w s in (j, update-Pending f i j UnparkPc.idle (λ h. subst Pending at h) q)
unpark-waiting f i (find_parked e) at c k w s = (i, rw (==_of_eq i i refl) tt)
unpark-waiting f i (bad_state a b d) at c k w s = absurd (omega (arith, c.valid))
unpark-waiting f i (UnparkMove.acquire e) at c k w s =
    let (j, q) = w s in (j, update-Pending f i j UnparkPc.holding (λ h. tt) q)
unpark-waiting f i release at c k w s =
    let (j, q) = w s in (j, update-Pending f i j UnparkPc.notifying (λ h. tt) q)

pub unpark-Wakes :
    {m m' : Inner} {u' : UnparkPc} (p : ParkPc) (f : ℕ → UnparkPc) (i : ℕ)
    → UnparkMove i m (f i) m' u'
    → Counts m
    → Parks m p
    → Wakes m p f
    → Wakes m' p (update f i u')
unpark-Wakes (ParkPc.sleepy t) f i mv c k w = unpark-sleepy f i mv refl c k w
unpark-Wakes (ParkPc.waiting t) f i mv c k w = unpark-waiting f i mv refl c k w
unpark-Wakes _ f i mv c k w = tt
