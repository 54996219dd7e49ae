-- ===== src/Parking/Safety.antt =====
-- The protocol of src/parking.rs over every reachable state.
use awak.Prelude.{
  ℕ, ◌+◌, ◌≤◌, ◌≡◌, ◌≢◌, refl, inl, inr, subst, Option, ◌==◌, if◌then◌else◌, Bool-cases, eq_of_==,
  ne_of_==, arith,
}
use awak.Parking.{
  notified, Inner, ParkPc, UnparkPc, notify_one, System, update, Step, parks, unparks, notifies,
  Reach, here, next,
}
use awak.Parking.Invariant.{Parks, Unparks, Pending, Wakes, Inv}
use awak.Parking.Moves.{Counts, park-Counts, park-Parks, park-Unparks, park-Wakes}
use awak.Parking.Unparks.{
  unpark-Counts, unpark-Parks, unpark-own, unpark-others, update-waking, unpark-Wakes,
}

-- `notify_one` changes nothing that the parker knows.
notify-Parks : (m : Inner) (p : ParkPc) → Parks m p → Parks m (notify_one p)
notify-Parks m (ParkPc.waiting t) k = k
notify-Parks m p k = k

notify-Wakes :
    (m : Inner) (p : ParkPc) (f : ℕ → UnparkPc) (i : ℕ)
    → f i ≡ UnparkPc.notifying
    → Wakes m p f
    → Wakes m (notify_one p) (update f i UnparkPc.idle)
notify-Wakes m (ParkPc.sleepy t) f i at w =
    λ s. let (j, q) = w s in (j, update-waking f i j UnparkPc.idle (λ h. cc) q)
notify-Wakes m (ParkPc.waiting t) f i at w = tt
notify-Wakes m _ f i at w = tt

counts : {s : System} → Inv s → Counts s.inner
counts v = record { valid = v.valid; tokens = v.tokens }

Step-Inv : {s t : System} → Step s t → Inv s → Inv t
Step-Inv {s} (parks {m} mv) v = record {
  valid = c.valid;
  tokens = c.tokens;
  parks = park-Parks mv (counts v) v.parks;
  unparks = λ i. park-Unparks mv v.parks i (s.unparker i) (v.unparks i);
  wakes = park-Wakes s.unparker mv v.wakes;
}
  where
    c : Counts m
    c = park-Counts mv v.parks (counts v)
Step-Inv {s} (unparks i {m} {u} mv) v = record {
  valid = c.valid;
  tokens = c.tokens;
  parks = unpark-Parks s.parker mv (counts v) (v.unparks i) v.parks;
  unparks = others;
  wakes = unpark-Wakes s.parker s.unparker i mv (counts v) v.parks v.wakes;
}
  where
    c : Counts m
    c = unpark-Counts mv (counts v)

    others : (j : ℕ) → Unparks m j (update s.unparker i u j)
    others j = elim (Bool-cases (i == j)) [
      | inl e ↦ rw e (subst (λ n. Unparks m n u) (eq_of_== i j e) (unpark-own mv (counts v)))
      | inr ne ↦
          rw ne (unpark-others j (s.unparker j) (ne_of_== i j ne) mv (v.unparks i) (v.unparks j))
    ]
Step-Inv {s} (notifies i e) v = record {
  valid = v.valid;
  tokens = v.tokens;
  parks = notify-Parks s.inner s.parker v.parks;
  unparks = others;
  wakes = notify-Wakes s.inner s.parker s.unparker i e v.wakes;
}
  where
    others : (j : ℕ) → Unparks s.inner j (update s.unparker i UnparkPc.idle j)
    others j = elim (Bool-cases (i == j)) [ inl same ↦ rw same tt | inr ne ↦ rw ne (v.unparks j) ]

pub Reach-Inv : {s : System} → Reach s → Inv s
Reach-Inv here = record {
  valid = omega arith;
  tokens = refl;
  parks = omega arith;
  unparks = λ i. tt;
  wakes = tt;
}
Reach-Inv (next r st) = Step-Inv st (Reach-Inv r)

-- In every reachable state of one thread that parks and any number that unpark, none of them has
-- panicked: `state` is always EMPTY, PARKED or NOTIFIED, and each match of `park` and `unpark`
-- finds one of the values that it names.
pub no_panic :
    {s : System}
    → Reach s
    → (s.inner.state ≤ notified)
      × (s.parker ≢ ParkPc.panicked)
      × ((i : ℕ) → s.unparker i ≢ UnparkPc.panicked)
no_panic {s} r = (
  v.valid,
  λ e. subst (Parks s.inner) e v.parks,
  λ i e. subst (Unparks s.inner i) e (v.unparks i),
)
  where
    v : Inv s
    v = Reach-Inv r

-- No wake-up is lost: whenever the parker waits on the condition variable and a notification is
-- pending, some call of `unpark` has still to pass its `notify_one`.
pub no_lost_wakeup :
    {s : System} {t : Option ℕ}
    → Reach s
    → s.parker ≡ ParkPc.waiting t
    → s.inner.state ≡ notified
    → (i : ℕ) × Pending (s.unparker i)
no_lost_wakeup {s} r e n = subst (λ p. Wakes s.inner p s.unparker) e (Reach-Inv r).wakes n

-- Each notification is taken once: the calls of `unpark` that found none pending are as many as the
-- calls of `park` that have returned true, and one more exactly while `state` is NOTIFIED.
pub tokens_taken_once :
    {s : System}
    → Reach s
    → s.inner.given ≡ s.inner.taken + (if s.inner.state == notified then 1 else 0)
tokens_taken_once r = (Reach-Inv r).tokens
