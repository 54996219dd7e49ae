-- ===== src/Timers/Get.antt =====
-- Looking a key up in the timers of src/io/reactor.rs.
use awak.Prelude.{
  ℕ, ◌<◌, ◌≡◌, refl, inl, inr, Option, none, some, List, [], ◌∷◌, Bool, true, false, ◌||◌, ltb,
  ◌==◌, if◌then◌else◌, map, filter, lt→ltb, Bool-cases, arith,
}
use awak.Sleepers.{Waker}
use awak.Timers.{Key, key_lt, key_eq, Timers, map_insert, map_remove}
use awak.Timers.Due.{due}

abbrev pub get : Key → Timers → Option Waker
get k [] = none
get k (e ∷ m) = if key_eq k e.0 then some e.1 else get k m

abbrev pub contains : Waker → List Waker → Bool
contains w [] = false
contains w (x ∷ xs) = (x == w) || contains w xs

key_eq_refl : (k : Key) → key_eq k k ≡ true
unfolding key_eq
key_eq_refl k = ground arith

key_eq-when : (a b : Key) → key_eq a b ≡ true → a.when ≡ b.when
unfolding key_eq
key_eq-when a b h = ground arith

pub get-map_insert : (k : Key) (w : Waker) (m : Timers) → get k (map_insert k w m) ≡ some w
get-map_insert k w [] = rw (key_eq_refl k)
get-map_insert k w (e ∷ m) = elim (Bool-cases (key_lt k e.0)) [
  | inl lt ↦ rw (lt, key_eq_refl k)
  | inr ge ↦ elim (Bool-cases (key_eq k e.0)) [
    | inl eq ↦ rw (ge, eq, key_eq_refl k)
    | inr ne ↦ rw (ge, ne, get) (rw ne (get-map_insert k w m))
  ]
]

pub get-map_remove : (k : Key) (m : Timers) → get k (map_remove k m) ≡ none
get-map_remove k [] = refl
get-map_remove k (e ∷ m) = elim (Bool-cases (key_eq k e.0)) [
  | inl eq ↦ rw (eq, filter) (get-map_remove k m)
  | inr ne ↦ rw (ne, filter) (rw ne (get-map_remove k m))
]

or_true : (a b : Bool) → b ≡ true → (a || b) ≡ true
or_true true b h = refl
or_true false b h = h

-- What is among the later ones that are due is among all.
later_due :
    (w : Waker) (now : ℕ) (x : Key × Waker) (m : Timers)
    → contains w (map (λ e. e.1) (due now m)) ≡ true
    → contains w (map (λ e. e.1) (due now (x ∷ m))) ≡ true
later_due w now x m h = elim (Bool-cases (ltb x.0.when now)) [
  | inl early ↦ rw (early, filter, map) (or_true (x.1 == w) _ h)
  | inr late ↦ rw (late, filter, map) h
]

first_due :
    (w : Waker) (now : ℕ) (x : Key × Waker) (m : Timers)
    → x.0.when < now
    → x.1 ≡ w
    → contains w (map (λ e. e.1) (due now (x ∷ m))) ≡ true
first_due w now x m early same = rw (lt→ltb x.0.when now early, filter, map) (ground arith)

-- A timer that is registered for an instant before `now` is among those that are due.
pub get-due :
    (k : Key) (w : Waker) (now : ℕ) (m : Timers)
    → k.when < now
    → get k m ≡ some w
    → contains w (map (λ e. e.1) (due now m)) ≡ true
get-due k w now [] early e = absurd (ground arith)
get-due k w now (x ∷ m) early e = elim (Bool-cases (key_eq k x.0)) [
  | inl eq ↦ first_due w now x m (omega (arith, key_eq-when k x.0 eq)) (ground arith)
  | inr ne ↦ later_due w now x m (get-due k w now m early (ground arith))
]
