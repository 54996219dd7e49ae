-- ===== src/Executor/Pool/Asleep.antt =====
-- How many tickers of src/executor.rs sleep, and a search among them.
use awak.Prelude.{
  ℕ, zero, suc, ◌+◌, ◌≤◌, ◌<◌, ◌≡◌, ◌≢◌, refl, ◌⊎◌, inl, inr, subst, Bool, true, false, ◌==◌,
  if◌then◌else◌, Bool-cases, eq_of_==, ne_of_==, ==_of_ne, lt-cases, arith,
}
use awak.Executor.{Ticker}
use awak.Executor.World.{update}

-- How many of `n` tickers sleep.
abbrev pub asleep : (ℕ → Ticker) → ℕ → ℕ
asleep f zero = 0
asleep f (suc n) = (if (f n).sleeping == 0 then 0 else 1) + asleep f n

pub asleep-all : (f : ℕ → Ticker) (n : ℕ) → ((i : ℕ) → i < n → (f i).sleeping ≢ 0) → asleep f n ≡ n
asleep-all f zero h = refl
asleep-all f (suc n) h =
    rw (==_of_ne _ _ (h n (omega arith)))
      (omega (arith, asleep-all f n (λ i below. h i (omega arith))))

asleep-above :
    (f : ℕ → Ticker) (i : ℕ) (t : Ticker) (n : ℕ) → n ≤ i → asleep (update f i t) n ≡ asleep f n
asleep-above f i t zero le = refl
asleep-above f i t (suc n) le =
    rw (==_of_ne i n (omega arith)) (omega (arith, asleep-above f i t n (omega arith)))

pub asleep-update :
    (f : ℕ → Ticker) (i : ℕ) (t : Ticker) (n : ℕ)
    → i < n
    → asleep (update f i t) n + (if (f i).sleeping == 0 then 0 else 1)
      ≡ asleep f n + (if t.sleeping == 0 then 0 else 1)
asleep-update f i t zero below = absurd (omega arith)
asleep-update f i t (suc n) below = elim (Bool-cases (i == n)) [
  | inl same ↦
      rw (same, asleep-above f i t n (omega (arith, eq_of_== i n same)), eq_of_== i n same)
        (omega arith)
  | inr other ↦ rw other (omega (arith, asleep-update f i t n (omega (arith, ne_of_== i n other))))
]

-- A test that one of the numbers below `n` passes, or none.
pub first_of :
    (p : ℕ → Bool) (n : ℕ) → ((i : ℕ) × (i < n) × (p i ≡ true)) ⊎ ((i : ℕ) → i < n → p i ≡ false)
first_of p zero = inr (λ i below. absurd (omega arith))
first_of p (suc n) = elim (Bool-cases (p n)) [
  | inl here ↦ inl (n, omega arith, here)
  | inr fails ↦ elim (first_of p n) [
    | inl (i, below, e) ↦ inl (i, omega arith, e)
    | inr none_below ↦ inr (λ i below. elim (lt-cases i n) [
      | inl less ↦ none_below i less
      | inr le ↦ subst (λ k. p k ≡ false) (omega arith) fails
    ])
  ]
]
