-- ===== src/Local/New.antt =====
-- `Local::new` of src/executor.rs: the ring that it makes, for every size asked for.
use native.Mathlib.Nat.{pow-succ', add-zero}
use awak.Prelude.{
  ℕ, zero, suc, ◌+◌, ◌*◌, ◌^◌, ◌≤◌, ◌<◌, ◌≡◌, refl, ◌∙◌, inl, inr, [], lt-cases, le→leb, lt→leb,
  length-replicate, subst, arith,
}
use awak.Local.{power_from, next_power_of_two, new}
use awak.Local.Fifo.{Holds}

-- `p` is the least power of two, `2 ^ k`, that is at least `n`.
pub record IsLeastPower (n p : ℕ) : Type 0 where
  pub exponent : ℕ
  pub power : p ≡ 2 ^ exponent
  pub enough : n ≤ p
  pub least : (j : ℕ) → n ≤ 2 ^ j → exponent ≤ j

power_from-IsLeastPower :
    (rounds n i p : ℕ)
    → p ≡ 2 ^ i
    → n ≤ 2 ^ (i + rounds)
    → ((j : ℕ) → n ≤ 2 ^ j → i ≤ j)
    → IsLeastPower n (power_from rounds n p)
unfolding power_from
power_from-IsLeastPower zero n i p e reach below = record {
  exponent = i;
  power = e;
  enough = rw e (rw add-zero at reach);
  least = below;
}
power_from-IsLeastPower (suc rounds) n i p e reach below = elim (lt-cases p n) [
  | inl small ↦ rw (lt→leb n p small) (
      power_from-IsLeastPower rounds n (suc i) (2 * p) (rw (e, pow-succ'))
        (subst (λ (m : ℕ). n ≤ 2 ^ m) (omega arith) reach) (above small))
  | inr done ↦
      rw (le→leb n p done) (record { exponent = i; power = e; enough = done; least = below })
]
  where
    above : p < n → (j : ℕ) → n ≤ 2 ^ j → suc i ≤ j
    above small j fits = elim (lt-cases i j) [
      | inl lt ↦ lt
      | inr le ↦
          let same : j ≡ i = omega (arith, below j fits) in
          absurd (omega (arith, subst (λ (m : ℕ). n ≤ 2 ^ m) same fits))
    ]

-- For every `n` up to `2 ^ 63`, `Local::new(n)` is an empty ring of the least power of two of slots
-- that is at least `n`.
pub new-Holds :
    {A : Type 0} (n : ℕ)
    → n ≤ 2 ^ 63
    → (p : IsLeastPower n (next_power_of_two n)) × Holds {A = A} p.exponent (new n) []
unfolding new next_power_of_two
new-Holds {A} n h = (p, holds)
  where
    p : IsLeastPower n (power_from 64 n 1)
    p = power_from-IsLeastPower 64 n 0 1 refl (omega arith) (λ j f. omega arith)

    holds : Holds {A = A} p.exponent (new n) []
    holds = record {
      width = p.least 63 h;
      sized = p.power;
      masked = rw (← p.power);
      slots = length-replicate _ _ ∙ p.power;
      in_range = omega arith;
      ends = refl;
      room = omega arith;
      held = tt;
    }
