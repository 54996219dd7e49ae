-- ===== src/Sleepers/Listed.antt =====
-- Which wakers are in the list of `Sleepers` of src/executor.rs, and what its methods do to them.
use awak.Prelude.{
  ℕ, zero, suc, ◌≤◌, ◌<◌, ◌≡◌, ◌≢◌, inl, inr, ◌⊎◌, some, List, [], ◌∷◌, ◌++◌, Bool, true, false,
  ◌||◌, ◌&&◌, ◌==◌, if◌then◌else◌, length, Option-cases, arith,
}
use awak.Sleepers.{Waker, pop_last, second, replace, remove_last}

-- A waker is in the list under an id.
abbrev pub listed : ℕ → Waker → List (ℕ × Waker) → Bool
listed id w [] = false
listed id w ((i, v) ∷ items) = ((i == id) && (v == w)) || listed id w items

abbrev has : Waker → List (ℕ × Waker) → Bool
has w [] = false
has w ((i, v) ∷ items) = (v == w) || has w items

abbrev without : Waker → List (ℕ × Waker) → List (ℕ × Waker)
without w [] = []
without w ((i, v) ∷ items) = if v == w then without w items else (i, v) ∷ without w items

listed_has : (id w : ℕ) (items : List (ℕ × Waker)) → listed id w items ≡ true → has w items ≡ true
listed_has id w [] e = e
listed_has id w ((i, v) ∷ items) e = ground (arith, listed_has id w items)

has-without :
    (w v : ℕ) (items : List (ℕ × Waker))
    → v ≢ w
    → has v items ≡ true
    → has v (without w items) ≡ true
has-without w v [] ne e = e
has-without w v ((i, u) ∷ items) ne e = ground (arith, has-without w v items ne)

length-without_le : (w : ℕ) (items : List (ℕ × Waker)) → length (without w items) ≤ length items
length-without_le w [] = omega arith
length-without_le w ((i, u) ∷ items) = ground (arith, length-without_le w items)

length-without :
    (w : ℕ) (items : List (ℕ × Waker))
    → has w items ≡ true
    → length (without w items) < length items
length-without w [] e = ground arith
length-without w ((i, u) ∷ items) e =
    ground (arith, length-without w items, length-without_le w items)

-- A list with the wakers of `n` tickers has as many items.
has_all :
    (n : ℕ) (items : List (ℕ × Waker)) → ((i : ℕ) → i < n → has i items ≡ true) → n ≤ length items
has_all zero items h = omega arith
has_all (suc n) items h =
    let rest =
      has_all n (without n items)
        (λ i below. has-without n i items (omega arith) (h i (omega arith))) in
    omega (arith, rest, length-without n items (h n (omega arith)))

pub listed_all :
    (n : ℕ) (id : ℕ → ℕ) (items : List (ℕ × Waker))
    → ((i : ℕ) → i < n → listed (id i) i items ≡ true)
    → n ≤ length items
listed_all n id items h = has_all n items (λ i below. listed_has (id i) i items (h i below))

pub listed-append :
    (id w : ℕ) (items more : List (ℕ × Waker))
    → listed id w items ≡ true
    → listed id w (items ++ more) ≡ true
listed-append id w [] more e = ground arith
listed-append id w ((i, v) ∷ items) more e = ground (arith, listed-append id w items more)

pub listed-new :
    (id w : ℕ) (items : List (ℕ × Waker)) → listed id w (items ++ ((id, w) ∷ [])) ≡ true
listed-new id w [] = ground arith
listed-new id w ((i, v) ∷ items) = ground (arith, listed-new id w items)

pub listed-remove_last :
    (id k w : ℕ) (items : List (ℕ × Waker))
    → k ≢ id
    → listed k w items ≡ true
    → listed k w (remove_last id items).0 ≡ true
listed-remove_last id k w [] ne e = e
listed-remove_last id k w ((i, v) ∷ items) ne e = ground (arith, listed-remove_last id k w items ne)

pub listed-pop_last :
    (id w : ℕ) (items : List (ℕ × Waker))
    → listed id w items ≡ true
    → (listed id w (pop_last items).0 ≡ true) ⊎ (second (pop_last items).1 ≡ some w)
listed-pop_last id w [] e = inl e
listed-pop_last id w ((i, v) ∷ []) e = ground arith
listed-pop_last id w ((i, v) ∷ x ∷ items) e = ground (arith, listed-pop_last id w (x ∷ items))

-- `update` of an id that is in the list.
pub replace-Listed :
    (id k w v : ℕ) (items items' : List (ℕ × Waker))
    → replace id w items ≡ some items'
    → (listed id w items' ≡ true) × (k ≢ id → listed k v items ≡ true → listed k v items' ≡ true)
replace-Listed id k w v [] items' e = ground arith
replace-Listed id k w v ((i, u) ∷ items) items' e = elim (Option-cases (replace id w items)) [
  | inl absent ↦ ground arith
  | inr (rest, found) ↦ ground (arith, replace-Listed id k w v items rest found)
]
