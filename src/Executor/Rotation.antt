-- ===== src/Executor/Rotation.antt =====
-- The order in which `search` of src/executor.rs visits the shards.
use awak.Prelude.{
  ℕ, zero, suc, ◌+◌, ◌≤◌, ◌<◌, ◌≡◌, refl, sym, ap, ◌∙◌, subst, inl, inr, List, [], ◌∷◌, ◌++◌, take,
  drop, length, length-drop, take-append-drop, lt-cases, arith,
}
use awak.Executor.Search.{count_from, rotation}

abbrev pub All : (ℕ → Type 0) → List ℕ → Type 0
All P [] = Unit
All P (j ∷ js) = P j × All P js

module _ (P : ℕ → Type 0) where
  All-append : (xs ys : List ℕ) → All P xs → All P ys → All P (xs ++ ys)
  All-append [] ys p r = r
  All-append (x ∷ xs) ys (p, ps) r = (p, All-append xs ys ps r)

  All-split : (xs ys : List ℕ) → All P (xs ++ ys) → All P xs × All P ys
  All-split [] ys p = (tt, p)
  All-split (x ∷ xs) ys (p, ps) = let (l, r) = All-split xs ys ps in ((p, l), r)

  All-take : (n : ℕ) (xs : List ℕ) → All P xs → All P (take n xs)
  All-take n xs p =
      (All-split (take n xs) (drop n xs) (subst (All P) (sym (take-append-drop n xs)) p)).0

  All-drop : (n : ℕ) (xs : List ℕ) → All P xs → All P (drop n xs)
  All-drop n xs p =
      (All-split (take n xs) (drop n xs) (subst (All P) (sym (take-append-drop n xs)) p)).1

  All-count_from : (i n : ℕ) → ((j : ℕ) → j < i + n → P j) → All P (count_from i n)
  All-count_from i zero p = tt
  All-count_from i (suc n) p =
      (p i (omega arith), All-count_from (suc i) n (λ j h. p j (omega arith)))

  of_count_from : (i n j : ℕ) → All P (count_from i n) → i ≤ j → j < i + n → P j
  of_count_from i zero j p low high = absurd (omega arith)
  of_count_from i (suc n) j (p, ps) low high = elim (lt-cases i j) [
    | inl later ↦ of_count_from (suc i) n j ps (omega arith) (omega arith)
    | inr here ↦ subst P (omega arith) p
  ]

length-count_from : (i n : ℕ) → length (count_from i n) ≡ n
length-count_from i zero = refl
length-count_from i (suc n) = ap suc (length-count_from (suc i) n)

drop-append : (s : ℕ) (xs ys : List ℕ) → s ≤ length xs → drop s (xs ++ ys) ≡ drop s xs ++ ys
drop-append zero xs ys h = refl
drop-append (suc s) [] ys h = absurd (omega arith)
drop-append (suc s) (x ∷ xs) ys h = drop-append s xs ys (omega arith)

take-past : (m n : ℕ) (xs ys : List ℕ) → m ≡ length xs + n → take m (xs ++ ys) ≡ xs ++ take n ys
take-past m n [] ys h = ap (λ t. take t ys) (omega arith)
take-past zero n (x ∷ xs) ys h = absurd (omega arith)
take-past (suc m) n (x ∷ xs) ys h = ap (◌∷◌ x) (take-past m n xs ys (omega arith))

-- Every shard that the rotation visits is one of the `n`.
pub rotation_below : (n start : ℕ) → All (λ j. j < n) (rotation n start)
unfolding rotation
rotation_below n start =
    let P : ℕ → Type 0 = λ j. j < n in
    let all = All-count_from P 0 n (λ j h. omega arith) in
    All-take P n _ (All-drop P start _ (All-append P _ _ all all))

-- The rotation visits each of the `n` shards.
pub of_rotation :
    (P : ℕ → Type 0) (n start : ℕ) → start ≤ n → All P (rotation n start) → (j : ℕ) → j < n → P j
unfolding rotation
of_rotation P n start h all j below =
    let l = count_from 0 n in
    let turned : take n (drop start (l ++ l)) ≡ drop start l ++ take start l =
      ap (take n) (drop-append start l l (omega (arith, length-count_from 0 n)))
      ∙ take-past n start (drop start l) l
          (omega (arith, length-drop start l, length-count_from 0 n)) in
    let (back, front) = All-split P (drop start l) (take start l) (subst (All P) turned all) in
    of_count_from P 0 n j
      (subst (All P) (take-append-drop start l)
        (All-append P (take start l) (drop start l) front back))
      (omega arith) (omega arith)
