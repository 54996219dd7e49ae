-- ===== src/Sleepers.antt =====
-- `Sleepers` of src/executor.rs: the sleeping tickers, and the wakers of those not yet notified.
-- A `Waker` is the number of what it wakes, and `will_wake` compares these numbers.
pub mod Spec
pub mod Listed
pub mod Lemmas
pub mod Refine
use awak.Prelude.{
  ℕ, suc, ◌+◌, Option, none, some, List, [], ◌∷◌, ◌++◌, Bool, true, false, ◌||◌, ltb, ◌==◌,
  if◌then◌else◌, length, wrapping_add, wrapping_sub,
}

abbrev pub Waker : Type 0
Waker = ℕ

abbrev pub will_wake : Waker → Waker → Bool
will_wake a b = a == b

pub record Sleepers : Type 0 where
  pub count : ℕ
  pub wakers : List (ℕ × Waker)
  pub id_gen : ℕ

-- `Vec::pop`
abbrev pub pop_last {ℓ} : {A : Type ℓ} → List A → List A × Option A
pop_last [] = ([], none)
pop_last (x ∷ []) = ([], some x)
pop_last (x ∷ y ∷ xs) = let (rest, last) = pop_last (y ∷ xs) in (x ∷ rest, last)

abbrev pub second : Option (ℕ × Waker) → Option Waker
second none = none
second (some item) = some item.1

unfoldable pub notify : Sleepers → Sleepers × Option Waker
notify s =
    if length s.wakers == s.count
    then (let (rest, last) = pop_last s.wakers in (record s { wakers = rest }, second last))
    else (s, none)

-- The loop of `update`: the new list if an item has the id.
abbrev pub replace : ℕ → Waker → List (ℕ × Waker) → Option (List (ℕ × Waker))
replace id waker [] = none
replace id waker ((i, w) ∷ items) =
    let rest = replace id waker items in
    if i == id
    then some ((i, if will_wake w waker then w else waker) ∷ items)
    else elim rest [ none ↦ none | some items' ↦ some ((i, w) ∷ items') ]

unfoldable pub update : Sleepers → ℕ → Waker → Sleepers × Bool
update s id waker = elim (replace id waker s.wakers) [
  | some items ↦ (record s { wakers = items }, false)
  | none ↦ (record s { wakers = s.wakers ++ ((id, waker) ∷ []) }, true)
]

unfoldable pub is_notified : Sleepers → Bool
is_notified s = s.count == 0 || ltb (length s.wakers) s.count

-- The loop of `remove` goes from the end: the last item with the id is removed.
abbrev pub remove_last : ℕ → List (ℕ × Waker) → List (ℕ × Waker) × Bool
remove_last id [] = ([], false)
remove_last id ((i, w) ∷ items) =
    let (rest, found) = remove_last id items in
    if found
    then ((i, w) ∷ rest, true)
    else (if i == id then (rest, true) else ((i, w) ∷ rest, false))

unfoldable pub remove : Sleepers → ℕ → Sleepers
remove s id = record s { count = wrapping_sub s.count 1; wakers = (remove_last id s.wakers).0 }

unfoldable pub insert : Sleepers → Waker → Sleepers × ℕ
insert s waker = (
  record {
    count = wrapping_add s.count 1;
    wakers = s.wakers ++ ((s.id_gen, waker) ∷ []);
    id_gen = wrapping_add s.id_gen 1;
  },
  s.id_gen,
)
