-- ===== src/Sleepers/Spec.antt =====
-- What `Sleepers` of src/executor.rs stands for: a list of the sleeping tickers, each with its
-- waker until it is notified.
use awak.Prelude.{
  ℕ, ◌<◌, ◌≡◌, Option, none, some, List, [], ◌∷◌, Bool, true, false, ◌==◌, if◌then◌else◌, length,
}
use awak.Sleepers.{Waker, Sleepers}

-- A sleeping ticker: its id, and its waker if it has not been notified.
abbrev pub Entry : Type 0
Entry = ℕ × Option Waker

-- The wakers in the source's list.
abbrev pub unnotified : List Entry → List (ℕ × Waker)
unnotified [] = []
unnotified ((i, none) ∷ es) = unnotified es
unnotified ((i, some w) ∷ es) = (i, w) ∷ unnotified es

abbrev pub lookup : ℕ → List Entry → Option (Option Waker)
lookup id [] = none
lookup id ((i, w) ∷ es) = if i == id then some w else lookup id es

abbrev pub erase : ℕ → List Entry → List Entry
erase id [] = []
erase id ((i, w) ∷ es) = if i == id then es else (i, w) ∷ erase id es

-- An unnotified ticker gives a new waker.
abbrev pub rewake : ℕ → Waker → List Entry → List Entry
rewake id waker [] = []
rewake id waker ((i, w) ∷ es) =
    if i == id then (i, some waker) ∷ es else (i, w) ∷ rewake id waker es

-- The last ticker is notified, and its waker handed out.
abbrev pub mark_last : List Entry → List Entry × Option Waker
mark_last [] = ([], none)
mark_last ((i, w) ∷ []) = ((i, none) ∷ [], w)
mark_last (e ∷ f ∷ es) = let (rest, last) = mark_last (f ∷ es) in (e ∷ rest, last)

abbrev pub some_notified : List Entry → Bool
some_notified [] = false
some_notified ((i, none) ∷ es) = true
some_notified ((i, some w) ∷ es) = some_notified es

-- Each id once.
abbrev pub Distinct : List Entry → Type 0
Distinct [] = Unit {0}
Distinct ((i, w) ∷ es) = (lookup i es ≡ none) × Distinct es

abbrev pub Below : ℕ → List Entry → Type 0
Below n [] = Unit {0}
Below n ((i, w) ∷ es) = (i < n) × (0 < i) × Below n es

pub record Tracks (s : Sleepers) (es : List Entry) : Type 0 where
  pub counted : s.count ≡ length es
  pub listed : s.wakers ≡ unnotified es
  pub distinct : Distinct es
  pub below : Below s.id_gen es
  pub few : length es < s.id_gen
