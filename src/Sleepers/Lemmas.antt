-- ===== src/Sleepers/Lemmas.antt =====
-- Facts about the list of sleeping tickers that `Sleepers` of src/executor.rs stands for.
mod Erase
pub use Erase.*
use awak.Prelude.{
  ℕ, suc, ◌+◌, ◌≤◌, ◌<◌, ◌≡◌, ◌≢◌, refl, ap, Option, none, some, List, [], ◌∷◌, ◌++◌, true, false,
  length, arith,
}
use awak.Sleepers.{Waker, pop_last, second, replace, remove_last}
use awak.Sleepers.Spec.{
  Entry, unnotified, lookup, erase, rewake, mark_last, some_notified, Distinct, Below,
}

module _ (id : ℕ) (waker : Waker) where
  pub replace_absent :
      (es : List Entry) → lookup id es ≡ none → replace id waker (unnotified es) ≡ none
  replace_absent [] e = refl
  replace_absent ((i, none) ∷ es) e = replace_absent es (ground arith)
  replace_absent ((i, some w) ∷ es) e = ground (arith, replace_absent es)

  -- A notified ticker is not found among the wakers, and its entry shows nothing there.
  pub replace_notified :
      (es : List Entry)
      → Distinct es
      → lookup id es ≡ some none
      → (replace id waker (unnotified es) ≡ none) × (unnotified (erase id es) ≡ unnotified es)
  replace_notified [] d e = cc
  replace_notified ((i, none) ∷ es) d e = ground (arith, replace_notified es d.1, replace_absent es)
  replace_notified ((i, some w) ∷ es) d e =
      ground (arith, replace_notified es d.1, replace_absent es)

  pub replace-unnotified :
      (es : List Entry) (w : Waker)
      → lookup id es ≡ some (some w)
      → replace id waker (unnotified es) ≡ some (unnotified (rewake id waker es))
  replace-unnotified [] w e = cc
  replace-unnotified ((i, none) ∷ es) w e = ground (arith, replace-unnotified es w)
  replace-unnotified ((i, some v) ∷ es) w e = ground (arith, replace-unnotified es w)

  pub length-rewake : (es : List Entry) → length (rewake id waker es) ≡ length es
  length-rewake [] = refl
  length-rewake ((i, w) ∷ es) = ground (arith, length-rewake es)

  pub lookup-rewake-none :
      (j : ℕ) (es : List Entry) → lookup j es ≡ none → lookup j (rewake id waker es) ≡ none
  lookup-rewake-none j [] e = refl
  lookup-rewake-none j ((i, w) ∷ es) e = ground (arith, lookup-rewake-none j es)

  pub Distinct-rewake : (es : List Entry) → Distinct es → Distinct (rewake id waker es)
  Distinct-rewake [] d = tt
  Distinct-rewake ((i, w) ∷ es) d =
      ground (arith, Distinct-rewake es d.1, lookup-rewake-none i es d.0)

  pub Below-rewake : (n : ℕ) (es : List Entry) → Below n es → Below n (rewake id waker es)
  Below-rewake n [] b = tt
  Below-rewake n ((i, w) ∷ es) b = ground (arith, Below-rewake n es b.2)

-- While no ticker is notified, the last waker in the list is that of the last entry.
pub pop_last-unnotified :
    (es : List Entry)
    → length (unnotified es) ≡ length es
    → let (items, last) = pop_last (unnotified es) in
      (items ≡ unnotified (mark_last es).0) × (second last ≡ (mark_last es).1)
pop_last-unnotified [] e = (refl, refl)
pop_last-unnotified ((i, none) ∷ es) e = absurd (omega (arith, length-unnotified-le es))
pop_last-unnotified ((i, some w) ∷ []) e = (refl, refl)
pop_last-unnotified ((i, some w) ∷ (j, none) ∷ es) e =
    absurd (omega (arith, length-unnotified-le es))
pop_last-unnotified ((i, some w) ∷ (j, some v) ∷ es) e =
    let (a, b) = pop_last-unnotified ((j, some v) ∷ es) (omega arith) in (ap (◌∷◌ (i, w)) a, b)

pub length-mark_last : (es : List Entry) → length (mark_last es).0 ≡ length es
length-mark_last [] = refl
length-mark_last (e ∷ []) = refl
length-mark_last (e ∷ f ∷ es) = ap suc (length-mark_last (f ∷ es))

pub lookup-mark_last-none :
    (j : ℕ) (es : List Entry) → lookup j es ≡ none → lookup j (mark_last es).0 ≡ none
lookup-mark_last-none j [] e = refl
lookup-mark_last-none j (f ∷ []) e = ground arith
lookup-mark_last-none j (f ∷ g ∷ es) e = ground (arith, lookup-mark_last-none j (g ∷ es))

pub Distinct-mark_last : (es : List Entry) → Distinct es → Distinct (mark_last es).0
Distinct-mark_last [] d = tt
Distinct-mark_last (f ∷ []) d = (refl, tt)
Distinct-mark_last (f ∷ g ∷ es) d =
    (lookup-mark_last-none f.0 (g ∷ es) d.0, Distinct-mark_last (g ∷ es) d.1)

pub Below-mark_last : (n : ℕ) (es : List Entry) → Below n es → Below n (mark_last es).0
Below-mark_last n [] b = tt
Below-mark_last n (f ∷ []) b = b
Below-mark_last n (f ∷ g ∷ es) b = (b.0, b.1, Below-mark_last n (g ∷ es) b.2)

-- Fewer wakers than tickers: some ticker is notified.
pub notified-lt : (es : List Entry) → length (unnotified es) < length es → some_notified es ≡ true
notified-lt [] h = absurd (omega arith)
notified-lt ((i, none) ∷ es) h = refl
notified-lt ((i, some w) ∷ es) h = notified-lt es (omega arith)

pub notified-eq : (es : List Entry) → length es ≤ length (unnotified es) → some_notified es ≡ false
notified-eq [] h = refl
notified-eq ((i, none) ∷ es) h = absurd (omega (arith, length-unnotified-le es))
notified-eq ((i, some w) ∷ es) h = notified-eq es (omega arith)

-- What is not found after a change was not there before.
pub lookup-append_inv :
    (k j : ℕ) (x : Option Waker) (es : List Entry)
    → lookup k (es ++ ((j, x) ∷ [])) ≡ none
    → (lookup k es ≡ none) × (k ≢ j)
lookup-append_inv k j x [] e = ground arith
lookup-append_inv k j x ((i, w) ∷ es) e = ground (arith, lookup-append_inv k j x es)

pub lookup-rewake_inv :
    (k id : ℕ) (w : Waker) (es : List Entry) → lookup k (rewake id w es) ≡ none → lookup k es ≡ none
lookup-rewake_inv k id w [] e = refl
lookup-rewake_inv k id w ((i, v) ∷ es) e = ground (arith, lookup-rewake_inv k id w es)

pub lookup-mark_last_inv :
    (k : ℕ) (es : List Entry) → lookup k (mark_last es).0 ≡ none → lookup k es ≡ none
lookup-mark_last_inv k [] e = refl
lookup-mark_last_inv k (f ∷ []) e = ground arith
lookup-mark_last_inv k (f ∷ g ∷ es) e = ground (arith, lookup-mark_last_inv k (g ∷ es))

pub lookup-bounds :
    (n k : ℕ) (es : List Entry) → Below n es → lookup k es ≢ none → (k < n) × (0 < k)
lookup-bounds n k [] b h = absurd (h refl)
lookup-bounds n k ((i, w) ∷ es) b h = ground (arith, lookup-bounds n k es b.2)

pub notified-mark_last :
    (i : ℕ) (w : Option Waker) (es : List Entry) → some_notified (mark_last ((i, w) ∷ es)).0 ≡ true
notified-mark_last i w [] = refl
notified-mark_last i none ((j, v) ∷ es) = refl
notified-mark_last i (some w) ((j, v) ∷ es) = notified-mark_last j v es

pub notified-rewake :
    (id : ℕ) (w v : Waker) (es : List Entry)
    → lookup id es ≡ some (some v)
    → some_notified (rewake id w es) ≡ some_notified es
notified-rewake id w v [] e = refl
notified-rewake id w v ((i, none) ∷ es) e = ground (arith, notified-rewake id w v es)
notified-rewake id w v ((i, some u) ∷ es) e = ground (arith, notified-rewake id w v es)
