-- ===== src/Sleepers/Lemmas/Erase.antt =====
-- Adding to the sleepers of src/executor.rs and taking one off.
use awak.Prelude.{
  ℕ, ◌+◌, ◌≤◌, ◌<◌, ◌≡◌, ◌≢◌, refl, ap, Option, none, some, List, [], ◌∷◌, ◌++◌, false, length,
  arith,
}
use awak.Sleepers.{Waker, remove_last}
use awak.Sleepers.Spec.{Entry, unnotified, lookup, erase, Distinct, Below}

pub unnotified-append :
    (es : List Entry) (i : ℕ) (w : Waker)
    → unnotified (es ++ ((i, some w) ∷ [])) ≡ unnotified es ++ ((i, w) ∷ [])
unnotified-append [] i w = refl
unnotified-append ((j, none) ∷ es) i w = unnotified-append es i w
unnotified-append ((j, some v) ∷ es) i w = ap (◌∷◌ (j, v)) (unnotified-append es i w)

pub length-unnotified-le : (es : List Entry) → length (unnotified es) ≤ length es
length-unnotified-le [] = omega arith
length-unnotified-le ((i, none) ∷ es) = omega (arith, length-unnotified-le es)
length-unnotified-le ((i, some w) ∷ es) = omega (arith, length-unnotified-le es)

pub Below-mono : {m n : ℕ} (es : List Entry) → m ≤ n → Below m es → Below n es
Below-mono [] h b = tt
Below-mono ((i, w) ∷ es) h b = (omega (arith, b.0), b.1, Below-mono es h b.2)

pub lookup_above : (n j : ℕ) (es : List Entry) → n ≤ j → Below n es → lookup j es ≡ none
lookup_above n j [] h b = refl
lookup_above n j ((i, w) ∷ es) h b = ground (arith, lookup_above n j es)

pub lookup-append_ne :
    (i j : ℕ) (x : Option Waker) (es : List Entry)
    → lookup i es ≡ none
    → i ≢ j
    → lookup i (es ++ ((j, x) ∷ [])) ≡ none
lookup-append_ne i j x [] e ne = ground arith
lookup-append_ne i j x ((l, w) ∷ es) e ne = ground (arith, lookup-append_ne i j x es)

lookup-ne :
    (i j : ℕ) (es : List Entry) (x : Option Waker)
    → lookup i es ≡ some x
    → lookup j es ≡ none
    → i ≢ j
lookup-ne i j es x a b e = cc

pub Distinct-append :
    (j : ℕ) (x : Option Waker) (es : List Entry)
    → Distinct es
    → lookup j es ≡ none
    → Distinct (es ++ ((j, x) ∷ []))
Distinct-append j x [] d e = (refl, tt)
Distinct-append j x ((i, w) ∷ es) d e =
    (lookup-append_ne i j x es d.0 (ground arith), Distinct-append j x es d.1 (ground arith))

pub Below-append :
    (n j : ℕ) (x : Option Waker) (es : List Entry)
    → Below n es
    → j < n
    → 0 < j
    → Below n (es ++ ((j, x) ∷ []))
Below-append n j x [] b h p = (h, p, tt)
Below-append n j x ((i, w) ∷ es) b h p = (b.0, b.1, Below-append n j x es b.2 h p)

module _ (id : ℕ) where
  pub length-erase :
      (es : List Entry) (x : Option Waker)
      → lookup id es ≡ some x
      → length (erase id es) + 1 ≡ length es
  length-erase [] x e = cc
  length-erase ((i, w) ∷ es) x e = ground (arith, length-erase es x)

  pub lookup-erase-none :
      (j : ℕ) (es : List Entry) → lookup j es ≡ none → lookup j (erase id es) ≡ none
  lookup-erase-none j [] e = refl
  lookup-erase-none j ((i, w) ∷ es) e = ground (arith, lookup-erase-none j es)

  pub lookup-erase_self : (es : List Entry) → Distinct es → lookup id (erase id es) ≡ none
  lookup-erase_self [] d = refl
  lookup-erase_self ((i, w) ∷ es) d = ground (arith, lookup-erase_self es d.1)

  pub lookup-erase_ne : (j : ℕ) (es : List Entry) → j ≢ id → lookup j (erase id es) ≡ lookup j es
  lookup-erase_ne j [] ne = refl
  lookup-erase_ne j ((i, w) ∷ es) ne = ground (arith, lookup-erase_ne j es)

  pub Distinct-erase : (es : List Entry) → Distinct es → Distinct (erase id es)
  Distinct-erase [] d = tt
  Distinct-erase ((i, w) ∷ es) d = ground (arith, Distinct-erase es d.1, lookup-erase-none i es d.0)

  pub Below-erase : (n : ℕ) (es : List Entry) → Below n es → Below n (erase id es)
  Below-erase n [] b = tt
  Below-erase n ((i, w) ∷ es) b = ground (arith, Below-erase n es b.2)

  -- An id that no waker in the list goes by is not found there.
  pub remove_absent :
      (es : List Entry)
      → lookup id es ≡ none
      → remove_last id (unnotified es) ≡ (unnotified es, false)
  remove_absent [] e = refl
  remove_absent ((i, none) ∷ es) e = remove_absent es (ground arith)
  remove_absent ((i, some w) ∷ es) e = ground (arith, remove_absent es)

  pub remove_unnotified :
      (es : List Entry)
      → Distinct es
      → (remove_last id (unnotified es)).0 ≡ unnotified (erase id es)
  remove_unnotified [] d = refl
  remove_unnotified ((i, none) ∷ es) d = ground (arith, remove_unnotified es d.1, remove_absent es)
  remove_unnotified ((i, some w) ∷ es) d =
      ground (arith, remove_unnotified es d.1, remove_absent es)
