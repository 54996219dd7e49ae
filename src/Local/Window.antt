-- ===== src/Local/Window.antt =====
-- The slots that the positions `head .. tail` of the ring stand for, at any width of the ring and
-- across the wrap-around of the positions.
use native.Mathlib.Nat.{
  dvd_refl, dvd-mul_right_of_dvd, mod-mod_of_dvd, mod-eq_of_lt, mod-eq-sub-mod, mod-add-mod, mod-lt,
  pow-suc,
}
use Prim.Native.Nat.{◌∣◌}
use awak.Prelude.{
  ℕ, zero, suc, ◌+◌, ◌-◌, ◌%◌, ◌^◌, ◌≤◌, ◌<◌, ◌≡◌, sym, ap, ◌∙◌, ◌≢◌, inl, inr, Option, none, some,
  List, [], ◌∷◌, ◌++◌, length, get_or, set, get_or-set_self, get_or-set_ne, bit_and, word,
  wrapping_add, lt-cases, arith,
}
use awak.Prelude.Bits.{bit_and_mask, pow_pos}

pow-dvd : (k j m : ℕ) → k + j ≡ m → 2 ^ k ∣ 2 ^ m
pow-dvd k zero m e = let e' : k ≡ m = omega arith in rw e' (dvd_refl (2 ^ m))
pow-dvd k (suc j) zero e = absurd (omega arith)
pow-dvd k (suc j) (suc m) e =
    rw (pow-suc 2 m) (dvd-mul_right_of_dvd (2 ^ k) (pow-dvd k j m (omega arith)) 2)

-- Fewer than `m` steps do not come back to the same remainder.
add-mod-ne : (p n m : ℕ) → 0 < n → n < m → (p + n) % m ≢ p % m
add-mod-ne p n m pos lt = elim (lt-cases (p % m + n) m) [
  | inl below ↦ omega (arith, mod-add-mod p m n, mod-eq_of_lt below)
  | inr above ↦ omega (
    arith,
    mod-add-mod p m n,
    mod-eq-sub-mod above,
    mod-eq_of_lt {n = p % m + n - m} {m = m} (omega (arith, mod-lt p {m = m} (omega arith))),
    mod-lt p {m = m} (omega arith),
  )
]

-- A position wraps at `word`, its slot at `2 ^ k`: the first is a multiple of the second.
slot_wrap : (k a : ℕ) → k ≤ 64 → bit_and (a % word) (2 ^ k - 1) ≡ a % 2 ^ k
slot_wrap k a h =
    bit_and_mask k (a % word) ∙ mod-mod_of_dvd (2 ^ k) a (pow-dvd k (64 - k) 64 (omega arith))

module _ (k : ℕ) (width : k ≤ 64) where
  pub slot-ne :
      (p n : ℕ) → 0 < n → n < 2 ^ k → bit_and (wrapping_add p n) (2 ^ k - 1) ≢ bit_and p (2 ^ k - 1)
  slot-ne p n pos lt e =
      add-mod-ne p n (2 ^ k) pos lt (sym (slot_wrap k (p + n) width) ∙ e ∙ bit_and_mask k p)

pub slot-lt : (k p : ℕ) → bit_and p (2 ^ k - 1) < 2 ^ k
slot-lt k p = rw bit_and_mask (mod-lt p (pow_pos k))

-- The slots from position `p` on hold `xs`.
abbrev pub Window {ℓ} : {A : Type ℓ} → ℕ → List (Option A) → ℕ → List A → Type ℓ
Window mask buffer p [] = Unit
Window mask buffer p (x ∷ xs) =
    (get_or buffer (bit_and p mask) none ≡ some x) × Window mask buffer (wrapping_add p 1) xs

module _ {ℓ} {A : Type ℓ} (k : ℕ) (width : k ≤ 64) where
  -- A write at the position just past a window extends the window by the value.
  pub Window-snoc :
      (buffer : List (Option A)) (p i : ℕ) (xs : List A) (v : A)
      → length buffer ≡ 2 ^ k
      → p < word
      → length xs < 2 ^ k
      → i ≡ bit_and (wrapping_add p (length xs)) (2 ^ k - 1)
      → Window (2 ^ k - 1) buffer p xs
      → Window (2 ^ k - 1) (set buffer i (some v)) p (xs ++ (v ∷ []))
  Window-snoc buffer p i [] v full in_range room at held = (rw (← here) hit, tt)
    where
      here : i ≡ bit_and p (2 ^ k - 1)
      here = at ∙ ap (λ (q : ℕ). bit_and q (2 ^ k - 1)) (omega arith)

      hit : get_or (set buffer i (some v)) i none ≡ some v
      hit = get_or-set_self buffer i (some v) none (rw (full, here) (slot-lt k p))
  Window-snoc buffer p i (x ∷ xs) v full in_range room at held = (
    get_or-set_ne buffer i (bit_and p (2 ^ k - 1)) (some v) none away ∙ held.0,
    Window-snoc buffer (wrapping_add p 1) i xs v full (omega arith) (omega arith) (at ∙ onward)
        held.1,
  )
    where
      away : i ≢ bit_and p (2 ^ k - 1)
      away = rw at (slot-ne k width p (suc (length xs)) (omega arith) room)

      onward :
          bit_and (wrapping_add p (suc (length xs))) (2 ^ k - 1)
          ≡ bit_and (wrapping_add (wrapping_add p 1) (length xs)) (2 ^ k - 1)
      onward = ap (λ (q : ℕ). bit_and q (2 ^ k - 1)) (omega arith)
