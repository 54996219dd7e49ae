-- ===== src/CopyBuffer/Slices.antt =====
-- The slice of the buffer that src/util/copy_buffer.rs writes from, and splits on results.
use awak.Prelude.{
  ℕ, zero, suc, ◌+◌, ◌-◌, ◌≤◌, ◌<◌, ◌≡◌, refl, sym, ap, ◌∙◌, inl, inr, ◌⊎◌, Option, none, some,
  List, [], ◌∷◌, ◌++◌, Bool, true, false, not, ◌&&◌, ◌==◌, ltb, if◌then◌else◌, take, drop, length,
  length-drop, eq_of_==, arith,
}
use awak.CopyBuffer.{Byte, ErrorKind, Io, ok, err, Poll, ready, pending, CopyBuffer, slice, advance}

pub take-all : (xs ys : List Byte) → take (length xs) (xs ++ ys) ≡ xs
take-all [] ys = refl
take-all (x ∷ xs) ys = ap (◌∷◌ x) (take-all xs ys)

pub length-take : (n : ℕ) (xs : List Byte) → n ≤ length xs → length (take n xs) ≡ n
length-take zero xs h = refl
length-take (suc n) [] h = absurd (omega arith)
length-take (suc n) (x ∷ xs) h = ap suc (length-take n xs (omega arith))

pub drop-nil : (n : ℕ) → drop {A = Byte} n [] ≡ []
drop-nil zero = refl
drop-nil (suc n) = refl

pub nothing : (n i : ℕ) → take {A = Byte} n (drop (suc i) []) ≡ []
nothing zero i = refl
nothing (suc n) i = refl

pub drop-take : (i n : ℕ) (xs : List Byte) → i ≤ n → drop i (take n xs) ≡ take (n - i) (drop i xs)
drop-take zero n xs h = ap (λ m. take m xs) (omega arith)
drop-take (suc i) zero xs h = absurd (omega arith)
drop-take (suc i) (suc n) [] h = sym (nothing (suc n - suc i) i)
drop-take (suc i) (suc n) (x ∷ xs) h =
    drop-take i n xs (omega arith) ∙ ap (λ m. take m (drop i xs)) (omega arith)

pub suc_add : (p i : ℕ) → suc (p + i) ≡ suc p + i
suc_add p i = omega arith

pub drop-drop : (i p : ℕ) (xs : List Byte) → drop i (drop p xs) ≡ drop (p + i) xs
drop-drop i zero xs = ap (λ m. drop m xs) (omega arith)
drop-drop i (suc p) [] = drop-nil i ∙ sym (drop-nil (suc p + i))
drop-drop i (suc p) (x ∷ xs) = drop-drop i p xs ∙ ap (λ m. drop m (x ∷ xs)) (suc_add p i)

-- What is left of the slice after a write of `i` bytes.
pub slice-advance :
    (b : CopyBuffer) (i : ℕ) → i ≤ b.cap - b.pos → slice (advance b i) ≡ drop i (slice b)
slice-advance b i h =
    ap (λ m. take m (drop (b.pos + i) b.buf)) (omega arith)
    ∙ sym (
        drop-take i (b.cap - b.pos) (drop b.pos b.buf) h
        ∙ ap (take (b.cap - b.pos - i)) (drop-drop i b.pos b.buf))

pub if_P :
    {A : Type 0} (P : A → Type 0) (b : Bool) {x y : A}
    → (b ≡ true → P x)
    → (b ≡ false → P y)
    → P (if b then x else y)
if_P P true yes_case no_case = yes_case refl
if_P P false yes_case no_case = no_case refl

pub empty_slice : (b : CopyBuffer) → b.pos ≡ b.cap → slice b ≡ []
empty_slice b e = ap (λ m. take m (drop b.pos b.buf)) {y = 0} (omega arith)

pub length-slice : (b : CopyBuffer) → b.cap ≤ length b.buf → length (slice b) ≡ b.cap - b.pos
length-slice b h =
    length-take (b.cap - b.pos) (drop b.pos b.buf) (omega (arith, length-drop b.pos b.buf))

pub and_left : (a b : Bool) → (a && b) ≡ true → a ≡ true
and_left true b e = refl
and_left false b e = e

pub both_left : (b : CopyBuffer) → ((b.pos == b.cap) && not b.read_done) ≡ true → b.pos ≡ b.cap
both_left b e = eq_of_== b.pos b.cap (and_left _ _ e)

pub below : (a b : ℕ) → ltb a b ≡ true → a < b
below a b h = ground arith

pub never :
    {k : ErrorKind} {a : ℕ}
    → ◌≡◌ {A = Option (Poll (Io ℕ))} (some (ready (err k))) (some (ready (ok a)))
    → false ≡ true
never e =
    ap
      (λ o. elim o [
        | none ↦ false
        | some p ↦ elim p [ pending ↦ false | ready x ↦ elim x [ err _ ↦ false | ok _ ↦ true ] ]
      ])
      e

pub ok_amt :
    {a b : ℕ} → ◌≡◌ {A = Option (Poll (Io ℕ))} (some (ready (ok a))) (some (ready (ok b))) → b ≡ a
ok_amt {a} e = sym (
    ap
      (λ o. elim o [
        | none ↦ a
        | some p ↦ elim p [ pending ↦ a | ready x ↦ elim x [ err _ ↦ a | ok n ↦ n ] ]
      ])
      e)

pub option_P :
    {A X : Type 0} (P : A → Type 0) (o : Option X) {a : A} {f : X → A}
    → (o ≡ none → P a)
    → ((x : X) → o ≡ some x → P (f x))
    → P (elim o [ none ↦ a | some x ↦ f x ])
option_P P none no_case some_case = no_case refl
option_P P (some x) no_case some_case = some_case x refl

pub Poll-cases :
    {A : Type 0} (p : Poll (Io A))
    → (p ≡ pending) ⊎ (((e : ℕ) × (p ≡ ready (err e))) ⊎ ((a : A) × (p ≡ ready (ok a))))
Poll-cases pending = inl refl
Poll-cases (ready (err e)) = inr (inl (e, refl))
Poll-cases (ready (ok a)) = inr (inr (a, refl))
