-- ===== src/Local/Race/Known.antt =====
-- What a thread knows of the ring of src/executor.rs survives the steps of the others.
use awak.Prelude.{
  ℕ, ◌≤◌, ◌<◌, ◌≡◌, sym, ◌∙◌, subst, Option, none, List, [], ◌∷◌, ◌++◌, length, get_or,
  wrapping_add, bit_and, arith,
}
use awak.Local.{Local, slot}
use awak.Local.Window.{Window}
use awak.Local.Race.{PopPc}
use awak.Local.Race.Invariant.{Thief}

module _ {A : Type 0} where
  pub Window-prefix :
      (m : ℕ) (b : List (Option A)) (p : ℕ) (xs ys : List A)
      → Window m b p (xs ++ ys)
      → Window m b p xs
  Window-prefix m b p [] ys w = tt
  Window-prefix m b p (x ∷ xs) ys w = (w.0, Window-prefix m b (wrapping_add p 1) xs ys w.1)

  -- Two buffers that hold the same values agree in the first slot.
  pub first_same :
      (m : ℕ) (b c : List (Option A)) (p : ℕ) (xs : List A)
      → 0 < length xs
      → Window m b p xs
      → Window m c p xs
      → get_or c (bit_and p m) none ≡ get_or b (bit_and p m) none
  first_same m b c p [] some_value w u = absurd (omega arith)
  first_same m b c p (x ∷ xs) some_value w u = u.0 ∙ sym w.0

  -- What a thread that pops knows survives a change of the ring that moves neither position back
  -- and leaves the first slot alone.
  pub Thief-mono :
      (l l' : Local A) (p : PopPc A)
      → l.head ≤ l'.head
      → l.tail ≤ l'.tail
      → (l.head < l.tail
          → l'.head ≡ l.head
          → get_or l'.buffer (slot l' l.head) none ≡ get_or l.buffer (slot l l.head) none)
      → Thief l p
      → Thief l' p
  Thief-mono l l' PopPc.idle up on same k = tt
  Thief-mono l l' (PopPc.loaded h) up on same k = omega arith
  Thief-mono l l' (PopPc.nonempty h) up on same k = omega arith
  Thief-mono l l' (PopPc.claiming h v) up on same k = (omega arith, omega arith, read)
    where
      read : h ≡ l'.head → get_or l'.buffer (slot l' h) none ≡ v
      read e =
          let here : h ≡ l.head = omega arith in
          rw here (
            same (omega arith) (omega arith)
            ∙ subst (λ (q : ℕ). get_or l.buffer (slot l q) none ≡ v) here (k.2 here))
