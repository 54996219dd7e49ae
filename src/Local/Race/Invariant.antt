-- ===== src/Local/Race/Invariant.antt =====
-- What each thread knows of the ring of src/executor.rs between its accesses, kept by every step.
use awak.Prelude.{
  ℕ, ◌+◌, ◌^◌, ◌≤◌, ◌<◌, ◌≡◌, ap, inl, inr, none, List, [], ◌∷◌, ◌++◌, map, length, length-append,
  length-map, get_or, ◌==◌, word, Bool-cases, arith,
}
use awak.Local.{Local, Popped, value, slot, new}
use awak.Local.Fifo.{Holds}
use awak.Local.Window.{Window}
use awak.Local.Race.{PushPc, PopPc, System, update}

module _ {A : Type 0} where
  -- The owner knows that `head` only grows, and, once it has written, that its value follows `xs`.
  abbrev pub Owner : ℕ → Local A → List A → PushPc A → Type 0
  Owner k l xs PushPc.idle = Unit
  Owner k l xs (PushPc.loaded v h) = h ≤ l.head
  Owner k l xs (PushPc.written v) =
      (length xs < 2 ^ k) × Window l.mask l.buffer l.head (xs ++ (v ∷ []))

  -- A thread that pops knows a former `head`; what it has read is in the slot if `head` has not
  -- moved.
  abbrev pub Thief : Local A → PopPc A → Type 0
  Thief l PopPc.idle = Unit
  Thief l (PopPc.loaded h) = h ≤ l.head
  Thief l (PopPc.nonempty h) = (h ≤ l.head) × (h < l.tail)
  Thief l (PopPc.claiming h v) =
      (h ≤ l.head) × (h < l.tail) × (h ≡ l.head → get_or l.buffer (slot l h) none ≡ v)

  pub record Inv (k : ℕ) (s : System A) : Type 0 where
    pub values : List A
    pub holds : Holds k s.ring values
    pub logged : s.popped ++ map value values ≡ map value s.pushed
    pub counted : s.ring.head ≡ length s.popped
    pub owner : Owner k s.ring values s.owner
    pub thief : (i : ℕ) → Thief s.ring (s.thief i)

  -- No position wraps as long as fewer than `word` values have been pushed.
  pub no_wrap :
      {k : ℕ} {s : System A} (v : Inv k s)
      → length s.pushed < word
      → (s.ring.tail ≡ s.ring.head + length v.values)
        × (length s.pushed ≡ s.ring.head + length v.values)
  no_wrap {k} {s} v few = (omega (arith, total, v.holds.ends), total)
    where
      total : length s.pushed ≡ s.ring.head + length v.values
      total = omega (
        arith,
        ap length v.logged,
        length-append s.popped (map value v.values),
        length-map value v.values,
        length-map {B = Popped A} value s.pushed,
        v.counted,
      )

  pub update_all :
      (P : PopPc A → Type 0) (f : ℕ → PopPc A) (i : ℕ) (p : PopPc A)
      → P p
      → ((j : ℕ) → P (f j))
      → (j : ℕ) → P (update f i p j)
  update_all P f i p new all j = elim (Bool-cases (i == j)) [
    | inl same ↦ rw same new
    | inr other ↦ rw other (all j)
  ]
