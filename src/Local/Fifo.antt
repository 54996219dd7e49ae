-- ===== src/Local/Fifo.antt =====
-- The ring of src/executor.rs against a FIFO of its values, when its calls do not overlap.
use native.Mathlib.Nat.{pow-le-pow_right}
use mathlib.Core.Path.{ap₂}
use awak.Prelude.{
  ℕ, ◌-◌, ◌^◌, ◌≤◌, ◌<◌, ◌≡◌, ◌≢◌, refl, ◌∙◌, inl, inr, true, List, [], ◌∷◌, ◌++◌, some, bit_and,
  set, length, length-append, length-set, ltb, if◌then◌else◌, word, wrapping_add, wrapping_sub,
  wrapping_sub-add, lt-cases, lt→ltb, le→ltb, ==_of_ne, ==_of_eq, arith,
}
use awak.Local.{Local, Popped, value, error_empty, Pushed, ok, error_full, pop, push, len, slot}
use awak.Local.Window.{Window, Window-snoc}

-- The ring `l` of `2 ^ k` slots holds the values `xs`, oldest first.
pub record Holds {ℓ} {A : Type ℓ} (k : ℕ) (l : Local A) (xs : List A) : Type ℓ where
  pub width : k ≤ 63
  pub sized : l.capacity ≡ 2 ^ k
  pub masked : l.mask ≡ 2 ^ k - 1
  pub slots : length l.buffer ≡ 2 ^ k
  pub in_range : l.head < word
  pub ends : l.tail ≡ wrapping_add l.head (length xs)
  pub room : length xs ≤ 2 ^ k
  pub held : Window l.mask l.buffer l.head xs

module _ {A : Type 0} where
  -- The specification: the values, oldest first.
  unfoldable pub spec_push : ℕ → List A → A → List A × Pushed A
  spec_push cap xs x = if ltb (length xs) cap then (xs ++ (x ∷ []), ok) else (xs, error_full x)

  unfoldable pub spec_pop : List A → List A × Popped A
  spec_pop [] = ([], error_empty)
  spec_pop (x ∷ xs) = (xs, value x)

  module _ {k : ℕ} {l : Local A} where
    pub narrow : {xs : List A} → Holds k l xs → 2 ^ k ≤ 2 ^ 63
    narrow h = pow-le-pow_right {n = 2} (omega arith) h.width

    -- `tail.wrapping_sub(head)` is the number of values.
    used : {xs : List A} → Holds k l xs → wrapping_sub l.tail l.head ≡ length xs
    used {xs} h =
        rw h.ends (wrapping_sub-add l.head (length xs) h.in_range (omega (arith, h.room, narrow h)))

    pub len-Holds : {xs : List A} → Holds k l xs → len l ≡ length xs
    unfolding len
    len-Holds {xs} h = rw (used h, h.slots) (ground (arith, h.room))

    pub push_room :
        {xs : List A} (x : A)
        → Holds k l xs
        → length xs < 2 ^ k
        → Holds k (push l x).0 (xs ++ (x ∷ [])) × ((push l x).1 ≡ ok)
    unfolding push slot
    push_room {xs} x h lt = rw fits (pushed, refl)
      where
        fits : ltb (wrapping_sub l.tail l.head) (length l.buffer) ≡ true
        fits = rw (used h, h.slots) (lt→ltb _ _ lt)

        at : bit_and l.tail l.mask ≡ bit_and (wrapping_add l.head (length xs)) (2 ^ k - 1)
        at = rw (h.ends, h.masked)

        window :
            Window
              (2 ^ k - 1)
              (set l.buffer (bit_and l.tail l.mask) (some x))
              l.head
              (xs ++ (x ∷ []))
        window =
            Window-snoc k (omega (arith, h.width)) l.buffer l.head _ xs x h.slots h.in_range lt at
              (rw (← h.masked) h.held)

        pushed :
            Holds k
              (record l {
                buffer = set l.buffer (bit_and l.tail l.mask) (some x);
                tail = wrapping_add l.tail 1;
              })
              (xs ++ (x ∷ []))
        pushed = record {
          width = h.width;
          sized = h.sized;
          masked = h.masked;
          slots = length-set l.buffer _ (some x) ∙ h.slots;
          in_range = h.in_range;
          ends = omega (arith, h.ends, length-append xs (x ∷ []));
          room = omega (arith, length-append xs (x ∷ []));
          held = rw (← h.masked) at window;
        }

    push_full :
        {xs : List A} (x : A) → Holds k l xs → 2 ^ k ≤ length xs → push l x ≡ (l, error_full x)
    unfolding push
    push_full {xs} x h le = rw (used h, h.slots, le→ltb _ _ le)

    pub push_refines :
        {xs : List A} (x : A)
        → Holds k l xs
        → let (l', r) = push l x in
          let (xs', r') = spec_push (2 ^ k) xs x in Holds k l' xs' × (r ≡ r')
    unfolding spec_push
    push_refines {xs} x h = elim (lt-cases (length xs) (2 ^ k)) [
      | inl lt ↦ rw (lt→ltb _ _ lt) (push_room x h lt)
      | inr le ↦ rw (le→ltb _ _ le, push_full x h le) (h, refl)
    ]

    pub pop_refines :
        (xs : List A)
        → Holds k l xs
        → let (l', r) = pop l in let (xs', r') = spec_pop xs in Holds k l' xs' × (r ≡ r')
    unfolding pop slot spec_pop
    pop_refines [] h = rw (==_of_eq l.head l.tail (omega (arith, h.ends, h.in_range))) (h, refl)
    pop_refines (x ∷ xs) h =
        rw (==_of_ne l.head l.tail apart, h.held.0)
          (
            record {
              width = h.width;
              sized = h.sized;
              masked = h.masked;
              slots = h.slots;
              in_range = omega arith;
              ends = omega (arith, h.ends);
              room = omega (arith, h.room);
              held = h.held.1;
            },
            refl,
          )
      where
        apart : l.head ≢ l.tail
        apart = omega (arith, h.ends, h.in_range, h.room, narrow h)

-- The calls that threads make on a ring one after another, and what each returns.
pub data Call (A : Type 0) : Type 0 where
  pushes : A → Call A
  pops lens : Call A

pub data Reply (A : Type 0) : Type 0 where
  pushed : Pushed A → Reply A
  popped : Popped A → Reply A
  counted : ℕ → Reply A

module _ {A : Type 0} where
  unfoldable pub run : Local A → List (Call A) → List (Reply A)
  unfolding push pop len slot
  run l [] = []
  run l (pushes x ∷ cs) = let (l', r) = push l x in pushed r ∷ run l' cs
  run l (pops ∷ cs) = let (l', r) = pop l in popped r ∷ run l' cs
  run l (lens ∷ cs) = counted (len l) ∷ run l cs

  unfoldable pub spec_run : ℕ → List A → List (Call A) → List (Reply A)
  unfolding spec_push spec_pop
  spec_run cap xs [] = []
  spec_run cap xs (pushes x ∷ cs) =
      let (xs', r) = spec_push cap xs x in pushed r ∷ spec_run cap xs' cs
  spec_run cap xs (pops ∷ cs) = let (xs', r) = spec_pop xs in popped r ∷ spec_run cap xs' cs
  spec_run cap xs (lens ∷ cs) = counted (length xs) ∷ spec_run cap xs cs

  -- A ring of `2 ^ k` slots, `k ≤ 63`, that holds `xs` answers every sequence of `push`, `pop` and
  -- `len` calls as the FIFO of `xs` with that bound does, wherever `head` stands in the range of a
  -- `usize`: also when the positions wrap. In particular no call reads an uninitialised slot.
  pub ring_refines :
      {k : ℕ} (cs : List (Call A)) {l : Local A} {xs : List A}
      → Holds k l xs
      → run l cs ≡ spec_run (2 ^ k) xs cs
  unfolding run spec_run
  ring_refines [] h = refl
  ring_refines (pushes x ∷ cs) h =
      let (h', r) = push_refines x h in ap₂ (λ a b. pushed a ∷ b) r (ring_refines cs h')
  ring_refines (pops ∷ cs) {xs = xs} h =
      let (h', r) = pop_refines xs h in ap₂ (λ a b. popped a ∷ b) r (ring_refines cs h')
  ring_refines (lens ∷ cs) h = ap₂ (λ a b. counted a ∷ b) (len-Holds h) (ring_refines cs h)
