-- ===== src/Local.antt =====
-- `Local` of src/executor.rs: the ring buffer that each ticker owns. Its owner pushes, and every
-- thread pops. Here a method runs with no other thread in between, so that the compare-exchange of
-- `pop` succeeds at once; `Local.Race` takes the same methods apart into their shared accesses.
pub mod Window
pub mod New
pub mod Fifo
pub mod Steal
pub mod Race
mod Tests
use awak.Prelude.{
  ℕ, zero, suc, ◌+◌, ◌-◌, ◌*◌, ◌/◌, min, Option, none, some, List, [], ◌∷◌, ◌++◌, bit_and, ltb, leb,
  ◌==◌, if◌then◌else◌, get_or, set, replicate, length, wrapping_add, wrapping_sub,
}

-- The two atomics hold `usize` values. A slot is `none` as long as nothing was written to it
-- (`MaybeUninit::uninit`).
pub record Local {ℓ} (A : Type ℓ) : Type ℓ where
  pub head : ℕ
  pub tail : ℕ
  pub mask : ℕ
  pub buffer : List (Option A)
  pub capacity : ℕ

-- What `pop` returns. `uninit` is no value of the program: it stands for `assume_init` on a slot
-- that was never written.
pub data Popped {ℓ} (A : Type ℓ) : Type ℓ where
  value : A → Popped A
  error_empty : Popped A
  uninit : Popped A

pub data Pushed {ℓ} (A : Type ℓ) : Type ℓ where
  ok : Pushed A
  error_full : A → Pushed A

-- `usize::next_power_of_two` of the standard library: the least power of two that is at least `n`,
-- tried from `p` on. A `usize` needs no more than 64 rounds.
power_from : ℕ → ℕ → ℕ → ℕ
power_from zero n p = p
power_from (suc rounds) n p = let next = power_from rounds n (2 * p) in if leb n p then p else next

unfoldable pub next_power_of_two : ℕ → ℕ
unfolding power_from
next_power_of_two n = power_from 64 n 1

-- What `steal` did: the ring, the source of `f` with what is left of it, and the values that a
-- failed `push` dropped (`let _ = self.push(t)`).
pub record Stolen {ℓ} (A S : Type ℓ) : Type ℓ where
  pub into : Local A
  pub source : S
  pub dropped : List A

module _ {ℓ} {A : Type ℓ} where
  unfoldable pub new : ℕ → Local A
  new n =
      let capacity = next_power_of_two n in
      record {
        head = 0;
        tail = 0;
        mask = capacity - 1;
        buffer = replicate capacity none;
        capacity = capacity;
      }

  -- `head & self.mask`
  unfoldable pub slot : Local A → ℕ → ℕ
  slot l position = bit_and position l.mask

  abbrev pub assume_init : Option A → Popped A
  assume_init none = uninit
  assume_init (some a) = value a

  unfoldable pub pop : Local A → Local A × Popped A
  pop l = if l.head == l.tail then (l, error_empty) else (
    record l { head = wrapping_add l.head 1 },
    assume_init (get_or l.buffer (slot l l.head) none),
  )

  unfoldable pub push : Local A → A → Local A × Pushed A
  push l v =
      if ltb (wrapping_sub l.tail l.head) (length l.buffer)
      then (
        record l { buffer = set l.buffer (slot l l.tail) (some v); tail = wrapping_add l.tail 1 },
        ok,
      )
      else (l, error_full v)

  unfoldable pub len : Local A → ℕ
  len l = let n = wrapping_sub l.tail l.head in if leb n (length l.buffer) then n else l.capacity

  abbrev pub lost : Pushed A → List A
  lost ok = []
  lost (error_full v) = v ∷ []

  module _ {S : Type ℓ} (f : S → Option (A × S)) where
    -- `f` is the closure that `steal` calls, over the state that it draws from.
    unfoldable pub steal_loop : ℕ → Local A → S → Stolen A S
    steal_loop zero l s = record { into = l; source = s; dropped = [] }
    steal_loop (suc count) l s = elim (f s) [
      | none ↦ record { into = l; source = s; dropped = [] }
      | some (t, s') ↦
          let (l', r) = push l t in
          let rest = steal_loop count l' s' in record rest { dropped = lost r ++ rest.dropped }
    ]

    unfoldable pub steal : Local A → ℕ → S → Stolen A S
    steal l size s =
        let count = (size + 1) / 2 in
        if ltb 0 count
        then steal_loop (min count (wrapping_sub l.capacity (len l))) l s
        else record { into = l; source = s; dropped = [] }
