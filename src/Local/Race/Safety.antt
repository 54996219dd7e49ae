-- ===== src/Local/Race/Safety.antt =====
-- The logs of pushes and pops of the ring of src/executor.rs, over every interleaving of one owner
-- and any number of thieves.
use awak.Prelude.{
  ℕ, ◌^◌, ◌≤◌, ◌<◌, ◌≡◌, refl, subst, List, [], ◌∷◌, ◌++◌, map, length, length-append, word, arith,
}
use awak.Local.{value, slot, new}
use awak.Local.Fifo.{Holds}
use awak.Local.New.{new-Holds}
use awak.Local.Race.{
  PushPc, PopPc, System, update, Step, push_load, push_full, push_write, push_store, pop_load,
  pop_empty, pop_test, pop_read, pop_win, pop_lose, start, Reach, here, next,
}
use awak.Local.Race.Invariant.{Owner, Thief, Inv, no_wrap, update_all}
use awak.Local.Race.Moves.{push_write-Inv, push_store-Inv, pop_win-Inv}

module _ {A : Type 0} where
  -- The log of pushes only grows.
  pushed_grows : {s t : System A} → Step s t → length s.pushed ≤ length t.pushed
  pushed_grows {s} (push_store v e) = omega (arith, length-append s.pushed (v ∷ []))
  pushed_grows (push_load v e) = omega arith
  pushed_grows _ = omega arith

  -- A step that only loads changes what one thread knows.
  set_owner :
      {k : ℕ} {s : System A} (o : PushPc A) (inv : Inv k s)
      → Owner k s.ring inv.values o
      → Inv k (record s { owner = o })
  set_owner o inv new = record {
    values = inv.values;
    holds = inv.holds;
    logged = inv.logged;
    counted = inv.counted;
    owner = new;
    thief = inv.thief;
  }

  set_thief :
      {k : ℕ} {s : System A} (i : ℕ) (p : PopPc A) (inv : Inv k s)
      → Thief s.ring p
      → Inv k (record s { thief = update s.thief i p })
  set_thief {s = s} i p inv new = record {
    values = inv.values;
    holds = inv.holds;
    logged = inv.logged;
    counted = inv.counted;
    owner = inv.owner;
    thief = update_all (Thief s.ring) s.thief i p new inv.thief;
  }

  Step-Inv : {k : ℕ} {s t : System A} → Step s t → length t.pushed < word → Inv k s → Inv k t
  unfolding slot
  Step-Inv {s = s} (push_load v e) few inv =
      set_owner (PushPc.loaded v s.ring.head) inv (omega arith)
  Step-Inv (push_full v h e le) few inv = set_owner PushPc.idle inv tt
  Step-Inv (push_write v h e lt) few inv = push_write-Inv v h e lt few inv
  Step-Inv (push_store v e) few inv = push_store-Inv v e few inv
  Step-Inv {s = s} (pop_load i e) few inv = set_thief i (PopPc.loaded s.ring.head) inv (omega arith)
  Step-Inv (pop_empty i h e at_tail) few inv = set_thief i PopPc.idle inv tt
  Step-Inv {s = s} (pop_test i h e ne) few inv =
      let former : h ≤ s.ring.head = subst (Thief s.ring) e (inv.thief i) in
      set_thief i (PopPc.nonempty h) inv (former, omega (arith, no_wrap inv few))
  Step-Inv {s = s} (pop_read i h e) few inv =
      let known : (h ≤ s.ring.head) × (h < s.ring.tail) = subst (Thief s.ring) e (inv.thief i) in
      set_thief i (PopPc.claiming h _) inv (known.0, known.1, λ _. refl)
  Step-Inv (pop_win i h v e eq) few inv = pop_win-Inv i h v e eq few inv
  Step-Inv {s = s} (pop_lose i h v e ne) few inv =
      set_thief i (PopPc.loaded s.ring.head) inv (omega arith)

  start-Inv : (n : ℕ) → n ≤ 2 ^ 63 → (k : ℕ) × Inv k (start A n)
  unfolding new
  start-Inv n h =
      let (p, holds) = new-Holds n h in
      (
        p.exponent,
        record {
          values = [];
          holds = holds;
          logged = refl;
          counted = refl;
          owner = tt;
          thief = λ i. tt;
        },
      )

  Reach-Inv :
      {n : ℕ} {s : System A} → n ≤ 2 ^ 63 → Reach n s → length s.pushed < word → (k : ℕ) × Inv k s
  Reach-Inv {n} small here few = start-Inv n small
  Reach-Inv small (next r st) few =
      let (k, inv) = Reach-Inv small r (omega (arith, pushed_grows st)) in (k, Step-Inv st few inv)

  -- In every state that one pusher and any number of poppers reach, in any interleaving of their
  -- shared accesses, from a new ring asked for `n ≤ 2 ^ 63` slots and with fewer than `2 ^ 64`
  -- values pushed so far: what the successful pops have returned, in the order of their exchanges,
  -- followed by the values that the ring holds, is what was pushed, in order. So no value is lost,
  -- returned twice or out of order, and no pop returns an uninitialised slot.
  pub popped-pushed :
      {n : ℕ} {s : System A}
      → n ≤ 2 ^ 63
      → Reach n s
      → length s.pushed < word
      → (k : ℕ) × (xs : List A) × Holds k s.ring xs
        × (s.popped ++ map value xs ≡ map value s.pushed)
  popped-pushed small r few =
      let (k, inv) = Reach-Inv small r few in (k, inv.values, inv.holds, inv.logged)
