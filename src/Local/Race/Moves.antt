-- ===== src/Local/Race/Moves.antt =====
-- One lemma for each step of `Local::push` and `Local::pop` of src/executor.rs that writes memory.
use mathlib.Core.List.{map-append}
use awak.Prelude.{
  ℕ, ◌+◌, ◌-◌, ◌^◌, ◌≤◌, ◌<◌, ◌≡◌, refl, sym, ◌∙◌, subst, Option, none, some, List, [], ◌∷◌, ◌++◌,
  map, append_assoc, length, length-append, length-set, get_or, set, word, wrapping_add,
  wrapping_sub, bit_and, arith,
}
use awak.Local.{Local, value, slot, assume_init}
use awak.Local.Fifo.{Holds}
use awak.Local.Window.{Window, Window-snoc}
use awak.Local.Race.{PushPc, PopPc, System, update}
use awak.Local.Race.Invariant.{Owner, Thief, Inv, no_wrap, update_all}
use awak.Local.Race.Known.{Window-prefix, first_same, Thief-mono}

module _ {A : Type 0} where
  pub push_write-Inv :
      {k : ℕ} {s : System A} (v : A) (h : ℕ)
      → s.owner ≡ PushPc.loaded v h
      → wrapping_sub s.ring.tail h < length s.ring.buffer
      → length s.pushed < word
      → Inv k s
      → Inv k (record s {
        ring = record (s.ring) { buffer = set s.ring.buffer (slot s.ring s.ring.tail) (some v) };
        owner = PushPc.written v;
      })
  unfolding slot
  push_write-Inv {k} {s} v h at lt few inv = record {
    values = inv.values;
    holds = record {
      width = inv.holds.width;
      sized = inv.holds.sized;
      masked = inv.holds.masked;
      slots = length-set _ _ _ ∙ inv.holds.slots;
      in_range = inv.holds.in_range;
      ends = inv.holds.ends;
      room = inv.holds.room;
      held = kept;
    };
    logged = inv.logged;
    counted = inv.counted;
    owner = (room, extended);
    thief = λ i.
        Thief-mono s.ring (record (s.ring) { buffer = after }) (s.thief i) (omega arith)
          (omega arith) unread (inv.thief i);
  }
    where
      written_at : ℕ
      written_at = bit_and s.ring.tail s.ring.mask

      after : List (Option A)
      after = set s.ring.buffer written_at (some v)

      former : h ≤ s.ring.head
      former = subst (Owner k s.ring inv.values) at inv.owner

      room : length inv.values < 2 ^ k
      room = omega (arith, lt, former, inv.holds.slots, no_wrap inv few, few)

      at_end : written_at ≡ bit_and (wrapping_add s.ring.head (length inv.values)) (2 ^ k - 1)
      at_end = rw (inv.holds.ends, inv.holds.masked)

      extended : Window s.ring.mask after s.ring.head (inv.values ++ (v ∷ []))
      extended =
          let w : Window (2 ^ k - 1) after s.ring.head (inv.values ++ (v ∷ [])) =
            Window-snoc k (omega (arith, inv.holds.width)) s.ring.buffer s.ring.head written_at
              inv.values v inv.holds.slots inv.holds.in_range room at_end
              (rw (← inv.holds.masked) inv.holds.held) in
          rw (← inv.holds.masked) at w

      kept : Window s.ring.mask after s.ring.head inv.values
      kept = Window-prefix s.ring.mask after s.ring.head inv.values (v ∷ []) extended

      unread :
          s.ring.head < s.ring.tail
          → s.ring.head ≡ s.ring.head
          → get_or after (bit_and s.ring.head s.ring.mask) none
            ≡ get_or s.ring.buffer (bit_and s.ring.head s.ring.mask) none
      unread lt' e =
          first_same s.ring.mask s.ring.buffer after s.ring.head inv.values
            (omega (arith, no_wrap inv few)) inv.holds.held kept

  pub push_store-Inv :
      {k : ℕ} {s : System A} (v : A)
      → s.owner ≡ PushPc.written v
      → length (s.pushed ++ (v ∷ [])) < word
      → Inv k s
      → Inv k (record s {
        ring = record (s.ring) { tail = wrapping_add s.ring.tail 1 };
        owner = PushPc.idle;
        pushed = s.pushed ++ (v ∷ []);
      })
  unfolding slot
  push_store-Inv {k} {s} v at few inv = record {
    values = inv.values ++ (v ∷ []);
    holds = record {
      width = inv.holds.width;
      sized = inv.holds.sized;
      masked = inv.holds.masked;
      slots = inv.holds.slots;
      in_range = inv.holds.in_range;
      ends = omega (arith, inv.holds.ends, length-append inv.values (v ∷ []));
      room = omega (arith, length-append inv.values (v ∷ []), known.0);
      held = known.1;
    };
    logged = logged;
    counted = inv.counted;
    owner = tt;
    thief = λ i.
        Thief-mono s.ring (record (s.ring) { tail = wrapping_add s.ring.tail 1 }) (s.thief i)
          (omega arith) (omega (arith, grown)) (λ lt e. refl) (inv.thief i);
  }
    where
      few_before : length s.pushed + 1 < word
      few_before = omega (arith, few, length-append s.pushed (v ∷ []))

      known :
          (length inv.values < 2 ^ k)
          × Window s.ring.mask s.ring.buffer s.ring.head (inv.values ++ (v ∷ []))
      known = subst (Owner k s.ring inv.values) at inv.owner

      grown : wrapping_add s.ring.tail 1 ≡ s.ring.tail + 1
      grown = omega (arith, no_wrap inv (omega (arith, few_before)), few_before)

      logged : s.popped ++ map value (inv.values ++ (v ∷ [])) ≡ map value (s.pushed ++ (v ∷ []))
      logged = rw (
        map-append value inv.values (v ∷ []),
        map-append value s.pushed (v ∷ []),
        ← append_assoc s.popped (map value inv.values) (value v ∷ []),
        inv.logged,
      )

  -- After the exchange the owner's `head` is still a former one, and its value still comes last.
  Owner-pop :
      (k : ℕ) (l : Local A) (y : A) (ys : List A) (p : PushPc A)
      → wrapping_add l.head 1 ≡ l.head + 1
      → Owner k l (y ∷ ys) p
      → Owner k (record l { head = wrapping_add l.head 1 }) ys p
  Owner-pop k l y ys PushPc.idle up o = tt
  Owner-pop k l y ys (PushPc.loaded v h) up o = omega arith
  Owner-pop k l y ys (PushPc.written v) up o = (omega arith, o.1.1)

  pub pop_win-Inv :
      {k : ℕ} {s : System A} (i h : ℕ) (v : Option A)
      → s.thief i ≡ PopPc.claiming h v
      → s.ring.head ≡ h
      → length s.pushed < word
      → Inv k s
      → Inv k (record s {
        ring = record (s.ring) { head = wrapping_add h 1 };
        thief = update s.thief i PopPc.idle;
        popped = s.popped ++ (assume_init v ∷ []);
      })
  unfolding slot
  pop_win-Inv {k} {s} i h v at eq few inv =
      rw (← eq) (win inv.values inv.holds inv.logged inv.owner (no_wrap inv few))
    where
      claim :
          (h ≤ s.ring.head)
          × (h < s.ring.tail)
          × (h ≡ s.ring.head → get_or s.ring.buffer (bit_and h s.ring.mask) none ≡ v)
      claim = subst (Thief s.ring) at (inv.thief i)

      read : get_or s.ring.buffer (bit_and s.ring.head s.ring.mask) none ≡ v
      read = rw eq (claim.2 (sym eq))

      win :
          (xs : List A)
          → Holds k s.ring xs
          → s.popped ++ map value xs ≡ map value s.pushed
          → Owner k s.ring xs s.owner
          → (s.ring.tail ≡ s.ring.head + length xs) × (length s.pushed ≡ s.ring.head + length xs)
          → Inv k (record s {
            ring = record (s.ring) { head = wrapping_add s.ring.head 1 };
            thief = update s.thief i PopPc.idle;
            popped = s.popped ++ (assume_init v ∷ []);
          })
      win [] hd logged owner bounds = absurd (omega (arith, claim.1, bounds))
      win (y ∷ ys) hd logged owner bounds = record {
        values = ys;
        holds = record {
          width = hd.width;
          sized = hd.sized;
          masked = hd.masked;
          slots = hd.slots;
          in_range = omega arith;
          ends = omega (arith, hd.ends);
          room = omega (arith, hd.room);
          held = hd.held.1;
        };
        logged =
            rw (sym read ∙ hd.held.0)
              (append_assoc s.popped (value y ∷ []) (map value ys) ∙ logged);
        counted = omega (arith, inv.counted, length-append s.popped (assume_init v ∷ []), up);
        owner = Owner-pop k s.ring y ys s.owner up owner;
        thief = update_all (Thief after) s.thief i PopPc.idle tt (λ j.
            Thief-mono s.ring after (s.thief j) (omega (arith, up)) (omega arith)
              (λ lt e. absurd (omega (arith, up))) (inv.thief j));
      }
        where
          up : wrapping_add s.ring.head 1 ≡ s.ring.head + 1
          up = omega (arith, few, bounds)

          after : Local A
          after = record (s.ring) { head = wrapping_add s.ring.head 1 }
