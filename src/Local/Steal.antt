-- ===== src/Local/Steal.antt =====
-- `Local::steal` of src/executor.rs: what it moves. The closure
-- `f` draws from the global queue or from the ring of another ticker: `IsSource` is what the loop
-- needs to know of it.
use awak.Prelude.{
  ℕ, zero, suc, ◌+◌, ◌-◌, ◌/◌, ◌^◌, ◌≤◌, ◌≡◌, refl, ap, ◌∙◌, inl, inr, Option, none, some, List, [],
  ◌∷◌, ◌++◌, append-nil, append_assoc, take, drop, length, length-append, min, wrapping_sub, lt→ltb,
  le→ltb, lt-cases, arith,
}
use awak.Queue
use awak.Queue.{Queue}
use awak.Queue.Fifo
use awak.Local.{Local, value, pop, len, Stolen, steal_loop, steal}
use awak.Local.Fifo.{Holds, spec_pop, push_room, pop_refines, len-Holds, narrow}

module _ {A S : Type 0} where
  -- One call of `f` takes the first of the values that the source holds.
  abbrev pub Draws : (S → List A → Type 0) → List A → Option (A × S) → Type 0
  Draws Src [] r = r ≡ none
  Draws Src (y ∷ ys) r = (s : S) × (r ≡ some (y, s)) × Src s ys

  pub record IsSource (f : S → Option (A × S)) (Src : S → List A → Type 0) : Type 0 where
    pub draws : (s : S) (ys : List A) → Src s ys → Draws Src ys (f s)

  -- What the source still holds, how the ring ends up, and that nothing was dropped.
  pub record Moves (k n : ℕ) (Src : S → List A → Type 0) (xs ys : List A) (r : Stolen A S)
      : Type 0 where
    pub into : Holds k r.into (xs ++ take n ys)
    pub rest : Src r.source (drop n ys)
    pub none_lost : r.dropped ≡ []

  module _ {f : S → Option (A × S)} {Src : S → List A → Type 0} (is_source : IsSource f Src) where
    -- `n` rounds that fit move the first `n` values of the source, in order.
    steal_loop-Moves :
        {k : ℕ} (n : ℕ) {l : Local A} {s : S} {xs : List A} (ys : List A)
        → Holds k l xs
        → Src s ys
        → length xs + n ≤ 2 ^ k
        → Moves k n Src xs ys (steal_loop f n l s)
    unfolding steal_loop
    steal_loop-Moves zero {xs = xs} ys h src fits = record {
      into = rw (append-nil xs) h;
      rest = src;
      none_lost = refl;
    }
    steal_loop-Moves (suc n) {s = s} {xs = xs} [] h src fits =
        rw (is_source.draws s [] src, steal_loop)
          (record { into = rw (append-nil xs) h; rest = src; none_lost = refl })
    steal_loop-Moves (suc n) {l} {s} {xs} (y ∷ ys) h src fits =
        let (s', drawn, src') = is_source.draws s (y ∷ ys) src in
        let (h', done) = push_room {xs = xs} y h (omega arith) in
        let m = steal_loop-Moves n ys h' src' (omega (arith, length-append xs (y ∷ []))) in
        rw (drawn, steal_loop, done)
          (record {
            into = rw (← append_assoc xs (y ∷ []) (take n ys)) m.into;
            rest = m.rest;
            none_lost = m.none_lost;
          })

    -- On a ring of `2 ^ k` slots that holds `xs`, `steal` for a source that holds `ys` and is said
    -- to have `size` values moves half of `size`, rounded up, but no more than the ring has room
    -- for, from the front of the source to the end of the ring, in order. The source keeps the
    -- rest; no `push` of the loop fails, so no value is dropped.
    pub steal-Moves :
        {k : ℕ} (size : ℕ) {l : Local A} {s : S} {xs : List A} (ys : List A)
        → Holds k l xs
        → Src s ys
        → Moves k (min ((size + 1) / 2) (2 ^ k - length xs)) Src xs ys (steal f l size s)
    unfolding steal
    steal-Moves {k} size {l} {s} {xs} ys h src = elim (lt-cases 0 ((size + 1) / 2)) [
      | inl some_rounds ↦
          rw (lt→ltb _ _ some_rounds, room) (steal_loop-Moves _ ys h src (omega (arith, h.room)))
      | inr no_rounds ↦
          rw (le→ltb _ _ no_rounds, none_asked no_rounds)
            (record { into = rw (append-nil xs) h; rest = src; none_lost = refl })
    ]
      where
        room : wrapping_sub l.capacity (len l) ≡ 2 ^ k - length xs
        room = omega (arith, h.sized, len-Holds h, h.room, narrow h)

        none_asked : (size + 1) / 2 ≤ 0 → min ((size + 1) / 2) (2 ^ k - length xs) ≡ 0
        none_asked e = omega arith

-- `|| self.state.queue.pop().ok()`
unfoldable pub pop_queue {ℓ} : {A : Type ℓ} → Queue A → Option (A × Queue A)
pop_queue q = let (q', r) = Queue.pop q in elim r [ Queue.ok x ↦ some (x, q') | Queue.err e ↦ none ]

-- `|| shard.local.pop().ok()`
unfoldable pub pop_shard {ℓ} : {A : Type ℓ} → Local A → Option (A × Local A)
pop_shard l = let (l', r) = pop l in elim r [ value x ↦ some (x, l') | _ ↦ none ]

module _ {A : Type 0} where
  abbrev pub QueueHolds : Queue A → List A → Type 0
  QueueHolds q xs = Queue.Fifo.IsValid q × (q.queue ≡ xs)

  pub queue_source : IsSource pop_queue QueueHolds
  unfolding pop_queue Queue.Fifo.spec_pop
  queue_source = record { draws = go }
    where
      go : (q : Queue A) (ys : List A) → QueueHolds q ys → Draws QueueHolds ys (pop_queue q)
      go q [] (v, e) =
          let popped : (Queue.pop q).1 ≡ Queue.err Queue.empty =
            ap (λ t. t.1) (Queue.Fifo.pop_refines q v) ∙ rw e in
          rw (popped, pop_queue)
      go q (y ∷ ys) (v, e) =
          let popped : (Queue.pop q).1 ≡ Queue.ok y =
            ap (λ t. t.1) (Queue.Fifo.pop_refines q v) ∙ rw e in
          let left : (Queue.pop q).0.queue ≡ ys =
            ap (λ t. t.0) (Queue.Fifo.pop_refines q v) ∙ rw e in
          ((Queue.pop q).0, rw (popped, pop_queue), (Queue.Fifo.pop-IsValid q v, left))

  pub shard_source : (k : ℕ) → IsSource {A = A} pop_shard (Holds k)
  unfolding pop_shard spec_pop
  shard_source k = record { draws = go }
    where
      go : (s : Local A) (ys : List A) → Holds k s ys → Draws (Holds k) ys (pop_shard s)
      go s [] h = let (h', e) = pop_refines [] h in rw (e, pop_shard)
      go s (y ∷ ys) h = let (h', e) = pop_refines (y ∷ ys) h in ((pop s).0, rw (e, pop_shard), h')
