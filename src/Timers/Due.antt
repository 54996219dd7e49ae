-- ===== src/Timers/Due.antt =====
-- Which timers `process_timers` of src/io/reactor.rs fires, and when the next one is due.
use awak.Prelude.{
  ℕ, zero, suc, ◌+◌, ◌-◌, ◌≤◌, ◌≡◌, refl, ap, ◌∙◌, subst, inl, inr, Option, none, some, List, [],
  ◌∷◌, Bool, true, false, not, ltb, map, filter, filter-same, Bool-cases, arith,
}
use awak.Queue.Fifo.{IsValid}
use awak.Sleepers.{Waker}
use awak.Timers.{
  TimerOp, insert, remove, map_insert, map_remove, key_eq, Timers, Key, key_lt, Reactor,
  process_timer_ops, process_timers, duration, split_off,
}
use awak.Timers.Process.{view, apply_all, process_drains}

-- The entries before and from an instant.
abbrev pub due : ℕ → Timers → Timers
due now m = filter (λ e. ltb e.0.when now) m

abbrev pub later : ℕ → Timers → Timers
later now m = filter (λ e. not (ltb e.0.when now)) m

before_key : (k : Key) (now : ℕ) → key_lt k (record { when = now; id = 0 }) ≡ ltb k.when now
unfolding key_lt
before_key k now = ground arith

split_at :
    (now : ℕ) (m : Timers) → split_off (record { when = now; id = 0 }) m ≡ (due now m, later now m)
split_at now m = λ i.
    (filter-same (λ e. before_key e.0 now) m i, filter-same (λ e. ap not (before_key e.0 now)) m i)

-- Every entry is at `n` or after.
abbrev pub Least : ℕ → Timers → Type 0
Least n [] = Unit
Least n (e ∷ m) = (n ≤ e.0.when) × Least n m

-- The entries are in the order of their instants.
abbrev pub Sorted : Timers → Type 0
Sorted [] = Unit
Sorted (e ∷ m) = Least e.0.when m × Sorted m

Least-weaken : (a b : ℕ) (m : Timers) → a ≤ b → Least b m → Least a m
Least-weaken a b [] h l = tt
Least-weaken a b (e ∷ m) h (x, l) = (omega arith, Least-weaken a b m h l)

Least-filter : (n : ℕ) (p : Key × Waker → Bool) (m : Timers) → Least n m → Least n (filter p m)
Least-filter n p [] l = tt
Least-filter n p (e ∷ m) (x, l) = elim (Bool-cases (p e)) [
  | inl kept ↦ rw (kept, Least) (x, Least-filter n p m l)
  | inr gone ↦ rw (gone, Least) (Least-filter n p m l)
]

Sorted-filter : (p : Key × Waker → Bool) (m : Timers) → Sorted m → Sorted (filter p m)
Sorted-filter p [] s = tt
Sorted-filter p (e ∷ m) (l, s) = elim (Bool-cases (p e)) [
  | inl kept ↦ rw (kept, Sorted) (Least-filter e.0.when p m l, Sorted-filter p m s)
  | inr gone ↦ rw (gone, Sorted) (Sorted-filter p m s)
]

key_lt-when : (a b : Key) → key_lt a b ≡ true → a.when ≤ b.when
unfolding key_lt
key_lt-when a b h = ground arith

key_ge-when : (a b : Key) → key_lt a b ≡ false → b.when ≤ a.when
unfolding key_lt
key_ge-when a b h = ground arith

key_eq-when : (a b : Key) → key_eq a b ≡ true → a.when ≤ b.when
unfolding key_eq
key_eq-when a b h = ground arith

Least-map_insert :
    (n : ℕ) (k : Key) (w : Waker) (m : Timers) → n ≤ k.when → Least n m → Least n (map_insert k w m)
Least-map_insert n k w [] h l = (h, tt)
Least-map_insert n k w (e ∷ m) h (x, l) = elim (Bool-cases (key_lt k e.0)) [
  | inl lt ↦ rw (lt, Least) (h, (x, l))
  | inr ge ↦ rw ge (elim (Bool-cases (key_eq k e.0)) [
    | inl eq ↦ rw (eq, Least) (h, l)
    | inr ne ↦ rw (ne, Least) (x, Least-map_insert n k w m h l)
  ])
]

Sorted-map_insert : (k : Key) (w : Waker) (m : Timers) → Sorted m → Sorted (map_insert k w m)
Sorted-map_insert k w [] s = (tt, tt)
Sorted-map_insert k w (e ∷ m) (l, s) = elim (Bool-cases (key_lt k e.0)) [
  | inl lt ↦
      let before = key_lt-when k e.0 lt in
      rw (lt, Sorted) ((before, Least-weaken k.when e.0.when m before l), (l, s))
  | inr ge ↦
      let after = key_ge-when k e.0 ge in
      rw ge (elim (Bool-cases (key_eq k e.0)) [
        | inl eq ↦ rw (eq, Sorted) (Least-weaken k.when e.0.when m (key_eq-when k e.0 eq) l, s)
        | inr ne ↦
            rw (ne, Sorted) (Least-map_insert e.0.when k w m after l, Sorted-map_insert k w m s)
      ])
]

Sorted-apply_all : (ops : List TimerOp) (m : Timers) → Sorted m → Sorted (apply_all ops m)
Sorted-apply_all [] m s = s
Sorted-apply_all (insert k w ∷ ops) m s =
    Sorted-apply_all ops (map_insert k w m) (Sorted-map_insert k w m s)
Sorted-apply_all (remove k ∷ ops) m s =
    Sorted-apply_all ops (map_remove k m) (Sorted-filter (λ e. not (key_eq k e.0)) m s)

module _ (r : Reactor) (now : ℕ) (v : IsValid r.timer_ops) where
  -- The operations that are still queued are applied first. Of the timers there are then,
  -- `process_timers` fires exactly those whose instant is before `now`, in the order of the map; it
  -- keeps exactly the others; and it leaves no operation queued. The queue of operations must be
  -- well-formed, and it is so again.
  pub process_timers_fires :
      let (r', woken, _) = process_timers r now in
      (woken ≡ map (λ e. e.1) (due now (view r)))
      × (r'.timers ≡ later now (view r))
      × (r'.timer_ops.queue ≡ [])
      × IsValid r'.timer_ops
  unfolding process_timers process_timer_ops view
  process_timers_fires =
      let d = process_drains r v in
      let split =
        split_at now (process_timer_ops r).timers ∙ ap (λ m. (due now m, later now m)) d.timers in
      (ap (λ t. map (λ e. e.1) t.0) split, ap (λ t. t.1) split, d.queue, d.valid)

  slept :
      let (r', woken, dur) = process_timers r now in
      dur ≡ duration (due now (view r)) (later now (view r)) now
  unfolding process_timers process_timer_ops view
  slept =
      let d = process_drains r v in
      let split =
        split_at now (process_timer_ops r).timers ∙ ap (λ m. (due now m, later now m)) d.timers in
      ap (λ t. duration t.0 t.1 now) split

-- How long the reactor may sleep, given what was due and what comes later: for ever if nothing is
-- left, and otherwise not past the first of the later timers; not at all if something was due.
abbrev pub Sleeps : ℕ → Timers → Timers → Option ℕ → Type 0
Sleeps now ready pending none = (ready ≡ []) × (pending ≡ [])
Sleeps now ready pending (some zero) = Least now pending
Sleeps now ready pending (some (suc d)) = (ready ≡ []) × Least (now + suc d) pending

Sleeps-until : (now d : ℕ) (m : Timers) → Least (now + d) m → Sleeps now [] m (some d)
Sleeps-until now zero m l = subst (λ n. Least n m) (omega arith) l
Sleeps-until now (suc d) m l = (refl, l)

duration-Sleeps :
    (now : ℕ) (ready pending : Timers)
    → Least now pending
    → Sorted pending
    → Sleeps now ready pending (duration ready pending now)
duration-Sleeps now [] [] l s = (refl, refl)
duration-Sleeps now [] (e ∷ m) (x, l) (first, s) =
    Sleeps-until now (e.0.when - now) (e ∷ m)
      (omega arith, Least-weaken (now + (e.0.when - now)) e.0.when m (omega arith) first)
duration-Sleeps now (e ∷ ready) pending l s = l

at_least : (a n : ℕ) → ltb a n ≡ false → n ≤ a
at_least a n h = ground arith

Least-later : (now : ℕ) (m : Timers) → Least now (later now m)
Least-later now [] = tt
Least-later now (e ∷ m) = elim (Bool-cases (ltb e.0.when now)) [
  | inl before ↦ rw (before, Least) (Least-later now m)
  | inr after ↦ rw (after, Least) (at_least e.0.when now after, Least-later now m)
]

-- The map is in the order of the instants after `process_timers`, if it was before. The duration
-- that it returns is `None` only if no timer was due and none is left; no timer that is left is due
-- before that duration has passed; and it is not zero only if no timer was due.
pub process_timers-Sleeps :
    (r : Reactor) (now : ℕ)
    → IsValid r.timer_ops
    → Sorted r.timers
    → let (r', _, dur) = process_timers r now in
      Sorted r'.timers × Sleeps now (due now (view r)) r'.timers dur
unfolding view
process_timers-Sleeps r now v s =
    let kept = (process_timers_fires r now v).1 in
    let ordered =
      Sorted-filter (λ e. not (ltb e.0.when now)) (view r)
        (Sorted-apply_all r.timer_ops.queue r.timers s) in
    rw (kept, slept r now v)
      (
        ordered,
        duration-Sleeps now (due now (view r)) (later now (view r)) (Least-later now (view r))
            ordered,
      )
