-- ===== src/Executor/Shards.antt =====
-- The loop of `search` in src/executor.rs over the other shards.
use awak.Prelude.{
  List-cases, ℕ, zero, suc, ◌+◌, ◌<◌, ◌≡◌, ◌≢◌, refl, sym, ap, ◌∙◌, inl, inr, Option, none, some,
  List, [], ◌∷◌, ◌++◌, ◌==◌, take, drop, length, Bool-cases, eq_of_==, ne_of_==, ==_of_eq, ==_of_ne,
  arith,
}
use awak.Prelude.Bits.{pow_pos}
use awak.Executor.{State}
use awak.Executor.Search.{Runnable, to_list, pop_own, steal_shard, search_shards}
use awak.Executor.Rotation.{All}
use awak.Executor.Contents.{
  copies, copies-take-drop, replace, shard_count, shard_count-replace, Stores, share, pop_own-empty,
  pop_own-some, steal_shard_moves,
}

pub replace_self : (c : ℕ → List ℕ) (i : ℕ) (xs : List ℕ) → replace c i xs i ≡ xs
replace_self c i xs = rw (==_of_eq i i refl)

pub emptied : (c : ℕ → List ℕ) {me : ℕ} → c me ≡ [] → (i : ℕ) → replace c me [] i ≡ c i
emptied c {me} e i = elim (Bool-cases (me == i)) [
  | inl mine ↦ rw mine (sym e ∙ ap c (eq_of_== me i mine))
  | inr other ↦ rw other
]

-- Equal shards copies equal.
shard_count-same :
    (a : ℕ) {c d : ℕ → List ℕ}
    → ((i : ℕ) → d i ≡ c i)
    → (n : ℕ) → shard_count a d n ≡ shard_count a c n
unfolding shard_count
shard_count-same a same zero = refl
shard_count-same a same (suc n) = rw (same n, shard_count-same a same n)

-- What a ticker keeps of the tasks when it looks through the shards: those of the queue and of the
-- first `n` rings and the one it found are those that there were before, and none was dropped.
pub record Kept (k n : ℕ) (q : List ℕ) (c : ℕ → List ℕ) (st : State Runnable)
    (found : Option Runnable) (dropped : List Runnable) : Type 0 where
  pub waiting : List ℕ
  pub held : ℕ → List ℕ
  pub stored : Stores k st waiting held
  pub counted :
      (a : ℕ)
      → copies a waiting + shard_count a held n + copies a (to_list found)
        ≡ copies a q + shard_count a c n
  pub none_lost : dropped ≡ []

-- What the ticker finds in shard `j` when its own ring is empty.
module _ {k : ℕ} {st : State Runnable} {q : List ℕ} {c : ℕ → List ℕ} (s : Stores k st q c)
    {me j : ℕ} (idle : c me ≡ []) where
  -- An empty shard gives nothing, and all stays as it was.
  from_empty :
      c j ≡ []
      → (d : ℕ → List ℕ) × Stores k (pop_own (steal_shard st me j).0 me).0 q d
        × ((i : ℕ) → d i ≡ c i)
        × ((pop_own (steal_shard st me j).0 me).1 ≡ none)
        × ((steal_shard st me j).1 ≡ [])
  from_empty e =
      let (stored, none_lost) = steal_shard_moves s me j in
      let m = share s me (length (c j)) in
      let e1 = replace (replace c j (drop m (c j))) me (c me ++ take m (c j)) in
      let (got, left) =
        pop_own-empty stored me (replace_self (replace c j (drop m (c j))) me _ ∙ nothing m) in
      (replace e1 me [], left, same m, got, none_lost)
    where
      nothing : (m : ℕ) → c me ++ take m (c j) ≡ []
      nothing zero = rw idle
      nothing (suc m) = rw (idle, e)

      rest : (m : ℕ) → drop m (c j) ≡ []
      rest zero = e
      rest (suc m) = rw e

      same :
          (m i : ℕ)
          → replace (replace (replace c j (drop m (c j))) me (c me ++ take m (c j))) me [] i ≡ c i
      same m i = elim (Bool-cases (me == i)) [
        | inl mine ↦ rw mine (sym idle ∙ ap c (eq_of_== me i mine))
        | inr other ↦ rw other (elim (Bool-cases (j == i)) [
          | inl there ↦ rw there (rest m ∙ sym e ∙ ap c (eq_of_== j i there))
          | inr elsewhere ↦ rw elsewhere
        ])
      ]

  -- A shard that holds tasks gives its first one.
  from_some :
      {n : ℕ} (y : ℕ) (ys : List ℕ)
      → c j ≡ y ∷ ys
      → me ≢ j
      → me < n
      → j < n
      → ((pop_own (steal_shard st me j).0 me).1 ≡ some y)
        × Kept k n q c (pop_own (steal_shard st me j).0 me).0 (some y) (steal_shard st me j).1
  from_some {n} y ys e ne me_below j_below =
      let (stored, none_lost) = steal_shard_moves s me j in
      taken (share s me (length (c j))) some_taken none_lost stored
    where
      some_taken : 0 < share s me (length (c j))
      some_taken = omega (arith, ap length e, ap length idle, pow_pos k)

      taken :
          (m : ℕ)
          → 0 < m
          → (steal_shard st me j).1 ≡ []
          → Stores k
              (steal_shard st me j).0
              q
              (replace (replace c j (drop m (c j))) me (c me ++ take m (c j)))
          → ((pop_own (steal_shard st me j).0 me).1 ≡ some y)
            × Kept k n q c (pop_own (steal_shard st me j).0 me).0 (some y) (steal_shard st me j).1
      taken zero pos none_lost stored = absurd (omega arith)
      taken (suc m) pos none_lost stored =
          let c1 = replace c j (drop (suc m) (c j)) in
          let moved = c me ++ take (suc m) (c j) in
          let moved_eq : moved ≡ y ∷ take m ys = rw (idle, e) in
          let c2 = replace c1 me moved in
          let c2_me : c2 me ≡ y ∷ take m ys = replace_self c1 me moved ∙ moved_eq in
          let c1_me : c1 me ≡ [] = rw (==_of_ne j me (λ h. ne (sym h))) idle in
          let (got, left) = pop_own-some stored me y (take m ys) c2_me in
          (
            got,
            record {
              waiting = q;
              held = replace c2 me (take m ys);
              stored = left;
              counted = λ a. omega (
                arith,
                shard_count-replace a c j (drop (suc m) (c j)) n j_below,
                shard_count-replace a c1 me moved n me_below,
                shard_count-replace a c2 me (take m ys) n me_below,
                ap (copies a) c2_me,
                ap (copies a) c1_me,
                ap (copies a) moved_eq,
                copies-take-drop a (suc m) (c j),
                ap (λ t. copies a (take (suc m) t)) e,
              );
              none_lost = none_lost;
            },
          )

pub All-same :
    (js : List ℕ) {c d : ℕ → List ℕ}
    → ((i : ℕ) → d i ≡ c i)
    → All (λ j. d j ≡ []) js
    → All (λ j. c j ≡ []) js
All-same [] same h = tt
All-same (j ∷ js) same (e, h) = (sym (same j) ∙ e, All-same js same h)

-- The search through the shards keeps all tasks, and finds one unless they are all empty.
pub search_shards_keeps :
    {k n me : ℕ} (js : List ℕ) {st : State Runnable} {q : List ℕ} {c : ℕ → List ℕ}
    → Stores k st q c
    → c me ≡ []
    → me < n
    → All (λ j. j < n) js
    → let r = search_shards st me js in
      Kept k n q c r.state r.found r.dropped × (r.found ≡ none → All (λ j. c j ≡ []) js)
unfolding search_shards
search_shards_keeps [] {q = q} {c} s idle me_below below = (
  record { waiting = q; held = c; stored = s; counted = λ a. omega arith; none_lost = refl },
  λ _. tt,
)
search_shards_keeps {k} {n} {me} (j ∷ js) {st} {q} {c} s idle me_below (j_below, below) =
    elim (Bool-cases (me == j)) [
      | inl own ↦
          let (kept, empty) = search_shards_keeps js s idle me_below below in
          rw own (kept, λ e. (ap c (sym (eq_of_== me j own)) ∙ idle, empty e))
      | inr other ↦ elim (List-cases (c j)) [
        | inl e ↦
            let (d, stored, same, got, none_lost) = from_empty s idle e in
            let (kept, empty) = search_shards_keeps js stored (same me ∙ idle) me_below below in
            rw (other, got)
              (
                record {
                  waiting = kept.waiting;
                  held = kept.held;
                  stored = kept.stored;
                  counted = λ a. omega (arith, kept.counted a, shard_count-same a same n);
                  none_lost = rw (none_lost, kept.none_lost);
                },
                λ none_found. (e, All-same js same (empty none_found)),
              )
        | inr (y, ys, e) ↦
            let (got, kept) = from_some s idle y ys e (ne_of_== me j other) me_below j_below in
            rw (other, got) (kept, λ e. absurd (ground arith))
      ]
    ]
