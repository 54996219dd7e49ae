-- ===== src/Executor/Conserve.antt =====
-- `search` of src/executor.rs over what the queue and the rings hold.
use awak.Prelude.{
  List-cases, ℕ, ◌≤◌, ◌<◌, ◌≡◌, refl, ap, ◌∙◌, inl, inr, none, List, [], ◌∷◌, ◌++◌, take, drop,
  length, arith,
}
use awak.Queue
use awak.Queue.Fifo
use awak.Local.Steal.{QueueHolds}
use awak.Executor.{State}
use awak.Executor.Search.{Runnable, pop_own, rotation, search}
use awak.Executor.Rotation.{All, rotation_below, of_rotation}
use awak.Executor.Contents.{
  copies, copies-append, copies-take-drop, replace, shard_count-replace, Stores, share,
  pop_own-empty, pop_own-some, steal_global_moves,
}
use awak.Executor.Shards.{replace_self, emptied, Kept, All-same, search_shards_keeps}

module _ {k : ℕ} {st : State Runnable} {q : List ℕ} {c : ℕ → List ℕ} (s : Stores k st q c) where
  -- `pop` on the global queue.
  pop_queue_empty :
      q ≡ []
      → ((Queue.pop st.queue).1 ≡ Queue.err Queue.empty) × QueueHolds (Queue.pop st.queue).0 []
  unfolding Queue.Fifo.spec_pop
  pop_queue_empty e =
      let (v, held) = s.queue in
      let popped = Queue.Fifo.pop_refines st.queue v in
      (
        ap (λ t. t.1) popped ∙ rw (held, e),
        (Queue.Fifo.pop-IsValid st.queue v, ap (λ t. t.0) popped ∙ rw (held, e)),
      )

  pop_queue_some :
      (y : ℕ) (ys : List ℕ)
      → q ≡ y ∷ ys
      → ((Queue.pop st.queue).1 ≡ Queue.ok y) × QueueHolds (Queue.pop st.queue).0 ys
  unfolding Queue.Fifo.spec_pop
  pop_queue_some y ys e =
      let (v, held) = s.queue in
      let popped = Queue.Fifo.pop_refines st.queue v in
      (
        ap (λ t. t.1) popped ∙ rw (held, e),
        (Queue.Fifo.pop-IsValid st.queue v, ap (λ t. t.0) popped ∙ rw (held, e)),
      )

search_keeps :
    {k : ℕ} {st : State Runnable} {q : List ℕ} {c : ℕ → List ℕ} (me start : ℕ)
    → Stores k st q c
    → me < st.threads
    → let r = search st me start in
      Kept k st.threads q c r.state r.found r.dropped
      × (r.found ≡ none → (c me ≡ []) × (q ≡ []) × All (λ j. c j ≡ []) (rotation st.threads start))
unfolding search
search_keeps {k} {st} {q} {c} me start s me_below = elim (List-cases (c me)) [
  | inr (y, ys, e) ↦
      let (got, left) = pop_own-some s me y ys e in
      rw (got, search)
        (
          record {
            waiting = q;
            held = replace c me ys;
            stored = left;
            counted = λ a.
                omega (arith, shard_count-replace a c me ys st.threads me_below, ap (copies a) e);
            none_lost = refl;
          },
          λ h. absurd (ground arith),
        )
  | inl e ↦
      let (got, left) = pop_own-empty s me e in
      elim (List-cases q) [
        | inr (y, ys, full) ↦
            let (popped, rest) = pop_queue_some left y ys full in
            let own = (pop_own st me).0 in
            let ready : Stores k (record own { queue = (Queue.pop own.queue).0 }) ys
                (replace c me []) =
              record { queue = rest; shards = left.shards } in
            let (stored, none_lost) = steal_global_moves ready me in
            let n = share ready me (length ys) in
            let gone = replace c me [] in
            let moved = gone me ++ take n ys in
            rw (got, search, popped)
              (
                record {
                  waiting = drop n ys;
                  held = replace gone me moved;
                  stored = stored;
                  counted = λ a. omega (
                    arith,
                    shard_count-replace a c me [] st.threads me_below,
                    shard_count-replace a gone me moved st.threads me_below,
                    ap (copies a) e,
                    ap (copies a) full,
                    copies-append a (gone me) (take n ys),
                    copies-take-drop a n ys,
                    ap (copies a) (replace_self c me []),
                  );
                  none_lost = none_lost;
                },
                λ h. absurd (ground arith),
              )
        | inl empty ↦
            let (popped, rest) = pop_queue_empty left empty in
            let own = (pop_own st me).0 in
            let ready : Stores k (record own { queue = (Queue.pop own.queue).0 }) []
                (replace c me []) =
              record { queue = rest; shards = left.shards } in
            let (kept, none_left) =
              search_shards_keeps (rotation own.threads start) ready (replace_self c me []) me_below
                (rotation_below own.threads start) in
            rw (got, search, popped)
              (
                record {
                  waiting = kept.waiting;
                  held = kept.held;
                  stored = kept.stored;
                  counted = λ a. omega (
                    arith,
                    kept.counted a,
                    ap (copies a) empty,
                    shard_count-replace a c me [] st.threads me_below,
                    ap (copies a) e,
                  );
                  none_lost = kept.none_lost;
                },
                λ h. (e, empty, All-same (rotation own.threads start) (emptied c e) (none_left h)),
              )
      ]
]

-- Let the queue hold `q`, shard `i` hold `c i` in a ring of `2 ^ k` slots, and the ticker's own
-- shard `me` be one of the `threads` of the executor. After `search`, from any starting point, the
-- queue and the rings are again well-formed, and the tasks that they hold, together with the task
-- that was found, are those that they held before, each as often as before. No task is dropped by a
-- failed push.
pub search_conserves :
    {k : ℕ} {st : State Runnable} {q : List ℕ} {c : ℕ → List ℕ} (me start : ℕ)
    → Stores k st q c
    → me < st.threads
    → let r = search st me start in Kept k st.threads q c r.state r.found r.dropped
search_conserves me start s below = (search_keeps me start s below).0

-- In the same situation, with a starting point that is at most `threads`: if `search` finds no
-- task, the global queue and the rings of all threads of the executor held none.
pub search_finds :
    {k : ℕ} {st : State Runnable} {q : List ℕ} {c : ℕ → List ℕ} (me start : ℕ)
    → Stores k st q c
    → me < st.threads
    → start ≤ st.threads
    → (search st me start).found ≡ none
    → (q ≡ []) × ((j : ℕ) → j < st.threads → c j ≡ [])
search_finds {st = st} {c = c} me start s below at_most nothing =
    let (own, empty, shards) = (search_keeps me start s below).1 nothing in
    (empty, of_rotation (λ j. c j ≡ []) st.threads start at_most shards)
