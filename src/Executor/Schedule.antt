-- ===== src/Executor/Schedule.antt =====
-- The closure `schedule` of src/executor.rs: where a task that is ready to run goes.
use awak.Prelude.{
  ℕ, ◌+◌, ◌^◌, ◌≤◌, ◌<◌, ◌≡◌, refl, ap, ◌∙◌, ◌⊎◌, inl, inr, Option, none, some, List, [], ◌∷◌, ◌++◌,
  true, false, ◌==◌, if◌then◌else◌, length, lt-cases, lt→ltb, le→ltb, ==_of_ne, arith,
}
use awak.Queue
use awak.Queue.Fifo
use awak.Local
use awak.Local.Fifo.{Holds, push_refines, spec_push}
use awak.Local.Steal.{QueueHolds}
use awak.Executor.{State, notify}
use awak.Executor.Search.{Runnable, Scheduled, set_ring, ring_of, schedule_global, schedule}
use awak.Executor.Contents.{
  copies, copies-append, replace, shard_count, shard_count-replace, Stores, Stores-set_ring,
}
use awak.Executor.Tick.{notify-Untouched, Stores-same}

-- The task is queued once, all others stay, and there is somebody to run it: the ticker of the
-- thread that schedules is woken, or `State::notify` has been called.
pub record Queues (k n : ℕ) (q : List ℕ) (c : ℕ → List ℕ) (task : Runnable) (told : Type 0)
    (s : Scheduled) : Type 0 where
  pub waiting : List ℕ
  pub held : ℕ → List ℕ
  pub stored : Stores k s.state waiting held
  pub counted :
      (a : ℕ)
      → copies a waiting + shard_count a held n
        ≡ copies a q + shard_count a c n + (if a == task then 1 else 0)
  pub no_panic : s.panicked ≡ false
  pub wakes : told ⊎ (s.state.notified ≡ true)

notify_sets : (st : State Runnable) → (notify st).0.notified ≡ true
unfolding notify
notify_sets st = ground arith

pub push-QueueHolds :
    {q : List ℕ} (queue : Queue.Queue Runnable) (task : Runnable)
    → QueueHolds queue q
    → length q < queue.capacity
    → ((Queue.push queue task).1 ≡ Queue.ok tt)
      × QueueHolds (Queue.push queue task).0 (q ++ (task ∷ []))
unfolding Queue.Fifo.spec_push
push-QueueHolds queue task (v, held) room =
    let done = Queue.Fifo.push_refines queue task v in
    let fits : (queue.capacity == length queue.queue) ≡ false =
      ==_of_ne _ _ (λ e. absurd (omega (arith, ap length held))) in
    (
      ap (λ t. t.1) done ∙ rw fits,
      (
        Queue.Fifo.push-IsValid queue task v,
        ap (λ t. t.0) done ∙ rw fits (ap (λ l. l ++ (task ∷ [])) held),
      ),
    )

module _ {k : ℕ} {st : State Runnable} {q : List ℕ} {c : ℕ → List ℕ} (s : Stores k st q c)
    (task : Runnable) (room : length q < st.queue.capacity) where
  schedule_global-Queues :
      (n : ℕ) (told : Type 0) → Queues k n q c task told (schedule_global st task)
  unfolding schedule_global
  schedule_global-Queues n told =
      let (ok, holds) = push-QueueHolds st.queue task s.queue room in
      let full = record st { queue = (Queue.push st.queue task).0 } in
      rw (ok, schedule_global)
        (record {
          waiting = q ++ (task ∷ []);
          held = c;
          stored =
              Stores-same (notify-Untouched full) (record { queue = holds; shards = s.shards });
          counted = λ a. omega (arith, copies-append a q (task ∷ []));
          no_panic = refl;
          wakes = inr (notify_sets full);
        })

-- A caller that has a shard is one of the threads.
abbrev pub IsThread : ℕ → Option ℕ → Type 0
IsThread n none = Unit
IsThread n (some i) = i < n

-- The ticker of the caller is woken.
abbrev pub Woken : State Runnable → Option ℕ → Scheduled → Type 0
Woken st none r = ⊥
Woken st (some i) r = r.woken ≡ (st.local_queue i).waker ∷ []

module _ {k : ℕ} {st : State Runnable} {q : List ℕ} {c : ℕ → List ℕ} (s : Stores k st q c) where
  own_full :
      (i : ℕ) (task : Runnable)
      → 2 ^ k ≤ length (c i)
      → let (ring, r) = Local.push (ring_of st i) task in
        Holds k ring (c i) × (r ≡ Local.error_full task)
  unfolding spec_push
  own_full i task le =
      let (h, r) = push_refines {xs = c i} task (s.shards i) in
      let no_room = le→ltb (length (c i)) (2 ^ k) le in (rw no_room at h, rw no_room at r)

  own_room :
      (i : ℕ) (task : Runnable)
      → length (c i) < 2 ^ k
      → let (ring, r) = Local.push (ring_of st i) task in
        Holds k ring (c i ++ (task ∷ [])) × (r ≡ Local.ok)
  unfolding spec_push
  own_room i task lt =
      let (h, r) = push_refines {xs = c i} task (s.shards i) in
      let some_room = lt→ltb (length (c i)) (2 ^ k) lt in (rw some_room at h, rw some_room at r)

  -- Let the queue hold `q`, with room for one more, and shard `i` hold `c i` in a ring of `2 ^ k`
  -- slots. `schedule`, called from any thread, with a shard or without, does not panic; the queue
  -- and the rings then hold the task once more than before, and every other task as often as
  -- before; and the ticker of the calling thread's shard is woken, or `notified` is set.
  pub schedule-Queues :
      (caller : Option ℕ) (task : Runnable)
      → IsThread st.threads caller
      → length q < st.queue.capacity
      → let r = schedule st caller task in Queues k st.threads q c task (Woken st caller r) r
  unfolding schedule
  schedule-Queues none task thread room = schedule_global-Queues s task room st.threads ⊥
  schedule-Queues (some i) task thread room = elim (lt-cases (length (c i)) (2 ^ k)) [
    | inl lt ↦
        let (holds, ok) = own_room i task lt in
        rw (ok, schedule)
          (record {
            waiting = q;
            held = replace c i (c i ++ (task ∷ []));
            stored = Stores-set_ring i (Local.push (ring_of st i) task).0 _ s holds;
            counted = λ a. omega (
              arith,
              shard_count-replace a c i (c i ++ (task ∷ [])) st.threads thread,
              copies-append a (c i) (task ∷ []),
            );
            no_panic = refl;
            wakes = inl refl;
          })
    | inr le ↦
        let (holds, full) = own_full i task le in
        let ring = (Local.push (ring_of st i) task).0 in
        let d =
          schedule_global-Queues (Stores-set_ring i ring (c i) s holds) task room st.threads
            (Woken st (some i) (schedule_global (set_ring st i ring) task)) in
        rw (full, schedule)
          (record {
            waiting = d.waiting;
            held = d.held;
            stored = d.stored;
            counted =
                λ a. omega (arith, d.counted a, shard_count-replace a c i (c i) st.threads thread);
            no_panic = d.no_panic;
            wakes = d.wakes;
          })
  ]
