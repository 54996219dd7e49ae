-- ===== src/Timers/Insert.antt =====
-- `insert_timer` and `remove_timer` of src/io/reactor.rs: their loops, and what they add to the
-- map.
use awak.Prelude.{
  true, false, ℕ, suc, ◌+◌, ◌<◌, ◌≡◌, refl, ap, ◌∙◌, inl, inr, Option, some, [], ◌∷◌, ◌++◌, length,
  Bool-cases, ◌==◌, ==_of_ne, arith, wrapping_add,
}
use awak.Queue
use awak.Queue.{Queue}
use awak.Queue.Fifo
use awak.Queue.Fifo.{IsValid}
use awak.Sleepers.{Waker}
use awak.Timers.{
  TimerOp, Reactor, insert, remove, apply, map_insert, map_remove, process_timer_ops, push_loop,
  insert_timer, remove_timer,
}
use awak.Timers.Process.{apply_all, apply_all-append, view, process_drains}

module _ (q : Queue TimerOp) (v : IsValid q) (op : TimerOp) where
  push_room :
      (q.capacity == length q.queue) ≡ false
      → ((Queue.push q op).1 ≡ Queue.ok tt) × ((Queue.push q op).0.queue ≡ q.queue ++ (op ∷ []))
  unfolding Queue.Fifo.spec_push
  push_room e =
      let pushed = Queue.Fifo.push_refines q op v in
      (ap (λ t. t.1) pushed ∙ rw e, ap (λ t. t.0) pushed ∙ rw e)

  push-full :
      (q.capacity == length q.queue) ≡ true
      → ((Queue.push q op).1 ≡ Queue.err Queue.full) × ((Queue.push q op).0.queue ≡ q.queue)
  unfolding Queue.Fifo.spec_push
  push-full e =
      let pushed = Queue.Fifo.push_refines q op v in
      (ap (λ t. t.1) pushed ∙ rw e, ap (λ t. t.0) pushed ∙ rw e)

-- What a reactor is after an operation on its timers.
pub record Queued (r : Reactor) (op : TimerOp) (res : Option Reactor) : Type 0 where
  pub after : Reactor
  pub returns : res ≡ some after
  pub viewed : view after ≡ apply op (view r)
  pub valid : IsValid after.timer_ops
  pub capacity : after.timer_ops.capacity ≡ r.timer_ops.capacity
  pub generator : after.id_generator ≡ r.id_generator
  pub told : after.notifies ≡ r.notifies

module _ (r : Reactor) (op : TimerOp) (v : IsValid r.timer_ops) where
  -- A round that finds room is the last.
  queue_room :
      (n : ℕ)
      → (r.timer_ops.capacity == length r.timer_ops.queue) ≡ false
      → Queued r op (push_loop (suc n) r op)
  unfolding push_loop view
  queue_room n e =
      let (pushed, left) = push_room r.timer_ops v op e in
      rw (pushed, push_loop)
        (record {
          after = record r { timer_ops = (Queue.push r.timer_ops op).0 };
          returns = refl;
          viewed =
              ap (λ t. apply_all t r.timers) left
              ∙ apply_all-append r.timer_ops.queue (op ∷ []) r.timers;
          valid = Queue.Fifo.push-IsValid r.timer_ops op v;
          capacity = Queue.Fifo.capacity-push r.timer_ops op;
          generator = refl;
          told = refl;
        })

-- `process_timer_ops` makes room and keeps the view.
process_room :
    (r : Reactor)
    → IsValid r.timer_ops
    → 0 < r.timer_ops.capacity
    → let r' = process_timer_ops r in
      IsValid r'.timer_ops
      × (view r' ≡ view r)
      × ((r'.timer_ops.capacity == length r'.timer_ops.queue) ≡ false)
      × (r'.timer_ops.capacity ≡ r.timer_ops.capacity)
      × (r'.id_generator ≡ r.id_generator)
unfolding process_timer_ops view
process_room r v some_room =
    let d = process_drains r v in
    let r' = process_timer_ops r in
    (
      d.valid,
      ap (λ t. apply_all t r'.timers) d.queue ∙ d.timers,
      ==_of_ne _ _ (λ e. absurd (omega (arith, ap length d.queue, d.capacity))),
      d.capacity,
      refl,
    )

view_same :
    (r : Reactor) (q : Queue TimerOp)
    → q.queue ≡ r.timer_ops.queue
    → view (record r { timer_ops = q }) ≡ view r
unfolding view
view_same r q e = ap (λ t. apply_all t r.timers) e

-- Two rounds are enough, with no other thread that pushes in between.
pub push_loop_returns :
    (r : Reactor) (op : TimerOp) (n : ℕ)
    → IsValid r.timer_ops
    → 0 < r.timer_ops.capacity
    → Queued r op (push_loop (suc (suc n)) r op)
unfolding push_loop process_timer_ops
push_loop_returns r op n v some_room =
    elim (Bool-cases (r.timer_ops.capacity == length r.timer_ops.queue)) [
      | inr room ↦ queue_room r op v (suc n) room
      | inl full ↦
          let (pushed, left) = push-full r.timer_ops v op full in
          let same = record r { timer_ops = (Queue.push r.timer_ops op).0 } in
          let (v', viewed, room, cap, gen) =
            process_room same (Queue.Fifo.push-IsValid r.timer_ops op v)
              (omega (arith, Queue.Fifo.capacity-push r.timer_ops op)) in
          let done = queue_room (process_timer_ops same) op v' n room in
          rw (pushed, push_loop)
            (record {
              after = done.after;
              returns = done.returns;
              viewed =
                  done.viewed
                  ∙ ap (apply op) (viewed ∙ view_same r (Queue.push r.timer_ops op).0 left);
              valid = done.valid;
              capacity = done.capacity ∙ cap ∙ Queue.Fifo.capacity-push r.timer_ops op;
              generator = done.generator ∙ gen;
              told = done.told;
            })
    ]

-- On a well-formed queue of timer operations that holds at least one, the loop of `insert_timer`
-- ends within two rounds, if no other thread pushes to it in between. It returns the identity that
-- `ID_GENERATOR` had, which is then one higher modulo `2 ^ 64`; the queue is well-formed again,
-- with the same capacity; the timers, with all queued operations applied, are those of before with
-- the new one under its instant and identity; and `notify` has been called once.
pub insert_timer_adds :
    (r : Reactor) (when : ℕ) (w : Waker) (n : ℕ)
    → IsValid r.timer_ops
    → 0 < r.timer_ops.capacity
    → (after : Reactor) × (insert_timer (suc (suc n)) r when w ≡ some (after, r.id_generator))
      × (after.id_generator ≡ wrapping_add r.id_generator 1)
      × (after.notifies ≡ r.notifies + 1)
      × IsValid after.timer_ops
      × (after.timer_ops.capacity ≡ r.timer_ops.capacity)
      × (view after ≡ map_insert (record { when = when; id = r.id_generator }) w (view r))
unfolding insert_timer view
insert_timer_adds r when w n v some_room =
    let id = r.id_generator in
    let asked = record r { id_generator = wrapping_add id 1 } in
    let q = push_loop_returns asked (insert (record { when = when; id = id }) w) n v some_room in
    let told = ap (λ x. x + 1) q.told in
    (
      record q.after { notifies = q.after.notifies + 1 },
      rw (q.returns, insert_timer) refl,
      q.generator,
      told,
      q.valid,
      q.capacity,
      q.viewed,
    )

-- On such a queue the loop of `remove_timer` ends within two rounds too, if no other thread pushes;
-- the queue is well-formed again, with the same capacity; and the timers, with all queued
-- operations applied, are those of before without the one of that instant and identity.
pub remove_timer_removes :
    (r : Reactor) (when id n : ℕ)
    → IsValid r.timer_ops
    → 0 < r.timer_ops.capacity
    → (after : Reactor) × (remove_timer (suc (suc n)) r when id ≡ some after)
      × IsValid after.timer_ops
      × (after.timer_ops.capacity ≡ r.timer_ops.capacity)
      × (view after ≡ map_remove (record { when = when; id = id }) (view r))
unfolding remove_timer
remove_timer_removes r when id n v some_room =
    let q = push_loop_returns r (remove (record { when = when; id = id })) n v some_room in
    (q.after, q.returns, q.valid, q.capacity, q.viewed)
