-- ===== src/Timers/Process.antt =====
-- The timer operations of src/io/reactor.rs against the map that they stand for: `view` applies all
-- that is still queued.
use awak.Prelude.{
  ℕ, zero, suc, ◌≤◌, ◌≡◌, refl, sym, ap, ◌∙◌, inl, inr, List, [], ◌∷◌, ◌++◌, length, List-cases,
  arith,
}
use awak.Queue
use awak.Queue.{Queue}
use awak.Queue.Fifo
use awak.Queue.Fifo.{IsValid}
use awak.Timers.{TimerOp, Timers, Reactor, apply, process_loop}

abbrev pub apply_all : List TimerOp → Timers → Timers
apply_all [] m = m
apply_all (op ∷ ops) m = apply_all ops (apply op m)

pub apply_all-append :
    (ops more : List TimerOp) (m : Timers)
    → apply_all (ops ++ more) m ≡ apply_all more (apply_all ops m)
apply_all-append [] more m = refl
apply_all-append (op ∷ ops) more m = apply_all-append ops more (apply op m)

-- The timers, once the queued operations are done.
unfoldable pub view : Reactor → Timers
view r = apply_all r.timer_ops.queue r.timers

module _ (q : Queue TimerOp) (v : IsValid q) where
  pop-empty :
      q.queue ≡ [] → ((Queue.pop q).1 ≡ Queue.err Queue.empty) × ((Queue.pop q).0.queue ≡ [])
  unfolding Queue.Fifo.spec_pop
  pop-empty e =
      let popped = Queue.Fifo.pop_refines q v in
      (ap (λ t. t.1) popped ∙ rw e, ap (λ t. t.0) popped ∙ rw e)

  pop-some :
      (op : TimerOp) (ops : List TimerOp)
      → q.queue ≡ op ∷ ops
      → ((Queue.pop q).1 ≡ Queue.ok op) × ((Queue.pop q).0.queue ≡ ops)
  unfolding Queue.Fifo.spec_pop
  pop-some op ops e =
      let popped = Queue.Fifo.pop_refines q v in
      (ap (λ t. t.1) popped ∙ rw e, ap (λ t. t.0) popped ∙ rw e)

-- What the loop leaves, when its rounds are enough for the queue.
pub record Drained (q : Queue TimerOp) (m : Timers) (r : Queue TimerOp × Timers) : Type 0 where
  pub queue : r.0.queue ≡ []
  pub timers : r.1 ≡ apply_all q.queue m
  pub valid : IsValid r.0
  pub capacity : r.0.capacity ≡ q.capacity

process_loop_drains :
    (n : ℕ) (q : Queue TimerOp) (m : Timers)
    → IsValid q
    → length q.queue ≤ n
    → Drained q m (process_loop n q m)
unfolding process_loop
process_loop_drains zero q m v fits = elim (List-cases q.queue) [
  | inl e ↦ record { queue = e; timers = rw e; valid = v; capacity = refl }
  | inr (op, ops, e) ↦ absurd (omega (arith, ap length e))
]
process_loop_drains (suc n) q m v fits =
    let v' = Queue.Fifo.pop-IsValid q v in
    elim (List-cases q.queue) [
      | inl e ↦
          let (popped, left) = pop-empty q v e in
          rw (popped, process_loop)
            (record {
              queue = left;
              timers = rw e;
              valid = v';
              capacity = Queue.Fifo.capacity-pop q;
            })
      | inr (op, ops, e) ↦
          let (popped, left) = pop-some q v op ops e in
          let d =
            process_loop_drains n (Queue.pop q).0 (apply op m) v'
              (omega (arith, ap length left, ap length e)) in
          rw (popped, process_loop)
            (record {
              queue = d.queue;
              timers =
                  d.timers
                  ∙ ap (λ t. apply_all t (apply op m)) left
                  ∙ sym (ap (λ t. apply_all t m) e);
              valid = d.valid;
              capacity = d.capacity ∙ Queue.Fifo.capacity-pop q;
            })
    ]

-- `process_timer_ops` gets through the whole queue.
pub process_drains :
    (r : Reactor)
    → IsValid r.timer_ops
    → Drained r.timer_ops r.timers (process_loop r.timer_ops.capacity r.timer_ops r.timers)
process_drains r v =
    process_loop_drains r.timer_ops.capacity r.timer_ops r.timers v
      (omega (arith, v.counted, v.fits))
