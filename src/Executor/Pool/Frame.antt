-- ===== src/Executor/Pool/Frame.antt =====
-- What `search` and `schedule` of src/executor.rs leave alone: all but the tasks.
use awak.Prelude.{
  ℕ, ◌≡◌, refl, ◌∙◌, inl, inr, Option, none, some, List, [], ◌∷◌, true, false, ◌==◌, Bool-cases,
  Option-cases, arith,
}
use awak.Queue
use awak.Local
use awak.Sleepers.{Waker}
use awak.Executor.{State, notify}
use awak.Executor.Search.{
  Runnable, Searched, Scheduled, ring_of, to_list, pop_own, steal_shard, steal_global,
  search_shards, search, set_ring, schedule, schedule_global, rotation,
}

pub record SameRest (st st' : State Runnable) : Type 0 where
  pub notified : st'.notified ≡ st.notified
  pub sleepers : st'.sleepers ≡ st.sleepers
  pub threads : st'.threads ≡ st.threads
  pub wakers : (i : ℕ) → (st'.local_queue i).waker ≡ (st.local_queue i).waker

trans_rest : {a b c : State Runnable} → SameRest a b → SameRest b c → SameRest a c
trans_rest p q = record {
  notified = q.notified ∙ p.notified;
  sleepers = q.sleepers ∙ p.sleepers;
  threads = q.threads ∙ p.threads;
  wakers = λ i. q.wakers i ∙ p.wakers i;
}

set_ring-SameRest :
    (st : State Runnable) (i : ℕ) (ring : Local.Local Runnable) → SameRest st (set_ring st i ring)
set_ring-SameRest st i ring = record {
  notified = refl;
  sleepers = refl;
  threads = refl;
  wakers = λ j. ground arith;
}

set_queue-SameRest :
    (st : State Runnable) (queue : Queue.Queue Runnable) → SameRest st (record st { queue = queue })
set_queue-SameRest st queue = record {
  notified = refl;
  sleepers = refl;
  threads = refl;
  wakers = λ j. refl;
}

steal_shard-SameRest : (st : State Runnable) (me j : ℕ) → SameRest st (steal_shard st me j).0
unfolding steal_shard
steal_shard-SameRest st me j = trans_rest (set_ring-SameRest st j _) (set_ring-SameRest _ me _)

pub steal_global-SameRest : (st : State Runnable) (me : ℕ) → SameRest st (steal_global st me).0
unfolding steal_global
steal_global-SameRest st me = record {
  notified = refl;
  sleepers = refl;
  threads = refl;
  wakers = λ j. ground arith;
}

pop_own-SameRest : (st : State Runnable) (me : ℕ) → SameRest st (pop_own st me).0
pop_own-SameRest st me = set_ring-SameRest st me _

search_shards-SameRest :
    (st : State Runnable) (me : ℕ) (js : List ℕ) → SameRest st (search_shards st me js).state
unfolding search_shards
search_shards-SameRest st me [] = record {
  notified = refl;
  sleepers = refl;
  threads = refl;
  wakers = λ i. refl;
}
search_shards-SameRest st me (j ∷ js) =
    let stolen = (steal_shard st me j).0 in
    let (after, popped) = pop_own stolen me in
    let robbed = trans_rest (steal_shard-SameRest st me j) (pop_own-SameRest stolen me) in
    elim (Bool-cases (me == j)) [
      | inl own ↦ rw (own, search_shards) (search_shards-SameRest st me js)
      | inr other ↦ elim (Option-cases popped) [
        | inl e ↦
            rw (other, e, search_shards) (trans_rest robbed (search_shards-SameRest after me js))
        | inr (t, e) ↦ rw (other, e, search_shards) robbed
      ]
    ]

after_pop-SameRest :
    (st : State Runnable) (me start : ℕ) (queue : Queue.Queue Runnable)
    (popped : Queue.Result Runnable)
    → SameRest st
        (elim popped as (λ _. Searched) [
          | Queue.ok t ↦
              let (stolen, dropped) = steal_global (record st { queue = queue }) me in
              record { state = stolen; found = some t; dropped = dropped }
          | Queue.err _ ↦ search_shards (record st { queue = queue }) me (rotation st.threads start)
        ]).state
after_pop-SameRest st me start queue (Queue.ok t) =
    trans_rest (set_queue-SameRest st queue)
      (steal_global-SameRest (record st { queue = queue }) me)
after_pop-SameRest st me start queue (Queue.err _) =
    trans_rest (set_queue-SameRest st queue)
      (search_shards-SameRest (record st { queue = queue }) me (rotation st.threads start))

pub search-SameRest : (st : State Runnable) (me start : ℕ) → SameRest st (search st me start).state
unfolding search
search-SameRest st me start = elim (Option-cases (pop_own st me).1) [
  | inl e ↦
      rw (e, search)
        (trans_rest (pop_own-SameRest st me)
          (after_pop-SameRest (pop_own st me).0 me start _ (Queue.pop st.queue).1))
  | inr (t, e) ↦ rw (e, search) (pop_own-SameRest st me)
]

-- `schedule` either leaves the rest alone or ends with `notify`, whose waker is the one it calls.
pub data Told (st : State Runnable) : State Runnable → List Waker → Type 0 where
  quiet : {st' : State Runnable} {ws : List Waker} → SameRest st st' → Told st st' ws
  told : (mid : State Runnable) → SameRest st mid → Told st (notify mid).0 (to_list (notify mid).1)

trans_told : {a b c : State Runnable} {ws : List Waker} → SameRest a b → Told b c ws → Told a c ws
trans_told p (quiet q) = quiet (trans_rest p q)
trans_told p (told mid q) = told mid (trans_rest p q)

abbrev Tells : State Runnable → Scheduled → Type 0
Tells st r = Told st r.state r.woken

schedule_global-Told : (st : State Runnable) (task : Runnable) → Tells st (schedule_global st task)
unfolding schedule_global
schedule_global-Told st task = pushed (Queue.push st.queue task).0 (Queue.push st.queue task).1
  where
    pushed :
        (queue : Queue.Queue Runnable) (r : Queue.Result (Unit {0}))
        → Tells st (elim r as (λ _. Scheduled) [
          | Queue.ok _ ↦
              let (st', woken) = notify (record st { queue = queue }) in
              record { state = st'; woken = to_list woken; panicked = false }
          | Queue.err _ ↦ record {
            state = record st { queue = queue };
            woken = [];
            panicked = true;
          }
        ])
    pushed queue (Queue.ok _) = told (record st { queue = queue }) (set_queue-SameRest st queue)
    pushed queue (Queue.err _) = quiet (set_queue-SameRest st queue)

pub schedule-Told :
    (st : State Runnable) (caller : Option ℕ) (task : Runnable)
    → let r = schedule st caller task in Told st r.state r.woken
unfolding schedule
schedule-Told st none task = schedule_global-Told st task
schedule-Told st (some i) task =
    pushed (Local.push (ring_of st i) task).0 (Local.push (ring_of st i) task).1
  where
    pushed :
        (ring : Local.Local Runnable) (r : Local.Pushed Runnable)
        → Tells st (elim r as (λ _. Scheduled) [
          | Local.ok ↦ record {
            state = set_ring st i ring;
            woken = (st.local_queue i).waker ∷ [];
            panicked = false;
          }
          | Local.error_full e ↦ schedule_global (set_ring st i ring) e
        ])
    pushed ring Local.ok = quiet (set_ring-SameRest st i ring)
    pushed ring (Local.error_full e) =
        trans_told (set_ring-SameRest st i ring) (schedule_global-Told (set_ring st i ring) e)

pub notify-wakers :
    (st : State Runnable) (i : ℕ) → ((notify st).0.local_queue i).waker ≡ (st.local_queue i).waker
unfolding notify
notify-wakers st i = ground arith

notify-threads : (st : State Runnable) → (notify st).0.threads ≡ st.threads
unfolding notify
notify-threads st = ground arith

pub Told-threads :
    {st st' : State Runnable} {ws : List Waker} → Told st st' ws → st'.threads ≡ st.threads
Told-threads (quiet p) = p.threads
Told-threads (told mid p) = notify-threads mid ∙ p.threads

pub Told-wakers :
    {st st' : State Runnable} {ws : List Waker} (i : ℕ)
    → Told st st' ws
    → (st'.local_queue i).waker ≡ (st.local_queue i).waker
Told-wakers i (quiet p) = p.wakers i
Told-wakers i (told mid p) = notify-wakers mid i ∙ p.wakers i
