-- ===== src/Time/Registry.antt =====
-- `insert_timer` and `remove_timer` of src/io/reactor.rs as `Timer` of src/io/mod.rs calls them.
use awak.Prelude.{ℕ, ◌<◌, ◌≡◌, ap, ◌∙◌, Option, none, some, arith}
use awak.Queue.Fifo.{IsValid}
use awak.Sleepers.{Waker}
use awak.Timers.{Reactor, Key, insert_timer, remove_timer}
use awak.Timers.Process.{view}
use awak.Timers.Insert.{insert_timer_adds, remove_timer_removes}
use awak.Timers.Get.{get, get-map_insert, get-map_remove}
use awak.Time.{Timer, and_then, register_anew}

-- A reactor whose queue of timer operations is well-formed and holds at least one.
abbrev pub Usable : Reactor → Type 0
Usable r = IsValid r.timer_ops × (0 < r.timer_ops.capacity)

-- What is registered under an instant and an identity, once the queued operations are done.
abbrev pub registered : Reactor → ℕ → ℕ → Option Waker
registered r when id = get (record { when = when; id = id }) (view r)

-- A registration, and the reactor after it.
pub record Registers (w : Waker) (when : ℕ) (res : Option (Reactor × ℕ)) : Type 0 where
  pub after : Reactor
  pub id : ℕ
  pub returns : res ≡ some (after, id)
  pub usable : Usable after
  pub found : registered after when id ≡ some w

pub insert-Registers :
    (r : Reactor) (when : ℕ) (w : Waker) → Usable r → Registers w when (insert_timer 2 r when w)
insert-Registers r when w (valid, room) =
    let (after, returns, _, _, valid', same, viewed) = insert_timer_adds r when w 0 valid room in
    let key : Key = record { when = when; id = r.id_generator } in
    record {
      after = after;
      id = r.id_generator;
      returns = returns;
      usable = (valid', omega (arith, same));
      found = ap (get key) viewed ∙ get-map_insert key w (view r);
    }

-- A removal, and the reactor after it.
pub record Removes (when id : ℕ) (res : Option Reactor) : Type 0 where
  pub after : Reactor
  pub returns : res ≡ some after
  pub usable : Usable after
  pub gone : registered after when id ≡ none

pub remove-Removes :
    (r : Reactor) (when id : ℕ) → Usable r → Removes when id (remove_timer 2 r when id)
remove-Removes r when id (valid, room) =
    let (after, returns, valid', same, viewed) = remove_timer_removes r when id 0 valid room in
    let key : Key = record { when = when; id = id } in
    record {
      after = after;
      returns = returns;
      usable = (valid', omega (arith, same));
      gone = ap (get key) viewed ∙ get-map_remove key (view r);
    }

pub register_anew-Registers :
    (t : Timer) (r : Reactor) (when : ℕ) (w : Waker)
    → Usable r
    → Registers w when (register_anew t r when w)
register_anew-Registers t r when w u =
    let removed = remove-Removes r t.deadline t.key u in
    let added = insert-Registers removed.after when w removed.usable in
    record {
      after = added.after;
      id = added.id;
      returns = rw (removed.returns, and_then) added.returns;
      usable = added.usable;
      found = added.found;
    }
