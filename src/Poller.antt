-- ===== src/Poller.antt =====
-- `Poller` of src/io/poller/mod.rs over the backend of a system: epoll (src/io/poller/epoll.rs) or
-- kqueue (src/io/poller/kqueue.rs). The system calls are outside: `S` is the state of the
-- system, and a system call is an argument, a function from that state.
pub mod Epoll
pub mod Kqueue
pub mod Reports
pub mod Armed
pub mod Receipts
pub mod Notify
pub mod Delivers
mod Tests
use awak.Prelude.{ℕ, Option, List, Bool, true, false, not, ◌==◌, if◌then◌else◌, filter, usize_max}
use awak.CopyBuffer.{ErrorKind, Io, ok, err}
use awak.Source.{Event}

abbrev pub Fd : Type 0
Fd = ℕ

pub record Duration : Type 0 where
  pub secs : ℕ
  pub nanos : ℕ

-- A call that may fail.
abbrev pub Call : Type 0 → Type 0 → Type 0
Call S A = S → S × Io A

infixl 5 ◌>>=◌ ◌>>◌
abbrev pub ◌>>=◌ : {S A B : Type 0} → Call S A → (A → Call S B) → Call S B
◌>>=◌ m f s = let (s', r) = m s in elim r [ ok a ↦ f a s' | err e ↦ (s', err e) ]

abbrev pub ◌>>◌ : {S A B : Type 0} → Call S A → Call S B → Call S B
m >> k = m >>= λ _. k

abbrev pub return : {S A : Type 0} → A → Call S A
return a s = (s, ok a)

abbrev pub fail : {S A : Type 0} → ErrorKind → Call S A
fail e s = (s, err e)

-- `let _ = …`
abbrev pub ignore : {S A : Type 0} → Call S A → Call S (Unit {0})
ignore m s = ((m s).0, ok tt)

-- `sys::Reactor`
pub record Backend (S : Type 0) : Type 0 where
  pub wait : Option Duration → Call S (List Event)
  pub notify : Call S (Unit {0})
  pub remove : Fd → Call S (Unit {0})
  pub insert : Fd → Call S (Unit {0})
  pub interest : Fd → ℕ → Bool → Bool → Call S (Unit {0})

-- The flag `notified` with the state of the system.
pub record Poller (S : Type 0) : Type 0 where
  pub notified : Bool
  pub system : S

abbrev pub notify_key : ℕ
notify_key = usize_max

-- "the key is not allowed to be `usize::MAX`"
abbrev pub invalid_key : ErrorKind
invalid_key = 3

module _ {S : Type 0} (sys : Backend S) where
  -- A call of the backend, which does not change the flag.
  abbrev pub lift : {A : Type 0} → Call S A → Call (Poller S) A
  lift m p = let (s, r) = m p.system in (record p { system = s }, r)

  unfoldable pub wait : Option Duration → Call (Poller S) (List Event)
  wait timeout = do
    sys_events ← lift (sys.wait timeout)
    swap_false
    return (filter (λ ev. not (ev.key == notify_key)) sys_events)
    where
      swap_false : Call (Poller S) (Unit {0})
      swap_false p = (record p { notified = false }, ok tt)

  unfoldable pub notify : Call (Poller S) (Unit {0})
  notify p = if p.notified then (p, ok tt) else lift sys.notify (record p { notified = true })

  unfoldable pub remove : Fd → Call (Poller S) (Unit {0})
  remove fd = lift (sys.remove fd)

  unfoldable pub insert : Fd → Call (Poller S) (Unit {0})
  insert fd = lift (sys.insert fd)

  unfoldable pub interest : Fd → ℕ → Bool → Bool → Call (Poller S) (Unit {0})
  interest fd key read write =
      if key == notify_key then fail invalid_key else lift (sys.interest fd key read write)
