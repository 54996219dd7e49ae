-- ===== src/WakerFn.antt =====
-- `waker_fn` of src/waker_fn.rs: a `Waker` that owns a reference of an `Arc` of a closure, through
-- a raw pointer. An `Arc` is its count of references; a use of it once the closure is freed is a
-- fault. Each access of the count is one step, and the closure of `wake` may run while other
-- threads go on.
pub mod Safety
mod Tests
use awak.Prelude.{
  ℕ, suc, ◌+◌, ◌-◌, ◌<◌, ◌≡◌, Option, none, some, Bool, true, false, ◌==◌, if◌then◌else◌,
}

-- What the raw pointer points to: the count of the `Arc`, and how often the closure was called.
pub record Block : Type 0 where
  pub strong : ℕ
  pub freed : Bool
  pub calls : ℕ

-- `none` is a fault.
abbrev pub M : Type 0
M = Block → Option Block

infixl 5 ◌>>◌
abbrev pub ◌>>◌ : M → M → M
◌>>◌ m k b = elim (m b) [ none ↦ none | some b' ↦ k b' ]

-- `Arc::from_raw`: the closure must be there.
abbrev pub from_raw : M
from_raw b = if b.freed then none else some b

-- `Arc::clone`
abbrev pub clone_arc : M
clone_arc b = if b.freed then none else some (record b { strong = b.strong + 1 })

-- The end of an `Arc`.
abbrev pub drop_arc : M
drop_arc b =
    if b.freed then none else some (record b { strong = b.strong - 1; freed = b.strong - 1 == 0 })

-- `arc()`
abbrev pub call : M
call b = if b.freed then none else some (record b { calls = b.calls + 1 })

-- `waker_fn`
unfoldable pub waker_fn : Block
waker_fn = record { strong = 1; freed = false; calls = 0 }

-- `Helper::clone`: neither of the two references is dropped.
unfoldable pub clone : M
clone = from_raw >> clone_arc

-- `Helper::wake` up to the end of the call; its reference is dropped after it.
unfoldable pub wake : M
wake = from_raw >> call

unfoldable pub wake_by_ref : M
wake_by_ref = from_raw >> call

-- `Helper::drop`
unfoldable pub drop : M
drop = from_raw >> drop_arc

-- `live` wakers exist, `waking` calls of `wake` have called the closure and still own their
-- reference, and `wakes` calls of `wake` and `wake_by_ref` have been made.
pub record World : Type 0 where
  pub block : Block
  pub live : ℕ
  pub waking : ℕ
  pub wakes : ℕ

pub data Step (w : World) : World → Type 0 where
  clones :
      {b : Block}
      → 0 < w.live
      → clone w.block ≡ some b
      → Step w (record w { block = b; live = w.live + 1 })
  wakes_once :
      {b : Block}
      → 0 < w.live
      → wake w.block ≡ some b
      → Step w (record { block = b; live = w.live - 1; waking = w.waking + 1; wakes = w.wakes + 1 })
  ends_wake :
      {b : Block}
      → 0 < w.waking
      → drop_arc w.block ≡ some b
      → Step w (record w { block = b; waking = w.waking - 1 })
  wakes_by_ref :
      {b : Block}
      → 0 < w.live
      → wake_by_ref w.block ≡ some b
      → Step w (record w { block = b; wakes = w.wakes + 1 })
  drops :
      {b : Block}
      → 0 < w.live
      → drop w.block ≡ some b
      → Step w (record w { block = b; live = w.live - 1 })

abbrev pub start : World
start = record { block = waker_fn; live = 1; waking = 0; wakes = 0 }

pub data Reach : World → Type 0 where
  here : Reach start
  next : {w v : World} → Reach w → Step w v → Reach v
