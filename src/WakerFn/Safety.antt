-- ===== src/WakerFn/Safety.antt =====
-- The reference count of src/waker_fn.rs: no use after free, no leak, no call too many.
use awak.Prelude.{
  ◌+◌, ◌-◌, ◌<◌, ◌≡◌, refl, sym, ap, ◌∙◌, subst, Option, some, true, false, ◌==◌, arith,
}
use awak.WakerFn.{
  Block, waker_fn, clone, wake, wake_by_ref, drop, drop_arc, World, Step, clones, wakes_once,
  ends_wake, wakes_by_ref, drops, Reach, here, next,
}

pub record Owned (w : World) : Type 0 where
  pub counted : w.block.strong ≡ w.live + w.waking
  pub freed : w.block.freed ≡ (w.live + w.waking == 0)
  pub called : w.block.calls ≡ w.wakes

there : {w : World} → Owned w → 0 < w.live + w.waking → w.block.freed ≡ false
there o h = ground arith

-- What each operation makes of a closure that is there.
module _ (b : Block) (kept : b.freed ≡ false) where
  clone_lem : clone b ≡ some (record b { strong = b.strong + 1; freed = false })
  unfolding clone
  clone_lem = ap clone (λ i. record b { freed = kept i })

  wake_lem : wake b ≡ some (record b { calls = b.calls + 1; freed = false })
  unfolding wake
  wake_lem = ap wake (λ i. record b { freed = kept i })

  wake_by_ref_lem : wake_by_ref b ≡ some (record b { calls = b.calls + 1; freed = false })
  unfolding wake_by_ref
  wake_by_ref_lem = ap wake_by_ref (λ i. record b { freed = kept i })

  drop_lem : drop b ≡ some (record b { strong = b.strong - 1; freed = b.strong - 1 == 0 })
  unfolding drop
  drop_lem = ap drop (λ i. record b { freed = kept i })

  drop_arc_lem : drop_arc b ≡ some (record b { strong = b.strong - 1; freed = b.strong - 1 == 0 })
  drop_arc_lem = ap drop_arc (λ i. record b { freed = kept i })

some_inj : {x y : Block} → some x ≡ some y → x ≡ y
some_inj h = cc

-- The block that an operation leaves is the one known.
known : (P : Block → Type 0) {b x : Block} {o : Option Block} → o ≡ some b → o ≡ some x → P x → P b
known P h e p = subst P (some_inj (sym e ∙ h)) p

Step-Owned : {w v : World} → Step w v → Owned w → Owned v
Step-Owned {w} (clones {b} l e) o =
    known (λ b. Owned (record w { block = b; live = w.live + 1 })) e
      (clone_lem w.block (there o (omega (arith, l))))
      (record { counted = ground arith; freed = ground arith; called = o.called })
Step-Owned {w} (wakes_once {b} l e) o =
    known
      (λ b.
        Owned (record { block = b; live = w.live - 1; waking = w.waking + 1; wakes = w.wakes + 1 }))
      e (wake_lem w.block (there o (omega (arith, l))))
      (record { counted = ground arith; freed = ground arith; called = ground arith })
Step-Owned {w} (ends_wake {b} l e) o =
    known (λ b. Owned (record w { block = b; waking = w.waking - 1 })) e
      (drop_arc_lem w.block (there o (omega (arith, l))))
      (record { counted = ground arith; freed = ground arith; called = o.called })
Step-Owned {w} (wakes_by_ref {b} l e) o =
    known (λ b. Owned (record w { block = b; wakes = w.wakes + 1 })) e
      (wake_by_ref_lem w.block (there o (omega (arith, l))))
      (record { counted = ground arith; freed = ground arith; called = ground arith })
Step-Owned {w} (drops {b} l e) o =
    known (λ b. Owned (record w { block = b; live = w.live - 1 })) e
      (drop_lem w.block (there o (omega (arith, l))))
      (record { counted = ground arith; freed = ground arith; called = o.called })

Reach-Owned : {w : World} → Reach w → Owned w
unfolding waker_fn
Reach-Owned here = record { counted = refl; freed = refl; called = refl }
Reach-Owned (next r s) = Step-Owned s (Reach-Owned r)

-- An operation that gives a block has not used the closure after it was freed.
abbrev pub Works : Option Block → Type 0
Works o = (b : Block) × (o ≡ some b)

-- Whatever sequence of clones, wakes and drops of existing wakers has been made, with closures of
-- `wake` still running or not, while a waker exists: the count is that of the wakers and of the
-- running calls of `wake`, the closure has been called once for each call of `wake` and
-- `wake_by_ref`, and each of the four operations finds the closure there.
pub no_use_after_free :
    {w : World}
    → Reach w
    → 0 < w.live
    → Owned w
      × Works (clone w.block)
      × Works (wake w.block)
      × Works (wake_by_ref w.block)
      × Works (drop w.block)
no_use_after_free {w} r l =
    let o = Reach-Owned r in
    let kept = there o (omega (arith, l)) in
    (
      o,
      (_, clone_lem w.block kept),
      (_, wake_lem w.block kept),
      (_, wake_by_ref_lem w.block kept),
      (_, drop_lem w.block kept),
    )

-- While a call of `wake` still runs, the closure is there at its end.
pub wake_ends : {w : World} → Reach w → 0 < w.waking → Works (drop_arc w.block)
wake_ends {w} r l = (_, drop_arc_lem w.block (there (Reach-Owned r) (omega (arith, l))))

-- When no waker and no running call of `wake` is left, the closure is freed, and its count is 0.
pub freed_at_last :
    {w : World} → Reach w → w.live + w.waking ≡ 0 → (w.block.freed ≡ true) × (w.block.strong ≡ 0)
freed_at_last {w} r none_left =
    let o = Reach-Owned r in (o.freed ∙ ap (λ n. n == 0) none_left, o.counted ∙ none_left)
