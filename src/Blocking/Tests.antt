-- ===== src/Blocking/Tests.antt =====
-- A run of src/blocking.rs: a call that blocks in the poller is woken by another thread.
use awak.Prelude.{◌+◌, ◌<◌, ◌≡◌, refl, ◌⊎◌, true}
use awak.Blocking.{
  System, by_blocker, waiting, reading, blocked, Round, Reach, here, next, blocks, others, start,
  poll_pending, not_found, try_block, block, wait, wake, load_blocked, exchange,
}
use awak.Blocking.Invariant.{Coming}
use awak.Blocking.Safety.{no_lost_notification, notify_skips_safely}

abbrev blocked_state : System
blocked_state = record {
  shared = record start.shared { io_blocked = true; lock = by_blocker };
  blocker = waiting blocked;
}

blocked_state-Reach : Reach blocked_state
blocked_state-Reach =
    next
      (next
        (next (next (next here (blocks poll_pending)) (blocks (not_found refl)))
          (blocks (try_block refl)))
        (blocks block))
      (blocks (wait refl))

abbrev woken : System
woken = record blocked_state { shared = record blocked_state.shared { token = true; loading = 1 } }

woken-Reach : Reach woken
woken-Reach = next blocked_state-Reach (others (wake refl))

no_lost_notification_example :
    Coming woken.shared ⊎ (0 < woken.shared.loading + woken.shared.notifying)
no_lost_notification_example = no_lost_notification woken-Reach refl refl

abbrev notifying : System
notifying = record woken {
  shared = record woken.shared { loading = 0; notified = true; writing = 1 };
}

notifying-Reach : Reach notifying
notifying-Reach =
    next (next woken-Reach (others (load_blocked refl refl))) (others (exchange refl refl))

notify_skips_safely_example :
    Coming notifying.shared
    ⊎ ((notifying.shared.drained ≡ true) ⊎ ((r : Round) × (notifying.blocker ≡ reading r)))
notify_skips_safely_example = notify_skips_safely notifying-Reach refl
