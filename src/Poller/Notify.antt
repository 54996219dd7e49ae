-- ===== src/Poller/Notify.antt =====
-- `Poller::notify` of src/io/poller/mod.rs between two waits, and how `wait` of
-- src/io/poller/kqueue.rs reads what `notify` wrote.
use awak.Prelude.{ℕ, zero, suc, ◌<◌, ◌≡◌, refl, Option, none, some, List, [], true, false, arith}
use awak.CopyBuffer.{Io, ok, err}
use awak.Poller.{Call, ◌>>=◌, ◌>>◌, return, Backend, Duration, Fd, Poller, notify, notify_key}
use awak.Poller.Kqueue
use awak.Poller.Kqueue.{System, drain, interest}

module _ {S : Type 0} (sys : Backend S) where
  -- `n` calls of `Poller::notify`.
  unfoldable pub notify_times : ℕ → Call (Poller S) (Unit {0})
  notify_times zero = return tt
  notify_times (suc n) = notify sys >> notify_times n

  already :
      (n : ℕ) (s : S)
      → notify_times n (record { notified = true; system = s })
        ≡ (record { notified = true; system = s }, ok tt)
  unfolding notify_times notify
  already zero s = refl
  already (suc n) s = already n s

  -- Let the backend's `notify` not fail in the present state. Then one call of `Poller::notify`
  -- or more, after a wait, come to one call of the backend's: the system is left as that call
  -- leaves it, the flag is set, and all of them succeed.
  pub one_notification :
      (n : ℕ) (s : S)
      → (sys.notify s).1 ≡ ok tt
      → notify_times (suc n) (record { notified = false; system = s })
        ≡ (record { notified = true; system = (sys.notify s).0 }, ok tt)
  unfolding notify_times notify
  one_notification n s fine = rw (fine, ◌>>=◌) (already n (sys.notify s).0)

module _ {S : Type 0} (sys : System S) (unread : S → ℕ)
    (shrinks : (s : S) (n : ℕ) → (sys.read s).1 ≡ ok n → unread (sys.read s).0 < unread s) where
  drain_ends :
      (fuel : ℕ) (s : S) (kqueue_fd : Fd)
      → unread s < fuel
      → (s' : S) × (drain sys kqueue_fd fuel s ≡ some s')
  unfolding drain
  drain_ends zero s kq h = absurd (omega (arith, h))
  drain_ends (suc fuel) s kq h = go (sys.read s).1 refl (drain_ends fuel (sys.read s).0 kq)
    where
      go :
          (r : Io ℕ)
          → (sys.read s).1 ≡ r
          → (unread (sys.read s).0 < fuel → (s' : S) × (drain sys kq fuel (sys.read s).0 ≡ some s'))
          → (s' : S) × ((elim r as (λ _. Option S) [
            | ok n ↦ drain sys kq fuel (sys.read s).0
            | err e ↦ some (sys.read s).0
          ])
              ≡ some s')
      go (ok n) e rest = rest (omega (arith, shrinks s n e, h))
      go (err x) e rest = ((sys.read s).0, refl)

  -- Let each successful read of the stream leave less of it. Then `wait` of the kqueue backend
  -- ends: it returns a result, with any fuel above what there is to read when `kevent` has
  -- returned.
  pub wait_ends :
      (fuel : ℕ) (kqueue_fd : Fd) (timeout : Option Duration) (s : S)
      → unread (sys.kevent kqueue_fd [] 1000 timeout s).0 < fuel
      → (result : S × Io (List Kqueue.Kevent)) × (Kqueue.wait sys kqueue_fd fuel timeout s
          ≡ some result)
  unfolding Kqueue.wait
  wait_ends fuel kq timeout s h = go (sys.kevent kq [] 1000 timeout s).1
    where
      s' : S
      s' = (sys.kevent kq [] 1000 timeout s).0

      go :
          (r : Io (List Kqueue.Kevent))
          → (result : S × Io (List Kqueue.Kevent)) × ((elim r
                as (λ _. Option (S × Io (List Kqueue.Kevent))) [
                  | err e ↦ some (s', err e)
                  | ok events ↦
                      elim (drain sys kq fuel s') as (λ _. Option (S × Io (List Kqueue.Kevent))) [
                        | none ↦ none
                        | some s'' ↦ some (
                            (interest sys kq
                                  (sys.stream_fd Kqueue.read_stream)
                                  notify_key
                                  true
                                  false
                                >>= λ _. return events)
                              s'')
                      ]
                ])
              ≡ some result)
      go (err e) = ((s', err e), refl)
      go (ok events) =
          let (s'', done) = drain_ends fuel s' kq h in
          (
            (interest sys kq (sys.stream_fd Kqueue.read_stream) notify_key true false >>= λ _.
                  return events)
                s'',
            rw done refl,
          )
