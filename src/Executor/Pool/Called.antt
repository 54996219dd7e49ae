-- ===== src/Executor/Pool/Called.antt =====
-- In src/executor.rs a ticker that sleeps has its waker in the list of sleepers, or the waker has
-- been called since.
use awak.Prelude.{
  ℕ, zero, suc, ◌+◌, ◌<◌, ◌≡◌, ◌≢◌, refl, sym, ap, ◌∙◌, ◌⊎◌, inl, inr, List, [], ◌∷◌, ◌++◌, subst,
  Bool, true, false, ◌||◌, ◌==◌, if◌then◌else◌, length, word, Bool-cases, Option-cases, eq_of_==,
  ne_of_==, ==_of_ne, ==_of_eq, arith,
}
use awak.Sleepers
use awak.Sleepers.{Waker, Sleepers, pop_last, second, replace, remove_last}
use awak.Sleepers.Listed.{
  listed, listed_all, listed-append, listed-new, listed-remove_last, listed-pop_last,
  replace-Listed,
}
use awak.Executor.{State, Ticker, notify, settle, sleep, wake}
use awak.Executor.World.{update, Agrees}
use awak.Executor.Agree.{counts}
use awak.Executor.Search.{to_list}
use awak.Executor.Pool.Asleep.{asleep, asleep-all, asleep-update, first_of}
use awak.Executor.Pool.{wake_all, clear}

pub wake_all-more :
    (woken : Waker → Bool) (ws : List Waker) (w : Waker)
    → woken w ≡ true
    → wake_all woken ws w ≡ true
wake_all-more woken [] w e = e
wake_all-more woken (v ∷ ws) w e = ground (arith, wake_all-more woken ws w)

module _ {A : Type 0} where
  -- Each of `n` tickers, the waker of ticker `i` being `i`; `woken` are the wakers called since the
  -- ticker was last polled.
  pub record Called (st : State A) (f : ℕ → Ticker) (woken : Waker → Bool) (n : ℕ) : Type 0 where
    pub each :
        (i : ℕ)
        → i < n
        → (f i).sleeping ≢ 0
        → (listed (f i).sleeping i st.sleepers.wakers ≡ true) ⊎ (woken i ≡ true)
    pub counted : st.sleepers.count ≡ asleep f n

  -- If all sleep, and the waker of none has been called, none is notified.
  none_picked :
      (st : State A) (f : ℕ → Ticker) (woken : Waker → Bool) (n : ℕ)
      → 0 < n
      → Called st f woken n
      → Sleepers.is_notified st.sleepers ≡ true
      → ((i : ℕ) → i < n → (f i).sleeping ≢ 0)
      → ((i : ℕ) → i < n → woken i ≡ false)
      → ⊥
  unfolding Sleepers.is_notified
  none_picked st f woken n some_thread h picked sleeps silent =
      let all =
        listed_all n (λ i. (f i).sleeping) st.sleepers.wakers
          (λ i below. elim (h.each i below (sleeps i below)) [
            | inl there ↦ there
            | inr called ↦ absurd (let quiet = silent i below in cc)
          ]) in
      let count = h.counted ∙ asleep-all f n sleeps in ground arith

  -- If the list of sleepers is empty or has one that is notified, somebody is up.
  pub someone :
      (st : State A) (f : ℕ → Ticker) (woken : Waker → Bool) (n : ℕ)
      → 0 < n
      → Called st f woken n
      → Sleepers.is_notified st.sleepers ≡ true
      → (i : ℕ) × (i < n) × (((f i).sleeping ≡ 0) ⊎ (woken i ≡ true))
  someone st f woken n some_thread h picked =
      elim (first_of (λ i. ((f i).sleeping == 0) || woken i) n) [
        | inl (i, below, e) ↦ (
          i,
          below,
          elim (Bool-cases ((f i).sleeping == 0)) [
            | inl awake ↦ inl (eq_of_== (f i).sleeping 0 awake)
            | inr sleeps ↦ inr (rw sleeps at e)
          ],
        )
        | inr nobody ↦ absurd (
            none_picked st f woken n some_thread h picked
              (λ i below. ne_of_== (f i).sleeping 0 (let e = nobody i below in ground arith))
              (λ i below. let e = nobody i below in ground arith))
      ]

  pub same_sleepers :
      {st st' : State A} {f g : ℕ → Ticker} {woken woken' : Waker → Bool} {n : ℕ}
      → st'.sleepers ≡ st.sleepers
      → ((i : ℕ) → (g i).sleeping ≡ (f i).sleeping)
      → ((i : ℕ) → woken i ≡ true → woken' i ≡ true)
      → Called st f woken n
      → Called st' g woken' n
  same_sleepers {f = f} {g = g} {n = n} sleepers same more h = record {
    each = λ i below.
        rw (same i, sleepers)
          (λ p. elim (h.each i below p) [
            | inl there ↦ inl there
            | inr called ↦ inr (more i called)
          ]);
    counted = ap (λ s. s.count) sleepers ∙ h.counted ∙ asleep-same n;
  }
    where
      asleep-same : (n : ℕ) → asleep f n ≡ asleep g n
      asleep-same zero = refl
      asleep-same (suc n) = rw (same n) (omega (arith, asleep-same n))

  -- The waker that `notify` takes off the list is called.
  pub notify-Called :
      (st : State A) (f : ℕ → Ticker) (woken : Waker → Bool) (n : ℕ)
      → Called st f woken n
      → Called (notify st).0 f (wake_all woken (to_list (notify st).1)) n
  unfolding notify Sleepers.notify
  notify-Called st f woken n h = elim (Bool-cases st.notified) [
    | inl set ↦ rw (set, notify) (record { each = h.each; counted = h.counted })
    | inr unset ↦ elim (Bool-cases (length st.sleepers.wakers == st.sleepers.count)) [
      | inr picked ↦ rw (unset, notify, picked) (record { each = h.each; counted = h.counted })
      | inl all ↦
          rw (unset, notify, all)
            (record {
              each = λ i below p. elim (h.each i below p) [
                | inr called ↦ inr (wake_all-more woken _ i called)
                | inl there ↦ elim (listed-pop_last (f i).sleeping i st.sleepers.wakers there) [
                  | inl still ↦ inl still
                  | inr popped ↦ inr (rw popped (rw (==_of_eq i i refl) refl))
                ]
              ];
              counted = h.counted;
            })
    ]
  ]

  -- Ticker `i` is polled, and is `t` afterwards.
  polled :
      (st st' : State A) (f : ℕ → Ticker) (woken : Waker → Bool) (n i : ℕ) (t : Ticker)
      → i < n
      → (t.sleeping ≢ 0 → listed t.sleeping i st'.sleepers.wakers ≡ true)
      → ((j : ℕ)
          → i ≢ j
          → (f j).sleeping ≢ 0
          → listed (f j).sleeping j st.sleepers.wakers ≡ true
          → listed (f j).sleeping j st'.sleepers.wakers ≡ true)
      → (st'.sleepers.count + (if (f i).sleeping == 0 then 0 else 1)
          ≡ st.sleepers.count + (if t.sleeping == 0 then 0 else 1))
      → Called st f woken n
      → Called st' (update f i t) (clear woken i) n
  polled st st' f woken n i t below own others count h = record {
    each = λ j below'. elim (Bool-cases (i == j)) [
      | inl same ↦ rw same (λ p.
          inl (
            subst (λ k. listed t.sleeping k st'.sleepers.wakers ≡ true) (eq_of_== i j same)
              (own p)))
      | inr other ↦ rw other (λ p. elim (h.each j below' p) [
        | inl there ↦ inl (others j (ne_of_== i j other) p there)
        | inr called ↦ inr called
      ])
    ];
    counted = omega (arith, count, h.counted, asleep-update f i t n below);
  }

  -- Ticker `i`, polled with its waker, goes to sleep.
  pub sleep-Called :
      (st : State A) (f : ℕ → Ticker) (woken : Waker → Bool) (n i : ℕ)
      → i < n
      → st.sleepers.id_gen + 1 < word
      → Agrees st f
      → Called st f woken n
      → Called (sleep st (f i) i).0 (update f i (sleep st (f i) i).1) (clear woken i) n
  unfolding sleep Sleepers.insert Sleepers.update
  sleep-Called st f woken n i below lasts a h = elim (Bool-cases ((f i).sleeping == 0)) [
    | inl awake ↦
        rw (awake, sleep)
          (polled st (settle st (Sleepers.insert st.sleepers i).0) f woken n i
            (record (f i) { sleeping = st.sleepers.id_gen }) below
            (λ p. listed-new st.sleepers.id_gen i st.sleepers.wakers)
            (λ j ne p there. listed-append (f j).sleeping j st.sleepers.wakers _ there)
            (rw (awake, ==_of_ne st.sleepers.id_gen 0 (omega (arith, a.tracks.few)))
              (omega (arith, a.tracks.few, a.tracks.counted, lasts)))
            h)
    | inr sleeps ↦ again (ne_of_== (f i).sleeping 0 sleeps)
  ]
    where
      again :
          (f i).sleeping ≢ 0
          → Called (sleep st (f i) i).0 (update f i (sleep st (f i) i).1) (clear woken i) n
      again sleeps =
          let id = (f i).sleeping in
          let apart : (j : ℕ) → i ≢ j → (f j).sleeping ≢ id =
            λ j ne q. ne (a.unique i j sleeps (sym q)) in
          elim (Option-cases (replace id i st.sleepers.wakers)) [
            | inr (items, found) ↦
                rw (==_of_ne id 0 sleeps, found, sleep, Sleepers.update)
                  (polled st (record st { sleepers = record st.sleepers { wakers = items } }) f
                    woken n i (f i) below
                    (λ p. (replace-Listed id id i i st.sleepers.wakers items found).0)
                    (λ j ne p there.
                      (replace-Listed id (f j).sleeping i j st.sleepers.wakers items found).1
                        (apart j ne) there)
                    refl h)
            | inl absent ↦
                rw (==_of_ne id 0 sleeps, absent, sleep, Sleepers.update)
                  (polled st
                    (settle st
                      (record st.sleepers { wakers = st.sleepers.wakers ++ ((id, i) ∷ []) }))
                    f woken n i (f i) below (λ p. listed-new id i st.sleepers.wakers)
                    (λ j ne p there. listed-append (f j).sleeping j st.sleepers.wakers _ there) refl
                    h)
          ]

  -- Ticker `i` is awake.
  pub wake-Called :
      (st : State A) (f : ℕ → Ticker) (woken : Waker → Bool) (n i : ℕ)
      → i < n
      → st.sleepers.id_gen < word
      → Agrees st f
      → Called st f woken n
      → Called (wake st (f i)).0 (update f i (wake st (f i)).1) (clear woken i) n
  unfolding wake Sleepers.remove
  wake-Called st f woken n i below lasts a h = elim (Bool-cases ((f i).sleeping == 0)) [
    | inl awake ↦
        rw (awake, wake)
          (polled st st f woken n i (f i) below (λ p. absurd (p (eq_of_== (f i).sleeping 0 awake)))
            (λ j ne p there. there) refl h)
    | inr sleeps ↦
        let is_asleep = ne_of_== (f i).sleeping 0 sleeps in
        let (count, _, _) = counts st f i is_asleep lasts a in
        let left = rw (sleeps, wake) at count in
        rw (sleeps, wake)
          (polled st (settle st (Sleepers.remove st.sleepers (f i).sleeping)) f woken n i
            (record (f i) { sleeping = 0 }) below (λ p. absurd (p refl))
            (λ j ne p there.
              listed-remove_last (f i).sleeping (f j).sleeping j st.sleepers.wakers
                (λ q. ne (a.unique i j is_asleep (sym q))) there)
            (rw sleeps (omega (arith, left))) h)
  ]
