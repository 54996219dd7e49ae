-- ===== src/Executor/Agree.antt =====
-- Each call of `sleep`, `wake` and `notify` of src/executor.rs keeps the tickers in agreement with
-- the list of sleepers.
use awak.Prelude.{
  ℕ, ◌+◌, ◌≤◌, ◌<◌, ◌≡◌, ◌≢◌, refl, sym, ap, ◌∙◌, ◌⊎◌, inl, inr, Option, none, some, [], ◌∷◌, ◌++◌,
  false, length, word, Bool-cases, Option-cases, ==_of_ne, arith,
}
use awak.Sleepers
use awak.Sleepers.{Sleepers, Waker}
use awak.Sleepers.Spec.{lookup, erase, rewake, mark_last, Tracks}
use awak.Sleepers.Lemmas
use awak.Sleepers.Refine
use awak.Executor.{State, Ticker, notify, settle, sleep, wake}
use awak.Executor.World.{update, Agrees, update_known, update_unique}
use awak.Executor.Settle.{up_after_mark, settled}

module _ {A : Type 0} where
  -- A ticker that is woken.
  pub wake-Agrees :
      (st : State A) (f : ℕ → Ticker) (i : ℕ)
      → (f i).sleeping ≢ 0
      → st.sleepers.id_gen < word
      → Agrees st f
      → Agrees
          (settle st (Sleepers.remove st.sleepers (f i).sleeping))
          (update f i (record (f i) { sleeping = 0 }))
  wake-Agrees st f i asleep lasts a = elim (Option-cases (lookup (f i).sleeping a.entries)) [
    | inl missing ↦ absurd (a.known i asleep missing)
    | inr (x, e) ↦
        settled st (update f i (record (f i) { sleeping = 0 }))
          (Sleepers.remove st.sleepers (f i).sleeping) (erase (f i).sleeping a.entries)
          (Sleepers.Refine.remove_refines a.tracks (f i).sleeping x e
            (omega (arith, a.tracks.counted, a.tracks.few, lasts)))
          (update_known f i (record (f i) { sleeping = 0 }) _ (λ p. absurd (p refl)) kept)
          (update_unique f i (record (f i) { sleeping = 0 }) (λ j ne p. absurd (p refl)) a.unique)
  ]
    where
      kept :
          (j : ℕ)
          → i ≢ j
          → (f j).sleeping ≢ 0
          → lookup (f j).sleeping (erase (f i).sleeping a.entries) ≢ none
      kept j ne p e = a.known j p (
          sym (
            Sleepers.Lemmas.lookup-erase_ne (f i).sleeping (f j).sleeping a.entries
              (λ q. ne (a.unique i j asleep (sym q))))
          ∙ e)

  -- A sleeping ticker that is polled again: with a new waker, or unnotified once more.
  pub again-Agrees :
      (st : State A) (f : ℕ → Ticker) (i : ℕ) (w : Waker)
      → (f i).sleeping ≢ 0
      → Agrees st f
      → Agrees (sleep st (f i) w).0 (update f i (sleep st (f i) w).1)
  unfolding sleep
  again-Agrees st f i w asleep a = go (Option-cases (lookup (f i).sleeping a.entries))
    where
      id : ℕ
      id = (f i).sleeping

      apart : (j : ℕ) → i ≢ j → id ≢ 0 → id ≢ (f j).sleeping
      apart j ne p q = ne (a.unique i j p q)

      go :
          (lookup id a.entries ≡ none) ⊎ ((x : Option Waker) × (lookup id a.entries ≡ some x))
          → Agrees (sleep st (f i) w).0 (update f i (sleep st (f i) w).1)
      go (inl missing) = absurd (a.known i asleep missing)
      go (inr (some v, e)) =
          let (t, stays) = Sleepers.Refine.update_unnotified a.tracks id w v e in
          rw (==_of_ne id 0 asleep, stays, sleep)
            (record {
              entries = rewake id w a.entries;
              tracks = t;
              known =
                  update_known f i (f i) (rewake id w a.entries)
                    (λ p n. a.known i p (Sleepers.Lemmas.lookup-rewake_inv id id w a.entries n))
                    (λ j ne p n.
                      a.known j p
                        (Sleepers.Lemmas.lookup-rewake_inv (f j).sleeping id w a.entries n));
              unique = update_unique f i (f i) apart a.unique;
              set_right =
                  rw
                    (
                      Sleepers.Lemmas.length-rewake id w a.entries,
                      Sleepers.Lemmas.notified-rewake id w v a.entries e,
                    )
                    a.set_right;
              clear_right = rw (Sleepers.Lemmas.notified-rewake id w v a.entries e) a.clear_right;
            })
      go (inr (none, e)) =
          let (lt, pos) =
            Sleepers.Lemmas.lookup-bounds st.sleepers.id_gen id a.entries a.tracks.below
              (a.known i asleep) in
          let (t, moves) = Sleepers.Refine.update_notified a.tracks id w e lt pos in
          let es = erase id a.entries in
          rw (==_of_ne id 0 asleep, moves, sleep)
            (settled st (update f i (f i)) (Sleepers.update st.sleepers id w).0
              (es ++ ((id, some w) ∷ [])) t
              (update_known f i (f i) (es ++ ((id, some w) ∷ []))
                (λ p n. (Sleepers.Lemmas.lookup-append_inv id id (some w) es n).1 refl)
                (λ j ne p n.
                  let (gone, other) =
                    Sleepers.Lemmas.lookup-append_inv (f j).sleeping id (some w) es n in
                  a.known j p (
                    sym (Sleepers.Lemmas.lookup-erase_ne id (f j).sleeping a.entries other)
                    ∙ gone)))
              (update_unique f i (f i) apart a.unique))

  -- With the flag clear, `notify` marks the last sleeping ticker.
  notify_marks :
      (st : State A) (f : ℕ → Ticker) (a : Agrees st f)
      → st.notified ≡ false
      → let (s', woken) = Sleepers.notify st.sleepers in
        Tracks s' (mark_last a.entries).0 × (woken ≡ (mark_last a.entries).1)
  notify_marks st f a clear =
      let (t, w) = Sleepers.Refine.notify_refines a.tracks in
      (rw (a.clear_right clear) at t, rw (a.clear_right clear) at w)

  pub notify-Agrees : (st : State A) (f : ℕ → Ticker) → Agrees st f → Agrees (notify st).0 f
  unfolding notify
  notify-Agrees st f a = elim (Bool-cases st.notified) [
    | inl set ↦
        rw (set, notify)
          (record {
            entries = a.entries;
            tracks = a.tracks;
            known = a.known;
            unique = a.unique;
            set_right = λ _. a.set_right set;
            clear_right = λ e. cc;
          })
    | inr clear ↦
        rw (clear, notify)
          (record {
            entries = (mark_last a.entries).0;
            tracks = (notify_marks st f a clear).0;
            known = λ i p e.
                a.known i p (Sleepers.Lemmas.lookup-mark_last_inv (f i).sleeping a.entries e);
            unique = a.unique;
            set_right = λ _. up_after_mark a.entries;
            clear_right = λ e. cc;
          })
  ]

  -- A wake takes one off the count.
  pub counts :
      (st : State A) (f : ℕ → Ticker) (i : ℕ)
      → (f i).sleeping ≢ 0
      → st.sleepers.id_gen < word
      → Agrees st f
      → let (st', t) = wake st (f i) in
        (st'.sleepers.count + 1 ≡ st.sleepers.count)
        × (t.sleeping ≡ 0)
        × (length st'.sleepers.wakers ≤ st'.sleepers.count)
  unfolding wake
  counts st f i asleep lasts a = elim (Option-cases (lookup (f i).sleeping a.entries)) [
    | inl missing ↦ absurd (a.known i asleep missing)
    | inr (x, e) ↦
        let small : st.sleepers.count < word =
          omega (arith, a.tracks.counted, a.tracks.few, lasts) in
        let t = Sleepers.Refine.remove_refines a.tracks (f i).sleeping x e small in
        rw (==_of_ne (f i).sleeping 0 asleep, wake)
          (
            omega (
              arith,
              t.counted,
              a.tracks.counted,
              Sleepers.Lemmas.length-erase (f i).sleeping a.entries x e,
            ),
            refl,
            omega (
              arith,
              ap length t.listed,
              t.counted,
              Sleepers.Lemmas.length-unnotified-le (erase (f i).sleeping a.entries),
            ),
          )
  ]
