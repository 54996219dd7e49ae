-- ===== src/Sleepers/Refine.antt =====
-- Each method of `Sleepers` of src/executor.rs against the list of sleeping tickers.
use awak.Prelude.{
  ℕ, ◌+◌, ◌≤◌, ◌<◌, ◌≡◌, refl, ap, ◌∙◌, sym, inl, inr, Option, none, some, List, [], ◌∷◌, ◌++◌,
  true, false, ◌||◌, ◌==◌, if◌then◌else◌, length, length-append, word, ==_of_eq, ==_of_ne, lt-cases,
  lt→ltb, le→ltb, arith,
}
use awak.Sleepers.{
  Waker, Sleepers, pop_last, second, replace, notify, update, is_notified, remove, insert,
}
use awak.Sleepers.Spec.{Entry, unnotified, lookup, erase, rewake, mark_last, some_notified, Tracks}
use awak.Sleepers.Lemmas

module _ {s : Sleepers} {es : List Entry} (t : Tracks s es) where
  -- As long as the ids last, `insert` adds an unnotified ticker, with an id that is new and not 0.
  pub insert_refines :
      (w : Waker)
      → s.id_gen + 1 < word
      → let (s', id) = insert s w in
        Tracks s' (es ++ ((id, some w) ∷ [])) × (lookup id es ≡ none) × (0 < id)
  unfolding insert
  insert_refines w lasts = (
    record {
      counted = omega (arith, t.counted, length-append es ((s.id_gen, some w) ∷ []), t.few);
      listed =
          ap (λ l. l ++ ((s.id_gen, w) ∷ [])) t.listed
          ∙ sym (Lemmas.unnotified-append es s.id_gen w);
      distinct = Lemmas.Distinct-append s.id_gen (some w) es t.distinct new;
      below =
          Lemmas.Below-append _ s.id_gen (some w) es (Lemmas.Below-mono es (omega arith) t.below)
            (omega arith) (omega (arith, t.few));
      few = omega (arith, t.few, length-append es ((s.id_gen, some w) ∷ []));
    },
    new,
    omega (arith, t.few),
  )
    where
      new : lookup s.id_gen es ≡ none
      new = Lemmas.lookup_above s.id_gen s.id_gen es (omega arith) t.below

  -- `remove` takes a sleeping ticker off the list, notified or not.
  pub remove_refines :
      (id : ℕ) (x : Option Waker)
      → lookup id es ≡ some x
      → s.count < word
      → Tracks (remove s id) (erase id es)
  unfolding remove
  remove_refines id x e small = record {
    counted = omega (arith, t.counted, Lemmas.length-erase id es x e, small);
    listed = rw t.listed (Lemmas.remove_unnotified id es t.distinct);
    distinct = Lemmas.Distinct-erase id es t.distinct;
    below = Lemmas.Below-erase id s.id_gen es t.below;
    few = omega (arith, t.few, Lemmas.length-erase id es x e);
  }

  -- `update` of an unnotified ticker gives it the new waker, and returns false.
  pub update_unnotified :
      (id : ℕ) (w v : Waker)
      → lookup id es ≡ some (some v)
      → let (s', r) = update s id w in Tracks s' (rewake id w es) × (r ≡ false)
  unfolding update
  update_unnotified id w v e =
      rw (found, update)
        (
          record {
            counted = t.counted ∙ sym (Lemmas.length-rewake id w es);
            listed = refl;
            distinct = Lemmas.Distinct-rewake id w es t.distinct;
            below = Lemmas.Below-rewake id w s.id_gen es t.below;
            few = omega (arith, t.few, Lemmas.length-rewake id w es);
          },
          refl,
        )
    where
      found : replace id w s.wakers ≡ some (unnotified (rewake id w es))
      found = ap (replace id w) t.listed ∙ Lemmas.replace-unnotified id w es v e

  -- `update` of a notified ticker makes it unnotified again, and returns true.
  pub update_notified :
      (id : ℕ) (w : Waker)
      → lookup id es ≡ some none
      → id < s.id_gen
      → 0 < id
      → let (s', r) = update s id w in Tracks s' (erase id es ++ ((id, some w) ∷ [])) × (r ≡ true)
  unfolding update
  update_notified id w e lt pos =
      let (absent, same) = Lemmas.replace_notified id w es t.distinct e in
      rw (ap (replace id w) t.listed ∙ absent, update)
        (
          record {
            counted = omega (
              arith,
              t.counted,
              Lemmas.length-erase id es none e,
              length-append (erase id es) ((id, some w) ∷ []),
            );
            listed =
                ap (λ l. l ++ ((id, w) ∷ [])) (t.listed ∙ sym same)
                ∙ sym (Lemmas.unnotified-append (erase id es) id w);
            distinct =
                Lemmas.Distinct-append id (some w) (erase id es)
                  (Lemmas.Distinct-erase id es t.distinct)
                  (Lemmas.lookup-erase_self id es t.distinct);
            below =
                Lemmas.Below-append s.id_gen id (some w) (erase id es)
                  (Lemmas.Below-erase id s.id_gen es t.below) lt pos;
            few = omega (
              arith,
              t.few,
              Lemmas.length-erase id es none e,
              length-append (erase id es) ((id, some w) ∷ []),
            );
          },
          refl,
        )

  -- `is_notified` tells whether no ticker sleeps or some sleeping ticker is notified.
  pub is_notified_refines : is_notified s ≡ (length es == 0 || some_notified es)
  unfolding is_notified
  is_notified_refines = elim (lt-cases (length (unnotified es)) (length es)) [
    | inl lt ↦ rw (t.listed, t.counted, lt→ltb _ _ lt, Lemmas.notified-lt es lt)
    | inr le ↦ rw (t.listed, t.counted, le→ltb _ _ le, Lemmas.notified-eq es le)
  ]

  -- `notify` wakes the last ticker if none is notified yet, and does nothing otherwise.
  pub notify_refines :
      let (s', woken) = notify s in
      let (es', last) = if some_notified es then (es, none) else mark_last es in
      Tracks s' es' × (woken ≡ last)
  unfolding notify
  notify_refines = elim (lt-cases (length (unnotified es)) (length es)) [
    | inl lt ↦ rw (Lemmas.notified-lt es lt, differ lt, notify) (t, refl)
    | inr le ↦
        rw (Lemmas.notified-eq es le, agree le, notify)
          (let (items, last) = Lemmas.pop_last-unnotified es (all le) in
            (
              record {
                counted = t.counted ∙ sym (Lemmas.length-mark_last es);
                listed = ap (λ l. (pop_last l).0) t.listed ∙ items;
                distinct = Lemmas.Distinct-mark_last es t.distinct;
                below = Lemmas.Below-mark_last s.id_gen es t.below;
                few = omega (arith, t.few, Lemmas.length-mark_last es);
              },
              ap (λ l. second (pop_last l).1) t.listed ∙ last,
            ))
  ]
    where
      differ : length (unnotified es) < length es → (length s.wakers == s.count) ≡ false
      differ lt = ==_of_ne (length s.wakers) s.count (omega (arith, ap length t.listed, t.counted))

      all : length es ≤ length (unnotified es) → length (unnotified es) ≡ length es
      all le = omega (arith, Lemmas.length-unnotified-le es)

      agree : length es ≤ length (unnotified es) → (length s.wakers == s.count) ≡ true
      agree le =
          ==_of_eq (length s.wakers) s.count (omega (arith, ap length t.listed, t.counted, all le))
