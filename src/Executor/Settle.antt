-- ===== src/Executor/Settle.antt =====
-- The flag of src/executor.rs after a change of the sleepers, and a ticker that goes to sleep.
use awak.Prelude.{
  ℕ, ◌+◌, ◌<◌, ◌≡◌, ◌≢◌, refl, sym, ◌∙◌, subst, none, some, List, [], ◌∷◌, ◌++◌, Bool, true, false,
  ◌||◌, ◌==◌, length, word,
}
use awak.Sleepers
use awak.Sleepers.{Sleepers, Waker}
use awak.Sleepers.Spec.{Entry, lookup, mark_last, some_notified, Tracks}
use awak.Sleepers.Lemmas
use awak.Sleepers.Refine
use awak.Executor.{State, Ticker, settle}
use awak.Executor.World.{update, Agrees, update_known, update_unique}

or_right : (a b : Bool) → (a || b) ≡ false → b ≡ false
or_right true b h = cc
or_right false b h = h

or_true : (a b : Bool) → b ≡ true → (a || b) ≡ true
or_true true b h = refl
or_true false b h = h

pub up_after_mark :
    (es : List Entry) → (length (mark_last es).0 == 0 || some_notified (mark_last es).0) ≡ true
up_after_mark [] = refl
up_after_mark ((i, w) ∷ es) =
    or_true (length (mark_last ((i, w) ∷ es)).0 == 0) (some_notified (mark_last ((i, w) ∷ es)).0)
      (Sleepers.Lemmas.notified-mark_last i w es)

module _ {A : Type 0} where
  -- The new value of the flag is right for the new list.
  pub settled :
      (st : State A) (f : ℕ → Ticker) (sleepers : Sleepers) (es : List Entry)
      → Tracks sleepers es
      → ((i : ℕ) → (f i).sleeping ≢ 0 → lookup (f i).sleeping es ≢ none)
      → ((i j : ℕ) → (f i).sleeping ≢ 0 → (f i).sleeping ≡ (f j).sleeping → i ≡ j)
      → Agrees (settle st sleepers) f
  settled st f sleepers es t k u = record {
    entries = es;
    tracks = t;
    known = k;
    unique = u;
    set_right = λ e. sym (Sleepers.Refine.is_notified_refines t) ∙ e;
    clear_right = λ e.
        or_right (length es == 0) (some_notified es)
          (sym (Sleepers.Refine.is_notified_refines t) ∙ e);
  }

  -- A ticker that goes to sleep.
  pub fresh-Agrees :
      (st : State A) (f : ℕ → Ticker) (i : ℕ) (w : Waker)
      → (f i).sleeping ≡ 0
      → st.sleepers.id_gen + 1 < word
      → Agrees st f
      → let (s', id) = Sleepers.insert st.sleepers w in
        Agrees (settle st s') (update f i (record (f i) { sleeping = id }))
  fresh-Agrees st f i w awake lasts a =
      let (t, new_id, pos) = Sleepers.Refine.insert_refines a.tracks w lasts in
      let id = (Sleepers.insert st.sleepers w).1 in
      let es = a.entries ++ ((id, some w) ∷ []) in
      settled st (update f i (record (f i) { sleeping = id })) (Sleepers.insert st.sleepers w).0 es
        t
        (update_known f i (record (f i) { sleeping = id }) es
          (λ p e. (Sleepers.Lemmas.lookup-append_inv id id (some w) a.entries e).1 refl)
          (λ j ne p e.
            a.known j p
              (Sleepers.Lemmas.lookup-append_inv (f j).sleeping id (some w) a.entries e).0))
        (update_unique f i (record (f i) { sleeping = id })
          (λ j ne p q. a.known j (λ z. p (q ∙ z)) (subst (λ n. lookup n a.entries ≡ none) q new_id))
          a.unique)
