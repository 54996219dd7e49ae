-- ===== src/Executor/World.antt =====
-- Any number of tickers of src/executor.rs that call `sleep`, `wake` and `notify` in any order, and
-- how they agree with the list of sleepers.
use awak.Prelude.{
  ℕ, suc, ◌≡◌, ◌≢◌, sym, ◌∙◌, inl, inr, none, List, true, false, ◌||◌, ◌==◌, if◌then◌else◌, length,
  Bool-cases, eq_of_==, ne_of_==,
}
use awak.Sleepers.{Waker}
use awak.Sleepers.Spec.{Entry, lookup, some_notified, Tracks}
use awak.Executor.{State, Ticker, new, notify, sleep, wake, ticker}

-- The tickers, by number. Those that no thread runs are awake and stay so.
pub record World (A : Type 0) : Type 0 where
  pub state : State A
  pub tickers : ℕ → Ticker

abbrev pub update : (ℕ → Ticker) → ℕ → Ticker → ℕ → Ticker
update f i t j = if i == j then t else f j

pub data Step {A : Type 0} (s : World A) : World A → Type 0 where
  sleeps :
      (i : ℕ) (waker : Waker)
      → Step s (record {
        state = (sleep s.state (s.tickers i) waker).0;
        tickers = update s.tickers i (sleep s.state (s.tickers i) waker).1;
      })
  wakes :
      (i : ℕ)
      → Step s (record {
        state = (wake s.state (s.tickers i)).0;
        tickers = update s.tickers i (wake s.state (s.tickers i)).1;
      })
  notifies : Step s (record s { state = (notify s.state).0 })

-- The worlds that `n` calls lead to, from the state of `Executor::new`.
pub data Reach {A : Type 0} : ℕ → World A → Type 0 where
  here : Reach 0 (record { state = new; tickers = λ _. ticker })
  next : {n : ℕ} {s t : World A} → Reach n s → Step s t → Reach (suc n) t

module _ {A : Type 0} where
  pub record Agrees (st : State A) (f : ℕ → Ticker) : Type 0 where
    pub entries : List Entry
    pub tracks : Tracks st.sleepers entries
    pub known : (i : ℕ) → (f i).sleeping ≢ 0 → lookup (f i).sleeping entries ≢ none
    pub unique : (i j : ℕ) → (f i).sleeping ≢ 0 → (f i).sleeping ≡ (f j).sleeping → i ≡ j
    -- The flag is set only if a ticker is up, and clear only if none is notified.
    pub set_right : st.notified ≡ true → (length entries == 0 || some_notified entries) ≡ true
    pub clear_right : st.notified ≡ false → some_notified entries ≡ false

-- `f i` is replaced: what held of every other ticker still holds.
pub update_known :
    (f : ℕ → Ticker) (i : ℕ) (t : Ticker) (es : List Entry)
    → (t.sleeping ≢ 0 → lookup t.sleeping es ≢ none)
    → ((j : ℕ) → i ≢ j → (f j).sleeping ≢ 0 → lookup (f j).sleeping es ≢ none)
    → (j : ℕ) → (update f i t j).sleeping ≢ 0
    → lookup (update f i t j).sleeping es ≢ none
update_known f i t es own other j = elim (Bool-cases (i == j)) [
  | inl e ↦ rw e own
  | inr ne ↦ rw ne (other j (ne_of_== i j ne))
]

pub update_unique :
    (f : ℕ → Ticker) (i : ℕ) (t : Ticker)
    → ((j : ℕ) → i ≢ j → t.sleeping ≢ 0 → t.sleeping ≢ (f j).sleeping)
    → ((j k : ℕ) → (f j).sleeping ≢ 0 → (f j).sleeping ≡ (f k).sleeping → j ≡ k)
    → (j k : ℕ) → (update f i t j).sleeping ≢ 0
    → (update f i t j).sleeping ≡ (update f i t k).sleeping
    → j ≡ k
update_unique f i t apart u j k = elim (Bool-cases (i == j)) [
  | inl ej ↦ elim (Bool-cases (i == k)) [
    | inl ek ↦ λ p q. sym (eq_of_== i j ej) ∙ eq_of_== i k ek
    | inr nk ↦ rw (ej, nk) (λ p q. absurd (apart k (ne_of_== i k nk) p q))
  ]
  | inr nj ↦ elim (Bool-cases (i == k)) [
    | inl ek ↦ rw (nj, ek) (λ p q. absurd (apart j (ne_of_== i j nj) (λ z. p (q ∙ z)) (sym q)))
    | inr nk ↦ rw (nj, nk) (u j k)
  ]
]
