-- ===== src/Local/Race.antt =====
-- `Local::push` and `Local::pop` of src/executor.rs with other threads in between: one step for
-- each access of shared memory. One thread pushes, and any number of threads pop. (The owner also
-- pops, but never while it pushes; here its pops are those of one more thread.) The accesses are
-- taken to be sequentially consistent.
pub mod Invariant
mod Known
mod Moves
pub mod Safety
mod Tests
use awak.Prelude.{
  ℕ, ◌+◌, ◌≤◌, ◌<◌, ◌≡◌, ◌≢◌, Option, none, some, List, [], ◌∷◌, ◌++◌, length, get_or, set, ◌==◌,
  if◌then◌else◌, wrapping_add, wrapping_sub,
}
use awak.Local.{Local, Popped, slot, assume_init, new}

-- Where a call of `push` stands.
pub data PushPc (A : Type 0) : Type 0 where
  idle : PushPc A
  loaded : A → (head : ℕ) → PushPc A  -- after the load of `head`
  written : A → PushPc A  -- after the write of the slot, before the store of `tail`

-- Where a call of `pop` stands.
pub data PopPc (A : Type 0) : Type 0 where
  idle : PopPc A
  loaded : (head : ℕ) → PopPc A  -- the head of the loop
  nonempty : (head : ℕ) → PopPc A  -- after the load of `tail`
  claiming : (head : ℕ) → Option A → PopPc A  -- after the read of the slot, before the exchange

-- The ring, its owner, the threads that pop, and two logs: the values in the order in which their
-- pushes became visible, and what the pops returned, in the order of their exchanges.
pub record System (A : Type 0) : Type 0 where
  pub ring : Local A
  pub owner : PushPc A
  pub thief : ℕ → PopPc A
  pub pushed : List A
  pub popped : List (Popped A)

abbrev pub update {ℓ} : {P : Type ℓ} → (ℕ → P) → ℕ → P → ℕ → P
update f i p j = if i == j then p else f j

pub data Step {A : Type 0} (s : System A) : System A → Type 0 where
  push_load :
      (v : A) → s.owner ≡ PushPc.idle → Step s (record s { owner = PushPc.loaded v s.ring.head })
  push_full :
      (v : A) (head : ℕ)
      → s.owner ≡ PushPc.loaded v head
      → length s.ring.buffer ≤ wrapping_sub s.ring.tail head
      → Step s (record s { owner = PushPc.idle })
  push_write :
      (v : A) (head : ℕ)
      → s.owner ≡ PushPc.loaded v head
      → wrapping_sub s.ring.tail head < length s.ring.buffer
      → Step s (record s {
        ring = record (s.ring) { buffer = set s.ring.buffer (slot s.ring s.ring.tail) (some v) };
        owner = PushPc.written v;
      })
  push_store :
      (v : A)
      → s.owner ≡ PushPc.written v
      → Step s (record s {
        ring = record (s.ring) { tail = wrapping_add s.ring.tail 1 };
        owner = PushPc.idle;
        pushed = s.pushed ++ (v ∷ []);
      })
  pop_load :
      (i : ℕ)
      → s.thief i ≡ PopPc.idle
      → Step s (record s { thief = update s.thief i (PopPc.loaded s.ring.head) })
  pop_empty :
      (i head : ℕ)
      → s.thief i ≡ PopPc.loaded head
      → head ≡ s.ring.tail
      → Step s (record s { thief = update s.thief i PopPc.idle })
  pop_test :
      (i head : ℕ)
      → s.thief i ≡ PopPc.loaded head
      → head ≢ s.ring.tail
      → Step s (record s { thief = update s.thief i (PopPc.nonempty head) })
  pop_read :
      (i head : ℕ)
      → s.thief i ≡ PopPc.nonempty head
      → Step s (record s {
        thief =
            update s.thief i (PopPc.claiming head (get_or s.ring.buffer (slot s.ring head) none));
      })
  pop_win :
      (i head : ℕ) (v : Option A)
      → s.thief i ≡ PopPc.claiming head v
      → s.ring.head ≡ head
      → Step s (record s {
        ring = record (s.ring) { head = wrapping_add head 1 };
        thief = update s.thief i PopPc.idle;
        popped = s.popped ++ (assume_init v ∷ []);
      })
  pop_lose :
      (i head : ℕ) (v : Option A)
      → s.thief i ≡ PopPc.claiming head v
      → s.ring.head ≢ head
      → Step s (record s { thief = update s.thief i (PopPc.loaded s.ring.head) })

-- A new ring of at least `n` slots, and no call under way.
abbrev pub start : (A : Type 0) → ℕ → System A
start A n = record {
  ring = new n;
  owner = PushPc.idle;
  thief = λ _. PopPc.idle;
  pushed = [];
  popped = [];
}

pub data Reach {A : Type 0} (n : ℕ) : System A → Type 0 where
  here : Reach n (start A n)
  next : {s t : System A} → Reach n s → Step s t → Reach n t
