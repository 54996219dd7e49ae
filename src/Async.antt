-- ===== src/Async.antt =====
-- `Async` of src/io/mod.rs: an I/O handle with its source, and the loops that call the handle until
-- it would not block. The state `S` is what the closure `op` may change: the handle and what it
-- captures. A poll is one step: no event of the poller comes while it runs.
pub mod Ready
pub mod Traits
pub mod Wakes
pub mod Drop
mod Tests
use awak.Prelude.{ℕ, zero, suc, Option, none, some, Bool, true, false, ◌==◌, if◌then◌else◌}
use awak.Sleepers.{Waker}
use awak.Source.{Source, Op, Interest, Polled, poll_ready}
use awak.CopyBuffer.{ErrorKind, Io, ok, err, Poll, ready, pending}
use awak.Reactor.{Reactor, insert_io, remove_io, refusal}

abbrev pub would_block : ErrorKind
would_block = 1

abbrev pub is_blocked : {R : Type 0} → Io R → Bool
is_blocked (ok r) = false
is_blocked (err e) = e == would_block

-- What the poll of a loop leaves and returns.
pub record Looped (S R : Type 0) : Type 0 where
  pub source : Source
  pub state : S
  pub result : Poll (Io R)

module _ {S R : Type 0} (op : S → S × Io R) (refuses : Interest → Option ErrorKind) (dir : Op)
    (w : Waker) (ticker : ℕ) where
  -- `ready!(self.source.poll_readable(cx))?`, and what comes after.
  abbrev pub await : Source → S → (Source → Option (Looped S R)) → Option (Looped S R)
  await src s next = elim ((poll_ready src dir w ticker).1) [
    | Polled.ready ↦ next (poll_ready src dir w ticker).0
    | Polled.pending asked ↦ some (record {
      source = (poll_ready src dir w ticker).0;
      state = s;
      result = elim (refusal refuses asked) [ some e ↦ ready (err e) | none ↦ pending ];
    })
  ]

  -- The loop of the eight functions. `none`: the rounds were not enough.
  unfoldable pub poll_with : ℕ → Source → S → Option (Looped S R)
  poll_with zero src s = none
  poll_with (suc n) src s =
      let (s', res) = op s in
      if is_blocked res
      then await src s' (λ src'. poll_with n src' s')
      else some (record { source = src; state = s'; result = ready res })

  -- A poll of the future of `read_with` or `write_with` that awaits the source.
  unfoldable pub resume_with : ℕ → Source → S → Option (Looped S R)
  unfolding poll_with
  resume_with n src s = await src s (λ src'. poll_with n src' s)

-- `io` is `None` once the handle was taken out.
pub record Async (T : Type 0) : Type 0 where
  pub source : Source
  pub io : Option T

-- `vacant` and `inserted` are as for `insert_io`.
unfoldable pub new :
    {T : Type 0} → Reactor → T → ℕ → ℕ → Option ErrorKind → Reactor × Option (Async T)
unfolding insert_io
new r io raw vacant inserted =
    let (r', made) = insert_io r raw vacant inserted in
    (r', elim made [ some s ↦ some (record { source = s; io = some io }) | none ↦ none ])

-- The reactor that is left, or `none` for a panic.
unfoldable pub drop : {T : Type 0} → Reactor → Async T → Option Reactor
unfolding remove_io
drop r a = remove_io r a.source

-- The two removals take the lock of the sources one after the other: `others` is what other threads
-- do to the reactor in between. At the end of `into_inner` `self` is dropped, whether the poller
-- has removed the descriptor, as `removed` says, or returned an error.
unfoldable pub into_inner :
    {T : Type 0}
    → Reactor
    → (Reactor → Reactor)
    → Async T
    → Option ErrorKind
    → Option (Reactor × Io T)
unfolding drop remove_io
into_inner r others a removed = elim a.io [
  | none ↦ none
  | some io ↦ elim (remove_io r a.source) [
    | none ↦ none
    | some r' ↦ elim (drop (others r') (record a { io = none })) [
      | none ↦ none
      | some r'' ↦ some (r'', elim removed [ some e ↦ err e | none ↦ ok io ])
    ]
  ]
]
