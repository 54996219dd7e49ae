-- ===== src/Async/Drop.antt =====
-- When the sources of src/io/mod.rs leave the reactor.
use awak.Prelude.{
  ℕ, ◌≡◌, refl, inl, inr, Option, none, some, ◌==◌, Bool-cases, Option-cases, eq_of_==, ap, sym,
  ◌∙◌, ==_of_eq,
}
use awak.Source.{Source}
use awak.CopyBuffer.{ErrorKind}
use awak.Source.Ready.{start}
use awak.Reactor.{Reactor, set_source, insert_io, remove_io}
use awak.Async.{Async, new, drop, into_inner}

set_source-same :
    (ss : ℕ → Option Source) (key : ℕ) (s : Option Source) → set_source ss key s key ≡ s
set_source-same ss key s = rw (==_of_eq key key refl) refl

-- `into_inner` does not return, whatever the reactor holds, if what other threads do to it after
-- the first removal, and before the second, leaves the vacated key vacant: it removes the source
-- from the slab, then drops the handle, which removes it once more, and `Slab::remove` panics on a
-- key that is not there.
pub into_inner_panics :
    {T : Type 0} (r : Reactor) (others : Reactor → Reactor) (a : Async T)
    (removed : Option ErrorKind)
    → ((r' : Reactor) → r'.sources a.source.key ≡ none → (others r').sources a.source.key ≡ none)
    → into_inner r others a removed ≡ none
unfolding into_inner drop remove_io
into_inner_panics r others a removed vacant = elim (Option-cases a.io) [
  | inl gone ↦ simp (gone, into_inner) refl
  | inr (io, held) ↦ elim (Option-cases (r.sources a.source.key)) [
    | inl missing ↦ simp (held, missing, into_inner, remove_io) refl
    | inr (s, found) ↦
        let left : Reactor = record r { sources = set_source r.sources a.source.key none } in
        let still = vacant left (set_source-same r.sources a.source.key none) in
        simp (held, found, into_inner, drop, remove_io, still) refl
  ]
]

-- Let the key that the slab gives be vacant, and let the poller accept the descriptor. Then a new
-- handle can be dropped, and every source of the reactor is as before.
pub new-drop :
    {T : Type 0} (r : Reactor) (io : T) (raw vacant : ℕ)
    → r.sources vacant ≡ none
    → (r' : Reactor) × (a : Async T) × (r'' : Reactor) × (new r io raw vacant none ≡ (r', some a))
      × (drop r' a ≡ some r'')
      × ((key : ℕ) → r''.sources key ≡ r.sources key)
unfolding new drop insert_io remove_io start
new-drop {T} r io raw vacant empty =
    let s : Source = (start raw vacant 0).source in
    let r' : Reactor = record r { sources = set_source r.sources vacant (some s) } in
    let a : Async T = record { source = s; io = some io } in
    (
      r',
      a,
      record r { sources = set_source r'.sources vacant none },
      refl,
      simp (drop, remove_io, set_source-same r.sources vacant (some s)) refl,
      λ key. elim (Bool-cases (vacant == key)) [
        | inl same ↦ rw same (sym empty ∙ ap r.sources (eq_of_== vacant key same))
        | inr other ↦ rw other refl
      ],
    )
