-- ===== src/Net/First.antt =====
-- Which address the loops of src/net/tcp/stream.rs and src/net/udp.rs take.
use awak.Prelude.{
  ◌≡◌, refl, ap, ◌∙◌, inl, inr, ◌⊎◌, ◌↔◌, Option, none, some, List, [], ◌∷◌, ◌++◌, arith,
}
use awak.CopyBuffer.{ErrorKind, Io, ok, err}
use awak.Net.{invalid_input, unwrap_or, try_each, connect, Attempt, started, and_then, connect_addr}

module _ {A B W : Type 0} (op : A → W → W × Io B) where
  -- Each address fails, from the state `w` and the error `last` on.
  pub data Fails : List A → W → Option ErrorKind → W → Option ErrorKind → Type 0 where
    none_left : {w : W} {last : Option ErrorKind} → Fails [] w last w last
    one_more :
        {a : A} {rest : List A} {w w' w'' : W} {last last' : Option ErrorKind} {e : ErrorKind}
        → op a w ≡ (w', err e)
        → Fails rest w' (some e) w'' last'
        → Fails (a ∷ rest) w last w'' last'

  -- The first address that does not fail is taken, or all fail.
  unfoldable pub First : List A → W → Option ErrorKind → W × Io B → Type 0
  First addrs w last res =
      ((before : List A) × (a : A) × (after : List A) × (w1 : W) × (last1 : Option ErrorKind)
        × (w2 : W) × (b : B) × (addrs ≡ before ++ (a ∷ after))
        × Fails before w last w1 last1
        × (op a w1 ≡ (w2, ok b))
        × (res ≡ (w2, ok b)))
      ⊎ ((w' : W) × (last' : Option ErrorKind) × Fails addrs w last w' last'
          × (res ≡ (w', err (unwrap_or last' invalid_input))))

  after_one :
      (a : A) (rest : List A) (w : W) (last : Option ErrorKind) (w' : W) (res : Io B)
      → op a w ≡ (w', res)
      → ((e : ErrorKind) → First rest w' (some e) (try_each op rest (some e) w'))
      → First
          (a ∷ rest)
          w
          last
          (elim res [ ok b ↦ (w', ok b) | err e ↦ try_each op rest (some e) w' ])
  unfolding First
  after_one a rest w last w' (ok b) done others =
      inl ([], a, rest, w, last, w', b, refl, none_left, done, refl)
  after_one a rest w last w' (err e) fails others = elim (others e) [
    | inl (before, a1, after, w1, last1, w2, b, split, failed, done, returns) ↦ inl (
      a ∷ before,
      a1,
      after,
      w1,
      last1,
      w2,
      b,
      ap (λ xs. a ∷ xs) split,
      one_more fails failed,
      done,
      returns,
    )
    | inr (w2, last', failed, returns) ↦ inr (w2, last', one_more fails failed, returns)
  ]

  try_each-First :
      (addrs : List A) (w : W) (last : Option ErrorKind)
      → First addrs w last (try_each op addrs last w)
  unfolding try_each First
  try_each-First [] w last = inr (w, last, none_left, refl)
  try_each-First (a ∷ rest) w last =
      after_one a rest w last (op a w).0 (op a w).1 refl
        (λ e. try_each-First rest (op a w).0 (some e))

  -- `connect` takes the addresses in order. It returns what the first address that does not fail
  -- gives, after calls that failed for all before it, and tries none after it; or all fail, and it
  -- returns the error of the last one, or InvalidInput when there is no address.
  pub connect-First : (addrs : List A) (w : W) → First addrs w none (connect op (ok addrs) w)
  unfolding connect
  connect-First addrs w = try_each-First addrs w none

pub and_then-ok :
    {A B : Type 0} (m : Io A) (f : A → Io B) (b : B)
    → and_then m f ≡ ok b
    → (a : A) × (m ≡ ok a) × (f a ≡ ok b)
and_then-ok (ok a) f b e = (a, refl, e)
and_then-ok (err k) f b e = absurd (ground arith)

no_error :
    {T : Type 0} (e : Option ErrorKind) (stream got : T)
    → (elim e [ none ↦ ok got | some k ↦ err k ]) ≡ ok stream
    → (e ≡ none) × (ok got ≡ ok stream)
no_error none stream got h = (refl, h)
no_error (some k) stream got h = absurd (ground arith)

-- `connect_addr` returns a stream exactly if every call before succeeds or is in progress, the
-- socket becomes writable, and no error is taken from it; the error of a connection that fails
-- after it was in progress is returned.
pub connect_addr-connects :
    {T : Type 0} (t : Attempt T) (stream : T)
    → (connect_addr t ≡ ok stream) ↔ (
        (t.socket ≡ ok tt)
        × (t.nonblocking ≡ ok tt)
        × (started t ≡ ok tt)
        × (t.stream ≡ ok stream)
        × (t.writable ≡ ok tt)
        × (t.take_error ≡ ok none))
unfolding connect_addr
connect_addr-connects t stream = (forth, back)
  where
    forth :
        connect_addr t ≡ ok stream
        → (t.socket ≡ ok tt)
          × (t.nonblocking ≡ ok tt)
          × (started t ≡ ok tt)
          × (t.stream ≡ ok stream)
          × (t.writable ≡ ok tt)
          × (t.take_error ≡ ok none)
    forth h =
        let (_, socket, h1) = and_then-ok t.socket _ stream h in
        let (_, nonblocking, h2) = and_then-ok t.nonblocking _ stream h1 in
        let (_, connected, h3) = and_then-ok (started t) _ stream h2 in
        let (got, made, h4) = and_then-ok t.stream _ stream h3 in
        let (_, writable, h5) = and_then-ok t.writable _ stream h4 in
        let (e, taken, h6) = and_then-ok t.take_error _ stream h5 in
        let (no_e, same) = no_error e stream got h6 in
        (socket, nonblocking, connected, made ∙ same, writable, taken ∙ ap ok no_e)

    back :
        (t.socket ≡ ok tt)
          × (t.nonblocking ≡ ok tt)
          × (started t ≡ ok tt)
          × (t.stream ≡ ok stream)
          × (t.writable ≡ ok tt)
          × (t.take_error ≡ ok none)
        → connect_addr t ≡ ok stream
    back (socket, nonblocking, connected, made, writable, taken) =
        simp (connect_addr, and_then, socket, nonblocking, connected, made, writable, taken) refl
