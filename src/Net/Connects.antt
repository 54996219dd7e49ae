-- ===== src/Net/Connects.antt =====
-- When `UnixStream::connect` of src/net/unix/stream.rs succeeds.
use awak.Prelude.{◌≡◌, refl, ◌∙◌, ◌↔◌}
use awak.CopyBuffer.{ok}
use awak.Net.{and_then}
use awak.Net.First.{and_then-ok}
use awak.Net.Stream.Unix.{Attempt, made, started, connect}

-- Every call before succeeds, or the connection is in progress; the socket becomes writable; and it
-- then has a peer.
pub record Succeeds {T : Type 0} (t : Attempt T) (stream : T) : Type 0 where
  pub address : t.address ≡ ok tt
  pub made : made t ≡ ok tt
  pub started : started t ≡ ok tt
  pub given : t.stream ≡ ok stream
  pub writable : t.writable ≡ ok tt
  pub peer : t.peer_addr ≡ ok tt

-- `UnixStream::connect` returns a stream if and only if every call before succeeds, where `connect`
-- may also be in progress, the socket becomes writable, and then has a peer.
pub connect-Succeeds :
    {T : Type 0} (t : Attempt T) (stream : T) → (connect t ≡ ok stream) ↔ Succeeds t stream
unfolding connect
connect-Succeeds t stream = (forth, back)
  where
    forth : connect t ≡ ok stream → Succeeds t stream
    forth h =
        let (_, address, h1) = and_then-ok t.address _ stream h in
        let (_, made, h2) = and_then-ok (made t) _ stream h1 in
        let (_, started, h3) = and_then-ok (started t) _ stream h2 in
        let (got, given, h4) = and_then-ok t.stream _ stream h3 in
        let (_, writable, h5) = and_then-ok t.writable _ stream h4 in
        let (_, peer, same) = and_then-ok t.peer_addr _ stream h5 in
        record {
          address = address;
          made = made;
          started = started;
          given = given ∙ same;
          writable = writable;
          peer = peer;
        }

    back : Succeeds t stream → connect t ≡ ok stream
    back h =
        simp (connect, and_then, h.address, h.made, h.started, h.given, h.writable, h.peer) refl
