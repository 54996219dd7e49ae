-- ===== src/Poller/Kqueue.antt =====
-- `Reactor` and `Events` of src/io/poller/kqueue.rs. The flags of a `kevent` are the set of its
-- flags: the constants of libc are different bits.
use awak.Prelude.{
  ℕ, zero, suc, Option, none, some, List, [], ◌∷◌, Bool, true, false, not, ◌||◌, ◌&&◌, ◌==◌,
  if◌then◌else◌, bit_or,
}
use awak.CopyBuffer.{ErrorKind, Io, ok, err}
use awak.Source.{Event}
use awak.Poller.{Fd, Duration, Call, ◌>>=◌, ◌>>◌, return, fail, ignore, notify_key}

pub record Flags : Type 0 where
  pub ev_add : Bool
  pub ev_delete : Bool
  pub ev_oneshot : Bool
  pub ev_receipt : Bool
  pub ev_error : Bool
  pub ev_eof : Bool

pub data Filter : Type 0 where
  evfilt_read evfilt_write : Filter

-- `kevent`, without `fflags`: `result` is the field `data` of a receipt, an error number.
pub record Kevent : Type 0 where
  pub ident : Fd
  pub filter : Filter
  pub flags : Flags
  pub result : ErrorKind
  pub udata : ℕ

pub data Stream : Type 0 where
  read_stream write_stream : Stream

-- The system calls, each with what the source passes.
pub record System (S : Type 0) : Type 0 where
  pub kqueue : Call S Fd
  pub set_cloexec : Fd → Call S (Unit {0})
  pub pair : Call S (Unit {0})
  pub set_nonblocking : Stream → Call S (Unit {0})
  pub stream_fd : Stream → Fd
  pub getfl : Fd → Call S ℕ
  pub setfl : Fd → ℕ → Call S (Unit {0})
  -- `kevent` with a change list and the room of the event list, and a timeout.
  pub kevent : Fd → List Kevent → ℕ → Option Duration → Call S (List Kevent)
  -- `read` of 64 bytes at most, and `write` of one.
  pub read : Call S ℕ
  pub write : Call S ℕ
  pub o_nonblock : ℕ
  pub enoent : ErrorKind
  pub epipe : ErrorKind

abbrev pub change : Bool → Flags
change wanted = record {
  ev_add = wanted;
  ev_delete = not wanted;
  ev_oneshot = true;
  ev_receipt = true;
  ev_error = false;
  ev_eof = false;
}

unfoldable pub changes : Fd → ℕ → Bool → Bool → List Kevent
changes fd key readable writable =
    record { ident = fd; filter = evfilt_read; flags = change readable; result = 0; udata = key }
    ∷ record { ident = fd; filter = evfilt_write; flags = change writable; result = 0; udata = key }
    ∷ []

abbrev pub deletion : Flags
deletion = record {
  ev_add = false;
  ev_delete = true;
  ev_oneshot = false;
  ev_receipt = true;
  ev_error = false;
  ev_eof = false;
}

unfoldable pub removals : Fd → List Kevent
removals fd =
    record { ident = fd; filter = evfilt_read; flags = deletion; result = 0; udata = 0 }
    ∷ record { ident = fd; filter = evfilt_write; flags = deletion; result = 0; udata = 0 }
    ∷ []

abbrev pub is_read : Filter → Bool
is_read evfilt_read = true
is_read evfilt_write = false

abbrev pub is_write : Filter → Bool
is_write evfilt_read = false
is_write evfilt_write = true

-- One item of `Events::iter`.
unfoldable pub decode : Kevent → Event
decode ev = record {
  key = ev.udata;
  readable = is_read ev.filter;
  writable = is_write ev.filter || (is_read ev.filter && ev.flags.ev_eof);
}

abbrev pub is_tolerated : List ErrorKind → ErrorKind → Bool
is_tolerated [] e = false
is_tolerated (t ∷ ts) e = (e == t) || is_tolerated ts e

module _ {S : Type 0} where
  -- The loops over the receipts: an error of `tolerated` is passed over.
  unfoldable pub check_receipts : List ErrorKind → List Kevent → Call S (Unit {0})
  check_receipts tolerated [] = return tt
  check_receipts tolerated (ev ∷ evs) =
      let rest = check_receipts tolerated evs in
      if ev.flags.ev_error && not (ev.result == 0) && not (is_tolerated tolerated ev.result)
      then fail ev.result
      else rest

module _ {S : Type 0} (sys : System S) where
  -- `kqueue_fd` is the field of the reactor.
  module _ (kqueue_fd : Fd) where
    unfoldable pub insert : Fd → Call S (Unit {0})
    insert fd = do flags ← sys.getfl fd; sys.setfl fd (bit_or flags sys.o_nonblock)

    unfoldable pub interest : Fd → ℕ → Bool → Bool → Call S (Unit {0})
    interest fd key readable writable = do
      receipts ← sys.kevent kqueue_fd (changes fd key readable writable) 2 none
      check_receipts (sys.enoent ∷ sys.epipe ∷ []) receipts

    unfoldable pub remove : Fd → Call S (Unit {0})
    remove fd = do
      receipts ← sys.kevent kqueue_fd (removals fd) 2 none
      check_receipts (sys.enoent ∷ []) receipts

    -- `while read().is_ok() {}`, for `fuel` reads at most.
    unfoldable pub drain : ℕ → S → Option S
    drain zero s = none
    drain (suc fuel) s =
        let (s', r) = sys.read s in
        let rest = drain fuel s' in elim r [ ok n ↦ rest | err e ↦ some s' ]

    -- `none` when the fuel does not suffice for the loop.
    unfoldable pub wait : ℕ → Option Duration → S → Option (S × Io (List Kevent))
    wait fuel timeout s =
        let (s', r) = sys.kevent kqueue_fd [] 1000 timeout s in
        elim r [
          | err e ↦ some (s', err e)
          | ok events ↦ elim (drain fuel s') [
            | none ↦ none
            | some s'' ↦ some (
                (interest (sys.stream_fd read_stream) notify_key true false >>= λ _. return events)
                  s'')
          ]
        ]

    unfoldable pub notify : Call S (Unit {0})
    notify = ignore sys.write

  unfoldable pub new : Call S Fd
  new = do
    kqueue_fd ← sys.kqueue
    sys.set_cloexec kqueue_fd
    sys.pair
    sys.set_nonblocking read_stream
    sys.set_nonblocking write_stream
    interest kqueue_fd (sys.stream_fd read_stream) notify_key true false
    return kqueue_fd
