-- ===== src/Poller/Receipts.antt =====
-- The receipts of `kevent` in src/io/poller/kqueue.rs: which of them make `interest` and `remove`
-- fail.
use mathlib.Core.List.{Memᴰ}
use mathlib.Core.List.Memᴰ as Memᴰ
use awak.Prelude.{
  ℕ, ◌≡◌, refl, sym, subst, ◌⊎◌, inl, inr, none, List, [], ◌∷◌, Bool, true, false, not, ◌&&◌, ◌==◌,
  Bool-cases,
}
use awak.CopyBuffer.{ErrorKind, Io, ok, err}
use awak.Poller.{Fd, ◌>>=◌}
use awak.Poller.Kqueue
use awak.Poller.Kqueue.{Kevent, System, is_tolerated, check_receipts, changes, removals}

-- A receipt of an error that counts.
abbrev pub is_failure : List ErrorKind → Kevent → Bool
is_failure tolerated ev =
    ev.flags.ev_error && not (ev.result == 0) && not (is_tolerated tolerated ev.result)

-- What the caller learns from the receipts: none of them is a failure, or the error of one that is.
pub Verdict : {S : Type 0} → List ErrorKind → List Kevent → S → S × Io (Unit {0}) → Type 0
Verdict tolerated receipts s result =
    ((result ≡ (s, ok tt)) × ((ev : Kevent) → Memᴰ ev receipts → is_failure tolerated ev ≡ false))
    ⊎ ((ev : Kevent) × Memᴰ ev receipts
        × (is_failure tolerated ev ≡ true)
        × (result ≡ (s, err ev.result)))

all_cons :
    {P : Kevent → Type 0} {ev : Kevent} {evs : List Kevent}
    → P ev
    → ((x : Kevent) → Memᴰ x evs → P x)
    → (x : Kevent) → Memᴰ x (ev ∷ evs)
    → P x
all_cons {P} here rest x (Memᴰ.head e) = subst P (sym e) here
all_cons here rest x (Memᴰ.tail m) = rest x m

verdict :
    {S : Type 0} (tolerated : List ErrorKind) (receipts : List Kevent) (s : S)
    → Verdict tolerated receipts s (check_receipts tolerated receipts s)
unfolding check_receipts Verdict
verdict tolerated [] s = inl (refl, λ ev m. absurd (Memᴰ.not-nil m))
verdict tolerated (ev ∷ evs) s = elim (Bool-cases (is_failure tolerated ev)) [
  | inl fails ↦ rw (fails, check_receipts) (inr (ev, Memᴰ.head refl, fails, refl))
  | inr fine ↦
      rw (fine, check_receipts)
        (elim (verdict tolerated evs s) [
          | inl (done, all) ↦ inl (done, all_cons fine all)
          | inr (x, m, fails, failed) ↦ inr (x, Memᴰ.tail m, fails, failed)
        ])
]

module _ {S : Type 0} (sys : System S) (kqueue_fd fd : Fd) where
  -- When `kevent` returns receipts, `interest` makes no other call, and it succeeds, and no receipt
  -- has the error flag with an error other than ENOENT and EPIPE; or one of them has, and its error
  -- is returned.
  pub interest-Verdict :
      (key : ℕ) (read write : Bool) (s : S) (receipts : List Kevent)
      → (sys.kevent kqueue_fd (changes fd key read write) 2 none s).1 ≡ ok receipts
      → Verdict
          (sys.enoent ∷ sys.epipe ∷ [])
          receipts
          (sys.kevent kqueue_fd (changes fd key read write) 2 none s).0
          (Kqueue.interest sys kqueue_fd fd key read write s)
  unfolding Kqueue.interest
  interest-Verdict key read write s receipts h = rw (h, ◌>>=◌) (verdict _ receipts _)

  -- What `remove` does with its receipts: as `interest`, but EPIPE counts.
  pub remove-Verdict :
      (s : S) (receipts : List Kevent)
      → (sys.kevent kqueue_fd (removals fd) 2 none s).1 ≡ ok receipts
      → Verdict
          (sys.enoent ∷ [])
          receipts
          (sys.kevent kqueue_fd (removals fd) 2 none s).0
          (Kqueue.remove sys kqueue_fd fd s)
  unfolding Kqueue.remove
  remove-Verdict s receipts h = rw (h, ◌>>=◌) (verdict _ receipts _)
