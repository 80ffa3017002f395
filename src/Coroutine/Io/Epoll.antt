-- ===== src/Coroutine/Io/Epoll.antt =====
-- zcoroutine/src/io/epoll_poller.cc over the kernel's `epoll_ctl`. The kernel is a parameter with what its manual page
-- says: an error number or success, and what each outcome does to the set of watched descriptors.
use zhttp.Prelude.{
  ℕ, ◌≡◌, ◌≢◌, refl, Bool, true, ◌||◌, Option, none, some, ◌==◌, if◌then◌else◌, Bool-cases, inl,
  inr, ◌⊎◌, not, ◌&&◌, subst, sym, arith,
}
use zhttp.Coroutine.Io.FdContext.{Events, no_events, is_none}

pub data ControlOp : Type 0 where
  ctl_add : ControlOp
  ctl_mod : ControlOp
  ctl_del : ControlOp

-- `interest` is the set of watched descriptors with their events. A call gives no error number when it succeeds; any call may
-- fail, for any reason, and then leaves the set as it is.
pub record Kernel : Type 1 where
  pub State : Type 0
  pub interest : State → ℕ → Option Events
  pub epoll_ctl : ControlOp → ℕ → Events → State → Option ℕ × State
  pub elsewhere :
      (op : ControlOp) (fd : ℕ) (es : Events) (s : State) (i : ℕ)
      → fd ≢ i
      → interest (epoll_ctl op fd es s).1 i ≡ interest s i
  pub failed :
      (op : ControlOp) (fd : ℕ) (es : Events) (s : State) (errno : ℕ)
      → (epoll_ctl op fd es s).0 ≡ some errno
      → interest (epoll_ctl op fd es s).1 fd ≡ interest s fd
  pub added :
      (fd : ℕ) (es : Events) (s : State)
      → (epoll_ctl ctl_add fd es s).0 ≡ none
      → interest (epoll_ctl ctl_add fd es s).1 fd ≡ some es
  pub modified :
      (fd : ℕ) (es : Events) (s : State)
      → (epoll_ctl ctl_mod fd es s).0 ≡ none
      → interest (epoll_ctl ctl_mod fd es s).1 fd ≡ some es
  pub deleted :
      (fd : ℕ) (es : Events) (s : State)
      → (epoll_ctl ctl_del fd es s).0 ≡ none
      → interest (epoll_ctl ctl_del fd es s).1 fd ≡ none

-- `errno == EBADF || errno == ENOENT`.
abbrev pub is_benign : ℕ → Bool
is_benign errno = errno == 9 || errno == 2

-- Every event of a descriptor is watched, perhaps with others; a descriptor without events needs no entry.
abbrev pub covers : Option Events → Events → Bool
covers none es = is_none es
covers (some w) es = (not es.has_read || w.has_read) && (not es.has_write || w.has_write)

pub covers_nothing : (r : Option Events) (es : Events) → is_none es ≡ true → covers r es ≡ true
covers_nothing none es h = h
covers_nothing (some w) es h = ground arith

pub covers_self : (es : Events) → covers (some es) es ≡ true
covers_self es = ground arith

module _ (K : Kernel) where
  abbrev pub poll_add : ℕ → Events → K.State → Option ℕ × K.State
  poll_add fd es s = K.epoll_ctl ctl_add fd es s

  abbrev pub poll_mod : ℕ → Events → K.State → Option ℕ × K.State
  poll_mod fd es s = K.epoll_ctl ctl_mod fd es s

  abbrev pub benign_is_success : Option ℕ → Option ℕ
  benign_is_success none = none
  benign_is_success (some errno) = if is_benign errno then none else some errno

  abbrev pub poll_del : ℕ → K.State → Option ℕ × K.State
  poll_del fd s = let (err, s') = K.epoll_ctl ctl_del fd no_events s in (benign_is_success err, s')

  -- The end of `del_event`, `cancel_event` and `trigger_event` of the scheduler: what remains of the events is watched.
  unfoldable pub update_epoll : ℕ → Events → K.State → Option ℕ × K.State
  update_epoll fd es s = if is_none es then poll_del fd s else poll_mod fd es s

  pub outcome_cases : (r : Option ℕ) → (r ≡ none) ⊎ ((n : ℕ) × (r ≡ some n))
  outcome_cases none = inl refl
  outcome_cases (some n) = inr (n, refl)

  -- What remains of the events is watched as it was, also where the call fails.
  pub update_epoll-covers :
      (fd : ℕ) (es : Events) (s : K.State)
      → covers (K.interest s fd) es ≡ true
      → covers (K.interest (update_epoll fd es s).1 fd) es ≡ true
  unfolding update_epoll
  update_epoll-covers fd es s h = elim (Bool-cases (is_none es)) [
    | inl empty ↦ covers_nothing (K.interest (update_epoll fd es s).1 fd) es empty
    | inr more ↦ rw more (elim (outcome_cases (K.epoll_ctl ctl_mod fd es s).0) [
      | inl ok ↦ subst (λ r. covers r es ≡ true) (sym (K.modified fd es s ok)) (covers_self es)
      | inr (n, bad) ↦ subst (λ r. covers r es ≡ true) (sym (K.failed ctl_mod fd es s n bad)) h
    ])
  ]

  pub update_epoll_elsewhere :
      (fd : ℕ) (es : Events) (s : K.State) (i : ℕ)
      → fd ≢ i
      → K.interest (update_epoll fd es s).1 i ≡ K.interest s i
  unfolding update_epoll
  update_epoll_elsewhere fd es s i ne = elim (Bool-cases (is_none es)) [
    | inl empty ↦ rw empty (K.elsewhere ctl_del fd no_events s i ne)
    | inr more ↦ rw more (K.elsewhere ctl_mod fd es s i ne)
  ]
