-- ===== src/Coroutine/Io/Scheduler/Validity.antt =====
-- The kernel and the descriptor contexts under the calls of zcoroutine/src/io/io_scheduler.cc.
use zhttp.Prelude.{
  ℕ, ◌<◌, ◌≡◌, ◌≢◌, refl, subst, Bool, true, false, ◌==◌, ==_iff, Option, none, some, arith, pos,
  Bool-cases, inl, inr, ◌⊎◌, length,
}
use zhttp.Coroutine.Io.FdContext.{
  Event, read, write, Events, no_events, has, with_event, without_event, is_none, EventContext,
  FdContext, reset_context, new_context, get_event_context, set_event_context, cleared, Effect,
}
use zhttp.Coroutine.Io.FdContext
use zhttp.Coroutine.Io.Table.{get, get-set_slot, get-set_slot_other}
use zhttp.Coroutine.Io.Epoll.{Kernel, covers, ctl_add, ctl_mod, outcome_cases}
use zhttp.Coroutine.Io.Scheduler.{IoScheduler, register, with_waiter, with_waiter_at, update_slot}

module _ {C F : Type 0} where
  -- A context belongs to the scheduler while its event is registered, and is empty otherwise.
  abbrev pub IsTidy : ℕ → Bool → EventContext C F → Type 0
  IsTidy self true ctx = ctx.scheduler ≡ some self
  IsTidy self false ctx = ctx ≡ reset_context

  abbrev pub IsWell : ℕ → ℕ → FdContext C F → Type 0
  IsWell self fd x =
      (x.fd ≡ fd)
      × IsTidy self x.events.has_read x.read_ctx
      × IsTidy self x.events.has_write x.write_ctx

  abbrev pub IsWellSlot : ℕ → ℕ → Option (FdContext C F) → Type 0
  IsWellSlot self fd none = Unit
  IsWellSlot self fd (some x) = IsWell self fd x

  -- The events of a slot.
  abbrev pub slot_events : Option (FdContext C F) → Events
  slot_events none = no_events
  slot_events (some x) = x.events

  pub cleared-IsWell :
      (self fd : ℕ) (e : Event) (x : FdContext C F)
      → IsWell self fd x
      → IsWell self fd (cleared e x)
  cleared-IsWell self fd read x (p, r, w) = (p, refl, w)
  cleared-IsWell self fd write x (p, r, w) = (p, r, refl)

  owned :
      (self : ℕ) (callback : Option C) (current : Option F) (ctx : EventContext C F)
      → (with_waiter self callback current ctx).scheduler ≡ some self
  owned self none current ctx = refl
  owned self (some c) current ctx = refl

  added_parts :
      (self fd number : ℕ) (e : Event) (callback : Option C) (current : Option F) (r w : Bool)
      (ctx ctx' : EventContext C F)
      → let x : FdContext C F = record {
        fd = number;
        events = record { has_read = r; has_write = w };
        read_ctx = ctx;
        write_ctx = ctx';
      } in
        IsWell self fd x
        → IsWell self fd (FdContext.add_event e (with_waiter_at self e callback current x)).1
  unfolding FdContext.add_event
  added_parts self fd number read callback current true w ctx ctx' (p, hr, hw) =
      (p, owned self callback current ctx, hw)
  added_parts self fd number read callback current false w ctx ctx' (p, hr, hw) =
      (p, owned self callback current ctx, hw)
  added_parts self fd number write callback current r true ctx ctx' (p, hr, hw) =
      (p, hr, owned self callback current ctx')
  added_parts self fd number write callback current r false ctx ctx' (p, hr, hw) =
      (p, hr, owned self callback current ctx')

  pub added-IsWell :
      (self fd : ℕ) (e : Event) (callback : Option C) (current : Option F) (x : FdContext C F)
      → IsWell self fd x
      → IsWell self fd (FdContext.add_event e (with_waiter_at self e callback current x)).1
  added-IsWell self fd e callback current x h =
      added_parts self fd x.fd e callback current x.events.has_read x.events.has_write x.read_ctx
        x.write_ctx h

  pub add_event_result :
      (e : Event) (x : FdContext C F)
      → (FdContext.add_event e x).0 ≡ (FdContext.add_event e x).1.events
  unfolding FdContext.add_event
  add_event_result e x = elim (Bool-cases (has e x.events)) [
    | inl on ↦ rw on refl
    | inr off ↦ rw off refl
  ]

module _ (K : Kernel) {C F : Type 0} where
  -- The kernel watches each descriptor at least for the events that its context has, and each context has the number of
  -- its slot and is tidy.
  abbrev pub IsValidAt : ℕ → IoScheduler K.State C F → ℕ → Type 0
  IsValidAt self m i =
      (covers (K.interest m.kernel i) (slot_events (get (pos i) m.contexts)) ≡ true)
      × IsWellSlot self i (get (pos i) m.contexts)

  abbrev pub IsValid : ℕ → IoScheduler K.State C F → Type 0
  IsValid self m = (i : ℕ) → IsValidAt self m i

  -- A slot and the kernel's entry for it are replaced together.
  pub update_slot-IsValid :
      (self fd : ℕ) (x : FdContext C F) (s : K.State) (m : IoScheduler K.State C F)
      → IsValid self m
      → fd < length m.contexts
      → IsWell self fd x
      → covers (K.interest s fd) x.events ≡ true
      → ((i : ℕ) → fd ≢ i → K.interest s i ≡ K.interest m.kernel i)
      → IsValid self (update_slot K x s fd m)
  update_slot-IsValid self fd x s m h room well here elsewhere i = elim (Bool-cases (fd == i)) [
    | inl same ↦ subst (IsValidAt self (update_slot K x s fd m)) ((==_iff fd i).0 same) at_fd
    | inr other ↦
        let ne : fd ≢ i = λ e. ground (arith, e, other) in
        let same_slot = get-set_slot_other fd i x m.contexts ne in
        rw (same_slot, elsewhere i ne) (h i)
  ]
    where
      at_fd : IsValidAt self (update_slot K x s fd m) fd
      at_fd = rw (get-set_slot fd x m.contexts room) (here, well)

module _ (K : Kernel) where
  -- What a registration does: it succeeds, or the kernel watches what it watched.
  pub register_lem :
      (fd : ℕ) (old new : Events) (s : K.State)
      → (((register K fd old new s).0 ≡ none)
          × (K.interest (register K fd old new s).1 fd ≡ some new))
        ⊎ ((errno : ℕ) × ((register K fd old new s).0 ≡ some errno)
            × (K.interest (register K fd old new s).1 fd ≡ K.interest s fd))
  unfolding register
  register_lem fd old new s = elim (Bool-cases (is_none old)) [
    | inl first ↦ rw first (elim (outcome_cases K (K.epoll_ctl ctl_add fd new s).0) [
      | inl ok ↦ inl (ok, K.added fd new s ok)
      | inr (n, bad) ↦ inr (n, bad, K.failed ctl_add fd new s n bad)
    ])
    | inr later ↦ rw later (elim (outcome_cases K (K.epoll_ctl ctl_mod fd new s).0) [
      | inl ok ↦ inl (ok, K.modified fd new s ok)
      | inr (n, bad) ↦ inr (n, bad, K.failed ctl_mod fd new s n bad)
    ])
  ]

  pub register_elsewhere :
      (fd : ℕ) (old new : Events) (s : K.State) (i : ℕ)
      → fd ≢ i
      → K.interest (register K fd old new s).1 i ≡ K.interest s i
  unfolding register
  register_elsewhere fd old new s i ne = elim (Bool-cases (is_none old)) [
    | inl first ↦ rw first (K.elsewhere ctl_add fd new s i ne)
    | inr later ↦ rw later (K.elsewhere ctl_mod fd new s i ne)
  ]
