-- ===== src/Coroutine/Io/Scheduler/Removal.antt =====
-- The calls of zcoroutine/src/io/io_scheduler.cc that remove events, and what every call keeps.
use zhttp.Prelude.{
  ℕ, ◌≡◌, refl, sym, ap, subst, Bool, true, false, ◌||◌, Option, none, some, pos, inl, inr, [],
  if◌then◌else◌, Bool-cases, arith,
}
use zhttp.Coroutine.Io.FdContext.{
  Event, read, write, Events, no_events, has, without_event, is_none, EventContext, FdContext,
  reset_context, get_event_context, cleared, Effect,
}
use zhttp.Coroutine.Io.FdContext
use zhttp.Coroutine.Io.Table.{get, get-length}
use zhttp.Coroutine.Io.Epoll.{
  Kernel, covers, covers_nothing, update_epoll, update_epoll-covers, update_epoll_elsewhere,
}
use zhttp.Coroutine.Io.Scheduler.{
  IoScheduler, Ready, update_slot, add_event, del_found, del_event, cancel_found, cancel_event,
  cancel_all_found, cancel_all, trigger_found, trigger_event, dispatch,
}
use zhttp.Coroutine.Io.Scheduler.Validity.{
  IsTidy, IsWell, IsWellSlot, slot_events, IsValid, cleared-IsWell, update_slot-IsValid,
}
use zhttp.Coroutine.Io.Scheduler.Registration.{add_event_lem}

module _ {C F : Type 0} where
  -- An event that is removed: the bit that it clears, or nothing.
  abbrev pub removed : Event → FdContext C F → FdContext C F
  removed e x = if has e x.events then cleared e x else x

  pub removed-IsWell :
      (self fd : ℕ) (e : Event) (x : FdContext C F)
      → IsWell self fd x
      → IsWell self fd (removed e x)
  removed-IsWell self fd e x h = elim (Bool-cases (has e x.events)) [
    | inl on ↦ rw on (cleared-IsWell self fd e x h)
    | inr off ↦ rw off h
  ]

  removed-covers :
      (e : Event) (x : FdContext C F) (r : Option Events)
      → covers r x.events ≡ true
      → covers r (removed e x).events ≡ true
  removed-covers read x none h = ground arith
  removed-covers read x (some w) h = ground arith
  removed-covers write x none h = ground arith
  removed-covers write x (some w) h = ground arith

  cleared-events : (e : Event) (x : FdContext C F) → (cleared e x).events ≡ without_event e x.events
  cleared-events read x = refl
  cleared-events write x = refl

  -- All operations leave the context without the event, and report what it has left.
  pub del_event-removed :
      (e : Event) (x : FdContext C F)
      → FdContext.del_event e x ≡ ((removed e x).events, removed e x)
  unfolding FdContext.del_event
  del_event-removed e x = elim (Bool-cases (has e x.events)) [
    | inl on ↦ rw on (ap (λ es. (es, cleared e x)) (sym (cleared-events e x)))
    | inr off ↦ rw off refl
  ]

  pub cancel_event-removed :
      (e : Event) (x : FdContext C F)
      → FdContext.cancel_event e x
        ≡ ((removed e x).events, (FdContext.cancel_event e x).1, removed e x)
  unfolding FdContext.cancel_event
  cancel_event-removed e x = elim (Bool-cases (has e x.events)) [
    | inl on ↦ rw on (
        ap (λ es. (es, FdContext.deliver_context (get_event_context e x), cleared e x))
          (sym (cleared-events e x)))
    | inr off ↦ rw off refl
  ]

  -- After everything is canceled both contexts are empty.
  cancel_all-IsWell :
      (self fd : ℕ) (x : FdContext C F)
      → IsWell self fd x
      → is_none x.events ≡ false
      → IsWell self fd (FdContext.cancel_all x).1 × ((FdContext.cancel_all x).1.events ≡ no_events)
  unfolding FdContext.cancel_all
  cancel_all-IsWell self fd x (p, r, w) some' =
      rw some'
        ((p, kept x.read_ctx x.events.has_read r, kept x.write_ctx x.events.has_write w), refl)
    where
      kept :
          (ctx : EventContext C F) (b : Bool)
          → IsTidy self b ctx
          → (if b then reset_context else ctx) ≡ reset_context
      kept ctx true h = refl
      kept ctx false h = h

  pub pop_event-removed :
      (e : Event) (x : FdContext C F) → (FdContext.pop_event e x).1 ≡ removed e x
  unfolding FdContext.pop_event
  pop_event-removed e x = elim (Bool-cases (has e x.events)) [
    | inl on ↦ rw on refl
    | inr off ↦ rw off refl
  ]

  pub pop_event_remaining :
      (e : Event) (x : FdContext C F)
      → (FdContext.pop_event e x).0.remaining_events ≡ (removed e x).events
  unfolding FdContext.pop_event
  pop_event_remaining e x = elim (Bool-cases (has e x.events)) [
    | inl on ↦ rw on (sym (cleared-events e x))
    | inr off ↦ rw off refl
  ]

module _ (K : Kernel) {C F : Type 0} where
  removed-IsValid :
      (self fd : ℕ) (x y : FdContext C F) (m : IoScheduler K.State C F)
      → IsValid K self m
      → get (pos fd) m.contexts ≡ some x
      → IsWell self fd y
      → ((r : Option Events) → covers r x.events ≡ true → covers r y.events ≡ true)
      → IsValid K self (update_slot K y (update_epoll K fd y.events m.kernel).1 fd m)
  removed-IsValid self fd x y m h there well less =
      update_slot-IsValid K self fd y (update_epoll K fd y.events m.kernel).1 m h
        (get-length fd x m.contexts there) well
        (update_epoll-covers K fd y.events m.kernel (
          less (K.interest m.kernel fd)
            (subst (λ r. covers (K.interest m.kernel fd) (slot_events r) ≡ true) there (h fd).0)))
        (λ i ne. update_epoll_elsewhere K fd y.events m.kernel i ne)

  pub IsWell-at :
      (self fd : ℕ) (x : FdContext C F) (m : IoScheduler K.State C F)
      → IsValid K self m
      → get (pos fd) m.contexts ≡ some x
      → IsWell self fd x
  IsWell-at self fd x m h there = subst (IsWellSlot self fd) there (h fd).1

  del_found-IsValid :
      (self fd : ℕ) (e : Event) (r : Option (FdContext C F)) (m : IoScheduler K.State C F)
      → IsValid K self m
      → get (pos fd) m.contexts ≡ r
      → IsValid K self (del_found K fd e r m).1
  del_found-IsValid self fd e none m h there = h
  del_found-IsValid self fd e (some x) m h there = rw (del_event-removed e x) (
      removed-IsValid self fd x (removed e x) m h there
        (removed-IsWell self fd e x (IsWell-at self fd x m h there)) (removed-covers e x))

  cancel_found-IsValid :
      (self fd : ℕ) (e : Event) (r : Option (FdContext C F)) (m : IoScheduler K.State C F)
      → IsValid K self m
      → get (pos fd) m.contexts ≡ r
      → IsValid K self (cancel_found K fd e r m).2
  cancel_found-IsValid self fd e none m h there = h
  cancel_found-IsValid self fd e (some x) m h there = rw (cancel_event-removed e x) (
      removed-IsValid self fd x (removed e x) m h there
        (removed-IsWell self fd e x (IsWell-at self fd x m h there)) (removed-covers e x))

  cancel_all_found-IsValid :
      (self fd : ℕ) (r : Option (FdContext C F)) (m : IoScheduler K.State C F)
      → IsValid K self m
      → get (pos fd) m.contexts ≡ r
      → IsValid K self (cancel_all_found K fd r m).2
  unfolding update_epoll
  cancel_all_found-IsValid self fd none m h there = h
  cancel_all_found-IsValid self fd (some x) m h there = elim (Bool-cases (is_none x.events)) [
    | inl empty ↦ rw empty h
    | inr more ↦
        let y : FdContext C F = (FdContext.cancel_all x).1 in
        let (well, none') = cancel_all-IsWell self fd x (IsWell-at self fd x m h there) more in
        rw more (
          subst (λ es. IsValid K self (update_slot K y (update_epoll K fd es m.kernel).1 fd m))
            none'
            (removed-IsValid self fd x y m h there well
              (λ r c. rw none' (covers_nothing r no_events refl))))
  ]

  pub trigger_found-IsValid :
      (self fd : ℕ) (e : Event) (r : Option (FdContext C F)) (m : IoScheduler K.State C F)
      → IsValid K self m
      → get (pos fd) m.contexts ≡ r
      → IsValid K self (trigger_found K self fd e r m).1
  trigger_found-IsValid self fd e none m h there = h
  trigger_found-IsValid self fd e (some x) m h there =
      elim (Bool-cases (FdContext.pop_event e x).0.had_event) [
        | inr off ↦ rw off h
        | inl on ↦
            let well = IsWell-at self fd x m h there in
            let well' = removed-IsWell self fd e x well in
            rw on (
              rw (pop_event_remaining e x) (
                rw (pop_event-removed e x) (
                  subst
                    (λ i. IsValid K self (
                      update_slot K (removed e x) (update_epoll K i (removed e x).events m.kernel).1
                        fd m))
                    (sym well'.0)
                    (removed-IsValid self fd x (removed e x) m h there well'
                      (removed-covers e x)))))
      ]

  pub trigger_event-IsValid :
      (self fd : ℕ) (e : Event) (m : IoScheduler K.State C F)
      → IsValid K self m
      → IsValid K self (trigger_event K self (pos fd) e m).1
  unfolding trigger_event
  trigger_event-IsValid self fd e m h =
      trigger_found-IsValid self fd e (get (pos fd) m.contexts) m h refl

  dispatch-IsValid :
      (self fd : ℕ) (ready : Ready) (m : IoScheduler K.State C F)
      → IsValid K self m
      → IsValid K self (dispatch K self fd ready m).1
  unfolding dispatch
  dispatch-IsValid self fd ready m h =
      elim (Bool-cases (ready.has_in || (ready.has_err || ready.has_hup))) [
        | inl on ↦ rw on (
            second (trigger_event K self (pos fd) read m).1
              (trigger_event-IsValid self fd read m h))
        | inr off ↦ rw off (second m h)
      ]
    where
      second :
          (n : IoScheduler K.State C F)
          → IsValid K self n
          → IsValid K self
              (if ready.has_out || (ready.has_err || ready.has_hup)
                then trigger_event K self (pos fd) write n
                else ([], n)).1
      second n k = elim (Bool-cases (ready.has_out || (ready.has_err || ready.has_hup))) [
        | inl on ↦ rw on (trigger_event-IsValid self fd write n k)
        | inr off ↦ rw off k
      ]

  -- What a call of the scheduler, or a ready event of its I/O thread, does.
  pub data Call (self : ℕ) (m m' : IoScheduler K.State C F) : Type 0 where
    registered :
        (fd : ℕ) (e : Event) (callback : Option C) (current : Option F)
        → m' ≡ (add_event K self (pos fd) e callback current m).1
        → Call self m m'
    deleted : (fd : ℕ) (e : Event) → m' ≡ (del_event K (pos fd) e m).1 → Call self m m'
    canceled : (fd : ℕ) (e : Event) → m' ≡ (cancel_event K (pos fd) e m).2 → Call self m m'
    all_canceled : (fd : ℕ) → m' ≡ (cancel_all K (pos fd) m).2 → Call self m m'
    dispatched : (fd : ℕ) (ready : Ready) → m' ≡ (dispatch K self fd ready m).1 → Call self m m'

  -- Whatever a call does, and whether `epoll_ctl` succeeds or fails in it, the kernel afterwards watches each descriptor at least
  -- for the events that its context has registered, if it did so before; and the context of an event that is not
  -- registered is empty, while that of a registered event belongs to the scheduler.
  pub Call-IsValid :
      (self : ℕ) (m m' : IoScheduler K.State C F)
      → Call self m m'
      → IsValid K self m
      → IsValid K self m'
  unfolding del_event cancel_event cancel_all
  Call-IsValid self m m' (registered fd e callback current p) h =
      subst (IsValid K self) (sym p) (add_event_lem K self fd e callback current m h).0
  Call-IsValid self m m' (deleted fd e p) h =
      subst (IsValid K self) (sym p)
        (del_found-IsValid self fd e (get (pos fd) m.contexts) m h refl)
  Call-IsValid self m m' (canceled fd e p) h =
      subst (IsValid K self) (sym p)
        (cancel_found-IsValid self fd e (get (pos fd) m.contexts) m h refl)
  Call-IsValid self m m' (all_canceled fd p) h =
      subst (IsValid K self) (sym p)
        (cancel_all_found-IsValid self fd (get (pos fd) m.contexts) m h refl)
  Call-IsValid self m m' (dispatched fd ready p) h =
      subst (IsValid K self) (sym p) (dispatch-IsValid self fd ready m h)
