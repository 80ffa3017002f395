-- ===== src/Coroutine/Io/Scheduler/Owners.antt =====
-- Where the waiters of zcoroutine/src/io/io_scheduler.cc are sent.
use zhttp.Prelude.{
  ℕ, ◌≡◌, refl, sym, subst, Bool, true, false, ◌||◌, List, [], ◌∷◌, ◌++◌, Option, none, some, pos,
  Bool-cases, inl, inr, if◌then◌else◌, All,
}
use zhttp.Coroutine.Io.FdContext.{
  Event, read, write, has, is_none, FdContext, Effect, scheduled_callback, scheduled_fiber, ran,
  get_event_context, deliver, deliver_context,
}
use zhttp.Coroutine.Io.FdContext
use zhttp.Coroutine.Io.FdContext.Delivery.{cancel_all-cancel_event}
use zhttp.Coroutine.Io.Table.{get}
use zhttp.Coroutine.Io.Epoll.{Kernel}
use zhttp.Coroutine.Io.Scheduler.{
  IoScheduler, Ready, cancel_found, cancel_all_found, trigger_found, trigger_event, dispatch,
}
use zhttp.Coroutine.Io.Scheduler.Validity.{IsWell, IsValid}
use zhttp.Coroutine.Io.Scheduler.Removal.{removed, removed-IsWell, IsWell-at, cancel_event-removed}
use zhttp.Coroutine.Io.Scheduler.Waiters.{tidy_scheduler}

module _ {C F : Type 0} where
  -- A waiter is handed to the scheduler at an address, and nothing else happens to it.
  abbrev pub IsFor : ℕ → Effect C F → Type 0
  IsFor self (scheduled_callback owner c) = owner ≡ self
  IsFor self (scheduled_fiber owner f) = owner ≡ self
  IsFor self (ran c) = ⊥

  abbrev pub AllFor : ℕ → List (Effect C F) → Type 0
  AllFor self = All (IsFor self)

  pub AllFor-append :
      (self : ℕ) (xs ys : List (Effect C F))
      → AllFor self xs
      → AllFor self ys
      → AllFor self (xs ++ ys)
  AllFor-append self [] ys h k = k
  AllFor-append self (x ∷ xs) ys (p, h) k = (p, AllFor-append self xs ys h k)

  deliver-AllFor : (self : ℕ) (c : Option C) (f : Option F) → AllFor self (deliver (some self) c f)
  deliver-AllFor self (some c) f = (refl, tt)
  deliver-AllFor self none (some f) = (refl, tt)
  deliver-AllFor self none none = tt

  cancel_event-AllFor :
      (self fd : ℕ) (e : Event) (x : FdContext C F)
      → IsWell self fd x
      → AllFor self (FdContext.cancel_event e x).1
  unfolding FdContext.cancel_event
  cancel_event-AllFor self fd e x h = elim (Bool-cases (has e x.events)) [
    | inl on ↦
        let ctx = get_event_context e x in
        rw on (
          subst (λ owner. AllFor self (deliver owner ctx.callback ctx.fiber))
            (sym (tidy_scheduler self fd e x h on)) (deliver-AllFor self ctx.callback ctx.fiber))
    | inr off ↦ rw off tt
  ]

  cancel_all-AllFor :
      (self fd : ℕ) (x : FdContext C F) → IsWell self fd x → AllFor self (FdContext.cancel_all x).0
  cancel_all-AllFor self fd x h =
      let y : FdContext C F = removed read x in
      rw (cancel_all-cancel_event x) (
        rw (cancel_event-removed read x) (
          AllFor-append self (FdContext.cancel_event read x).1 (FdContext.cancel_event write y).1
            (cancel_event-AllFor self fd read x h)
            (cancel_event-AllFor self fd write y (removed-IsWell self fd read x h))))

module _ (K : Kernel) {C F : Type 0} (self : ℕ) where
  pub cancel_found-AllFor :
      (fd : ℕ) (e : Event) (r : Option (FdContext C F)) (m : IoScheduler K.State C F)
      → IsValid K self m
      → get (pos fd) m.contexts ≡ r
      → AllFor self (cancel_found K fd e r m).1
  cancel_found-AllFor fd e none m h there = tt
  cancel_found-AllFor fd e (some x) m h there =
      cancel_event-AllFor self fd e x (IsWell-at K self fd x m h there)

  pub cancel_all_found-AllFor :
      (fd : ℕ) (r : Option (FdContext C F)) (m : IoScheduler K.State C F)
      → IsValid K self m
      → get (pos fd) m.contexts ≡ r
      → AllFor self (cancel_all_found K fd r m).1
  cancel_all_found-AllFor fd none m h there = tt
  cancel_all_found-AllFor fd (some x) m h there = elim (Bool-cases (is_none x.events)) [
    | inl empty ↦ rw empty tt
    | inr more ↦ rw more (cancel_all-AllFor self fd x (IsWell-at K self fd x m h there))
  ]

  trigger_found-AllFor :
      (fd : ℕ) (e : Event) (r : Option (FdContext C F)) (m : IoScheduler K.State C F)
      → AllFor self (trigger_found K self fd e r m).0
  trigger_found-AllFor fd e none m = tt
  trigger_found-AllFor fd e (some x) m =
      let popped = (FdContext.pop_event e x).0 in
      elim (Bool-cases popped.had_event) [
        | inr off ↦ rw off tt
        | inl on ↦ elim (Bool-cases m.stopping) [
          | inl stop ↦ rw on (rw stop tt)
          | inr going ↦ rw on (rw going (deliver-AllFor self popped.callback popped.fiber))
        ]
      ]

  trigger_if-AllFor :
      (b : Bool) (fd : ℕ) (e : Event) (m : IoScheduler K.State C F)
      → AllFor self (if b then trigger_event K self (pos fd) e m else ([], m)).0
  unfolding trigger_event
  trigger_if-AllFor true fd e m = trigger_found-AllFor fd e (get (pos fd) m.contexts) m
  trigger_if-AllFor false fd e m = tt

  pub dispatch-AllFor :
      (fd : ℕ) (ready : Ready) (m : IoScheduler K.State C F)
      → AllFor self (dispatch K self fd ready m).0
  unfolding dispatch
  dispatch-AllFor fd ready m =
      let broken = ready.has_err || ready.has_hup in
      let first =
        if ready.has_in || broken then trigger_event K self (pos fd) read m else ([], m) in
      let second =
        if ready.has_out || broken
        then trigger_event K self (pos fd) write first.1
        else ([], first.1) in
      AllFor-append self first.0 second.0 (trigger_if-AllFor (ready.has_in || broken) fd read m)
        (trigger_if-AllFor (ready.has_out || broken) fd write first.1)
