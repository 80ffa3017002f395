-- ===== src/Coroutine/Io/Scheduler/Waiters.antt =====
-- The waiters of the descriptor contexts and the tasks that zcoroutine/src/io/io_scheduler.cc schedules for them.
use zhttp.Prelude.{
  ℕ, zero, suc, ◌+◌, ◌<◌, ◌≡◌, refl, subst, Bool, true, false, ◌==◌, List, [], ◌∷◌, ◌++◌, Option,
  none, some, arith, if◌then◌else◌, pos, Bool-cases, inl, inr, length,
}
use zhttp.Coroutine.Io.FdContext.{
  Event, read, write, Events, has, is_none, EventContext, FdContext, reset_context, new_context,
  get_event_context, cleared, Effect, scheduled_callback, scheduled_fiber, ran, deliver,
  deliver_context,
}
use zhttp.Coroutine.Io.FdContext
use zhttp.Coroutine.Io.Table.{get, set_slot}
use zhttp.Coroutine.Io.Scheduler.{with_waiter_at}
use zhttp.Coroutine.Io.Scheduler.Validity.{IsTidy, IsWell}
use zhttp.Coroutine.Io.FdContext.Delivery.{cancel_all-cancel_event}
use zhttp.Coroutine.Io.Scheduler.Removal.{removed, removed-IsWell, cancel_event-removed}

pub data Task (C F : Type 0) : Type 0 where
  call : C → Task C F
  resume : F → Task C F

module _ {A : Type 0} where
  -- How many elements pass a test: lists with the same counts for every test have the same elements, up to order.
  abbrev pub count : (A → Bool) → List A → ℕ
  count p [] = 0
  count p (x ∷ xs) = (if p x then 1 else 0) + count p xs

  pub count-append : (p : A → Bool) (xs ys : List A) → count p (xs ++ ys) ≡ count p xs + count p ys
  count-append p [] ys = omega arith
  count-append p (x ∷ xs) ys = omega (arith, count-append p xs ys)

self_is : (self : ℕ) → (self == self) ≡ true
self_is self = ground arith

module _ {C F : Type 0} where
  -- A callback goes before a fiber.
  abbrev pub waiting : Option C → Option F → List (Task C F)
  waiting (some c) f = call c ∷ []
  waiting none (some f) = resume f ∷ []
  waiting none none = []

  abbrev pub waiting_in : EventContext C F → List (Task C F)
  waiting_in ctx = waiting ctx.callback ctx.fiber

  -- The tasks that the scheduler at an address is given.
  abbrev pub task_for : ℕ → Effect C F → List (Task C F)
  task_for self (scheduled_callback owner c) = if owner == self then call c ∷ [] else []
  task_for self (scheduled_fiber owner f) = if owner == self then resume f ∷ [] else []
  task_for self (ran c) = []

  abbrev pub tasks_for : ℕ → List (Effect C F) → List (Task C F)
  tasks_for self [] = []
  tasks_for self (x ∷ xs) = task_for self x ++ tasks_for self xs

  pub tasks_for-append :
      (self : ℕ) (p : Task C F → Bool) (xs ys : List (Effect C F))
      → count p (tasks_for self (xs ++ ys))
        ≡ count p (tasks_for self xs) + count p (tasks_for self ys)
  tasks_for-append self p [] ys = omega arith
  tasks_for-append self p (x ∷ xs) ys = omega (
    arith,
    count-append p (task_for self x) (tasks_for self (xs ++ ys)),
    count-append p (task_for self x) (tasks_for self xs),
    tasks_for-append self p xs ys,
  )

  -- The waiters of a context, of a slot and of a table.
  abbrev pub pending : (Task C F → Bool) → FdContext C F → ℕ
  pending p x = count p (waiting_in x.read_ctx) + count p (waiting_in x.write_ctx)

  abbrev pub pending_slot : (Task C F → Bool) → Option (FdContext C F) → ℕ
  pending_slot p none = 0
  pending_slot p (some x) = pending p x

  abbrev pub total : (Task C F → Bool) → List (Option (FdContext C F)) → ℕ
  total p [] = 0
  total p (x ∷ xs) = pending_slot p x + total p xs

  pub total-set_slot :
      (p : Task C F → Bool) (i : ℕ) (x : FdContext C F) (xs : List (Option (FdContext C F)))
      → i < length xs
      → total p (set_slot i x xs) + pending_slot p (get (pos i) xs) ≡ total p xs + pending p x
  unfolding set_slot get
  total-set_slot p i x [] h = absurd (omega arith)
  total-set_slot p zero x (y ∷ ys) h = omega arith
  total-set_slot p (suc i) x (y ∷ ys) h = omega (arith, total-set_slot p i x ys (omega arith))

  -- Whatever waits in a context goes to its owner.
  deliver-waiting :
      (self : ℕ) (c : Option C) (f : Option F)
      → tasks_for self (deliver (some self) c f) ≡ waiting c f
  deliver-waiting self (some c) f = rw (self_is self) refl
  deliver-waiting self none (some f) = rw (self_is self) refl
  deliver-waiting self none none = refl

  deliver_owned :
      (self : ℕ) (ctx : EventContext C F)
      → ctx.scheduler ≡ some self
      → tasks_for self (deliver_context ctx) ≡ waiting_in ctx
  deliver_owned self ctx h = rw h (deliver-waiting self ctx.callback ctx.fiber)

  cleared_pending :
      (p : Task C F → Bool) (e : Event) (x : FdContext C F)
      → pending p (cleared e x) + count p (waiting_in (get_event_context e x)) ≡ pending p x
  cleared_pending p read x = omega arith
  cleared_pending p write x = omega arith

  pub tidy_scheduler :
      (self fd : ℕ) (e : Event) (x : FdContext C F)
      → IsWell self fd x
      → has e x.events ≡ true
      → (get_event_context e x).scheduler ≡ some self
  tidy_scheduler self fd read x (p, r, w) h = subst (λ b. IsTidy self b x.read_ctx) h r
  tidy_scheduler self fd write x (p, r, w) h = subst (λ b. IsTidy self b x.write_ctx) h w

  -- A canceled waiter is given to its scheduler.
  pub cancel_event_served :
      (p : Task C F → Bool) (self fd : ℕ) (e : Event) (x : FdContext C F)
      → IsWell self fd x
      → count p (tasks_for self (FdContext.cancel_event e x).1) + pending p (removed e x)
        ≡ pending p x
  unfolding FdContext.cancel_event
  cancel_event_served p self fd e x h = elim (Bool-cases (has e x.events)) [
    | inl on ↦ rw on (
        rw (deliver_owned self (get_event_context e x) (tidy_scheduler self fd e x h on))
          (omega (arith, cleared_pending p e x)))
    | inr off ↦ rw off (omega arith)
  ]

  pub cancel_all_served :
      (p : Task C F → Bool) (self fd : ℕ) (x : FdContext C F)
      → IsWell self fd x
      → count p (tasks_for self (FdContext.cancel_all x).0) + pending p (FdContext.cancel_all x).1
        ≡ pending p x
  cancel_all_served p self fd x h =
      let y : FdContext C F = removed read x in
      let first = cancel_event_served p self fd read x h in
      let second = cancel_event_served p self fd write y (removed-IsWell self fd read x h) in
      rw (cancel_all-cancel_event x) (
        rw (cancel_event-removed read x) (
          rw (cancel_event-removed write y) (
            omega (
              arith,
              first,
              second,
              tasks_for-append self p (FdContext.cancel_event read x).1
                  (FdContext.cancel_event write y).1,
            ))))

  pub popped_served :
      (p : Task C F → Bool) (self : ℕ) (e : Event) (x : FdContext C F)
      → (FdContext.pop_event e x).0.had_event ≡ true
      → let popped = (FdContext.pop_event e x).0 in
        count p (tasks_for self (deliver (some self) popped.callback popped.fiber))
          + pending p (removed e x)
        ≡ pending p x
  unfolding FdContext.pop_event
  popped_served p self e x h = elim (Bool-cases (has e x.events)) [
    | inl on ↦
        let ctx = get_event_context e x in
        rw on
          (rw (deliver-waiting self ctx.callback ctx.fiber) (omega (arith, cleared_pending p e x)))
    | inr off ↦ absurd (cc (off, h))
  ]

  -- A waiter is put into the context of an event that is not registered.
  added_parts :
      (p : Task C F → Bool) (self fd number : ℕ) (e : Event) (callback : Option C)
      (current : Option F) (r w : Bool) (ctx ctx' : EventContext C F)
      → let x : FdContext C F = record {
        fd = number;
        events = record { has_read = r; has_write = w };
        read_ctx = ctx;
        write_ctx = ctx';
      } in
        IsWell self fd x
        → has e x.events ≡ false
        → pending p (FdContext.add_event e (with_waiter_at self e callback current x)).1
          ≡ pending p x + count p (waiting callback current)
  unfolding FdContext.add_event
  added_parts p self fd number read callback current true w ctx ctx' (q, hr, hw) free = absurd (cc)
  added_parts p self fd number write callback current r true ctx ctx' (q, hr, hw) free = absurd (cc)
  added_parts p self fd number read (some c) current false w ctx ctx' (q, hr, hw) free =
      rw hr (omega arith)
  added_parts p self fd number read none current false w ctx ctx' (q, hr, hw) free =
      rw hr (omega arith)
  added_parts p self fd number write (some c) current r false ctx ctx' (q, hr, hw) free =
      rw hw (omega arith)
  added_parts p self fd number write none current r false ctx ctx' (q, hr, hw) free =
      rw hw (omega arith)

  pub added_pending :
      (p : Task C F → Bool) (self fd : ℕ) (e : Event) (callback : Option C) (current : Option F)
      (x : FdContext C F)
      → IsWell self fd x
      → has e x.events ≡ false
      → pending p (FdContext.add_event e (with_waiter_at self e callback current x)).1
        ≡ pending p x + count p (waiting callback current)
  added_pending p self fd e callback current x h free =
      added_parts p self fd x.fd e callback current x.events.has_read x.events.has_write x.read_ctx
        x.write_ctx h free
