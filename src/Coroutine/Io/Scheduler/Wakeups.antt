-- ===== src/Coroutine/Io/Scheduler/Wakeups.antt =====
-- No waiter of zcoroutine/src/io/io_scheduler.cc is lost or woken twice.
use zhttp.Prelude.{
  ℕ, zero, suc, ◌+◌, ◌≡◌, ◌≢◌, refl, ap, Bool, false, List, [], ◌∷◌, Option, none, some, arith, ℤ,
  pos, negsuc, Bool-cases, inl, inr, ◌∙◌,
}
use zhttp.Coroutine.Io.FdContext.{Event, read, write, has, is_none, FdContext, Effect, deliver}
use zhttp.Coroutine.Io.FdContext
use zhttp.Coroutine.Io.Table.{get, get-length, or_new}
use zhttp.Coroutine.Io.Epoll.{Kernel}
use zhttp.Coroutine.Io.Scheduler.{
  IoScheduler, add_event, cancel_found, cancel_all_found, trigger_found, trigger_event,
}
use zhttp.Coroutine.Io.Scheduler.Validity.{IsWell, IsWellSlot, IsValid}
use zhttp.Coroutine.Io.Scheduler.Registration.{Done, after_failure_free, add_event_lem}
use zhttp.Coroutine.Io.Scheduler.Removal.{
  removed, IsWell-at, cancel_event-removed, pop_event-removed,
}
use zhttp.Coroutine.Io.Scheduler.Waiters.{
  Task, count, waiting, tasks_for, pending, pending_slot, total, total-set_slot,
  cancel_event_served, cancel_all_served, popped_served, added_pending,
}

apart : (i : ℕ) → zero ≢ suc i
apart i = λ e. omega (arith, e)

module _ {C F : Type 0} where
  -- Tables with the same slots have the same waiters; a table that differs in one slot differs by its waiters.
  total_same :
      (p : Task C F → Bool) (xs ys : List (Option (FdContext C F)))
      → ((i : ℕ) → get (pos i) ys ≡ get (pos i) xs)
      → total p ys ≡ total p xs
  unfolding get
  total_same p [] [] h = refl
  total_same p [] (y ∷ ys) h =
      omega (arith, ap (pending_slot p) (h 0), total_same p [] ys (λ i. h (suc i)))
  total_same p (x ∷ xs) [] h =
      omega (arith, ap (pending_slot p) (h 0), total_same p xs [] (λ i. h (suc i)))
  total_same p (x ∷ xs) (y ∷ ys) h =
      omega (arith, ap (pending_slot p) (h 0), total_same p xs ys (λ i. h (suc i)))

  total_changed :
      (p : Task C F → Bool) (fd : ℕ) (xs ys : List (Option (FdContext C F)))
      → ((i : ℕ) → fd ≢ i → get (pos i) ys ≡ get (pos i) xs)
      → total p ys + pending_slot p (get (pos fd) xs)
        ≡ total p xs + pending_slot p (get (pos fd) ys)
  unfolding get
  total_changed p fd [] [] h = refl
  total_changed p zero [] (y ∷ ys) h = omega (arith, total_same p [] ys (λ i. h (suc i) (apart i)))
  total_changed p zero (x ∷ xs) [] h = omega (arith, total_same p xs [] (λ i. h (suc i) (apart i)))
  total_changed p zero (x ∷ xs) (y ∷ ys) h =
      omega (arith, total_same p xs ys (λ i. h (suc i) (apart i)))
  total_changed p (suc fd) [] (y ∷ ys) h = omega (
    arith,
    ap (pending_slot p) (h 0 (λ e. omega (arith, e))),
    total_changed p fd [] ys (λ i ne. h (suc i) (λ e. ne (omega (arith, e)))),
  )
  total_changed p (suc fd) (x ∷ xs) [] h = omega (
    arith,
    ap (pending_slot p) (h 0 (λ e. omega (arith, e))),
    total_changed p fd xs [] (λ i ne. h (suc i) (λ e. ne (omega (arith, e)))),
  )
  total_changed p (suc fd) (x ∷ xs) (y ∷ ys) h = omega (
    arith,
    ap (pending_slot p) (h 0 (λ e. omega (arith, e))),
    total_changed p fd xs ys (λ i ne. h (suc i) (λ e. ne (omega (arith, e)))),
  )

  -- The waiters that a registration took.
  abbrev pub accepted : ℤ → List (Task C F) → List (Task C F)
  accepted (pos n) ts = ts
  accepted (negsuc n) ts = []

module _ (K : Kernel) {C F : Type 0} (p : Task C F → Bool) (self : ℕ) where
  pub cancel_found_served :
      (fd : ℕ) (e : Event) (r : Option (FdContext C F)) (m : IoScheduler K.State C F)
      → IsValid K self m
      → get (pos fd) m.contexts ≡ r
      → let (code, out, m') = cancel_found K fd e r m in
        count p (tasks_for self out) + total p m'.contexts ≡ total p m.contexts
  cancel_found_served fd e none m h there = omega arith
  cancel_found_served fd e (some x) m h there = rw (cancel_event-removed e x) (
      omega (
        arith,
        total-set_slot p fd (removed e x) m.contexts (get-length fd x m.contexts there),
        ap (pending_slot p) there,
        cancel_event_served p self fd e x (IsWell-at K self fd x m h there),
      ))

  pub cancel_all_found_served :
      (fd : ℕ) (r : Option (FdContext C F)) (m : IoScheduler K.State C F)
      → IsValid K self m
      → get (pos fd) m.contexts ≡ r
      → let (code, out, m') = cancel_all_found K fd r m in
        count p (tasks_for self out) + total p m'.contexts ≡ total p m.contexts
  cancel_all_found_served fd none m h there = omega arith
  cancel_all_found_served fd (some x) m h there = elim (Bool-cases (is_none x.events)) [
    | inl empty ↦ rw empty (omega arith)
    | inr more ↦ rw more (
        omega (
          arith,
          total-set_slot p fd (FdContext.cancel_all x).1 m.contexts
              (get-length fd x m.contexts there),
          ap (pending_slot p) there,
          cancel_all_served p self fd x (IsWell-at K self fd x m h there),
        ))
  ]

  trigger_found_served :
      (fd : ℕ) (e : Event) (r : Option (FdContext C F)) (m : IoScheduler K.State C F)
      → m.stopping ≡ false
      → get (pos fd) m.contexts ≡ r
      → let (out, m') = trigger_found K self fd e r m in
        count p (tasks_for self out) + total p m'.contexts ≡ total p m.contexts
  trigger_found_served fd e none m going there = omega arith
  trigger_found_served fd e (some x) m going there =
      elim (Bool-cases (FdContext.pop_event e x).0.had_event) [
        | inr off ↦ rw off (omega arith)
        | inl on ↦ rw on (
            rw (pop_event-removed e x) (
              rw going (
                omega (
                  arith,
                  total-set_slot p fd (removed e x) m.contexts (get-length fd x m.contexts there),
                  ap (pending_slot p) there,
                  popped_served p self e x on,
                ))))
      ]

  -- The waiter of a registration that returned 0.
  registered_pending :
      (fd : ℕ) (e : Event) (callback : Option C) (current : Option F)
      (m m' : IoScheduler K.State C F) (x : FdContext C F) (r : ℤ)
      → pending p x ≡ pending_slot p (get (pos fd) m.contexts)
      → IsWell self fd x
      → has e x.events ≡ false
      → Done K self fd e callback current x m (r, m')
      → total p m'.contexts ≡ total p m.contexts + count p (accepted r (waiting callback current))
  registered_pending fd e callback current m m' x r same well free
        (valid, ends, others, elsewhere) =
      elim ends [
        | inl (ok, got, now) ↦ rw ok (
            omega (
              arith,
              same,
              total_changed p fd m.contexts m'.contexts others,
              ap (pending_slot p) got,
              added_pending p self fd e callback current x well free,
            ))
        | inr (bad, got, now) ↦ rw bad (
            omega (
              arith,
              same,
              total_changed p fd m.contexts m'.contexts others,
              ap (pending_slot p)
                  (got ∙ ap some (after_failure_free self e callback current x free)),
            ))
      ]

  or_new-IsWell :
      (fd : ℕ) (r : Option (FdContext C F)) → IsWellSlot self fd r → IsWell self fd (or_new fd r)
  or_new-IsWell fd none h = (refl, refl, refl)
  or_new-IsWell fd (some x) h = h

  or_new_pending :
      (fd : ℕ) (r : Option (FdContext C F)) → pending p (or_new fd r) ≡ pending_slot p r
  or_new_pending fd none = refl
  or_new_pending fd (some x) = refl

  pub add_event_served :
      (fd : ℕ) (e : Event) (callback : Option C) (current : Option F) (m : IoScheduler K.State C F)
      → IsValid K self m
      → has e (or_new fd (get (pos fd) m.contexts)).events ≡ false
      → let (r, m') = add_event K self (pos fd) e callback current m in
        total p m'.contexts ≡ total p m.contexts + count p (accepted r (waiting callback current))
  add_event_served fd e callback current m h free =
      let slot = get (pos fd) m.contexts in
      let (r, m') = add_event K self (pos fd) e callback current m in
      registered_pending fd e callback current m m' (or_new fd slot) r (or_new_pending fd slot)
        (or_new-IsWell fd slot (h fd).1) free (add_event_lem K self fd e callback current m h)

  pub trigger_event_served :
      (fd : ℕ) (e : Event) (m : IoScheduler K.State C F)
      → m.stopping ≡ false
      → let (out, m') = trigger_event K self (pos fd) e m in
        count p (tasks_for self out) + total p m'.contexts ≡ total p m.contexts
  unfolding trigger_event
  trigger_event_served fd e m going =
      trigger_found_served fd e (get (pos fd) m.contexts) m going refl
