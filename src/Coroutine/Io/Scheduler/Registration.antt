-- ===== src/Coroutine/Io/Scheduler/Registration.antt =====
-- `IoScheduler::add_event` of zcoroutine/src/io/io_scheduler.cc, with its rollback.
use zhttp.Prelude.{
  ℕ, ◌<◌, ◌≡◌, ◌≢◌, refl, sym, ap, subst, ◌∙◌, Bool, true, false, Option, none, some, arith, ◌==◌,
  ==_iff, ℤ, pos, negsuc, inl, inr, ◌⊎◌, length, Bool-cases, if◌then◌else◌,
}
use zhttp.Coroutine.Io.FdContext.{
  Event, read, write, Events, has, is_none, EventContext, FdContext, reset_context, new_context,
  get_event_context,
}
use zhttp.Coroutine.Io.FdContext
use zhttp.Coroutine.Io.Table.{
  get, get_or_create, or_new, get-length, get-set_slot, get-set_slot_other, get_or_create_lem,
}
use zhttp.Coroutine.Io.Epoll.{Kernel, covers, covers_self}
use zhttp.Coroutine.Io.Scheduler.{
  IoScheduler, register, with_waiter_at, rolled_back, update_slot, add_outcome, add_at, add_found,
  add_event,
}
use zhttp.Coroutine.Io.Scheduler.Validity.{
  IsWell, IsWellSlot, slot_events, IsValid, IsValidAt, added-IsWell, add_event_result,
  update_slot-IsValid, register_lem, register_elsewhere,
}

module _ {C F : Type 0} where
  -- The context after a failure: an event that was registered before stays registered, for the new waiter.
  abbrev pub after_failure : ℕ → Event → Option C → Option F → FdContext C F → FdContext C F
  after_failure self e callback current x =
      if has e x.events
      then (FdContext.add_event e (with_waiter_at self e callback current x)).1
      else x

  pub after_failure_free :
      (self : ℕ) (e : Event) (callback : Option C) (current : Option F) (x : FdContext C F)
      → has e x.events ≡ false
      → after_failure self e callback current x ≡ x
  after_failure_free self e callback current x free = rw free refl

  -- What the rollback does, and that it adds no event; the context is given by its parts.
  rolled_parts :
      (self fd number : ℕ) (e : Event) (callback : Option C) (current : Option F) (r w : Bool)
      (ctx ctx' : EventContext C F) (watching : Option Events)
      → let x : FdContext C F = record {
        fd = number;
        events = record { has_read = r; has_write = w };
        read_ctx = ctx;
        write_ctx = ctx';
      } in
        let x' = with_waiter_at self e callback current x in
        IsWell self fd x
        → covers watching x.events ≡ true
        → (rolled_back e (has e x'.events) (FdContext.add_event e x').1
            ≡ after_failure self e callback current x)
          × (covers watching (after_failure self e callback current x).events ≡ true)
  unfolding FdContext.add_event FdContext.del_event
  rolled_parts self fd number read callback current true w ctx ctx' watching h c = (refl, c)
  rolled_parts self fd number write callback current r true ctx ctx' watching h c = (refl, c)
  rolled_parts self fd number read callback current false w ctx ctx' watching (p, hr, hw) c = (
    ap
        (λ c. record {
          fd = number;
          events = record { has_read = false; has_write = w };
          read_ctx = c;
          write_ctx = ctx';
        })
        (sym hr),
    c,
  )
  rolled_parts self fd number write callback current r false ctx ctx' watching (p, hr, hw) c = (
    ap
        (λ c. record {
          fd = number;
          events = record { has_read = r; has_write = false };
          read_ctx = ctx;
          write_ctx = c;
        })
        (sym hw),
    c,
  )

  rolled_back_lem :
      (self fd : ℕ) (e : Event) (callback : Option C) (current : Option F) (x : FdContext C F)
      (watching : Option Events)
      → IsWell self fd x
      → covers watching x.events ≡ true
      → let x' = with_waiter_at self e callback current x in
        (rolled_back e (has e x'.events) (FdContext.add_event e x').1
          ≡ after_failure self e callback current x)
        × (covers watching (after_failure self e callback current x).events ≡ true)
  rolled_back_lem self fd e callback current x watching h c =
      rolled_parts self fd x.fd e callback current x.events.has_read x.events.has_write x.read_ctx
        x.write_ctx watching h c

  after_failure-IsWell :
      (self fd : ℕ) (e : Event) (callback : Option C) (current : Option F) (x : FdContext C F)
      → IsWell self fd x
      → IsWell self fd (after_failure self e callback current x)
  after_failure-IsWell self fd e callback current x h = elim (Bool-cases (has e x.events)) [
    | inl on ↦ rw on (added-IsWell self fd e callback current x h)
    | inr off ↦ rw off h
  ]

module _ (K : Kernel) {C F : Type 0} where
  -- How a registration ends: with the waiter in the context and the kernel watching the events of the context, or with -1 and
  -- the kernel watching what it watched.
  abbrev pub Ends :
      ℕ
      → ℕ
      → Event
      → Option C
      → Option F
      → FdContext C F
      → K.State
      → ℤ
      → IoScheduler K.State C F
      → Type 0
  Ends self fd e callback current x s r m =
      ((r ≡ pos 0)
        × (get (pos fd) m.contexts
            ≡ some (FdContext.add_event e (with_waiter_at self e callback current x)).1)
        × (K.interest m.kernel fd
            ≡ some (FdContext.add_event e (with_waiter_at self e callback current x)).1.events))
      ⊎ ((r ≡ negsuc 0)
          × (get (pos fd) m.contexts ≡ some (after_failure self e callback current x))
          × (K.interest m.kernel fd ≡ K.interest s fd))

  abbrev pub Done :
      ℕ
      → ℕ
      → Event
      → Option C
      → Option F
      → FdContext C F
      → IoScheduler K.State C F
      → ℤ × IoScheduler K.State C F
      → Type 0
  Done self fd e callback current x m (r, m') =
      IsValid K self m'
      × Ends self fd e callback current x m.kernel r m'
      × ((i : ℕ) → fd ≢ i → get (pos i) m'.contexts ≡ get (pos i) m.contexts)
      × ((i : ℕ) → fd ≢ i → K.interest m'.kernel i ≡ K.interest m.kernel i)

  add_at-Done :
      (self fd : ℕ) (e : Event) (callback : Option C) (current : Option F) (x : FdContext C F)
      (m : IoScheduler K.State C F)
      → IsValid K self m
      → get (pos fd) m.contexts ≡ some x
      → Done self fd e callback current x m
          (add_at K fd e (with_waiter_at self e callback current x) m)
  add_at-Done self fd e callback current x m h there =
      elim (register_lem K fd x'.events new m.kernel) [
        | inl (ok, now) ↦
            subst (Done self fd e callback current x m)
              (sym (ap (λ err. add_outcome K fd e x' y err s m) ok))
              (
                update_slot-IsValid K self fd y s m h room
                    (added-IsWell self fd e callback current x well)
                    (subst (λ r. covers r y.events ≡ true) (sym (now ∙ exact))
                      (covers_self y.events))
                    elsewhere,
                inl (refl, get-set_slot fd y m.contexts room, now ∙ exact),
                others y,
                elsewhere,
              )
        | inr (errno, bad, now) ↦
            let (back, covered) =
              rolled_back_lem self fd e callback current x (K.interest m.kernel fd) well watching in
            subst (Done self fd e callback current x m)
              (sym (
                ap (λ err. add_outcome K fd e x' y err s m) bad
                ∙ ap (λ z. (negsuc 0, update_slot K z s fd m)) back))
              (
                update_slot-IsValid K self fd z s m h room
                    (after_failure-IsWell self fd e callback current x well)
                    (subst (λ r. covers r z.events ≡ true) (sym now) covered) elsewhere,
                inr (refl, get-set_slot fd z m.contexts room, now),
                others z,
                elsewhere,
              )
      ]
    where
      x' : FdContext C F
      x' = with_waiter_at self e callback current x

      new : Events
      new = (FdContext.add_event e x').0

      y : FdContext C F
      y = (FdContext.add_event e x').1

      s : K.State
      s = (register K fd x'.events new m.kernel).1

      z : FdContext C F
      z = after_failure self e callback current x

      watching : covers (K.interest m.kernel fd) x.events ≡ true
      watching = subst (λ r. covers (K.interest m.kernel fd) (slot_events r) ≡ true) there (h fd).0

      well : IsWell self fd x
      well = subst (IsWellSlot self fd) there (h fd).1

      room : fd < length m.contexts
      room = get-length fd x m.contexts there

      exact : some new ≡ some y.events
      exact = ap some (add_event_result e x')

      elsewhere : (i : ℕ) → fd ≢ i → K.interest s i ≡ K.interest m.kernel i
      elsewhere i ne = register_elsewhere K fd x'.events new m.kernel i ne

      others :
          (z : FdContext C F) (i : ℕ)
          → fd ≢ i
          → get (pos i) (update_slot K z s fd m).contexts ≡ get (pos i) m.contexts
      others z i ne = get-set_slot_other fd i z m.contexts ne

  -- The table with the context of the descriptor in it.
  created-IsValid :
      (self fd : ℕ) (m : IoScheduler K.State C F)
      → IsValid K self m
      → IsValid K self (record m { contexts = (get_or_create (pos fd) m.contexts).1 })
  created-IsValid self fd m h i =
      let (a, b, c, d, e) = get_or_create_lem fd m.contexts in
      elim (Bool-cases (fd == i)) [
        | inl same ↦
            subst (IsValidAt K self n) ((==_iff fd i).0 same)
              (rw b (made (get (pos fd) m.contexts) (h fd)))
        | inr other ↦ rw (e i (λ e'. ground (arith, e', other))) (h i)
      ]
    where
      n : IoScheduler K.State C F
      n = record m { contexts = (get_or_create (pos fd) m.contexts).1 }

      made :
          (r : Option (FdContext C F))
          → (covers (K.interest m.kernel fd) (slot_events r) ≡ true) × IsWellSlot self fd r
          → (covers (K.interest m.kernel fd) (or_new fd r).events ≡ true)
            × IsWell self fd (or_new fd r)
      made none (p, q) = (p, (refl, refl, refl))
      made (some x) (p, q) = (p, q)

  pub add_event_lem :
      (self fd : ℕ) (e : Event) (callback : Option C) (current : Option F)
      (m : IoScheduler K.State C F)
      → IsValid K self m
      → Done self fd e callback current
          (or_new fd (get (pos fd) m.contexts))
          m
          (add_event K self (pos fd) e callback current m)
  unfolding add_event
  add_event_lem self fd e callback current m h =
      let (a, b, c, d, others) = get_or_create_lem fd m.contexts in
      let n : IoScheduler K.State C F = record m {
        contexts = (get_or_create (pos fd) m.contexts).1;
      } in
      let (valid, ends, same, elsewhere) =
        add_at-Done self fd e callback current (or_new fd (get (pos fd) m.contexts)) n
          (created-IsValid self fd m h) b in
      subst (Done self fd e callback current (or_new fd (get (pos fd) m.contexts)) m)
        (sym (ap (λ r. add_found K self fd e callback current r n) a))
        (valid, ends, (λ i ne. same i ne ∙ others i ne), elsewhere)
