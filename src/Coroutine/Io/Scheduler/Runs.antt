-- ===== src/Coroutine/Io/Scheduler/Runs.antt =====
-- Sequences of calls of zcoroutine/src/io/io_scheduler.cc.
use zhttp.Prelude.{
  ℕ, ◌+◌, ◌≡◌, refl, ◌∙◌, Bool, true, false, ◌||◌, List, [], ◌∷◌, ◌++◌, Option, none, some, arith,
  if◌then◌else◌, pos, Bool-cases, inl, inr,
}
use zhttp.Coroutine.Io.FdContext.{Event, read, write, has, FdContext, Effect}
use zhttp.Coroutine.Io.FdContext
use zhttp.Coroutine.Io.Table.{get, or_new}
use zhttp.Coroutine.Io.Epoll.{Kernel}
use zhttp.Coroutine.Io.Scheduler.{
  IoScheduler, Ready, add_event, cancel_event, cancel_all, trigger_found, trigger_event, dispatch,
}
use zhttp.Coroutine.Io.Scheduler.Validity.{IsValid}
use zhttp.Coroutine.Io.Scheduler.Removal.{
  registered, canceled, all_canceled, dispatched, Call-IsValid,
}
use zhttp.Coroutine.Io.Scheduler.Waiters.{
  Task, count, count-append, waiting, tasks_for, tasks_for-append, total,
}
use zhttp.Coroutine.Io.Scheduler.Owners.{
  AllFor, AllFor-append, cancel_found-AllFor, cancel_all_found-AllFor, dispatch-AllFor,
}
use zhttp.Coroutine.Io.Scheduler.Wakeups.{
  accepted, cancel_found_served, cancel_all_found_served, add_event_served, trigger_event_served,
}

-- A call of the scheduler, or a ready event.
pub data Request (C F : Type 0) : Type 0 where
  add_waiter : ℕ → Event → Option C → Option F → Request C F
  cancel_one : ℕ → Event → Request C F
  cancel_both : ℕ → Request C F
  is_ready : ℕ → Ready → Request C F

-- What came in, what went out, and the scheduler.
pub record Outcome (S C F : Type 0) : Type 0 where
  pub taken : List (Task C F)
  pub effects : List (Effect C F)
  pub scheduler : IoScheduler S C F

module _ (K : Kernel) {C F : Type 0} (self : ℕ) where
  abbrev pub serve : Request C F → IoScheduler K.State C F → Outcome K.State C F
  serve (add_waiter fd e callback current) m =
      let (r, m') = add_event K self (pos fd) e callback current m in
      record { taken = accepted r (waiting callback current); effects = []; scheduler = m' }
  serve (cancel_one fd e) m =
      let (r, out, m') = cancel_event K (pos fd) e m in
      record { taken = []; effects = out; scheduler = m' }
  serve (cancel_both fd) m =
      let (r, out, m') = cancel_all K (pos fd) m in
      record { taken = []; effects = out; scheduler = m' }
  serve (is_ready fd ready) m =
      let (out, m') = dispatch K self fd ready m in
      record { taken = []; effects = out; scheduler = m' }

  unfoldable pub run : List (Request C F) → IoScheduler K.State C F → Outcome K.State C F
  run [] m = record { taken = []; effects = []; scheduler = m }
  run (q ∷ qs) m =
      let now = serve q m in
      let later = run qs now.scheduler in
      record {
        taken = now.taken ++ later.taken;
        effects = now.effects ++ later.effects;
        scheduler = later.scheduler;
      }

  -- The scheduler is not stopping, and a registration is for an event that nobody waits for.
  abbrev pub IsProper : Request C F → IoScheduler K.State C F → Type 0
  IsProper (add_waiter fd e callback current) m =
      (m.stopping ≡ false) × (has e (or_new fd (get (pos fd) m.contexts)).events ≡ false)
  IsProper (cancel_one fd e) m = m.stopping ≡ false
  IsProper (cancel_both fd) m = m.stopping ≡ false
  IsProper (is_ready fd ready) m = m.stopping ≡ false

  abbrev pub AllProper : List (Request C F) → IoScheduler K.State C F → Type 0
  AllProper [] m = Unit
  AllProper (q ∷ qs) m = IsProper q m × AllProper qs (serve q m).scheduler

  pub serve-IsValid :
      (q : Request C F) (m : IoScheduler K.State C F)
      → IsValid K self m
      → IsValid K self (serve q m).scheduler
  serve-IsValid (add_waiter fd e callback current) m h =
      Call-IsValid K self m _ (registered fd e callback current refl) h
  serve-IsValid (cancel_one fd e) m h = Call-IsValid K self m _ (canceled fd e refl) h
  serve-IsValid (cancel_both fd) m h = Call-IsValid K self m _ (all_canceled fd refl) h
  serve-IsValid (is_ready fd ready) m h = Call-IsValid K self m _ (dispatched fd ready refl) h

module _ (K : Kernel) {C F : Type 0} (p : Task C F → Bool) (self : ℕ) where
  trigger_found_going :
      (fd : ℕ) (e : Event) (r : Option (FdContext C F)) (m : IoScheduler K.State C F)
      → (trigger_found K self fd e r m).1.stopping ≡ m.stopping
  trigger_found_going fd e none m = refl
  trigger_found_going fd e (some x) m = elim (Bool-cases (FdContext.pop_event e x).0.had_event) [
    | inl on ↦ rw on refl
    | inr off ↦ rw off refl
  ]

  trigger_event_going :
      (fd : ℕ) (e : Event) (m : IoScheduler K.State C F)
      → (trigger_event K self (pos fd) e m).1.stopping ≡ m.stopping
  unfolding trigger_event
  trigger_event_going fd e m = trigger_found_going fd e (get (pos fd) m.contexts) m

  -- A trigger under a test.
  abbrev trigger_if :
      Bool → ℕ → Event → IoScheduler K.State C F → List (Effect C F) × IoScheduler K.State C F
  trigger_if b fd e m = if b then trigger_event K self (pos fd) e m else ([], m)

  trigger_if_served :
      (b : Bool) (fd : ℕ) (e : Event) (m : IoScheduler K.State C F)
      → m.stopping ≡ false
      → let (out, m') = trigger_if b fd e m in
        (count p (tasks_for self out) + total p m'.contexts ≡ total p m.contexts)
        × (m'.stopping ≡ false)
  trigger_if_served true fd e m going =
      (trigger_event_served K p self fd e m going, trigger_event_going fd e m ∙ going)
  trigger_if_served false fd e m going = (omega arith, going)

  dispatch_served :
      (fd : ℕ) (ready : Ready) (m : IoScheduler K.State C F)
      → m.stopping ≡ false
      → let (out, m') = dispatch K self fd ready m in
        count p (tasks_for self out) + total p m'.contexts ≡ total p m.contexts
  unfolding dispatch
  dispatch_served fd ready m going =
      let broken = ready.has_err || ready.has_hup in
      let (out, n) = trigger_if (ready.has_in || broken) fd read m in
      let (out', n') = trigger_if (ready.has_out || broken) fd write n in
      let (first, going') = trigger_if_served (ready.has_in || broken) fd read m going in
      let (second, going'') = trigger_if_served (ready.has_out || broken) fd write n going' in
      omega (arith, first, second, tasks_for-append self p out out')

  serve_served :
      (q : Request C F) (m : IoScheduler K.State C F)
      → IsValid K self m
      → IsProper K self q m
      → let now = serve K self q m in
        count p (tasks_for self now.effects) + total p now.scheduler.contexts
        ≡ total p m.contexts + count p now.taken
  unfolding cancel_event cancel_all
  serve_served (add_waiter fd e callback current) m h (going, free) =
      omega (arith, add_event_served K p self fd e callback current m h free)
  serve_served (cancel_one fd e) m h going =
      omega (arith, cancel_found_served K p self fd e (get (pos fd) m.contexts) m h refl)
  serve_served (cancel_both fd) m h going =
      omega (arith, cancel_all_found_served K p self fd (get (pos fd) m.contexts) m h refl)
  serve_served (is_ready fd ready) m h going = omega (arith, dispatch_served fd ready m going)

  serve-AllFor :
      (q : Request C F) (m : IoScheduler K.State C F)
      → IsValid K self m
      → AllFor self (serve K self q m).effects
  unfolding cancel_event cancel_all
  serve-AllFor (add_waiter fd e callback current) m h = tt
  serve-AllFor (cancel_one fd e) m h =
      cancel_found-AllFor K self fd e (get (pos fd) m.contexts) m h refl
  serve-AllFor (cancel_both fd) m h =
      cancel_all_found-AllFor K self fd (get (pos fd) m.contexts) m h refl
  serve-AllFor (is_ready fd ready) m h = dispatch-AllFor K self fd ready m

  -- Over any sequence of registrations, cancellations and ready events, in which an event is registered only while
  -- nobody waits for it and the scheduler is not stopping: for every test of tasks, as many tasks that pass it were given to this
  -- scheduler or still wait as waited before or came in with a registration that returned 0; and all that is
  -- done with waiters is to give them to this scheduler. So no waiter is lost, none is woken twice, none goes to another
  -- scheduler and no callback is run in place.
  pub run_served :
      (qs : List (Request C F)) (m : IoScheduler K.State C F)
      → IsValid K self m
      → AllProper K self qs m
      → let end = run K self qs m in
        (count p (tasks_for self end.effects) + total p end.scheduler.contexts
          ≡ total p m.contexts + count p end.taken)
        × AllFor self end.effects
  unfolding run
  run_served [] m h proper = (omega arith, tt)
  run_served (q ∷ qs) m h (now, later) =
      let n = serve K self q m in
      let rest = run K self qs n.scheduler in
      let (counted, sent) = run_served qs n.scheduler (serve-IsValid K self q m h) later in
      (
        omega (
          arith,
          serve_served q m h now,
          counted,
          count-append p n.taken rest.taken,
          tasks_for-append self p n.effects rest.effects,
        ),
        AllFor-append self n.effects rest.effects (serve-AllFor q m h) sent,
      )
