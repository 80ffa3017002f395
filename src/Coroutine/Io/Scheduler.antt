-- ===== src/Coroutine/Io/Scheduler.antt =====
-- zcoroutine/src/io/io_scheduler.cc: the calls that register, cancel and trigger events. `self` is the address of the
-- scheduler; `current` is the fiber that calls, if there is one. A call is one step: the interleavings
-- of two calls on one descriptor are not modelled.
pub mod Validity
pub mod Registration
pub mod Removal
pub mod Waiters
pub mod Owners
pub mod Wakeups
pub mod Runs
use zhttp.Prelude.{
  ℕ, Bool, true, false, ◌||◌, List, [], ◌++◌, Option, none, some, if◌then◌else◌, ℤ, pos, negsuc,
}
use zhttp.Coroutine.Io.FdContext.{
  Event, read, write, Events, has, is_none, EventContext, FdContext, Effect, get_event_context,
  set_event_context, deliver, PopResult,
}
use zhttp.Coroutine.Io.FdContext
use zhttp.Coroutine.Io.Table.{get, get_or_create, set_slot}
use zhttp.Coroutine.Io.Epoll.{Kernel, is_benign, poll_add, poll_mod, poll_del, update_epoll}

pub record IoScheduler (S C F : Type 0) : Type 0 where
  pub contexts : List (Option (FdContext C F))
  pub kernel : S
  pub stopping : Bool

-- What an event of the poller says: the bits EPOLLIN, EPOLLOUT, EPOLLERR and EPOLLHUP.
pub record Ready : Type 0 where
  pub has_in : Bool
  pub has_out : Bool
  pub has_err : Bool
  pub has_hup : Bool

module _ {C F : Type 0} where
  -- The waiter that `add_event` writes into the event's context.
  abbrev pub with_waiter : ℕ → Option C → Option F → EventContext C F → EventContext C F
  with_waiter self none current ctx = record ctx { fiber = current; scheduler = some self }
  with_waiter self (some c) current ctx = record ctx { callback = some c; scheduler = some self }

  abbrev pub with_waiter_at : ℕ → Event → Option C → Option F → FdContext C F → FdContext C F
  with_waiter_at self e callback current x =
      set_event_context e (with_waiter self callback current (get_event_context e x)) x

  -- The context after a failure: only an event that was new is rolled back.
  abbrev pub rolled_back : Event → Bool → FdContext C F → FdContext C F
  rolled_back e true x = x
  rolled_back e false x = (FdContext.del_event e x).1

-- The descriptor where it is not negative.
abbrev pub number : ℤ → ℕ
number (pos n) = n
number (negsuc n) = 0

-- The result of the calls that remove events.
abbrev pub status : Option ℕ → ℤ
status none = pos 0
status (some errno) = if is_benign errno then pos 0 else negsuc 0

module _ (K : Kernel) where
  -- The first registration of a descriptor adds it, a later one modifies it.
  unfoldable pub register : ℕ → Events → Events → K.State → Option ℕ × K.State
  register fd old new s = if is_none old then poll_add K fd new s else poll_mod K fd new s

module _ (K : Kernel) {C F : Type 0} where
  abbrev pub update_slot :
      FdContext C F → K.State → ℕ → IoScheduler K.State C F → IoScheduler K.State C F
  update_slot x s fd m = record m { contexts = set_slot fd x m.contexts; kernel = s }

  -- `x` is the context with the waiter, `y` the one with the event.
  abbrev pub add_outcome :
      ℕ
      → Event
      → FdContext C F
      → FdContext C F
      → Option ℕ
      → K.State
      → IoScheduler K.State C F
      → ℤ × IoScheduler K.State C F
  add_outcome fd e x y none s m = (pos 0, update_slot y s fd m)
  add_outcome fd e x y (some errno) s m =
      (negsuc 0, update_slot (rolled_back e (has e x.events) y) s fd m)

  abbrev pub add_at :
      ℕ → Event → FdContext C F → IoScheduler K.State C F → ℤ × IoScheduler K.State C F
  add_at fd e x m =
      let (new, y) = FdContext.add_event e x in
      let (err, s) = register K fd x.events new m.kernel in add_outcome fd e x y err s m

  abbrev pub add_found :
      ℕ
      → ℕ
      → Event
      → Option C
      → Option F
      → Option (FdContext C F)
      → IoScheduler K.State C F
      → ℤ × IoScheduler K.State C F
  add_found self fd e callback current none m = (negsuc 0, m)
  add_found self fd e callback current (some x) m =
      add_at fd e (with_waiter_at self e callback current x) m

  unfoldable pub add_event :
      ℕ → ℤ → Event → Option C → Option F → IoScheduler K.State C F → ℤ × IoScheduler K.State C F
  add_event self fd e callback current m =
      let (x, ys) = get_or_create fd m.contexts in
      add_found self (number fd) e callback current x (record m { contexts = ys })

  abbrev pub del_found :
      ℕ → Event → Option (FdContext C F) → IoScheduler K.State C F → ℤ × IoScheduler K.State C F
  del_found fd e none m = (pos 0, m)
  del_found fd e (some x) m =
      let (new, y) = FdContext.del_event e x in
      let (err, s) = update_epoll K fd new m.kernel in (status err, update_slot y s fd m)

  unfoldable pub del_event : ℤ → Event → IoScheduler K.State C F → ℤ × IoScheduler K.State C F
  del_event fd e m = del_found (number fd) e (get fd m.contexts) m

  abbrev pub cancel_found :
      ℕ
      → Event
      → Option (FdContext C F)
      → IoScheduler K.State C F
      → ℤ × List (Effect C F) × IoScheduler K.State C F
  cancel_found fd e none m = (pos 0, [], m)
  cancel_found fd e (some x) m =
      let (new, out, y) = FdContext.cancel_event e x in
      let (err, s) = update_epoll K fd new m.kernel in (status err, out, update_slot y s fd m)

  unfoldable pub cancel_event :
      ℤ → Event → IoScheduler K.State C F → ℤ × List (Effect C F) × IoScheduler K.State C F
  cancel_event fd e m = cancel_found (number fd) e (get fd m.contexts) m

  abbrev pub cancel_all_found :
      ℕ
      → Option (FdContext C F)
      → IoScheduler K.State C F
      → ℤ × List (Effect C F) × IoScheduler K.State C F
  cancel_all_found fd none m = (pos 0, [], m)
  cancel_all_found fd (some x) m =
      let (out, y) = FdContext.cancel_all x in
      let (err, s) = poll_del K fd m.kernel in
      if is_none x.events then (pos 0, [], m) else (status err, out, update_slot y s fd m)

  unfoldable pub cancel_all :
      ℤ → IoScheduler K.State C F → ℤ × List (Effect C F) × IoScheduler K.State C F
  cancel_all fd m = cancel_all_found (number fd) (get fd m.contexts) m

  -- A popped waiter is scheduled here, whatever its owner is, unless the scheduler is stopping.
  abbrev pub trigger_popped :
      ℕ
      → PopResult C F
      → FdContext C F
      → IoScheduler K.State C F
      → List (Effect C F) × IoScheduler K.State C F
  trigger_popped self popped y m =
      let (err, s) = update_epoll K y.fd popped.remaining_events m.kernel in
      (
        if m.stopping then [] else deliver (some self) popped.callback popped.fiber,
        record m { kernel = s },
      )

  abbrev pub trigger_found :
      ℕ
      → ℕ
      → Event
      → Option (FdContext C F)
      → IoScheduler K.State C F
      → List (Effect C F) × IoScheduler K.State C F
  trigger_found self fd e none m = ([], m)
  trigger_found self fd e (some x) m =
      let (popped, y) = FdContext.pop_event e x in
      if popped.had_event
      then trigger_popped self popped y (record m { contexts = set_slot fd y m.contexts })
      else ([], m)

  unfoldable pub trigger_event :
      ℕ → ℤ → Event → IoScheduler K.State C F → List (Effect C F) × IoScheduler K.State C F
  trigger_event self fd e m = trigger_found self (number fd) e (get fd m.contexts) m

  -- One ready event of the I/O thread, for the descriptor of its context: an error or a hang-up counts as both.
  unfoldable pub dispatch :
      ℕ → ℕ → Ready → IoScheduler K.State C F → List (Effect C F) × IoScheduler K.State C F
  dispatch self fd ready m =
      let broken = ready.has_err || ready.has_hup in
      let (out, m') =
        if ready.has_in || broken then trigger_event self (pos fd) read m else ([], m) in
      let (out', m'') =
        if ready.has_out || broken then trigger_event self (pos fd) write m' else ([], m') in
      (out ++ out', m'')
