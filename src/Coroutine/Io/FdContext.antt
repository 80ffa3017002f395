-- ===== src/Coroutine/Io/FdContext.antt =====
-- zcoroutine/src/io/fd_context.cc: who waits for the events of a descriptor. The bits of `events_` are two Booleans, a
-- callback and a fiber are values of `C` and `F`, a scheduler is its address, and each operation is the
-- step that it makes under the lock, with what it schedules or runs afterwards.
pub mod Delivery
use zhttp.Prelude.{
  ℕ, ◌≡◌, Bool, true, false, not, ◌&&◌, ◌||◌, List, [], ◌∷◌, ◌++◌, Option, none, some,
  if◌then◌else◌,
}

pub data Event : Type 0 where
  read : Event
  write : Event

pub record Events : Type 0 where
  pub has_read : Bool
  pub has_write : Bool

abbrev pub no_events : Events
no_events = record { has_read = false; has_write = false }

-- `events & event`, `events | event`, `events & ~event`, `events == kNone`.
abbrev pub has : Event → Events → Bool
has read es = es.has_read
has write es = es.has_write

abbrev pub with_event : Event → Events → Events
with_event read es = record es { has_read = true }
with_event write es = record es { has_write = true }

abbrev pub without_event : Event → Events → Events
without_event read es = record es { has_read = false }
without_event write es = record es { has_write = false }

abbrev pub is_none : Events → Bool
is_none es = not (es.has_read || es.has_write)

pub record EventContext (C F : Type 0) : Type 0 where
  pub callback : Option C
  pub fiber : Option F
  pub scheduler : Option ℕ

pub record FdContext (C F : Type 0) : Type 0 where
  pub fd : ℕ
  pub events : Events
  pub read_ctx : EventContext C F
  pub write_ctx : EventContext C F

-- A task given to a scheduler, or a callback that is run on the spot.
pub data Effect (C F : Type 0) : Type 0 where
  scheduled_callback : ℕ → C → Effect C F
  scheduled_fiber : ℕ → F → Effect C F
  ran : C → Effect C F

pub record PopResult (C F : Type 0) : Type 0 where
  pub callback : Option C
  pub fiber : Option F
  pub remaining_events : Events
  pub had_event : Bool

module _ {C F : Type 0} where
  -- `reset_event_context`: the context without its callback, fiber and scheduler.
  abbrev pub reset_context : EventContext C F
  reset_context = record { callback = none; fiber = none; scheduler = none }

  abbrev pub new_context : ℕ → FdContext C F
  new_context fd = record {
    fd = fd;
    events = no_events;
    read_ctx = reset_context;
    write_ctx = reset_context;
  }

  abbrev pub get_event_context : Event → FdContext C F → EventContext C F
  get_event_context read x = x.read_ctx
  get_event_context write x = x.write_ctx

  abbrev pub set_event_context : Event → EventContext C F → FdContext C F → FdContext C F
  set_event_context read ctx x = record x { read_ctx = ctx }
  set_event_context write ctx x = record x { write_ctx = ctx }

  unfoldable pub add_event : Event → FdContext C F → Events × FdContext C F
  add_event e x =
      if has e x.events
      then (x.events, x)
      else (with_event e x.events, record x { events = with_event e x.events })

  -- The event bit is cleared and its context reset.
  abbrev pub cleared : Event → FdContext C F → FdContext C F
  cleared e x = set_event_context e reset_context (record x { events = without_event e x.events })

  unfoldable pub del_event : Event → FdContext C F → Events × FdContext C F
  del_event e x = if has e x.events then (without_event e x.events, cleared e x) else (x.events, x)

  unfoldable pub pop_event : Event → FdContext C F → PopResult C F × FdContext C F
  pop_event e x =
      let ctx = get_event_context e x in
      if has e x.events
      then (
        record {
          callback = ctx.callback;
          fiber = ctx.fiber;
          remaining_events = without_event e x.events;
          had_event = true;
        },
        cleared e x,
      )
      else (
        record { callback = none; fiber = none; remaining_events = x.events; had_event = false },
        x,
      )

  -- What is done with a callback and a fiber that were taken out: only the owner gets them.
  abbrev pub deliver : Option ℕ → Option C → Option F → List (Effect C F)
  deliver (some owner) (some c) f = scheduled_callback owner c ∷ []
  deliver none (some c) f = ran c ∷ []
  deliver (some owner) none (some f) = scheduled_fiber owner f ∷ []
  deliver none none (some f) = []
  deliver owner none none = []

  abbrev pub deliver_context : EventContext C F → List (Effect C F)
  deliver_context ctx = deliver ctx.scheduler ctx.callback ctx.fiber

  unfoldable pub cancel_event : Event → FdContext C F → Events × List (Effect C F) × FdContext C F
  cancel_event e x =
      if has e x.events
      then (without_event e x.events, deliver_context (get_event_context e x), cleared e x)
      else (x.events, [], x)

  -- The event's context when the bit is set, and what is kept of it.
  abbrev pub taken_context : Event → FdContext C F → EventContext C F
  taken_context e x = if has e x.events then get_event_context e x else reset_context

  abbrev pub kept_context : Event → FdContext C F → EventContext C F
  kept_context e x = if has e x.events then reset_context else get_event_context e x

  unfoldable pub cancel_all : FdContext C F → List (Effect C F) × FdContext C F
  cancel_all x = if is_none x.events then ([], x) else (
    deliver_context (taken_context read x) ++ deliver_context (taken_context write x),
    record x {
      events = no_events;
      read_ctx = kept_context read x;
      write_ctx = kept_context write x;
    },
  )

  unfoldable pub trigger_event : Event → FdContext C F → List (Effect C F) × FdContext C F
  trigger_event e x =
      if has e x.events then (deliver_context (get_event_context e x), cleared e x) else ([], x)
