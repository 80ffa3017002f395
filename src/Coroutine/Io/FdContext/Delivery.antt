-- ===== src/Coroutine/Io/FdContext/Delivery.antt =====
-- How the operations of zcoroutine/src/io/fd_context.cc that take waiters out relate to each other.
use zhttp.Prelude.{ℕ, ◌≡◌, refl, Bool, true, false, List, [], ◌++◌}
use zhttp.Coroutine.Io.FdContext.{
  Event, read, write, has, EventContext, FdContext, Effect, cancel_event, cancel_all, trigger_event,
  pop_event,
}

module _ {C F : Type 0} where
  -- Both events are canceled, the read event first.
  abbrev in_turn : FdContext C F → List (Effect C F) × FdContext C F
  in_turn x =
      let (es, out, y) = cancel_event read x in
      let (es', out', z) = cancel_event write y in (out ++ out', z)

  in_turn_lem :
      (fd : ℕ) (r w : Bool) (ctx ctx' : EventContext C F)
      → let x : FdContext C F = record {
        fd = fd;
        events = record { has_read = r; has_write = w };
        read_ctx = ctx;
        write_ctx = ctx';
      } in
        cancel_all x ≡ in_turn x
  unfolding cancel_all cancel_event
  in_turn_lem fd true true ctx ctx' = refl
  in_turn_lem fd true false ctx ctx' = refl
  in_turn_lem fd false true ctx ctx' = refl
  in_turn_lem fd false false ctx ctx' = refl

  -- Canceling everything has the same effects, in the same order, and leaves the same context as canceling the read event
  -- and then the write event.
  pub cancel_all-cancel_event :
      (x : FdContext C F)
      → cancel_all x ≡ (
          let (es, out, y) = cancel_event read x in
          let (es', out', z) = cancel_event write y in (out ++ out', z))
  cancel_all-cancel_event x =
      in_turn_lem x.fd x.events.has_read x.events.has_write x.read_ctx x.write_ctx

  taken_out :
      (e : Event) (fd : ℕ) (r w : Bool) (ctx ctx' : EventContext C F)
      → let x : FdContext C F = record {
        fd = fd;
        events = record { has_read = r; has_write = w };
        read_ctx = ctx;
        write_ctx = ctx';
      } in
        (has e (trigger_event e x).1.events ≡ false)
        × (trigger_event e x ≡ ((cancel_event e x).1, (cancel_event e x).2))
        × ((pop_event e x).1 ≡ (cancel_event e x).2)
        × ((pop_event e x).0.remaining_events ≡ (cancel_event e x).0)
        × ((pop_event e x).0.had_event ≡ has e x.events)
        × (trigger_event e (trigger_event e x).1 ≡ ([], (trigger_event e x).1))
  unfolding trigger_event cancel_event pop_event
  taken_out read fd true w ctx ctx' = (refl, refl, refl, refl, refl, refl)
  taken_out read fd false w ctx ctx' = (refl, refl, refl, refl, refl, refl)
  taken_out write fd r true ctx ctx' = (refl, refl, refl, refl, refl, refl)
  taken_out write fd r false ctx ctx' = (refl, refl, refl, refl, refl, refl)

  -- Triggering, canceling and popping an event leave the same context, without the event's bit; triggering and canceling have
  -- the same effects; canceling and popping report the same remaining events, and popping whether the event was there;
  -- and triggering a second time does nothing.
  pub trigger_event_lem :
      (e : Event) (x : FdContext C F)
      → (has e (trigger_event e x).1.events ≡ false)
        × (trigger_event e x ≡ ((cancel_event e x).1, (cancel_event e x).2))
        × ((pop_event e x).1 ≡ (cancel_event e x).2)
        × ((pop_event e x).0.remaining_events ≡ (cancel_event e x).0)
        × ((pop_event e x).0.had_event ≡ has e x.events)
        × (trigger_event e (trigger_event e x).1 ≡ ([], (trigger_event e x).1))
  trigger_event_lem e x =
      taken_out e x.fd x.events.has_read x.events.has_write x.read_ctx x.write_ctx
