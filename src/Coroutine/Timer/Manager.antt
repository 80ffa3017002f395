-- ===== src/Coroutine/Timer/Manager.antt =====
-- `TimerManager` and the methods of `Timer` that change it, zcoroutine/src/timer.
pub mod Validity
pub mod Due
pub mod Expiry
pub mod Waiting
pub mod Rollback
use zhttp.Prelude.{
  ℕ, zero, suc, ◌+◌, ◌-◌, ◌%◌, ◌*◌, Bool, true, false, not, ◌&&◌, ◌||◌, List, [], ◌∷◌, ◌++◌, Option,
  none, some, ltb, leb, ◌==◌, if◌then◌else◌, ℤ, pos, negsuc, to_int, min,
}
use mathlib.Core.Option
use zhttp.Coroutine.Timer.{u64, Timer, set_insert, set_contains, set_erase}

pub record TimerManager (F : Type 0) : Type 0 where
  pub is_ticked : Bool
  pub timers : List ℕ
  pub objects : ℕ → Timer F
  pub last_time : ℕ
  pub has_on_inserted : Bool

-- The condition of the loop over expired timers.
abbrev pub is_due : Bool → ℕ → ℕ → Bool
is_due rollback now next = rollback || leb next now

module _ {F : Type 0} where
  abbrev pub times : (ℕ → Timer F) → ℕ → ℕ
  times objects a = (objects a).next_time

  abbrev pub set_object : (ℕ → Timer F) → ℕ → Timer F → ℕ → Timer F
  set_object objects a t b = if a == b then t else objects b

  -- The object at an address is changed while it is in no set.
  abbrev pub put : ℕ → Timer F → TimerManager F → TimerManager F
  put a t m = record m { objects = set_object m.objects a t }

  abbrev pub insert_into : ℕ → TimerManager F → TimerManager F
  insert_into a m = record m { timers = set_insert (times m.objects) a m.timers }

  abbrev pub erase_from : ℕ → TimerManager F → TimerManager F
  erase_from a m = record m { timers = set_erase (times m.objects) a m.timers }

  -- The constructor of a timer.
  abbrev pub new_timer : ℕ → ℕ → Option F → Bool → Timer F
  new_timer now interval callback recurring = record {
    next_time = u64 (now + interval);
    interval_ms = interval;
    recurring = recurring;
    callback = callback;
  }

  abbrev pub is_first : ℕ → TimerManager F → List ℕ → Bool
  is_first a m [] = true
  is_first a m (b ∷ bs) = ltb (times m.objects a) (times m.objects b)

  -- Whether the callback for an insertion at the front runs, and the manager.
  unfoldable pub insert_timer : ℕ → TimerManager F → Bool × TimerManager F
  insert_timer a m =
      let notified = is_first a m m.timers && (not m.is_ticked && m.has_on_inserted) in
      (notified, record (insert_into a m) { is_ticked = m.is_ticked || notified })

  -- `a` is the address of the new timer.
  unfoldable pub add_timer : ℕ → ℕ → ℕ → Option F → Bool → TimerManager F → Bool × TimerManager F
  add_timer a now timeout callback recurring m =
      insert_timer a (put a (new_timer now timeout callback recurring) m)

  -- The wrapper that checks the condition is a callback, also where the callback in it is empty.
  unfoldable pub add_condition_timer :
      (Option F → F) → ℕ → ℕ → ℕ → Option F → Bool → TimerManager F → Bool × TimerManager F
  add_condition_timer wrap a now timeout callback recurring m =
      insert_timer a (put a (new_timer now timeout (some (wrap callback)) recurring) m)

  abbrev pub first_timeout : ℕ → TimerManager F → List ℕ → ℤ
  first_timeout now m [] = negsuc 0
  first_timeout now m (a ∷ as') =
      if leb (times m.objects a) now then pos 0 else to_int (times m.objects a - now)

  unfoldable pub get_next_timeout : ℕ → TimerManager F → ℤ × TimerManager F
  get_next_timeout now m = (first_timeout now m m.timers, record m { is_ticked = false })

  -- What happens to a timer that was taken off the set: its callback is collected, and it is put back or cleared.
  abbrev pub collected : Option F → List F → List F
  collected none out = out
  collected (some f) out = out ++ (f ∷ [])

  abbrev pub is_some : Option F → Bool
  is_some none = false
  is_some (some f) = true

  abbrev pub again : ℕ → ℕ → TimerManager F → TimerManager F
  again now a m =
      let t = m.objects a in
      if t.recurring && is_some t.callback
      then insert_into a (put a (record t { next_time = u64 (now + t.interval_ms) }) m)
      else put a (record t { callback = none }) m

  -- The loop of `list_expired_callbacks` on fuel; `none` means that the fuel ran out. `next` is the rest of the
  -- loop, for the manager whose first timer is taken off.
  abbrev pub expire_first :
      Bool
      → ℕ
      → (TimerManager F → List F → Option (List F × TimerManager F))
      → TimerManager F
      → List ℕ
      → List F
      → Option (List F × TimerManager F)
  expire_first rollback now rest m [] out = some (out, m)
  expire_first rollback now rest m (a ∷ as') out =
      if is_due rollback now (times m.objects a)
      then rest (again now a (record m { timers = as' })) (collected (m.objects a).callback out)
      else some (out, m)

  unfoldable pub expire_loop :
      ℕ → Bool → ℕ → TimerManager F → List F → Option (List F × TimerManager F)
  expire_loop zero rollback now m out = none
  expire_loop (suc fuel) rollback now m out =
      expire_first rollback now (expire_loop fuel rollback now) m m.timers out

  -- More than an hour back.
  unfoldable pub detect_clock_rollback : ℕ → TimerManager F → Bool × TimerManager F
  detect_clock_rollback now m =
      (ltb now m.last_time && ltb 3600000 (m.last_time - now), record m { last_time = now })

  -- The clock is read twice.
  unfoldable pub list_expired_callbacks :
      ℕ → ℕ → ℕ → TimerManager F → Option (List F × TimerManager F)
  list_expired_callbacks fuel now now' m =
      let (rollback, m') = detect_clock_rollback now' m in expire_loop fuel rollback now m' []

  -- `cancel`, `refresh` and `reset` of the timer at an address.
  unfoldable pub cancel : ℕ → TimerManager F → Bool × TimerManager F
  cancel a m =
      let t = m.objects a in
      let cleared = put a (record t { callback = none }) m in
      if is_some t.callback
      then (if set_contains (times m.objects) a m.timers
          then (true, erase_from a cleared)
          else (false, cleared))
      else (false, m)

  abbrev pub moved_to : ℕ → Timer F → TimerManager F → Bool × TimerManager F
  moved_to a t m =
      if is_some (m.objects a).callback && set_contains (times m.objects) a m.timers
      then (true, insert_into a (put a t (erase_from a m)))
      else (false, m)

  unfoldable pub refresh : ℕ → ℕ → TimerManager F → Bool × TimerManager F
  refresh a now m =
      let t = m.objects a in moved_to a (record t { next_time = u64 (now + t.interval_ms) }) m

  unfoldable pub reset : ℕ → ℕ → Bool → ℕ → TimerManager F → Bool × TimerManager F
  reset a ms from_now now m =
      let t = m.objects a in
      let next =
        if from_now
        then u64 (now + ms)
        else u64 (t.next_time + (18446744073709551616 - t.interval_ms) + ms) in
      moved_to a (record t { next_time = next; interval_ms = ms }) m
