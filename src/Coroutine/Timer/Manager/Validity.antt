-- ===== src/Coroutine/Timer/Manager/Validity.antt =====
-- The order of the set, which every operation of zcoroutine/src/timer relies on and keeps.
use zhttp.Prelude.{
  ℕ, zero, suc, ◌≡◌, ◌≢◌, refl, sym, subst, Bool, true, false, ◌&&◌, List, [], ◌∷◌, Option, none,
  some, arith, Bool-cases, inl, inr, All, All-map,
}
use zhttp.Coroutine.Timer.{Timer, set_contains}
use zhttp.Coroutine.Timer.Order.{
  IsSorted, IsSorted-cong, set_insert-IsSorted, set_erase-IsSorted, set_erase-absent, sorted_ne,
}
use zhttp.Coroutine.Timer.Manager.{
  TimerManager, times, set_object, put, insert_timer, add_timer, add_condition_timer,
  get_next_timeout, again, is_due, is_some, expire_first, expire_loop, list_expired_callbacks,
  detect_clock_rollback, collected, cancel, moved_to, refresh, reset,
}

module _ {F : Type 0} where
  abbrev pub IsValid : TimerManager F → Type 0
  IsValid m = IsSorted (times m.objects) m.timers

  pub times-set_object :
      (objects : ℕ → Timer F) (a b : ℕ) (t : Timer F)
      → a ≢ b
      → times (set_object objects a t) b ≡ times objects b
  times-set_object objects a b t h = ground arith

  -- An object that is in no set changes freely.
  pub set_object-IsSorted :
      (objects : ℕ → Timer F) (a : ℕ) (t : Timer F) (bs : List ℕ)
      → All (λ b. a ≢ b) bs
      → IsSorted (times objects) bs
      → IsSorted (times (set_object objects a t)) bs
  set_object-IsSorted objects a t bs absent h =
      IsSorted-cong (times objects) (times (set_object objects a t)) bs
        (All-map bs (λ b ne. times-set_object objects a b t ne) absent) h

  -- An object in a set may change, except for its time.
  clear-IsSorted :
      (objects : ℕ → Timer F) (a : ℕ) (t : Timer F) (bs : List ℕ)
      → t.next_time ≡ times objects a
      → IsSorted (times objects) bs
      → IsSorted (times (set_object objects a t)) bs
  clear-IsSorted objects a t bs same h =
      IsSorted-cong (times objects) (times (set_object objects a t)) bs (everywhere bs) h
    where
      everywhere : (bs : List ℕ) → All (λ b. times (set_object objects a t) b ≡ times objects b) bs
      everywhere [] = tt
      everywhere (b ∷ bs) = (ground arith, everywhere bs)

  insert_timer-IsValid : (a : ℕ) (m : TimerManager F) → IsValid m → IsValid (insert_timer a m).1
  unfolding insert_timer
  insert_timer-IsValid a m h = set_insert-IsSorted (times m.objects) a m.timers h

  pub again-IsValid :
      (now a : ℕ) (m : TimerManager F)
      → All (λ b. a ≢ b) m.timers
      → IsValid m
      → IsValid (again now a m)
  again-IsValid now a m absent h =
      elim (Bool-cases ((m.objects a).recurring && is_some (m.objects a).callback)) [
        | inl repeats ↦
            rw repeats (
              set_insert-IsSorted _ a m.timers
                (set_object-IsSorted m.objects a _ m.timers absent h))
        | inr ends ↦ rw ends (set_object-IsSorted m.objects a _ m.timers absent h)
      ]

  pub some_pair-inj :
      (m m' : TimerManager F) (out out' : List F)
      → ◌≡◌ {A = Option (List F × TimerManager F)} (some (out, m)) (some (out', m'))
      → m ≡ m'
  some_pair-inj m m' out out' e = cc

  -- One round, for a rest of the loop that keeps the order.
  expire_first-IsValid :
      (rollback : Bool) (now : ℕ)
      (rest : TimerManager F → List F → Option (List F × TimerManager F)) (m m' : TimerManager F)
      (ts : List ℕ) (out out' : List F)
      → ((n : TimerManager F) (got : List F)
          → IsValid n
          → rest n got ≡ some (out', m')
          → IsValid m')
      → IsValid m
      → IsSorted (times m.objects) ts
      → expire_first rollback now rest m ts out ≡ some (out', m')
      → IsValid m'
  expire_first-IsValid rollback now rest m m' [] out out' later h s e =
      subst IsValid (some_pair-inj m m' out out' e) h
  expire_first-IsValid rollback now rest m m' (a ∷ as') out out' later h (first, s) e =
      elim (Bool-cases (is_due rollback now (times m.objects a))) [
        | inr stop ↦ subst IsValid (stopped stop e) h
        | inl due ↦
            later (again now a (record m { timers = as' })) (collected (m.objects a).callback out)
              (again-IsValid now a (record m { timers = as' })
                (sorted_ne (times m.objects) a as' first) s)
              (taken due e)
      ]
    where
      stopped :
          is_due rollback now (times m.objects a) ≡ false
          → expire_first rollback now rest m (a ∷ as') out ≡ some (out', m')
          → m ≡ m'
      stopped stop e = cc (stop, e)

      taken :
          is_due rollback now (times m.objects a) ≡ true
          → expire_first rollback now rest m (a ∷ as') out ≡ some (out', m')
          → rest (again now a (record m { timers = as' })) (collected (m.objects a).callback out)
            ≡ some (out', m')
      taken due e = cc (due, e)

  expire_loop-IsValid :
      (fuel : ℕ) (rollback : Bool) (now : ℕ) (m m' : TimerManager F) (out out' : List F)
      → IsValid m
      → expire_loop fuel rollback now m out ≡ some (out', m')
      → IsValid m'
  unfolding expire_loop
  expire_loop-IsValid zero rollback now m m' out out' h e = absurd (cc)
  expire_loop-IsValid (suc fuel) rollback now m m' out out' h e =
      expire_first-IsValid rollback now (expire_loop fuel rollback now) m m' m.timers out out'
        (λ n got k e'. expire_loop-IsValid fuel rollback now n m' got out' k e') h h e

  moved_to-IsValid :
      (a : ℕ) (t : Timer F) (m : TimerManager F) → IsValid m → IsValid (moved_to a t m).1
  moved_to-IsValid a t m h =
      elim (Bool-cases
        (is_some (m.objects a).callback && set_contains (times m.objects) a m.timers)) [
          | inl found ↦ rw found (
              set_insert-IsSorted _ a _ (
                set_object-IsSorted m.objects a t _ (set_erase-absent _ a m.timers h)
                  (set_erase-IsSorted _ a m.timers h)))
          | inr missing ↦ rw missing h
        ]

  cancel-IsValid : (a : ℕ) (m : TimerManager F) → IsValid m → IsValid (cancel a m).1
  unfolding cancel
  cancel-IsValid a m h =
      let t = m.objects a in
      let cleared : IsValid (put a (record t { callback = none }) m) =
        clear-IsSorted m.objects a (record t { callback = none }) m.timers refl h in
      elim (Bool-cases (is_some t.callback)) [
        | inr gone ↦ rw gone h
        | inl armed ↦ rw armed (elim (Bool-cases (set_contains (times m.objects) a m.timers)) [
          | inl found ↦ rw found (set_erase-IsSorted _ a m.timers cleared)
          | inr missing ↦ rw missing cleared
        ])
      ]

-- What a call of the manager or of one of its timers does to the manager.
pub data Step {F : Type 0} (m m' : TimerManager F) : Type 0 where
  added :
      (a now timeout : ℕ) (callback : Option F) (recurring : Bool)
      → All (λ b. a ≢ b) m.timers
      → m' ≡ (add_timer a now timeout callback recurring m).1
      → Step m m'
  added_conditional :
      (wrap : Option F → F) (a now timeout : ℕ) (callback : Option F) (recurring : Bool)
      → All (λ b. a ≢ b) m.timers
      → m' ≡ (add_condition_timer wrap a now timeout callback recurring m).1
      → Step m m'
  canceled : (a : ℕ) → m' ≡ (cancel a m).1 → Step m m'
  refreshed : (a now : ℕ) → m' ≡ (refresh a now m).1 → Step m m'
  moved : (a ms : ℕ) (from_now : Bool) (now : ℕ) → m' ≡ (reset a ms from_now now m).1 → Step m m'
  asked : (now : ℕ) → m' ≡ (get_next_timeout now m).1 → Step m m'
  expired :
      (fuel now now' : ℕ) (out : List F)
      → list_expired_callbacks fuel now now' m ≡ some (out, m')
      → Step m m'

-- Every call keeps the set of timers sorted by time and, at equal times, by address: without that, the set
-- would not find the timers that it holds. The address of a timer that is added is not that of one in the set.
pub Step-IsValid : {F : Type 0} (m m' : TimerManager F) → Step m m' → IsValid m → IsValid m'
unfolding add_timer add_condition_timer refresh reset get_next_timeout list_expired_callbacks
    detect_clock_rollback
Step-IsValid m m' (added a now timeout callback recurring absent e) h =
    subst IsValid (sym e)
      (insert_timer-IsValid a _ (set_object-IsSorted m.objects a _ m.timers absent h))
Step-IsValid m m' (added_conditional wrap a now timeout callback recurring absent e) h =
    subst IsValid (sym e)
      (insert_timer-IsValid a _ (set_object-IsSorted m.objects a _ m.timers absent h))
Step-IsValid m m' (canceled a e) h = subst IsValid (sym e) (cancel-IsValid a m h)
Step-IsValid m m' (refreshed a now e) h = subst IsValid (sym e) (moved_to-IsValid a _ m h)
Step-IsValid m m' (moved a ms from_now now e) h = subst IsValid (sym e) (moved_to-IsValid a _ m h)
Step-IsValid m m' (asked now e) h = subst IsValid (sym e) h
Step-IsValid m m' (expired fuel now now' out e) h =
    expire_loop-IsValid fuel _ now (record m { last_time = now' }) m' [] out h e
