-- ===== src/Examples/Timers.antt =====
-- A manager with two timers at concrete inputs.
use zhttp.Prelude.{
  ℕ, ◌≤◌, ◌≡◌, refl, true, false, ◌==◌, [], ◌∷◌, none, some, arith, if◌then◌else◌, All, inl, inr,
}
use zhttp.Coroutine.Timer.{Timer}
use zhttp.Coroutine.Timer.Manager.{
  TimerManager, times, add_timer, get_next_timeout, list_expired_callbacks,
}
use zhttp.Coroutine.Timer.Manager.Validity.{IsValid, added, Step-IsValid}
use zhttp.Coroutine.Timer.Manager.Expiry.{Expired, list_expired_callbacks_lem}
use zhttp.Coroutine.Timer.Manager.Rollback.{list_expired_callbacks-none}
use zhttp.Coroutine.Timer.Manager.Waiting.{clamp_timeout, IsAwaited, get_next_timeout-IsAwaited}

-- At address 1 a timer that repeats every 50 ms, at address 2 one for the time 900.
abbrev objects : ℕ → Timer ℕ
objects a =
    if a == 1
    then record { next_time = 400; interval_ms = 50; recurring = true; callback = some 11 }
    else record { next_time = 900; interval_ms = 500; recurring = false; callback = some 12 }

abbrev two_timers : TimerManager ℕ
two_timers = record {
  is_ticked = false;
  timers = 1 ∷ 2 ∷ [];
  objects = objects;
  last_time = 4000000;
  has_on_inserted = true;
}

abbrev steady : TimerManager ℕ
steady = record two_timers { last_time = 300 }

two_timers-IsValid : IsValid two_timers
two_timers-IsValid = ((refl, tt), (tt, tt))

Step-IsValid_example : IsValid (add_timer 3 100 20 (some 13) false two_timers).1
Step-IsValid_example =
    Step-IsValid two_timers (add_timer 3 100 20 (some 13) false two_timers).1
      (added 3 100 20 (some 13) false ((λ e. omega (arith, e)), ((λ e. omega (arith, e)), tt)) refl)
      two_timers-IsValid

list_expired_callbacks_lem_example :
    Expired 410 (record steady { last_time = 410 }) [] (list_expired_callbacks 3 410 410 steady)
list_expired_callbacks_lem_example =
    list_expired_callbacks_lem 3 410 410 steady two_timers-IsValid (omega arith)
      (inr (omega arith, omega arith), tt) (omega arith)

list_expired_callbacks-none_example : list_expired_callbacks 1000 300 300 two_timers ≡ none
list_expired_callbacks-none_example =
    list_expired_callbacks-none 1000 300 300 1 two_timers (omega arith) (inl refl) refl

get_next_timeout-IsAwaited_example :
    let wait = clamp_timeout 0 (get_next_timeout 300 two_timers).0 in
    (1 ≤ wait)
    × (wait ≤ 5000)
    × All (λ a. IsAwaited 300 wait (times two_timers.objects a)) two_timers.timers
get_next_timeout-IsAwaited_example = get_next_timeout-IsAwaited 0 300 two_timers two_timers-IsValid
