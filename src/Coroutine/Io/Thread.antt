-- ===== src/Coroutine/Io/Thread.antt =====
-- One round of the I/O thread, `io_thread_func` of zcoroutine/src/io/io_scheduler.cc, where the timers and the I/O scheduler
-- meet. What `epoll_wait` reports and the times that are read are inputs.
use zhttp.Prelude.{
  ℕ, ◌+◌, ◌≡◌, refl, ap, false, ◌==◌, List, [], ◌∷◌, ◌++◌, Option, none, some, if◌then◌else◌, map,
  ◌<◌, ◌≤◌, All, length,
}
use zhttp.Coroutine.Timer.Manager.{TimerManager, get_next_timeout, list_expired_callbacks}
use zhttp.Coroutine.Timer.Manager.Due.{due, callbacks, IsPatient}
use zhttp.Coroutine.Timer.Manager.Expiry.{Expired, list_expired_callbacks_lem}
use zhttp.Coroutine.Timer.Manager.Validity
use zhttp.Coroutine.Timer.Manager.Waiting.{clamp_timeout}
use zhttp.Coroutine.Io.FdContext.{Effect, scheduled_callback}
use zhttp.Coroutine.Io.Epoll.{Kernel}
use zhttp.Coroutine.Io.Scheduler.{IoScheduler, Ready, dispatch}
use zhttp.Coroutine.Io.Scheduler.Validity.{IsValid}
use zhttp.Coroutine.Io.Scheduler.Removal.{dispatched, Call-IsValid}

-- What `epoll_wait` gives: an error number, or events, each for the descriptor of its context, or for the wake-up pipe.
pub data Waited : Type 0 where
  wait_failed : ℕ → Waited
  wait_events : List (Option ℕ × Ready) → Waited

-- `EpollPoller::wait`: an interrupted wait has no events, and other errors are -1.
abbrev pub poll_wait : Waited → Option (List (Option ℕ × Ready))
poll_wait (wait_failed errno) = if errno == 4 then some [] else none
poll_wait (wait_events es) = some es

pub record IoThread (S C F : Type 0) : Type 0 where
  pub scheduler : IoScheduler S C F
  pub timers : TimerManager C
  pub idle_count : ℕ

-- The inputs of a round: three readings of the clock, and what a wait of that many milliseconds reports.
pub record Environment : Type 0 where
  pub before_wait : ℕ
  pub after_wait : ℕ
  pub at_check : ℕ
  pub waited : ℕ → Waited

abbrev pub next_idle : ℕ → List (Option ℕ × Ready) → ℕ
next_idle idle [] = idle + 1
next_idle idle (e ∷ es) = 0

module _ (K : Kernel) {C F : Type 0} (self : ℕ) where
  unfoldable pub dispatch_all :
      List (Option ℕ × Ready)
      → IoScheduler K.State C F
      → List (Effect C F) × IoScheduler K.State C F
  dispatch_all [] m = ([], m)
  dispatch_all ((none, ready) ∷ es) m = dispatch_all es m
  dispatch_all ((some fd, ready) ∷ es) m =
      let (out, m') = dispatch K self fd ready m in
      let (out', m'') = dispatch_all es m' in (out ++ out', m'')

  abbrev pub with_expired :
      List (Effect C F)
      → IoScheduler K.State C F
      → ℕ
      → Option (List C × TimerManager C)
      → Option (List (Effect C F) × IoThread K.State C F)
  with_expired out m idle none = none
  with_expired out m idle (some (callbacks, timers)) = some (
    out ++ map (scheduled_callback self) callbacks,
    record { scheduler = m; timers = timers; idle_count = idle },
  )

  -- After an error of the wait the round starts again. `none` means that the fuel of the loop over timers ran out.
  abbrev pub after_wait_of :
      ℕ
      → Environment
      → IoThread K.State C F
      → Option (List (Option ℕ × Ready))
      → Option (List (Effect C F) × IoThread K.State C F)
  after_wait_of fuel env t none = some ([], t)
  after_wait_of fuel env t (some es) =
      let (out, m) = dispatch_all es t.scheduler in
      with_expired out m (next_idle t.idle_count es)
        (list_expired_callbacks fuel env.after_wait env.at_check t.timers)

  unfoldable pub io_round :
      ℕ → Environment → IoThread K.State C F → Option (List (Effect C F) × IoThread K.State C F)
  io_round fuel env t =
      let (timeout, timers) = get_next_timeout env.before_wait t.timers in
      after_wait_of fuel env (record t { timers = timers })
        (poll_wait (env.waited (clamp_timeout t.idle_count timeout)))

  -- The kernel watches the registered events, and the timers are in order.
  abbrev pub IsSound : IoThread K.State C F → Type 0
  IsSound t = IsValid K self t.scheduler × Validity.IsValid t.timers

  dispatch_all-IsValid :
      (es : List (Option ℕ × Ready)) (m : IoScheduler K.State C F)
      → IsValid K self m
      → IsValid K self (dispatch_all es m).1
  unfolding dispatch_all
  dispatch_all-IsValid [] m h = h
  dispatch_all-IsValid ((none, ready) ∷ es) m h = dispatch_all-IsValid es m h
  dispatch_all-IsValid ((some fd, ready) ∷ es) m h =
      let m' = (dispatch K self fd ready m).1 in
      dispatch_all-IsValid es m' (Call-IsValid K self m m' (dispatched fd ready refl) h)

  -- A round that ends, with everything sound.
  abbrev pub Ends : Option (List (Effect C F) × IoThread K.State C F) → Type 0
  Ends r =
      (out : List (Effect C F)) × (t' : IoThread K.State C F) × (r ≡ some (out, t')) × IsSound t'

  with_expired-Ends :
      (out : List (Effect C F)) (m : IoScheduler K.State C F) (idle now : ℕ) (ts : TimerManager C)
      (r : Option (List C × TimerManager C))
      → IsValid K self m
      → Expired now ts [] r
      → Ends (with_expired out m idle r)
  with_expired-Ends out m idle now ts r h x = (
    out ++ map (scheduled_callback self) (callbacks ts.objects (due now ts.objects ts.timers)),
    record { scheduler = m; timers = x.after; idle_count = idle },
    ap (with_expired out m idle) x.returned,
    (h, x.valid),
  )

  after_wait-Ends :
      (fuel : ℕ) (env : Environment) (t : IoThread K.State C F)
      (r : Option (List (Option ℕ × Ready)))
      → IsSound t
      → Expired env.after_wait
          (record t.timers { last_time = env.at_check })
          []
          (list_expired_callbacks fuel env.after_wait env.at_check t.timers)
      → Ends (after_wait_of fuel env t r)
  after_wait-Ends fuel env t none h x = ([], t, refl, h)
  after_wait-Ends fuel env t (some es) (h, k) x =
      with_expired-Ends (dispatch_all es t.scheduler).0 (dispatch_all es t.scheduler).1
        (next_idle t.idle_count es) env.after_wait (record t.timers { last_time = env.at_check })
        (list_expired_callbacks fuel env.after_wait env.at_check t.timers)
        (dispatch_all-IsValid es t.scheduler h) x

  -- Where the clock did not go back by more than an hour and no repeating timer that is due is due again at once, a round of the
  -- I/O thread ends, with one round of fuel for each timer that is due and one more, whatever events the wait
  -- reports or however it fails; and afterwards the kernel watches each descriptor at least for the events that its context has registered, and the set of
  -- timers is in its order, if they were before.
  pub io_round-Ends :
      (fuel : ℕ) (env : Environment) (t : IoThread K.State C F)
      → IsSound t
      → t.timers.last_time ≤ env.at_check + 3600000
      → All
          (λ a. IsPatient env.after_wait (t.timers.objects a))
          (due env.after_wait t.timers.objects t.timers.timers)
      → length (due env.after_wait t.timers.objects t.timers.timers) < fuel
      → Ends (io_round fuel env t)
  unfolding io_round get_next_timeout
  io_round-Ends fuel env t (h, k) near patient enough =
      let timers' = record t.timers { is_ticked = false } in
      after_wait-Ends fuel env (record t { timers = timers' })
        (poll_wait
          (env.waited (clamp_timeout t.idle_count (get_next_timeout env.before_wait t.timers).0)))
        (h, k)
        (list_expired_callbacks_lem fuel env.after_wait env.at_check timers' k near patient enough)
