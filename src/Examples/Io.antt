-- ===== src/Examples/Io.antt =====
-- The I/O scheduler over a small kernel, which has an entry for each watched descriptor and refuses descriptor 0.
use zhttp.Prelude.{
  ℕ, ◌+◌, ◌<◌, ◌≤◌, ◌≡◌, ◌≢◌, refl, true, false, ◌==◌, List, [], ◌∷◌, ◌++◌, Option, none, some,
  arith, if◌then◌else◌, length, pos, Bool-cases, inl, inr,
}
use zhttp.Coroutine.Io.FdContext.{Event, read, write, Events, has, FdContext, new_context}
use zhttp.Coroutine.Io.FdContext
use zhttp.Coroutine.Io.FdContext.Delivery.{cancel_all-cancel_event, trigger_event_lem}
use zhttp.Coroutine.Io.Table.{
  get, set_slot, empty_slots, expand_and_create, or_new, get_or_create, get_or_create_lem,
}
use zhttp.Coroutine.Io.Epoll.{ControlOp, ctl_add, ctl_mod, ctl_del, Kernel, update_epoll}
use zhttp.Coroutine.Io.Scheduler.{
  IoScheduler, register, add_event, cancel_all, trigger_event, dispatch,
}
use zhttp.Coroutine.Io.Scheduler.Validity.{IsValid}
use zhttp.Coroutine.Io.Scheduler.Removal.{registered, Call-IsValid}
use zhttp.Coroutine.Io.Scheduler.Waiters.{count, tasks_for, total}
use zhttp.Coroutine.Io.Scheduler.Owners.{AllFor}
use zhttp.Coroutine.Io.Thread.{IoThread, Environment, wait_events, io_round, Ends, io_round-Ends}
use zhttp.Coroutine.Io.Scheduler.Runs.{
  Request, add_waiter, cancel_both, is_ready, run, AllProper, run_served,
}

abbrev Entries : Type 0
Entries = ℕ → Option Events

abbrev with_entry : Entries → ℕ → Option Events → Entries
with_entry s fd r i = if fd == i then r else s i

-- The call, by what is watched for the descriptor.
abbrev control : ControlOp → ℕ → Events → Entries → Option Events → Option ℕ × Entries
control ctl_add fd es s (some old) = (some 17, s)
control ctl_add fd es s none = if fd == 0 then (some 1, s) else (none, with_entry s fd (some es))
control ctl_mod fd es s (some old) = (none, with_entry s fd (some es))
control ctl_mod fd es s none = (some 2, s)
control ctl_del fd es s (some old) = (none, with_entry s fd none)
control ctl_del fd es s none = (some 2, s)

entry_here : (s : Entries) (fd : ℕ) (r : Option Events) → with_entry s fd r fd ≡ r
entry_here s fd r = ground arith

entry_there :
    (s : Entries) (fd : ℕ) (r : Option Events) (i : ℕ) → fd ≢ i → with_entry s fd r i ≡ s i
entry_there s fd r i ne = ground arith

control_elsewhere :
    (op : ControlOp) (fd : ℕ) (es : Events) (s : Entries) (i : ℕ) (r : Option Events)
    → fd ≢ i
    → (control op fd es s r).1 i ≡ s i
control_elsewhere ctl_add fd es s i (some old) ne = refl
control_elsewhere ctl_add fd es s i none ne = elim (Bool-cases (fd == 0)) [
  | inl z ↦ rw z refl
  | inr n ↦ rw n (entry_there s fd (some es) i ne)
]
control_elsewhere ctl_mod fd es s i (some old) ne = entry_there s fd (some es) i ne
control_elsewhere ctl_mod fd es s i none ne = refl
control_elsewhere ctl_del fd es s i (some old) ne = entry_there s fd none i ne
control_elsewhere ctl_del fd es s i none ne = refl

control_failed :
    (op : ControlOp) (fd : ℕ) (es : Events) (s : Entries) (n : ℕ) (r : Option Events)
    → (control op fd es s r).0 ≡ some n
    → (control op fd es s r).1 fd ≡ s fd
control_failed ctl_add fd es s n (some old) h = refl
control_failed ctl_add fd es s n none h = elim (Bool-cases (fd == 0)) [
  | inl z ↦ rw z refl
  | inr nz ↦ absurd (cc (h, nz))
]
control_failed ctl_mod fd es s n (some old) h = absurd (cc)
control_failed ctl_mod fd es s n none h = refl
control_failed ctl_del fd es s n (some old) h = absurd (cc)
control_failed ctl_del fd es s n none h = refl

control_added :
    (fd : ℕ) (es : Events) (s : Entries) (r : Option Events)
    → (control ctl_add fd es s r).0 ≡ none
    → (control ctl_add fd es s r).1 fd ≡ some es
control_added fd es s (some old) h = absurd (cc)
control_added fd es s none h = elim (Bool-cases (fd == 0)) [
  | inl z ↦ absurd (cc (h, z))
  | inr nz ↦ rw nz (entry_here s fd (some es))
]

control_modified :
    (fd : ℕ) (es : Events) (s : Entries) (r : Option Events)
    → (control ctl_mod fd es s r).0 ≡ none
    → (control ctl_mod fd es s r).1 fd ≡ some es
control_modified fd es s (some old) h = entry_here s fd (some es)
control_modified fd es s none h = absurd (cc)

control_deleted :
    (fd : ℕ) (es : Events) (s : Entries) (r : Option Events)
    → (control ctl_del fd es s r).0 ≡ none
    → (control ctl_del fd es s r).1 fd ≡ none
control_deleted fd es s (some old) h = entry_here s fd none
control_deleted fd es s none h = absurd (cc)

abbrev small : Kernel
small = record {
  State = Entries;
  interest = λ s i. s i;
  epoll_ctl = λ op fd es s. control op fd es s (s fd);
  elsewhere = λ op fd es s i ne. control_elsewhere op fd es s i (s fd) ne;
  failed = λ op fd es s n h. control_failed op fd es s n (s fd) h;
  added = λ fd es s h. control_added fd es s (s fd) h;
  modified = λ fd es s h. control_modified fd es s (s fd) h;
  deleted = λ fd es s h. control_deleted fd es s (s fd) h;
}

-- A scheduler at address 5 that watches nothing, with callbacks and fibers that are numbers.
abbrev unwatched : IoScheduler Entries ℕ ℕ
unwatched = record { contexts = []; kernel = λ i. none; stopping = false }

unwatched-IsValid : IsValid small 5 unwatched
unfolding get
unwatched-IsValid i = (refl, tt)

-- A fiber waits to read and a callback to write, the peer hangs up, and another fiber waits and is canceled.
abbrev session : List (Request ℕ ℕ)
session =
    add_waiter 2 read none (some 70)
    ∷ add_waiter 2 write (some 80) none
    ∷ is_ready 2 (record { has_in = false; has_out = false; has_err = false; has_hup = true })
    ∷ add_waiter 2 read none (some 90)
    ∷ add_waiter 0 read none (some 95)
    ∷ cancel_both 2
    ∷ []

session-AllProper : AllProper small 5 session unwatched
unfolding get get_or_create expand_and_create set_slot empty_slots add_event dispatch trigger_event
    cancel_all update_epoll register FdContext.add_event FdContext.pop_event FdContext.cancel_all
    FdContext.del_event
session-AllProper =
    ((refl, refl), ((refl, refl), (refl, ((refl, refl), ((refl, refl), (refl, tt))))))

get_or_create_lem_example :
    let x = or_new {C = ℕ} {F = ℕ} 2 (get (pos 2) []) in
    let (r, ys) = get_or_create (pos 2) [] in
    (r ≡ some x)
    × (get (pos 2) ys ≡ some x)
    × (2 < length ys)
    × (0 ≤ length ys)
    × ((j : ℕ) → 2 ≢ j → get (pos j) ys ≡ get (pos j) [])
get_or_create_lem_example = get_or_create_lem 2 []

Call-IsValid_example : IsValid small 5 (add_event small 5 (pos 2) read none (some 70) unwatched).1
Call-IsValid_example =
    Call-IsValid small 5 unwatched (add_event small 5 (pos 2) read none (some 70) unwatched).1
      (registered 2 read none (some 70) refl) unwatched-IsValid

run_served_example :
    let end = run small 5 session unwatched in
    (count (λ t. true) (tasks_for 5 end.effects) + total (λ t. true) end.scheduler.contexts
      ≡ total (λ t. true) unwatched.contexts + count (λ t. true) end.taken)
    × AllFor 5 end.effects
run_served_example =
    run_served small (λ t. true) 5 session unwatched unwatched-IsValid session-AllProper

-- A context with a fiber that reads and a callback that writes, both of the scheduler at address 5.
abbrev busy : FdContext ℕ ℕ
busy = record {
  fd = 2;
  events = record { has_read = true; has_write = true };
  read_ctx = record { callback = none; fiber = some 70; scheduler = some 5 };
  write_ctx = record { callback = some 80; fiber = none; scheduler = some 5 };
}

cancel_all-cancel_event_example : FdContext.cancel_all busy ≡ (
    let (es, out, y) = FdContext.cancel_event read busy in
    let (es', out', z) = FdContext.cancel_event write y in (out ++ out', z))
cancel_all-cancel_event_example = cancel_all-cancel_event busy

trigger_event_lem_example :
    (has read (FdContext.trigger_event read busy).1.events ≡ false)
    × (FdContext.trigger_event read busy
        ≡ ((FdContext.cancel_event read busy).1, (FdContext.cancel_event read busy).2))
    × ((FdContext.pop_event read busy).1 ≡ (FdContext.cancel_event read busy).2)
    × ((FdContext.pop_event read busy).0.remaining_events ≡ (FdContext.cancel_event read busy).0)
    × ((FdContext.pop_event read busy).0.had_event ≡ true)
    × (FdContext.trigger_event read (FdContext.trigger_event read busy).1
        ≡ ([], (FdContext.trigger_event read busy).1))
trigger_event_lem_example = trigger_event_lem read busy

-- A thread with a timer that repeats every 50 ms; the wait is woken up and finds a hang-up.
abbrev thread : IoThread Entries ℕ ℕ
thread = record {
  scheduler = unwatched;
  timers = record {
    is_ticked = true;
    timers = 1 ∷ [];
    objects =
        λ a. record { next_time = 400; interval_ms = 50; recurring = true; callback = some 11 };
    last_time = 300;
    has_on_inserted = true;
  };
  idle_count = 3;
}

abbrev woken : Environment
woken = record {
  before_wait = 380;
  after_wait = 401;
  at_check = 401;
  waited = λ ms. wait_events (
      (none, record { has_in = true; has_out = false; has_err = false; has_hup = false })
      ∷ (some 2, record { has_in = false; has_out = false; has_err = false; has_hup = true })
      ∷ []);
}

io_round-Ends_example : Ends small 5 (io_round small 5 2 woken thread)
io_round-Ends_example =
    io_round-Ends small 5 2 woken thread (unwatched-IsValid, (tt, tt)) (omega arith)
      (inr (omega arith, omega arith), tt) (omega arith)
