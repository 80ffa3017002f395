-- ===== src/Coroutine/Timer/Manager/Waiting.antt =====
-- How long the I/O thread of zcoroutine/src/io/io_scheduler.cc waits, from `get_next_timeout`.
use zhttp.Prelude.{
  ℕ, ◌+◌, ◌-◌, ◌%◌, ◌≤◌, ◌<◌, ◌≡◌, refl, sym, subst, List, [], ◌∷◌, arith, Bool-cases, inl, inr,
  ◌⊎◌, ltb, leb, if◌then◌else◌, All, All-map, ℤ, pos, negsuc, to_int, min,
}
use Prim.Native.Nat.{max}
use zhttp.Coroutine.Timer.Order.{IsSorted}
use zhttp.Coroutine.Timer.Manager.{TimerManager, times, first_timeout, get_next_timeout}
use zhttp.Coroutine.Timer.Manager.Validity.{IsValid}

-- `io_thread_func`: the timeout given to `epoll_wait`, in milliseconds.
unfoldable pub clamp_timeout : ℕ → ℤ → ℕ
clamp_timeout idle_count (negsuc n) = if ltb 10 idle_count then 5000 else 100
clamp_timeout idle_count (pos n) = max 1 (min n 5000)

to_int_wait :
    (idle d : ℕ)
    → 0 < d
    → (1 ≤ clamp_timeout idle (to_int d))
      × (clamp_timeout idle (to_int d) ≤ 5000)
      × (clamp_timeout idle (to_int d) ≤ d)
unfolding clamp_timeout to_int
to_int_wait idle d h = elim (Bool-cases (ltb (d % 4294967296) 2147483648)) [
  | inl small ↦ rw small (ground arith)
  | inr large ↦ rw large (ground arith)
]

due_wait : (idle : ℕ) → clamp_timeout idle (pos 0) ≡ 1
unfolding clamp_timeout
due_wait idle = refl

none_wait :
    (idle : ℕ) → (1 ≤ clamp_timeout idle (negsuc 0)) × (clamp_timeout idle (negsuc 0) ≤ 5000)
unfolding clamp_timeout
none_wait idle = ground arith

-- A timer that is due, or one that is not due before the wait ends.
abbrev pub IsAwaited : ℕ → ℕ → ℕ → Type 0
IsAwaited now wait next = (next ≤ now) ⊎ (now + wait ≤ next)

abbrev Waits : ℕ → (ℕ → ℕ) → List ℕ → ℕ → Type 0
Waits now k ts wait = (1 ≤ wait) × (wait ≤ 5000) × All (λ a. IsAwaited now wait (k a)) ts

All-of : (P : ℕ → Type 0) (bs : List ℕ) → ((b : ℕ) → P b) → All P bs
All-of P [] f = tt
All-of P (b ∷ bs) f = (f b, All-of P bs f)

one_wait : (now t : ℕ) → IsAwaited now 1 t
one_wait now t = ground arith

module _ {F : Type 0} where
  first_timeout-Waits :
      (idle now : ℕ) (m : TimerManager F) (ts : List ℕ)
      → IsSorted (times m.objects) ts
      → Waits now (times m.objects) ts (clamp_timeout idle (first_timeout now m ts))
  first_timeout-Waits idle now m [] s = let (a, b) = none_wait idle in (a, b, tt)
  first_timeout-Waits idle now m (a ∷ as') (first, s) =
      elim (Bool-cases (leb (times m.objects a) now)) [
        | inl due ↦
            let e : clamp_timeout idle (first_timeout now m (a ∷ as')) ≡ 1 =
              rw due (due_wait idle) in
            subst (Waits now (times m.objects) (a ∷ as')) (sym e) (
              omega arith,
              omega arith,
              All-of (λ b. IsAwaited now 1 (times m.objects b)) (a ∷ as')
                  (λ b. one_wait now (times m.objects b)),
            )
        | inr waits ↦
            let d : ℕ = times m.objects a - now in
            let e : clamp_timeout idle (first_timeout now m (a ∷ as'))
                ≡ clamp_timeout idle (to_int d) =
              rw waits refl in
            let (low, high, fits) = to_int_wait idle d (ground arith) in
            subst (Waits now (times m.objects) (a ∷ as')) (sym e) (
              low,
              high,
              (inr (ground (arith, fits)), All-map as' (λ b l. inr (ground (arith, fits))) first),
            )
      ]

  -- The I/O thread of a valid manager waits between 1 and 5000 milliseconds, and, although the time to the first timer is cast
  -- to `int`, never past the time of a timer that is not due yet.
  pub get_next_timeout-IsAwaited :
      (idle now : ℕ) (m : TimerManager F)
      → IsValid m
      → let wait = clamp_timeout idle (get_next_timeout now m).0 in
        (1 ≤ wait) × (wait ≤ 5000) × All (λ a. IsAwaited now wait (times m.objects a)) m.timers
  unfolding get_next_timeout
  get_next_timeout-IsAwaited idle now m s = first_timeout-Waits idle now m m.timers s
