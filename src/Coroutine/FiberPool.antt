-- ===== src/Coroutine/FiberPool.antt =====
-- zcoroutine/src/runtime/fiber_pool.cc with the pool of a thread from zcoroutine/src/util/thread_context.cc. A fiber is its
-- state, the size of its stack and whether that is a shared one. An abort of the process, and an assertion that
-- fails, is the result `none`. The memory for a fiber's own stack comes from `StackAllocator::allocate`, which may
-- refuse it. A shared stack is its size: where its memory is refused, the code only writes to the log
-- and makes the fiber all the same.
pub mod Reuse
use zhttp.Prelude.{
  ℕ, ◌+◌, Bool, true, false, not, ◌&&◌, ◌||◌, List, [], ◌∷◌, Option, none, some, ltb, leb, ◌==◌,
  if◌then◌else◌, length, Bytes,
}
use mathlib.Core.Option
use zhttp.Net.Memory.{Malloc}
use zhttp.Coroutine.SharedStack.{allocate_stack}

pub data State : Type 0 where
  ready : State
  running : State
  suspended : State
  terminated : State

pub record Fiber : Type 0 where
  pub state : State
  pub stack_size : ℕ
  pub is_shared_stack : Bool

-- The configuration that all threads share.
pub record FiberPool : Type 0 where
  pub initialized : Bool
  pub independent_stack_size : ℕ
  pub shared_stack_size : ℕ
  pub per_thread_max_capacity : ℕ

-- The free fibers of a thread, the last one first, its stack mode, and the stack size of its shared stacks.
pub record ThreadContext : Type 0 where
  pub independent_free : List Fiber
  pub shared_free : List Fiber
  pub is_shared_mode : Bool
  pub shared_stack : Option ℕ

abbrev pub default_stack_size : ℕ
default_stack_size = 131072

abbrev pub is_terminated : State → Bool
is_terminated ready = false
is_terminated running = false
is_terminated suspended = false
is_terminated terminated = true

abbrev pub popped :
    List Fiber → (List Fiber → ThreadContext) → ThreadContext → Option Fiber × ThreadContext
popped [] put t = (none, t)
popped (f ∷ fs) put t = (some f, put fs)

unfoldable pub fiber_pool_pop : Bool → ThreadContext → Option Fiber × ThreadContext
fiber_pool_pop true t = popped t.shared_free (λ fs. record t { shared_free = fs }) t
fiber_pool_pop false t = popped t.independent_free (λ fs. record t { independent_free = fs }) t

abbrev pub pushed : Bool → Fiber → ThreadContext → ThreadContext
pushed true f t = record t { shared_free = f ∷ t.shared_free }
pushed false f t = record t { independent_free = f ∷ t.independent_free }

unfoldable pub fiber_pool_push : Fiber → ℕ → ThreadContext → Bool × ThreadContext
fiber_pool_push f capacity t =
    if ltb 0 capacity && leb capacity (length t.independent_free + length t.shared_free)
    then (false, t)
    else (true, pushed f.is_shared_stack f t)

-- In the shared mode the stacks of a thread are made when they are first asked for.
abbrev pub get_shared_stack : FiberPool → Bool → Option ℕ → Option ℕ
get_shared_stack c mode (some n) = some n
get_shared_stack c false none = none
get_shared_stack c true none =
    some (if c.initialized then c.shared_stack_size else default_stack_size)

-- The constructor aborts where the memory is refused.
abbrev pub on_own_stack : ℕ → Option Bytes → ThreadContext → Option (Fiber × ThreadContext)
on_own_stack size none t = none
on_own_stack size (some stack) t =
    some (record { state = ready; stack_size = size; is_shared_stack = false }, t)

abbrev pub on_shared_stack : Option ℕ → ThreadContext → Option (Fiber × ThreadContext)
on_shared_stack none t = none
on_shared_stack (some n) t = some (
  record { state = ready; stack_size = n; is_shared_stack = true },
  record t { shared_stack = some n },
)

-- The constructor of a fiber.
unfoldable pub make_fiber :
    Malloc → FiberPool → ℕ → Bool → ThreadContext → Option (Fiber × ThreadContext)
make_fiber a c size use_shared t =
    if use_shared || t.is_shared_mode
    then on_shared_stack (get_shared_stack c t.is_shared_mode t.shared_stack) t
    else on_own_stack size (allocate_stack a size) t

-- `Fiber::reset`.
unfoldable pub reset_fiber : Fiber → Option Fiber
reset_fiber f = if is_terminated f.state then some (record f { state = ready }) else none

abbrev pub supported_stack_size : FiberPool → Bool → ℕ
supported_stack_size c true = c.shared_stack_size
supported_stack_size c false = c.independent_stack_size

abbrev pub with_thread : ThreadContext → Option Fiber → Option (Fiber × ThreadContext)
with_thread t none = none
with_thread t (some f) = some (f, t)

abbrev pub reuse :
    Malloc → FiberPool → ℕ → Bool → Option Fiber → ThreadContext → Option (Fiber × ThreadContext)
reuse a c size shared (some f) t =
    if ltb f.stack_size size
    then make_fiber a c size shared (fiber_pool_push f c.per_thread_max_capacity t).1
    else with_thread t (reset_fiber f)
reuse a c size shared none t =
    let supported = supported_stack_size c shared in
    make_fiber a c (if leb size supported then supported else size) shared t

unfoldable pub get_fiber :
    Malloc → FiberPool → ℕ → Bool → ThreadContext → Option (Fiber × ThreadContext)
get_fiber a c size use_shared t =
    let shared = use_shared || t.is_shared_mode in
    let (f, t') = fiber_pool_pop shared t in
    if c.initialized then reuse a c size shared f t' else make_fiber a c size shared t

unfoldable pub return_fiber : FiberPool → Fiber → ThreadContext → Bool × ThreadContext
return_fiber c f t =
    if not c.initialized
      || (not (is_terminated f.state)
          || ltb f.stack_size (supported_stack_size c f.is_shared_stack))
    then (false, t)
    else fiber_pool_push f c.per_thread_max_capacity t
