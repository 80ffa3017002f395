-- ===== src/Coroutine/FiberPool/Reuse.antt =====
-- What the pool of zcoroutine/src/runtime/fiber_pool.cc holds and gives.
use zhttp.Prelude.{
  ℕ, ◌+◌, ◌<◌, ◌≤◌, ◌≡◌, refl, sym, subst, ◌∙◌, Bool, true, false, not, ◌&&◌, ◌||◌, List, [], ◌∷◌,
  Option, none, some, arith, ltb, leb, if◌then◌else◌, length, Bool-cases, inl, inr, ◌⊎◌, All,
  Option-cases,
}
use zhttp.Net.Memory.{Malloc}
use zhttp.Coroutine.SharedStack.{allocate_stack}
use zhttp.Coroutine.FiberPool.{
  ready, Fiber, FiberPool, ThreadContext, is_terminated, fiber_pool_pop, pushed, fiber_pool_push,
  make_fiber, reset_fiber, supported_stack_size, reuse, get_fiber, return_fiber, default_stack_size,
}

-- A fiber that has ended, on a stack of its kind that is large enough.
abbrev pub IsSpare : FiberPool → Bool → Fiber → Type 0
IsSpare c shared f =
    (is_terminated f.state ≡ true)
    × (f.is_shared_stack ≡ shared)
    × (supported_stack_size c shared ≤ f.stack_size)

-- The free fibers are spare ones, not more than the capacity, where one is set.
abbrev pub IsPooled : FiberPool → ThreadContext → Type 0
IsPooled c t =
    All (IsSpare c false) t.independent_free
    × All (IsSpare c true) t.shared_free
    × ((c.per_thread_max_capacity ≡ 0)
        ⊎ (length t.independent_free + length t.shared_free ≤ c.per_thread_max_capacity))

pushed-IsPooled :
    (c : FiberPool) (b : Bool) (f : Fiber) (t : ThreadContext)
    → IsSpare c b f
    → (ltb 0 c.per_thread_max_capacity
        && leb c.per_thread_max_capacity (length t.independent_free + length t.shared_free))
      ≡ false
    → IsPooled c t
    → IsPooled c (pushed b f t)
pushed-IsPooled c true f t s room (i, h, n) = (i, (s, h), ground arith)
pushed-IsPooled c false f t s room (i, h, n) = ((s, i), h, ground arith)

push-IsPooled :
    (c : FiberPool) (f : Fiber) (t : ThreadContext)
    → IsSpare c f.is_shared_stack f
    → IsPooled c t
    → IsPooled c (fiber_pool_push f c.per_thread_max_capacity t).1
unfolding fiber_pool_push
push-IsPooled c f t s h =
    elim (Bool-cases (
      ltb 0 c.per_thread_max_capacity
      && leb c.per_thread_max_capacity (length t.independent_free + length t.shared_free))) [
        | inl full ↦ rw full h
        | inr room ↦ rw room (pushed-IsPooled c f.is_shared_stack f t s room h)
      ]

push_result :
    (f : Fiber) (capacity : ℕ) (t : ThreadContext)
    → ((fiber_pool_push f capacity t).0 ≡ true) ⊎ ((fiber_pool_push f capacity t).1 ≡ t)
unfolding fiber_pool_push
push_result f capacity t =
    elim (Bool-cases
      (ltb 0 capacity && leb capacity (length t.independent_free + length t.shared_free))) [
        | inl full ↦ rw full (inr refl)
        | inr room ↦ rw room (inl refl)
      ]

-- Returning a fiber keeps the pool in order, whatever fiber is returned; and a fiber that is refused changes nothing.
pub return_fiber-IsPooled :
    (c : FiberPool) (f : Fiber) (t : ThreadContext)
    → IsPooled c t
    → IsPooled c (return_fiber c f t).1
      × (((return_fiber c f t).0 ≡ true) ⊎ ((return_fiber c f t).1 ≡ t))
unfolding return_fiber
return_fiber-IsPooled c f t h =
    elim (Bool-cases (
      not c.initialized
      || (not (is_terminated f.state)
          || ltb f.stack_size (supported_stack_size c f.is_shared_stack)))) [
            | inl refused ↦ rw refused (h, inr refl)
            | inr taken ↦
                rw taken
                  (push-IsPooled c f t (spare taken) h, push_result f c.per_thread_max_capacity t)
          ]
  where
    spare :
        (not c.initialized
            || (not (is_terminated f.state)
                || ltb f.stack_size (supported_stack_size c f.is_shared_stack)))
          ≡ false
        → IsSpare c f.is_shared_stack f
    spare taken = (ground (arith, taken), refl, ground (arith, taken))

-- What a request for a fiber of a size gives where it is served: a fiber that is ready, of the kind of the thread's mode, on its own stack
-- of at least that size or on a shared one; and the pool stays in order.
pub record Got (c : FiberPool) (size : ℕ) (mode : Bool) (r : Option (Fiber × ThreadContext))
    : Type 0 where
  pub fiber : Fiber
  pub after : ThreadContext
  pub returned : r ≡ some (fiber, after)
  pub is_ready : fiber.state ≡ ready
  pub kind : fiber.is_shared_stack ≡ mode
  pub enough : (mode ≡ true) ⊎ (size ≤ fiber.stack_size)
  pub in_order : IsPooled c after

-- Where it is not served, the fiber needs its own stack, and the memory for one of at least the size is refused.
abbrev pub IsRefused : Malloc → ℕ → Bool → Option (Fiber × ThreadContext) → Type 0
IsRefused a size mode r =
    (r ≡ none) × (mode ≡ false) × ((n : ℕ) × (size ≤ n) × (allocate_stack a n ≡ none))

abbrev pub Answer : Malloc → FiberPool → ℕ → Bool → Option (Fiber × ThreadContext) → Type 0
Answer a c size mode r = Got c size mode r ⊎ IsRefused a size mode r

-- A new fiber, of at least the size; the thread is given by its parts.
made :
    (a : Malloc) (c : FiberPool) (size size' : ℕ) (mode : Bool) (independent shared : List Fiber)
    (stack : Option ℕ)
    → 0 < size
    → size ≤ size'
    → let t : ThreadContext = record {
      independent_free = independent;
      shared_free = shared;
      is_shared_mode = mode;
      shared_stack = stack;
    } in
      IsPooled c t → Answer a c size mode (make_fiber a c size' mode t)
unfolding make_fiber
made a c size size' true independent shared (some n) h k p = inl (record {
  fiber = record { state = ready; stack_size = n; is_shared_stack = true };
  after = record {
    independent_free = independent;
    shared_free = shared;
    is_shared_mode = true;
    shared_stack = some n;
  };
  returned = refl;
  is_ready = refl;
  kind = refl;
  enough = inl refl;
  in_order = p;
})
made a c size size' true independent shared none h k p =
    let n = if c.initialized then c.shared_stack_size else default_stack_size in
    inl (record {
      fiber = record { state = ready; stack_size = n; is_shared_stack = true };
      after = record {
        independent_free = independent;
        shared_free = shared;
        is_shared_mode = true;
        shared_stack = some n;
      };
      returned = refl;
      is_ready = refl;
      kind = refl;
      enough = inl refl;
      in_order = p;
    })
made a c size size' false independent shared stack h k p =
    elim (Option-cases (allocate_stack a size')) [
      | inl refused ↦ rw refused (inr (refl, refl, (size', k, refused)))
      | inr (block, found) ↦ rw found (
          inl (record {
            fiber = record { state = ready; stack_size = size'; is_shared_stack = false };
            after = record {
              independent_free = independent;
              shared_free = shared;
              is_shared_mode = false;
              shared_stack = stack;
            };
            returned = refl;
            is_ready = refl;
            kind = refl;
            enough = inr k;
            in_order = p;
          }))
    ]

made_at :
    (a : Malloc) (c : FiberPool) (size size' : ℕ) (mode : Bool) (t : ThreadContext)
    → t.is_shared_mode ≡ mode
    → 0 < size
    → size ≤ size'
    → IsPooled c t
    → Answer a c size mode (make_fiber a c size' mode t)
made_at a c size size' mode t e h k p =
    subst (λ b. Answer a c size b (make_fiber a c size' b t)) e
      (made a c size size' t.is_shared_mode t.independent_free t.shared_free t.shared_stack h k p)

pushed_mode :
    (b : Bool) (f : Fiber) (t : ThreadContext) → (pushed b f t).is_shared_mode ≡ t.is_shared_mode
pushed_mode true f t = refl
pushed_mode false f t = refl

push_mode :
    (f : Fiber) (capacity : ℕ) (t : ThreadContext)
    → (fiber_pool_push f capacity t).1.is_shared_mode ≡ t.is_shared_mode
unfolding fiber_pool_push
push_mode f capacity t =
    elim (Bool-cases
      (ltb 0 capacity && leb capacity (length t.independent_free + length t.shared_free))) [
        | inl full ↦ rw full refl
        | inr room ↦ rw room (pushed_mode f.is_shared_stack f t)
      ]

-- A spare fiber is reset, or put back when its stack is too small.
reused :
    (a : Malloc) (c : FiberPool) (size : ℕ) (mode : Bool) (f : Fiber) (t : ThreadContext)
    → t.is_shared_mode ≡ mode
    → 0 < size
    → IsSpare c mode f
    → IsPooled c t
    → Answer a c size mode (reuse a c size mode (some f) t)
unfolding reset_fiber
reused a c size mode f t e h (ended, kind, large) p = elim (Bool-cases (ltb f.stack_size size)) [
  | inl small ↦ rw small (
      made_at a c size size mode (fiber_pool_push f c.per_thread_max_capacity t).1
        (push_mode f c.per_thread_max_capacity t ∙ e) h (omega arith)
        (push-IsPooled c f t (subst (λ b. IsSpare c b f) (sym kind) (ended, kind, large)) p))
  | inr fits ↦ rw fits (
      rw ended (
        inl (record {
          fiber = record f { state = ready };
          after = t;
          returned = refl;
          is_ready = refl;
          kind = kind;
          enough = inr (ground arith);
          in_order = p;
        })))
]

-- A new one, on a stack of at least the supported size.
renewed :
    (a : Malloc) (c : FiberPool) (size : ℕ) (mode : Bool) (t : ThreadContext)
    → t.is_shared_mode ≡ mode
    → 0 < size
    → IsPooled c t
    → Answer a c size mode (reuse a c size mode none t)
renewed a c size mode t e h p =
    let supported = supported_stack_size c mode in
    let n = if leb size supported then supported else size in
    let k : size ≤ n = ground arith in made_at a c size n mode t e h k p

got_parts :
    (a : Malloc) (c : FiberPool) (size : ℕ) (mode : Bool) (independent shared : List Fiber)
    (stack : Option ℕ)
    → 0 < size
    → let t : ThreadContext = record {
      independent_free = independent;
      shared_free = shared;
      is_shared_mode = mode;
      shared_stack = stack;
    } in
      IsPooled c t
      → Answer a c size mode (let (f, t') = fiber_pool_pop mode t in reuse a c size mode f t')
unfolding fiber_pool_pop
got_parts a c size true independent [] stack h p = renewed a c size true _ refl h p
got_parts a c size true independent (f ∷ fs) stack h (i, (s, q), n) =
    reused a c size true f _ refl h s
      (i, q, elim n [ inl z ↦ inl z | inr k ↦ inr (omega (arith, k)) ])
got_parts a c size false [] shared stack h p = renewed a c size false _ refl h p
got_parts a c size false (f ∷ fs) shared stack h ((s, i), q, n) =
    reused a c size false f _ refl h s
      (i, q, elim n [ inl z ↦ inl z | inr k ↦ inr (omega (arith, k)) ])

-- A request for a fiber of a size that is not 0, which does not insist on a shared stack, is served, and no fiber that is
-- reused fails the assertion that it has ended; or the process aborts, only because the thread is not in the shared mode and the
-- memory for a stack of at least the size is refused. The fiber is ready, of the kind of the thread's
-- mode, on its own stack of at least that size or on a shared one, whose memory is not checked; and the pool is in
-- order afterwards.
pub get_fiber_lem :
    (a : Malloc) (c : FiberPool) (size : ℕ) (t : ThreadContext)
    → 0 < size
    → IsPooled c t
    → Answer a c size t.is_shared_mode (get_fiber a c size false t)
unfolding get_fiber
get_fiber_lem a c size t h p =
    either c.initialized
      (got_parts a c size t.is_shared_mode t.independent_free t.shared_free t.shared_stack h p)
      (made_at a c size size t.is_shared_mode t refl h (omega arith) p)
  where
    either :
        {x y : Option (Fiber × ThreadContext)} (b : Bool)
        → Answer a c size t.is_shared_mode x
        → Answer a c size t.is_shared_mode y
        → Answer a c size t.is_shared_mode (if b then x else y)
    either true g g' = g
    either false g g' = g'
