-- ===== src/Examples/Stacks.antt =====
-- A shared stack of 4 bytes at address 100, for the fibers 1 and 2, while fiber 3 has its own stack; and a small pool.
use zhttp.Prelude.{
  ℕ, zero, suc, ◌≡◌, refl, ap, sym, ◌∙◌, ◌||◌, ◌==◌, List, [], ◌∷◌, none, some, arith, Bytes,
  length, inr,
}
use zhttp.Net.Memory.{Malloc, segment}
use zhttp.Coroutine.SharedStack.{SharedContext, live, switch_to, Turn, turn, turns}
use zhttp.Coroutine.SharedStack.Switching.{IsStack}
use zhttp.Coroutine.SharedStack.Resuming.{running, resumed_stack}
use zhttp.Prelude.{◌⊎◌, true, false}
use zhttp.Coroutine.FiberPool.{Fiber, FiberPool, ThreadContext, terminated, get_fiber, return_fiber}
use zhttp.Coroutine.FiberPool.Reuse.{IsPooled, Answer, get_fiber_lem, return_fiber-IsPooled}

abbrev zeros : ℕ → Bytes
zeros zero = []
zeros (suc n) = 0 ∷ zeros n

length-zeros : (n : ℕ) → length (zeros n) ≡ n
length-zeros zero = refl
length-zeros (suc n) = ap (λ k. suc k) (length-zeros n)

some-zeros : (n : ℕ) (block : Bytes) → some (zeros n) ≡ some block → length block ≡ n
some-zeros n block h = ap length (sym (injected (zeros n) block h)) ∙ length-zeros n
  where
    injected : (b c : Bytes) → some b ≡ some c → b ≡ c
    injected b c e = cc

-- Memory without end.
abbrev plenty : Malloc
plenty = record { malloc = λ n. some (zeros n); malloc-length = some-zeros }

abbrev fresh : ℕ → SharedContext
fresh f = record {
  save_buffer = none;
  saved_stack_sp = 0;
  save_size = 0;
  save_buffer_capacity = 0;
  is_shared_stack = (f == 1) || (f == 2);
}

abbrev pointers : ℕ → ℕ
pointers f = 102

-- Fiber 1 left the bytes 1 2 3 4; fiber 3 gives the turn to fiber 2, which overwrites everything and switches back.
abbrev between : List Turn
between = record { target = 2; left = 9 ∷ 9 ∷ 9 ∷ 9 ∷ []; stack_pointer = 50 } ∷ []

abbrev last : Turn
last = record { target = 1; left = 8 ∷ 8 ∷ 8 ∷ 8 ∷ []; stack_pointer = 101 }

two_bytes : IsStack 100 4 plenty 1 102 (3 ∷ 4 ∷ [])
two_bytes = record { not_null = omega arith; low = omega arith; high = omega arith; all = refl }

resumed_stack_example :
    let away =
      switch_to 100 4 plenty 3
        (running 100 4 plenty 1 102 (3 ∷ 4 ∷ []) (1 ∷ 2 ∷ 3 ∷ 4 ∷ []) fresh pointers) in
    live 100 4 102 (turn 100 4 plenty last (turns 100 4 plenty between away)).bytes ≡ 3 ∷ 4 ∷ []
unfolding segment
resumed_stack_example =
    resumed_stack 100 4 plenty 1 102 (3 ∷ 4 ∷ []) 3 (1 ∷ 2 ∷ 3 ∷ 4 ∷ []) fresh pointers (zeros 16)
      between last two_bytes refl (inr refl) (λ e. omega (arith, e)) (omega arith) refl refl refl
      (((λ e. omega (arith, e)), omega arith), tt) refl (omega arith)

-- A pool of at most two fibers, one of which is free.
abbrev config : FiberPool
config = record {
  initialized = true;
  independent_stack_size = 4096;
  shared_stack_size = 8192;
  per_thread_max_capacity = 2;
}

abbrev ended : Fiber
ended = record { state = terminated; stack_size = 4096; is_shared_stack = false }

abbrev one_free : ThreadContext
one_free = record {
  independent_free = ended ∷ [];
  shared_free = [];
  is_shared_mode = false;
  shared_stack = none;
}

one_free-IsPooled : IsPooled config one_free
one_free-IsPooled = (((refl, refl, omega arith), tt), tt, inr (omega arith))

get_fiber_lem_example :
    Answer plenty config 5000 false (get_fiber plenty config 5000 false one_free)
get_fiber_lem_example = get_fiber_lem plenty config 5000 one_free (omega arith) one_free-IsPooled

return_fiber-IsPooled_example :
    IsPooled config (return_fiber config ended one_free).1
    × (((return_fiber config ended one_free).0 ≡ true)
        ⊎ ((return_fiber config ended one_free).1 ≡ one_free))
return_fiber-IsPooled_example = return_fiber-IsPooled config ended one_free one_free-IsPooled
