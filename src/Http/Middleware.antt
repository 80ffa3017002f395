-- ===== src/Http/Middleware.antt =====
-- zhttp/include/middleware.h and zhttp/src/middleware.cc. A middleware is user code: its two methods change the
-- request, the response and whatever else they reach, which is the state `W`.
pub mod Onion
use zhttp.Prelude.{
  ℕ, zero, suc, Bool, true, false, List, [], ◌∷◌, ◌++◌, Option, none, some, get_elem?, length,
  if◌then◌else◌,
}

pub record Middleware (W : Type 0) : Type 0 where
  pub before : W → Bool × W
  pub after : W → W

pub record MiddlewareChain (W : Type 0) : Type 0 where
  pub middlewares : List (Middleware W)
  pub executed_count : ℕ

abbrev pub empty_chain : {W : Type 0} → MiddlewareChain W
empty_chain = record { middlewares = []; executed_count = 0 }

module _ {W : Type 0} where
  -- A null pointer is not added.
  unfoldable pub add : Option (Middleware W) → MiddlewareChain W → MiddlewareChain W
  add none c = c
  add (some m) c = record c { middlewares = c.middlewares ++ (m ∷ []) }

  -- The loop of `execute_before` from index i on: whether all passed, the count, the state.
  unfoldable pub before_loop : List (Middleware W) → ℕ → W → Bool × ℕ × W
  before_loop [] i w = (true, i, w)
  before_loop (m ∷ ms) i w =
      let rest = before_loop ms (suc i) (m.before w).1 in
      if (m.before w).0 then rest else (false, suc i, (m.before w).1)

  unfoldable pub execute_before : MiddlewareChain W → W → Bool × MiddlewareChain W × W
  execute_before c w =
      let (passed, count, w') = before_loop c.middlewares 0 w in
      (passed, record c { executed_count = count }, w')

  abbrev pub after_of : Option (Middleware W) → W → W
  after_of none w = w
  after_of (some m) w = m.after w

  -- The loop of `execute_after` with i rounds to go, over `middlewares_[i - 1]`.
  unfoldable pub after_loop : ℕ → List (Middleware W) → W → W
  after_loop zero ms w = w
  after_loop (suc i) ms w = after_loop i ms (after_of (get_elem? ms i) w)

  unfoldable pub execute_after : MiddlewareChain W → W → W
  execute_after c w = after_loop c.executed_count c.middlewares w
