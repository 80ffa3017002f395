-- ===== src/Http/Middleware/Onion.antt =====
-- zhttp/src/middleware.cc around a handler, against a meaning by nesting.
use zhttp.Prelude.{
  ℕ, zero, suc, ◌≡◌, refl, ◌∙◌, Bool, List, [], ◌∷◌, some, get_elem?, drop, Bool-cases, inl, inr,
  if◌then◌else◌,
}
use zhttp.Http.Middleware.{
  Middleware, MiddlewareChain, before_loop, execute_before, after_loop, execute_after,
}

module _ {W : Type 0} where
  -- The chain around a handler, as `Router::route` drives it.
  unfoldable pub run_chain : MiddlewareChain W → (W → W) → W → W
  run_chain c handle w =
      let (passed, c', w') = execute_before c w in
      execute_after c' (if passed then handle w' else w')

  -- The same by nesting: a layer that passes encloses the next, one that refuses encloses nothing,
  -- and either runs its `after` on the way out.
  unfoldable pub onion : List (Middleware W) → (W → W) → W → W
  onion [] handle w = handle w
  onion (m ∷ ms) handle w =
      let w' = (m.before w).1 in
      let inner = onion ms handle w' in m.after (if (m.before w).0 then inner else w')

  get_elem?-drop :
      (i : ℕ) (ms rest : List (Middleware W)) (m : Middleware W)
      → drop i ms ≡ m ∷ rest
      → (get_elem? ms i ≡ some m) × (drop (suc i) ms ≡ rest)
  get_elem?-drop zero [] rest m e = (cc, cc)
  get_elem?-drop zero (x ∷ ms) rest m e = (cc, cc)
  get_elem?-drop (suc i) [] rest m e = (cc, cc)
  get_elem?-drop (suc i) (x ∷ ms) rest m e = get_elem?-drop i ms rest m e

  abbrev finish : List (Middleware W) → (W → W) → Bool × ℕ × W → W
  finish ms handle (passed, n, w) = after_loop n ms (if passed then handle w else w)

  after_loop-step :
      (i : ℕ) (ms : List (Middleware W)) (m : Middleware W) (w : W)
      → get_elem? ms i ≡ some m
      → after_loop (suc i) ms w ≡ after_loop i ms (m.after w)
  unfolding after_loop
  after_loop-step i ms m w e = rw e refl

  finish-onion :
      (handle : W → W) (ms rest : List (Middleware W)) (i : ℕ) (w : W)
      → drop i ms ≡ rest
      → finish ms handle (before_loop rest i w) ≡ after_loop i ms (onion rest handle w)
  unfolding before_loop onion
  finish-onion handle ms [] i w e = refl
  finish-onion handle ms (m ∷ rest) i w e =
      let (here, later) = get_elem?-drop i ms rest m e in
      elim (Bool-cases (m.before w).0) [
        | inl passed ↦ rw passed (
            finish-onion handle ms rest (suc i) (m.before w).1 later
            ∙ after_loop-step i ms m (onion rest handle (m.before w).1) here)
        | inr refused ↦ rw refused (after_loop-step i ms m (m.before w).1 here)
      ]

  -- Running a chain with its counter is running its middlewares as nested layers around the handler: a layer
  -- that passes encloses the next, one that refuses encloses nothing, and either runs its `after` last.
  pub run_chain-onion :
      (c : MiddlewareChain W) (handle : W → W) (w : W)
      → run_chain c handle w ≡ onion c.middlewares handle w
  unfolding run_chain execute_before execute_after
  run_chain-onion c handle w =
      finish-onion handle c.middlewares c.middlewares 0 w refl ∙ after_loop-zero _
    where
      after_loop-zero : (v : W) → after_loop 0 c.middlewares v ≡ v
      after_loop-zero v = (unfold after_loop in refl)
