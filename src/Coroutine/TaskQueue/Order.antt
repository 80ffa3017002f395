-- ===== src/Coroutine/TaskQueue/Order.antt =====
-- The tasks of zcoroutine/src/scheduling/task_queue.cc under the steps of several threads, in any order.
use zhttp.Prelude.{
  ℕ, zero, suc, ◌+◌, ◌%◌, ◌≡◌, refl, sym, ap, ◌∙◌, List, [], ◌∷◌, ◌++◌, append-nil, append_assoc,
  Option, none, some, ◌==◌, length, length-append, arith, Bool-cases, inl, inr,
}
use zhttp.Coroutine.TaskQueue.{
  size_mod, TaskQueue, enqueue, count_one, taken_front, pop_waited, try_pop, stop,
}

pub data Action (T : Type 0) : Type 0 where
  enqueued : T → Action T
  counted : Action T
  tried : Action T
  waited : Action T
  halted : Action T

-- A queue, the pushes between their two steps, and the tasks that were taken, the first one first.
pub record Progress (T : Type 0) : Type 0 where
  pub queue : TaskQueue T
  pub pending : ℕ
  pub taken : List T

module _ {T : Type 0} where
  abbrev got : Option T × TaskQueue T → Progress T → Progress T
  got (none, q) s = record s { queue = q }
  got (some t, q) s = record s { queue = q; taken = s.taken ++ (t ∷ []) }

  -- Nothing is counted that was not put into the queue.
  abbrev finished : ℕ → Progress T → Progress T
  finished zero s = s
  finished (suc n) s = record s { queue = count_one s.queue; pending = n }

  unfoldable pub act : Action T → Progress T → Progress T
  act (enqueued t) s = record s { queue = enqueue t s.queue; pending = suc s.pending }
  act counted s = finished s.pending s
  act tried s = got (try_pop s.queue) s
  act waited s = got (pop_waited s.queue) s
  act halted s = record s { queue = stop s.queue }

  unfoldable pub act_all : List (Action T) → Progress T → Progress T
  act_all [] s = s
  act_all (x ∷ xs) s = act_all xs (act x s)

  abbrev pub pushes : List (Action T) → List T
  pushes [] = []
  pushes (enqueued t ∷ xs) = t ∷ pushes xs
  pushes (counted ∷ xs) = pushes xs
  pushes (tried ∷ xs) = pushes xs
  pushes (waited ∷ xs) = pushes xs
  pushes (halted ∷ xs) = pushes xs

  -- The tasks that were taken and those that are still there.
  abbrev pub history : Progress T → List T
  history s = s.taken ++ s.queue.tasks

  abbrev pub IsCounted : Progress T → Type 0
  IsCounted s = (s.queue.size + s.pending) % size_mod ≡ length s.queue.tasks % size_mod

  taken_front_lem :
      (ts : List T) (s : Progress T)
      → s.queue.tasks ≡ ts
      → IsCounted s
      → (history (got (taken_front ts s.queue) s) ≡ history s)
        × IsCounted (got (taken_front ts s.queue) s)
  taken_front_lem [] s e h = (refl, h)
  taken_front_lem (t ∷ ts) s e h = (
    append_assoc s.taken (t ∷ []) ts ∙ ap (λ us. s.taken ++ us) (sym e),
    omega (arith, h, ap length e),
  )

  finished_lem :
      (n : ℕ) (s : Progress T)
      → s.pending ≡ n
      → IsCounted s
      → (history (finished n s) ≡ history s) × IsCounted (finished n s)
  unfolding count_one
  finished_lem zero s e h = (refl, h)
  finished_lem (suc n) s e h = (refl, omega (arith, h, e))

  act_lem :
      (x : Action T) (xs : List (Action T)) (s : Progress T)
      → IsCounted s
      → (history (act x s) ++ pushes xs ≡ history s ++ pushes (x ∷ xs)) × IsCounted (act x s)
  unfolding act enqueue count_one pop_waited try_pop stop
  act_lem (enqueued t) xs s h = (
    ap (λ us. us ++ pushes xs) (sym (append_assoc s.taken s.queue.tasks (t ∷ [])))
        ∙ append_assoc (history s) (t ∷ []) (pushes xs),
    omega (arith, h, length-append s.queue.tasks (t ∷ [])),
  )
  act_lem counted xs s h =
      let (a, b) = finished_lem s.pending s refl h in (ap (λ us. us ++ pushes xs) a, b)
  act_lem tried xs s h = elim (Bool-cases (s.queue.size == 0)) [
    | inl empty ↦ rw empty (refl, h)
    | inr more ↦
        let (a, b) = taken_front_lem s.queue.tasks s refl h in
        rw more (ap (λ us. us ++ pushes xs) a, b)
  ]
  act_lem waited xs s h =
      let (a, b) = taken_front_lem s.queue.tasks s refl h in (ap (λ us. us ++ pushes xs) a, b)
  act_lem halted xs s h = (refl, h)

  -- Whatever the threads do and in which order: the tasks that were taken, in the order in which they were taken, and then those
  -- in the queue are the ones taken before, those in the queue before, and those put into it since, in that order;
  -- and, as far as `size_t` can say, the counter and the pushes that are still to be counted make up the tasks
  -- in the queue, if they did so before.
  pub act_all-history :
      (xs : List (Action T)) (s : Progress T)
      → IsCounted s
      → (history (act_all xs s) ≡ history s ++ pushes xs) × IsCounted (act_all xs s)
  unfolding act_all
  act_all-history [] s h = (sym (append-nil (history s)), h)
  act_all-history (x ∷ xs) s h =
      let (now, counted') = act_lem x xs s h in
      let (later, counted'') = act_all-history xs (act x s) counted' in (later ∙ now, counted'')
