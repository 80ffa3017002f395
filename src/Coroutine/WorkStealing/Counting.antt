-- ===== src/Coroutine/WorkStealing/Counting.antt =====
-- `size_` of zcoroutine/src/scheduling/work_stealing_queue.cc against the tasks, when pushes and batches of several threads interleave.
use zhttp.Prelude.{
  ℕ, zero, suc, ◌+◌, ◌-◌, ◌%◌, ◌≡◌, refl, ap, sym, ◌∙◌, not, ◌&&◌, List, [], ◌∷◌, ◌++◌, length,
  take, drop, reverse, length-append, length-take, length-drop, take-append-drop, arith, Bool-cases,
  inl, inr, ltb, min,
}
use mathlib.Core.List.{reverse-cons, reverse-append, reverse-reverse}
use zhttp.Coroutine.WorkStealing.{
  WorkStealingQueue, size_mod, maybe_update_bitmap, link, count, uncount, pop_batch, steal_batch,
  swap_if_empty, has_marks,
}

length-reverse : {T : Type 0} (ts : List T) → length (reverse ts) ≡ length ts
length-reverse [] = refl
length-reverse (t ∷ ts) =
    rw (reverse-cons t ts) (omega (arith, length-append (reverse ts) (t ∷ []), length-reverse ts))

-- One step of some thread: a push is its two halves.
pub data Event (T : Type 0) : Type 0 where
  linked : T → Event T
  counted : Event T
  popped stolen : ℕ → Event T

-- A queue with the number of pushes between their halves.
pub record Shared (T : Type 0) : Type 0 where
  pub queue : WorkStealingQueue T
  pub pending : ℕ

module _ {T : Type 0} where
  -- No thread counts a task that was not linked.
  abbrev finish_push : ℕ → WorkStealingQueue T → Shared T
  finish_push zero q = record { queue = q; pending = zero }
  finish_push (suc n) q = record { queue = count q; pending = n }

  unfoldable pub step : Event T → Shared T → Shared T
  step (linked t) s = record { queue = link t s.queue; pending = suc s.pending }
  step counted s = finish_push s.pending s.queue
  step (popped n) s = record { queue = (pop_batch n s.queue).1; pending = s.pending }
  step (stolen n) s = record { queue = (steal_batch n s.queue).1; pending = s.pending }

  unfoldable pub run : List (Event T) → Shared T → Shared T
  run [] s = s
  run (e ∷ es) s = run es (step e s)

  -- The counter and the pushes that are still to count make up the tasks, as far as `size_t` can say.
  abbrev pub IsCounted : Shared T → Type 0
  IsCounted s = (s.queue.size + s.pending) % size_mod ≡ length s.queue.tasks % size_mod

  update-tasks :
      (n : ℕ) (q : WorkStealingQueue T)
      → ((maybe_update_bitmap n q).tasks ≡ q.tasks) × ((maybe_update_bitmap n q).size ≡ q.size)
  unfolding maybe_update_bitmap
  update-tasks n q = elim (Bool-cases (q.enabled && has_marks q)) [
    | inr off ↦ rw off (refl, refl)
    | inl on ↦ rw on (elim (Bool-cases (not q.bitmap_published && ltb q.high_watermark n)) [
      | inl up ↦ rw up (refl, refl)
      | inr still ↦ rw still (elim (Bool-cases (q.bitmap_published && ltb n q.low_watermark)) [
        | inl down ↦ rw down (refl, refl)
        | inr same ↦ rw same (refl, refl)
      ])
    ])
  ]

  uncount-tasks :
      (n : ℕ) (q : WorkStealingQueue T)
      → ((uncount n q).tasks ≡ q.tasks)
        × ((uncount n q).size % size_mod ≡ (q.size + (size_mod - n % size_mod)) % size_mod)
  unfolding uncount
  uncount-tasks zero q = (refl, omega arith)
  uncount-tasks (suc n) q =
      let left : ℕ = (q.size + (size_mod - suc n % size_mod)) % size_mod in
      let (same, sized) = update-tasks left (record q { size = left }) in
      let again : left % size_mod ≡ left = omega arith in
      elim (Bool-cases (ltb 0 (suc n))) [
        | inl some_taken ↦ rw some_taken (same, ap (λ x. x % size_mod) sized ∙ again)
        | inr none_taken ↦ absurd (ground arith)
      ]

  count-tasks :
      (q : WorkStealingQueue T)
      → ((count q).tasks ≡ q.tasks) × ((count q).size ≡ (q.size + 1) % size_mod)
  unfolding count
  count-tasks q =
      update-tasks ((q.size + 1) % size_mod) (record q { size = (q.size + 1) % size_mod })

  -- Taking a batch off the tasks and off the counter.
  batch-IsCounted :
      (n p : ℕ) (ts : List T) (q : WorkStealingQueue T)
      → length ts ≡ length q.tasks + n
      → (q.size + p) % size_mod ≡ length ts % size_mod
      → ((uncount n q).size + p) % size_mod ≡ length (uncount n q).tasks % size_mod
  batch-IsCounted n p ts q shorter h =
      let (same, sized) = uncount-tasks n q in
      let kept : length (uncount n q).tasks ≡ length q.tasks = ap length same in
      omega (arith, shorter, h, sized, kept)

  steal-shorter : (n : ℕ) (ts : List T) → length ts ≡ length (drop n ts) + length (take n ts)
  steal-shorter n ts = omega (arith, length-take n ts, length-drop n ts)

  pop-shorter :
      (n : ℕ) (ts : List T)
      → length ts ≡ length (reverse (drop n (reverse ts))) + length (take n (reverse ts))
  pop-shorter n ts =
      omega (
        arith,
        length-reverse ts,
        length-reverse (drop n (reverse ts)),
        steal-shorter n (reverse ts),
      )

  -- Every step of every thread keeps the counter and the unfinished pushes equal to the number of tasks,
  -- modulo 2 ^ 64.
  step-IsCounted : (e : Event T) (s : Shared T) → IsCounted s → IsCounted (step e s)
  unfolding step link pop_batch steal_batch
  step-IsCounted (linked t) s h = omega (arith, h, length-append s.queue.tasks (t ∷ []))
  step-IsCounted counted s h = finished s.pending s.queue h
    where
      finished :
          (p : ℕ) (q : WorkStealingQueue T)
          → (q.size + p) % size_mod ≡ length q.tasks % size_mod
          → IsCounted (finish_push p q)
      finished zero q k = k
      finished (suc p) q k =
          let (same, sized) = count-tasks q in
          let kept : length (count q).tasks ≡ length q.tasks = ap length same in
          omega (arith, k, sized, kept)
  step-IsCounted (popped n) s h =
      batch-IsCounted (length (take n (reverse s.queue.tasks))) s.pending s.queue.tasks _
        (pop-shorter n s.queue.tasks) h
  step-IsCounted (stolen n) s h =
      batch-IsCounted (length (take n s.queue.tasks)) s.pending s.queue.tasks _
        (steal-shorter n s.queue.tasks) h

  run-IsCounted : (es : List (Event T)) (s : Shared T) → IsCounted s → IsCounted (run es s)
  unfolding run
  run-IsCounted [] s h = h
  run-IsCounted (e ∷ es) s h = run-IsCounted es (step e s) (step-IsCounted e s h)

-- However pushes, pops and steals of any threads interleave from an empty queue, the counter and the
-- pushes that are still to be counted add up to the number of tasks modulo 2 ^ 64.
pub run-IsCounted_empty :
    {T : Type 0} (es : List (Event T)) (q : WorkStealingQueue T)
    → q.tasks ≡ []
    → q.size ≡ 0
    → let s = run es (record { queue = q; pending = 0 }) in
      (s.queue.size + s.pending) % size_mod ≡ length s.queue.tasks % size_mod
run-IsCounted_empty es q e h =
    run-IsCounted es (record { queue = q; pending = 0 }) (omega (arith, h, ap length e))

-- A batch of a thief is taken from the front in order, and one of the owner from the back in reverse; the
-- other tasks stay in their order.
pub batches_lem :
    {T : Type 0} (n : ℕ) (q : WorkStealingQueue T)
    → ((steal_batch n q).0 ++ (steal_batch n q).1.tasks ≡ q.tasks)
      × ((pop_batch n q).1.tasks ++ reverse (pop_batch n q).0 ≡ q.tasks)
      × (length (steal_batch n q).0 ≡ min n (length q.tasks))
      × (length (pop_batch n q).0 ≡ min n (length q.tasks))
unfolding steal_batch pop_batch
batches_lem n q =
    let front = take n q.tasks in
    let back = take n (reverse q.tasks) in
    let left = drop n (reverse q.tasks) in
    (
      ap (λ ts. front ++ ts) (uncount-tasks (length front) (record q { tasks = drop n q.tasks })).0
          ∙ take-append-drop n q.tasks,
      ap (λ ts. ts ++ reverse back)
            (uncount-tasks (length back) (record q { tasks = reverse left })).0
          ∙ (sym (reverse-append back left)
              ∙ (ap reverse (take-append-drop n (reverse q.tasks)) ∙ reverse-reverse q.tasks)),
      length-take n q.tasks,
      length-take n (reverse q.tasks) ∙ ap (min n) (length-reverse q.tasks),
    )

-- If a push has linked its task to an idle queue but not yet counted it, and an idle thief swaps with that
-- queue in between, then the queue ends with no task and a counter of one.
pub swap_in_push :
    {T : Type 0} (t : T) (q v : WorkStealingQueue T)
    → q.tasks ≡ []
    → v.tasks ≡ []
    → let (n, q', v') = swap_if_empty q (link t v) in
      (q'.tasks ≡ t ∷ []) × ((count v').tasks ≡ []) × ((count v').size ≡ 1)
unfolding swap_if_empty link
swap_in_push t q v e h =
    rw (e, h)
      (let swapped : WorkStealingQueue _ =
          maybe_update_bitmap 0 (record v { tasks = []; size = 0 }) in
        let (same, sized) = update-tasks 0 (record v { tasks = []; size = 0 }) in
        let (same', sized') = count-tasks swapped in
        (
          (update-tasks 1 (record q { tasks = t ∷ []; size = 1 })).0,
          same' ∙ same,
          sized' ∙ ap (λ n. (n + 1) % size_mod) sized,
        ))
