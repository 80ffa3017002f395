-- ===== src/Coroutine/WorkStealing.antt =====
-- zcoroutine/include/scheduling/work_stealing_queue.h and zcoroutine/src/scheduling/work_stealing_queue.cc. A push is two
-- steps, since it links the task under the lock and counts it after the lock is released; a batch of pops and a swap are
-- one step each, since they hold the locks to their end. Of the bitmap, the queue sees the bit of its own worker.
pub mod Counting
pub mod Marks
use zhttp.Prelude.{
  ℕ, zero, suc, ◌+◌, ◌-◌, ◌%◌, ◌≡◌, Bool, true, false, not, ◌&&◌, ◌||◌, List, [], ◌∷◌, ◌++◌, length,
  take, drop, reverse, ltb, leb, ◌==◌, if◌then◌else◌,
}

-- The number of values of `size_t`.
abbrev pub size_mod : ℕ
size_mod = 18446744073709551616

-- `enabled` is a bitmap with a worker that is not negative.
pub record WorkStealingQueue (T : Type 0) : Type 0 where
  pub tasks : List T
  pub size : ℕ
  pub enabled : Bool
  pub bit : Bool
  pub high_watermark : ℕ
  pub low_watermark : ℕ
  pub bitmap_published : Bool

abbrev pub is_empty : {T : Type 0} → List T → Bool
is_empty [] = true
is_empty (t ∷ ts) = false

module _ {T : Type 0} where
  -- Whether the marks are such that the bitmap is used.
  abbrev pub has_marks : WorkStealingQueue T → Bool
  has_marks q =
      not (
        (q.high_watermark == 0) || ((q.low_watermark == 0) || leb q.high_watermark q.low_watermark))

  unfoldable pub maybe_update_bitmap : ℕ → WorkStealingQueue T → WorkStealingQueue T
  maybe_update_bitmap new_size q =
      if q.enabled && has_marks q
      then (if not q.bitmap_published && ltb q.high_watermark new_size
          then record q { bit = true; bitmap_published = true }
          else if q.bitmap_published && ltb new_size q.low_watermark
          then record q { bit = false; bitmap_published = false }
          else q)
      else q

  -- The first step of `push`, under the lock.
  unfoldable pub link : T → WorkStealingQueue T → WorkStealingQueue T
  link t q = record q { tasks = q.tasks ++ (t ∷ []) }

  -- The second step of `push`: `fetch_add` and the bitmap.
  unfoldable pub count : WorkStealingQueue T → WorkStealingQueue T
  count q = let n = (q.size + 1) % size_mod in maybe_update_bitmap n (record q { size = n })

  -- `fetch_sub` of a batch, and the bitmap.
  unfoldable pub uncount : ℕ → WorkStealingQueue T → WorkStealingQueue T
  uncount n q =
      let left = (q.size + (size_mod - n % size_mod)) % size_mod in
      if ltb 0 n then maybe_update_bitmap left (record q { size = left }) else q

  -- The loop takes tasks from the back while there are any and fewer than `max_count` are taken.
  unfoldable pub pop_batch : ℕ → WorkStealingQueue T → List T × WorkStealingQueue T
  pop_batch max_count q =
      let out = take max_count (reverse q.tasks) in
      (out, uncount (length out) (record q { tasks = reverse (drop max_count (reverse q.tasks)) }))

  -- The same from the front.
  unfoldable pub steal_batch : ℕ → WorkStealingQueue T → List T × WorkStealingQueue T
  steal_batch max_count q =
      let out = take max_count q.tasks in
      (out, uncount (length out) (record q { tasks = drop max_count q.tasks }))

  -- Two different queues: this one and the victim.
  unfoldable pub swap_if_empty :
      WorkStealingQueue T → WorkStealingQueue T → ℕ × WorkStealingQueue T × WorkStealingQueue T
  swap_if_empty q victim =
      if not (is_empty q.tasks) || is_empty victim.tasks then (0, q, victim) else (
        length victim.tasks,
        maybe_update_bitmap (length victim.tasks)
            (record q { tasks = victim.tasks; size = length victim.tasks }),
        maybe_update_bitmap 0 (record victim { tasks = []; size = 0 }),
      )
