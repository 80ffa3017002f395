-- ===== src/Coroutine/TaskQueue.antt =====
-- zcoroutine/src/scheduling/task_queue.cc. A push is two steps: the task is put into the queue under the lock, and counted
-- after it. A `pop` is any number of `try_pop`s and, after a wait, one more under the lock, where the counter
-- is not asked; waiting and waking up are left to the steps of the other threads.
pub mod Order
use zhttp.Prelude.{
  ℕ, zero, suc, ◌+◌, ◌%◌, Bool, true, false, List, [], ◌∷◌, ◌++◌, Option, none, some, ◌==◌,
  if◌then◌else◌,
}

abbrev pub size_mod : ℕ
size_mod = 18446744073709551616

pub record TaskQueue (T : Type 0) : Type 0 where
  pub tasks : List T
  pub size : ℕ
  pub stopped : Bool

module _ {T : Type 0} where
  unfoldable pub enqueue : T → TaskQueue T → TaskQueue T
  enqueue t q = record q { tasks = q.tasks ++ (t ∷ []) }

  unfoldable pub count_one : TaskQueue T → TaskQueue T
  count_one q = record q { size = (q.size + 1) % size_mod }

  abbrev pub taken_front : List T → TaskQueue T → Option T × TaskQueue T
  taken_front [] q = (none, q)
  taken_front (t ∷ ts) q =
      (some t, record q { tasks = ts; size = (q.size + 18446744073709551615) % size_mod })

  -- The end of `pop`, when its wait is over.
  unfoldable pub pop_waited : TaskQueue T → Option T × TaskQueue T
  pop_waited q = taken_front q.tasks q

  unfoldable pub try_pop : TaskQueue T → Option T × TaskQueue T
  try_pop q = if q.size == 0 then (none, q) else taken_front q.tasks q

  unfoldable pub stop : TaskQueue T → TaskQueue T
  stop q = record q { stopped = true }
