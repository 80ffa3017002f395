-- ===== src/Examples/Queues.antt =====
-- A queue of tasks at concrete inputs.
use zhttp.Prelude.{
  ℕ, ◌+◌, ◌%◌, ◌≡◌, refl, true, false, List, [], ◌∷◌, ◌++◌, length, reverse, min, ltb,
  if◌then◌else◌,
}
use zhttp.Coroutine.WorkStealing.{
  WorkStealingQueue, size_mod, maybe_update_bitmap, link, count, pop_batch, steal_batch,
  swap_if_empty,
}
use zhttp.Coroutine.WorkStealing.Counting.{
  Event, linked, counted, popped, stolen, run, run-IsCounted_empty, batches_lem, swap_in_push,
}
use zhttp.Coroutine.WorkStealing.Marks.{maybe_update_bitmap_lem}
use zhttp.Prelude.{false}
use zhttp.Coroutine.TaskQueue.Order.{
  Action, enqueued, tried, waited, Progress, history, act_all, IsCounted, act_all-history,
}
use zhttp.Coroutine.TaskQueue.Order

abbrev idle : WorkStealingQueue ℕ
idle = record {
  tasks = [];
  size = 0;
  enabled = true;
  bit = false;
  high_watermark = 4;
  low_watermark = 2;
  bitmap_published = false;
}

abbrev three_tasks : WorkStealingQueue ℕ
three_tasks = record idle { tasks = 7 ∷ 8 ∷ 9 ∷ []; size = 3 }

-- A thief takes the first task before it is counted.
abbrev early_thief : List (Event ℕ)
early_thief = linked 7 ∷ stolen 1 ∷ linked 8 ∷ counted ∷ counted ∷ popped 2 ∷ []

run-IsCounted_empty_example :
    let s = run early_thief (record { queue = idle; pending = 0 }) in
    (s.queue.size + s.pending) % size_mod ≡ length s.queue.tasks % size_mod
run-IsCounted_empty_example = run-IsCounted_empty early_thief idle refl refl

batches_lem_example :
    ((steal_batch 2 three_tasks).0 ++ (steal_batch 2 three_tasks).1.tasks ≡ 7 ∷ 8 ∷ 9 ∷ [])
    × ((pop_batch 2 three_tasks).1.tasks ++ reverse (pop_batch 2 three_tasks).0 ≡ 7 ∷ 8 ∷ 9 ∷ [])
    × (length (steal_batch 2 three_tasks).0 ≡ min 2 3)
    × (length (pop_batch 2 three_tasks).0 ≡ min 2 3)
batches_lem_example = batches_lem 2 three_tasks

swap_in_push_example :
    let (n, q', v') = swap_if_empty idle (link 7 idle) in
    (q'.tasks ≡ 7 ∷ []) × ((count v').tasks ≡ []) × ((count v').size ≡ 1)
swap_in_push_example = swap_in_push 7 idle idle refl refl

maybe_update_bitmap_lem_example :
    ((maybe_update_bitmap 5 idle).bit
      ≡ (if ltb 4 5 then true else if ltb 5 2 then false else false))
    × ((maybe_update_bitmap 5 idle).bitmap_published ≡ (maybe_update_bitmap 5 idle).bit)
maybe_update_bitmap_lem_example = maybe_update_bitmap_lem 5 idle refl refl refl

-- A task is taken before it is counted, and another one is left.
abbrev hurried : List (Action ℕ)
hurried = enqueued 7 ∷ waited ∷ Order.counted ∷ enqueued 8 ∷ tried ∷ []

abbrev empty_queue : Progress ℕ
empty_queue = record {
  queue = record { tasks = []; size = 0; stopped = false };
  pending = 0;
  taken = [];
}

act_all-history_example :
    (history (act_all hurried empty_queue) ≡ 7 ∷ 8 ∷ []) × IsCounted (act_all hurried empty_queue)
act_all-history_example = act_all-history hurried empty_queue refl
