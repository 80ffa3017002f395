-- ===== src/Examples/Bitmaps.antt =====
-- A bitmap of 70 workers, of which 3 and 68 are marked.
use zhttp.Prelude.{◌<◌, ◌≡◌, refl, not, ◌&&◌, ◌||◌, ◌==◌, ltb, some, arith}
use zhttp.Coroutine.Bitmap.{
  StealableQueueBitmap, zero_words, change_word, first, scan, find_in_range, new_bitmap, set, clear,
  test, find_victim, find_non_stealable,
}
use zhttp.Coroutine.Bitmap.Victims.{
  IsVictim, IsIdle, find_victim-IsVictim, find_non_stealable-IsIdle,
}
use zhttp.Coroutine.Bitmap.Bits.{IsSized, test-set-clear}

abbrev two_marked : StealableQueueBitmap
two_marked = set 68 (set 3 (new_bitmap 70))

two_marked-IsSized : IsSized two_marked
unfolding set new_bitmap zero_words change_word
two_marked-IsSized = refl

three_is_worker : 3 < two_marked.worker_count
unfolding set new_bitmap
three_is_worker = omega arith

find_victim-IsVictim_example : IsVictim two_marked 3 (find_victim 3 two_marked)
find_victim-IsVictim_example = find_victim-IsVictim two_marked 3 three_is_worker

find_non_stealable-IsIdle_example : IsIdle two_marked (find_non_stealable 3 two_marked)
find_non_stealable-IsIdle_example = find_non_stealable-IsIdle two_marked 3

test-set-clear_example :
    (test 68 (set 3 two_marked)
      ≡ (test 68 two_marked || ((68 == 3) && ltb 68 two_marked.worker_count)))
    × (test 68 (clear 3 two_marked) ≡ (test 68 two_marked && not (68 == 3)))
    × IsSized (set 3 two_marked)
    × IsSized (clear 3 two_marked)
test-set-clear_example = test-set-clear 68 3 two_marked two_marked-IsSized

-- Worker 3 steals from 68, worker 68 from 3.
victims : (find_victim 3 two_marked ≡ some 68) × (find_victim 68 two_marked ≡ some 3)
unfolding set new_bitmap zero_words change_word find_victim find_in_range scan first
victims = (refl, refl)
