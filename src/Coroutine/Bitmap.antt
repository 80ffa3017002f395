-- ===== src/Coroutine/Bitmap.antt =====
-- zcoroutine/src/scheduling/stealable_queue_bitmap.cc: which workers have tasks to steal. A 64-bit word is the function
-- from the positions below 64 to its bits, a mask the function that says which bits it keeps, and `-1` is `none`.
pub mod Search
pub mod Victims
pub mod Bits
use zhttp.Prelude.{
  ℕ, zero, suc, ◌+◌, ◌-◌, ◌*◌, ◌/◌, ◌%◌, Bool, true, false, not, ◌&&◌, ◌||◌, List, [], ◌∷◌, Option,
  none, some, ltb, leb, ◌==◌, if◌then◌else◌, get_elem?,
}

abbrev pub Word : Type 0
Word = ℕ → Bool

pub record StealableQueueBitmap : Type 0 where
  pub worker_count : ℕ
  pub words : List Word

-- The first position from one on, among as many as a number, with a true bit.
unfoldable pub first : Word → ℕ → ℕ → Option ℕ
first w zero i = none
first w (suc n) i = let rest = first w n (suc i) in if w i then some i else rest

-- `__builtin_ctzll` of a word that is not 0.
abbrev pub lowest_bit : Word → Option ℕ
lowest_bit w = first w 64 0

abbrev pub zero_word : Word
zero_word i = false

unfoldable pub zero_words : ℕ → List Word
zero_words zero = []
zero_words (suc n) = zero_word ∷ zero_words n

unfoldable pub new_bitmap : ℕ → StealableQueueBitmap
new_bitmap worker_count = record {
  worker_count = worker_count;
  words = zero_words ((worker_count + 63) / 64);
}

-- `words_[index]`, with no bits where there is no such word.
abbrev pub word_or_zero : Option Word → Word
word_or_zero none = zero_word
word_or_zero (some w) = w

abbrev pub word_at : List Word → ℕ → Word
word_at words i = word_or_zero (get_elem? words i)

unfoldable pub change_word : (Word → Word) → ℕ → List Word → List Word
change_word f i [] = []
change_word f zero (w ∷ ws) = f w ∷ ws
change_word f (suc i) (w ∷ ws) = w ∷ change_word f i ws

-- `fetch_or` and `fetch_and` with the mask of a worker.
abbrev pub with_bit : ℕ → Word → Word
with_bit k w i = w i || (i == k)

abbrev pub without_bit : ℕ → Word → Word
without_bit k w i = w i && not (i == k)

unfoldable pub set : ℕ → StealableQueueBitmap → StealableQueueBitmap
set worker_id b =
    if leb b.worker_count worker_id
    then b
    else record b { words = change_word (with_bit (worker_id % 64)) (worker_id / 64) b.words }

unfoldable pub clear : ℕ → StealableQueueBitmap → StealableQueueBitmap
clear worker_id b =
    if leb b.worker_count worker_id
    then b
    else record b { words = change_word (without_bit (worker_id % 64)) (worker_id / 64) b.words }

unfoldable pub test : ℕ → StealableQueueBitmap → Bool
test worker_id b =
    if leb b.worker_count worker_id
    then false
    else word_at b.words (worker_id / 64) (worker_id % 64)

abbrev pub is_found : Option ℕ → Bool
is_found none = false
is_found (some i) = true

-- A word is 0 where it has no lowest bit.
unfoldable pub any_word : List Word → Bool
any_word [] = false
any_word (w ∷ ws) = is_found (lowest_bit w) || any_word ws

unfoldable pub any : StealableQueueBitmap → Bool
any b = any_word b.words

-- The bits from the offset of a scan on, and in the word where the scan ends those up to its end.
abbrev pub masked : ℕ → ℕ → Word → Word
masked i last w j =
    leb (i % 64) j && ((if i / 64 == last / 64 then leb j (last % 64) else true) && w j)

-- The bits of a word without that of a worker.
abbrev pub except : ℕ → ℕ → Word → Word
except self_id index w = if self_id / 64 == index then without_bit (self_id % 64) w else w

abbrev pub inverted : Word → Word
inverted w j = not (w j)

-- The cast of a worker to `int` keeps it, since there are fewer than 2 ^ 31 workers.
abbrev pub worker_of : ℕ → ℕ → Option ℕ → Option ℕ → Option ℕ
worker_of worker_count index rest none = rest
worker_of worker_count index rest (some bit) =
    if ltb (index * 64 + bit) worker_count then some (index * 64 + bit) else none

-- The loop of both searches from a position on, over the words that the search looks at.
unfoldable pub scan : ℕ → ℕ → ℕ → (ℕ → Word) → ℕ → Option ℕ
scan zero worker_count to look i = none
scan (suc fuel) worker_count to look i =
    let rest = scan fuel worker_count to look ((i / 64 + 1) * 64) in
    if ltb i to
    then worker_of worker_count (i / 64) rest (lowest_bit (masked i (to - 1) (look (i / 64))))
    else none

-- The words of each search.
abbrev pub stealable_words : ℕ → StealableQueueBitmap → ℕ → Word
stealable_words self_id b index = except self_id index (word_at b.words index)

abbrev pub idle_words : StealableQueueBitmap → ℕ → Word
idle_words b index = inverted (word_at b.words index)

unfoldable pub find_in_range : ℕ → ℕ → ℕ → StealableQueueBitmap → Option ℕ
find_in_range from to self_id b =
    if leb to from then none else scan to b.worker_count to (stealable_words self_id b) from

unfoldable pub find_zero_in_range : ℕ → ℕ → StealableQueueBitmap → Option ℕ
find_zero_in_range from to b =
    if leb to from then none else scan to b.worker_count to (idle_words b) from

abbrev pub or_else : Option ℕ → Option ℕ → Option ℕ
or_else none rest = rest
or_else (some i) rest = some i

unfoldable pub find_non_stealable : ℕ → StealableQueueBitmap → Option ℕ
find_non_stealable start b =
    if b.worker_count == 0
    then none
    else or_else (find_zero_in_range (start % b.worker_count) b.worker_count b)
        (find_zero_in_range 0 (start % b.worker_count) b)

-- For a worker of a number that is not negative.
unfoldable pub find_victim : ℕ → StealableQueueBitmap → Option ℕ
find_victim self_id b =
    let start = (self_id + 1) % b.worker_count in
    if leb b.worker_count 1 || leb b.worker_count self_id
    then none
    else or_else (find_in_range start b.worker_count self_id b) (find_in_range 0 start self_id b)
