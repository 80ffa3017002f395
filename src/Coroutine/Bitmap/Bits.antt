-- ===== src/Coroutine/Bitmap/Bits.antt =====
-- The marks of zcoroutine/src/scheduling/stealable_queue_bitmap.cc.
use zhttp.Prelude.{
  ℕ, zero, suc, ◌+◌, ◌/◌, ◌%◌, ◌<◌, ◌≡◌, refl, ap, ◌∙◌, false, not, ◌&&◌, ◌||◌, List, [], ◌∷◌,
  Option, none, some, arith, ltb, leb, ◌==◌, if◌then◌else◌, Bool-cases, inl, inr, length,
}
use zhttp.Coroutine.Bitmap.{
  Word, StealableQueueBitmap, word_at, with_bit, without_bit, change_word, zero_words, new_bitmap,
  test, set, clear, is_found, any_word, any, lowest_bit,
}
use zhttp.Coroutine.Bitmap.Search.{first_missed}

-- The words are as many as the workers need.
abbrev pub IsSized : StealableQueueBitmap → Type 0
IsSized b = length b.words ≡ (b.worker_count + 63) / 64

word_at-change_word :
    (f : Word → Word) (i j : ℕ) (ws : List Word)
    → i < length ws
    → word_at (change_word f i ws) j ≡ (if i == j then f (word_at ws j) else word_at ws j)
unfolding change_word
word_at-change_word f i j [] h = absurd (omega arith)
word_at-change_word f zero zero (w ∷ ws) h = refl
word_at-change_word f zero (suc j) (w ∷ ws) h = ground arith
word_at-change_word f (suc i) zero (w ∷ ws) h = ground arith
word_at-change_word f (suc i) (suc j) (w ∷ ws) h =
    word_at-change_word f i j ws (omega arith) ∙ ground arith

length-change_word :
    (f : Word → Word) (i : ℕ) (ws : List Word) → length (change_word f i ws) ≡ length ws
unfolding change_word
length-change_word f i [] = refl
length-change_word f zero (w ∷ ws) = refl
length-change_word f (suc i) (w ∷ ws) = ap (λ n. suc n) (length-change_word f i ws)

length-zero_words : (n : ℕ) → length (zero_words n) ≡ n
unfolding zero_words
length-zero_words zero = refl
length-zero_words (suc n) = ap (λ k. suc k) (length-zero_words n)

changed_bit :
    (f : Word → Word) (j k : ℕ) (b : StealableQueueBitmap)
    → IsSized b
    → k < b.worker_count
    → word_at (change_word f (k / 64) b.words) (j / 64) (j % 64)
      ≡ (if k / 64 == j / 64 then f (word_at b.words (j / 64)) else word_at b.words (j / 64))
          (j % 64)
changed_bit f j k b h inside =
    ap (λ w. w (j % 64))
      (word_at-change_word f (k / 64) (j / 64) b.words (omega (arith, h, inside)))

test-set :
    (j k : ℕ) (b : StealableQueueBitmap)
    → IsSized b
    → test j (set k b) ≡ (test j b || ((j == k) && ltb j b.worker_count))
unfolding test set
test-set j k b h = elim (Bool-cases (leb b.worker_count k)) [
  | inl past ↦ rw past (ground arith)
  | inr inside ↦
      rw inside (rw (changed_bit (with_bit (k % 64)) j k b h (ground arith)) (ground arith))
]

test-clear :
    (j k : ℕ) (b : StealableQueueBitmap)
    → IsSized b
    → test j (clear k b) ≡ (test j b && not (j == k))
unfolding test clear
test-clear j k b h = elim (Bool-cases (leb b.worker_count k)) [
  | inl past ↦ rw past (ground arith)
  | inr inside ↦
      rw inside (rw (changed_bit (without_bit (k % 64)) j k b h (ground arith)) (ground arith))
]

set-IsSized : (k : ℕ) (b : StealableQueueBitmap) → IsSized b → IsSized (set k b)
unfolding set
set-IsSized k b h = elim (Bool-cases (leb b.worker_count k)) [
  | inl past ↦ rw past h
  | inr inside ↦ rw inside (length-change_word (with_bit (k % 64)) (k / 64) b.words ∙ h)
]

clear-IsSized : (k : ℕ) (b : StealableQueueBitmap) → IsSized b → IsSized (clear k b)
unfolding clear
clear-IsSized k b h = elim (Bool-cases (leb b.worker_count k)) [
  | inl past ↦ rw past h
  | inr inside ↦ rw inside (length-change_word (without_bit (k % 64)) (k / 64) b.words ∙ h)
]

pub new_bitmap-IsSized : (n : ℕ) → IsSized (new_bitmap n)
unfolding new_bitmap
new_bitmap-IsSized n = length-zero_words ((n + 63) / 64)

-- On a bitmap with as many words as its workers need: after a worker is marked, the marked workers are those of before and this
-- worker, if there is such a worker; after its mark is cleared, those of before except this worker; and
-- the number of words stays right.
pub test-set-clear :
    (j k : ℕ) (b : StealableQueueBitmap)
    → IsSized b
    → (test j (set k b) ≡ (test j b || ((j == k) && ltb j b.worker_count)))
      × (test j (clear k b) ≡ (test j b && not (j == k)))
      × IsSized (set k b)
      × IsSized (clear k b)
test-set-clear j k b h =
    (test-set j k b h, test-clear j k b h, set-IsSized k b h, clear-IsSized k b h)

found : (r : Option ℕ) → is_found r ≡ false → r ≡ none
found none h = refl
found (some i) h = absurd (cc)

word_at-any_word :
    (i j : ℕ) (ws : List Word) → j < 64 → any_word ws ≡ false → word_at ws i j ≡ false
unfolding any_word
word_at-any_word i j [] h none' = refl
word_at-any_word zero j (w ∷ ws) h none' =
    first_missed w 64 0 j (found (lowest_bit w) (ground (arith, none'))) (omega arith)
      (omega (arith, h))
word_at-any_word (suc i) j (w ∷ ws) h none' = word_at-any_word i j ws h (ground (arith, none'))

-- Where no word has a bit, no worker is marked.
pub any_none : (b : StealableQueueBitmap) (j : ℕ) → any b ≡ false → test j b ≡ false
unfolding any test
any_none b j h = elim (Bool-cases (leb b.worker_count j)) [
  | inl past ↦ rw past refl
  | inr inside ↦ rw inside (word_at-any_word (j / 64) (j % 64) b.words (omega arith) h)
]
