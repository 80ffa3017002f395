-- ===== src/Coroutine/Bitmap/Victims.antt =====
-- What the searches of zcoroutine/src/scheduling/stealable_queue_bitmap.cc find.
use zhttp.Prelude.{
  ℕ, ◌+◌, ◌-◌, ◌%◌, ◌<◌, ◌≤◌, ◌≡◌, ◌≢◌, refl, sym, ◌∙◌, Bool, true, false, not, ◌&&◌, Option, none,
  some, arith, ltb, leb, ◌==◌, Bool-cases, inl, inr, ◌⊎◌,
}
use native.Mathlib.Nat.{mod-lt}
use zhttp.Coroutine.Bitmap.{
  first, StealableQueueBitmap, stealable_words, idle_words, find_in_range, find_zero_in_range,
  or_else, find_non_stealable, find_victim, test,
}
use zhttp.Coroutine.Bitmap.Search.{bit_of, scan-first, first_found, first_missed}

module _ (b : StealableQueueBitmap) where
  -- A worker that the search for a victim takes, and the worker that the other search takes.
  abbrev pub is_victim : ℕ → ℕ → Bool
  is_victim self_id i = test i b && not (i == self_id)

  stealable_bit :
      (self_id i : ℕ)
      → i < b.worker_count
      → bit_of (stealable_words self_id b) i ≡ is_victim self_id i
  unfolding test
  stealable_bit self_id i h = ground arith

  idle_bit : (i : ℕ) → i < b.worker_count → bit_of (idle_words b) i ≡ not (test i b)
  unfolding test
  idle_bit i h = ground arith

  -- What a search in a range gives.
  abbrev Found : (ℕ → Bool) → ℕ → ℕ → Option ℕ → Type 0
  Found P from to none = (i : ℕ) → ((i < from) ⊎ (to ≤ i)) ⊎ (P i ≡ false)
  Found P from to (some v) = (from ≤ v) × (v < to) × (P v ≡ true)

  first-Found :
      (w P : ℕ → Bool) (from to : ℕ) (r : Option ℕ)
      → ((i : ℕ) → i < to → w i ≡ P i)
      → first w (to - from) from ≡ r
      → Found P from to r
  first-Found w P from to none same h = λ i. elim (Bool-cases (ltb i from)) [
    | inl before ↦ inl (inl (ground arith))
    | inr there ↦ elim (Bool-cases (leb to i)) [
      | inl behind ↦ inl (inr (ground arith))
      | inr inside ↦ inr (
          sym (same i (ground arith))
          ∙ first_missed w (to - from) from i h (ground arith) (ground arith))
    ]
  ]
  first-Found w P from to (some v) same h =
      let (bit, low, high) = first_found w (to - from) from v h in
      let inside : v < to = omega (arith, low, high) in (low, inside, sym (same v inside) ∙ bit)

  find_in_range-Found :
      (from to self_id : ℕ)
      → to ≤ b.worker_count
      → Found (is_victim self_id) from to (find_in_range from to self_id b)
  unfolding find_in_range
  find_in_range-Found from to self_id h = elim (Bool-cases (leb to from)) [
    | inl empty ↦ rw empty (λ i. elim (Bool-cases (ltb i from)) [
      | inl before ↦ inl (inl (ground arith))
      | inr there ↦ inl (inr (ground arith))
    ])
    | inr more ↦ rw more (
        rw (scan-first to b.worker_count to (stealable_words self_id b) from (omega arith) h) (
          first-Found (bit_of (stealable_words self_id b)) (is_victim self_id) from to
            (first (bit_of (stealable_words self_id b)) (to - from) from)
            (λ i k. stealable_bit self_id i (omega (arith, k, h))) refl))
  ]

  find_zero_in_range-Found :
      (from to : ℕ)
      → to ≤ b.worker_count
      → Found (λ i. not (test i b)) from to (find_zero_in_range from to b)
  unfolding find_zero_in_range
  find_zero_in_range-Found from to h = elim (Bool-cases (leb to from)) [
    | inl empty ↦ rw empty (λ i. elim (Bool-cases (ltb i from)) [
      | inl before ↦ inl (inl (ground arith))
      | inr there ↦ inl (inr (ground arith))
    ])
    | inr more ↦ rw more (
        rw (scan-first to b.worker_count to (idle_words b) from (omega arith) h) (
          first-Found (bit_of (idle_words b)) (λ i. not (test i b)) from to
            (first (bit_of (idle_words b)) (to - from) from)
            (λ i k. idle_bit i (omega (arith, k, h))) refl))
  ]

  -- Two ranges that are the workers from a start on and those before it.
  or_else-Found :
      (P : ℕ → Bool) (start to : ℕ) (r r' : Option ℕ)
      → start ≤ to
      → Found P start to r
      → Found P 0 start r'
      → Found P 0 to (or_else r r')
  or_else-Found P start to (some v) r' h (low, high, p) f' = (omega arith, high, p)
  or_else-Found P start to none (some v) h f (low, high, p) = (low, omega (arith, h, high), p)
  or_else-Found P start to none none h f f' = λ i. elim (f i) [
    | inr p ↦ inr p
    | inl (inr behind) ↦ inl (inr behind)
    | inl (inl before) ↦ elim (f' i) [
      | inr p ↦ inr p
      | inl (inl none') ↦ inl (inl none')
      | inl (inr behind) ↦ absurd (omega (arith, before, behind))
    ]
  ]

  start_le : (k : ℕ) → 0 < b.worker_count → k % b.worker_count ≤ b.worker_count
  start_le k h = omega (arith, mod-lt k h)

  -- A worker to steal from: in the bitmap, and another one than the thief. Or no other worker is in it.
  abbrev pub IsVictim : ℕ → Option ℕ → Type 0
  IsVictim self_id none = (i : ℕ) → is_victim self_id i ≡ false
  IsVictim self_id (some v) = (v < b.worker_count) × (v ≢ self_id) × (test v b ≡ true)

  -- A worker that has not enough tasks to steal. Or every worker has.
  abbrev pub IsIdle : Option ℕ → Type 0
  IsIdle none = (i : ℕ) → (b.worker_count ≤ i) ⊎ (test i b ≡ true)
  IsIdle (some v) = (v < b.worker_count) × (test v b ≡ false)

  outside : (i : ℕ) → b.worker_count ≤ i → test i b ≡ false
  unfolding test
  outside i h = ground arith

  Found-IsVictim :
      (self_id : ℕ) (r : Option ℕ)
      → Found (is_victim self_id) 0 b.worker_count r
      → IsVictim self_id r
  Found-IsVictim self_id none f = λ i. elim (f i) [
    | inr p ↦ p
    | inl (inr behind) ↦ rw (outside i behind) refl
    | inl (inl before) ↦ absurd (omega (arith, before))
  ]
  Found-IsVictim self_id (some v) (low, high, p) = (high, ground (arith, p), ground (arith, p))

  Found-IsIdle : (r : Option ℕ) → Found (λ i. not (test i b)) 0 b.worker_count r → IsIdle r
  Found-IsIdle none f = λ i. elim (f i) [
    | inr p ↦ inr (ground (arith, p))
    | inl (inr behind) ↦ inl behind
    | inl (inl before) ↦ absurd (omega (arith, before))
  ]
  Found-IsIdle (some v) (low, high, p) = (high, ground (arith, p))

  -- The search for a victim never gives a thief of the pool itself or a worker that is not in the bitmap; and where it gives
  -- none, no other worker is in the bitmap.
  pub find_victim-IsVictim :
      (self_id : ℕ) → self_id < b.worker_count → IsVictim self_id (find_victim self_id b)
  unfolding find_victim
  find_victim-IsVictim self_id h = elim (Bool-cases (leb b.worker_count 1)) [
    | inl alone ↦ rw alone (λ i. elim (Bool-cases (leb b.worker_count i)) [
      | inl behind ↦ rw (outside i (ground arith)) refl
      | inr first' ↦ ground arith
    ])
    | inr several ↦
        let start = (self_id + 1) % b.worker_count in
        let inside : leb b.worker_count self_id ≡ false = ground arith in
        let low = start_le (self_id + 1) (omega (arith, h)) in
        rw several (
          rw inside (
            Found-IsVictim self_id
              (or_else (find_in_range start b.worker_count self_id b)
                (find_in_range 0 start self_id b))
              (or_else-Found (is_victim self_id) start b.worker_count
                (find_in_range start b.worker_count self_id b) (find_in_range 0 start self_id b) low
                (find_in_range-Found start b.worker_count self_id (omega arith))
                (find_in_range-Found 0 start self_id low))))
  ]

  -- The search for an idle worker gives one that is not in the bitmap; and where it gives none, all workers are in the bitmap.
  pub find_non_stealable-IsIdle : (start : ℕ) → IsIdle (find_non_stealable start b)
  unfolding find_non_stealable
  find_non_stealable-IsIdle start = elim (Bool-cases (b.worker_count == 0)) [
    | inl empty ↦ rw empty (λ i. inl (ground arith))
    | inr more ↦
        let from = start % b.worker_count in
        let low = start_le start (ground arith) in
        rw more (
          Found-IsIdle
            (or_else (find_zero_in_range from b.worker_count b) (find_zero_in_range 0 from b))
            (or_else-Found (λ i. not (test i b)) from b.worker_count
              (find_zero_in_range from b.worker_count b) (find_zero_in_range 0 from b) low
              (find_zero_in_range-Found from b.worker_count (omega arith))
              (find_zero_in_range-Found 0 from low)))
  ]
