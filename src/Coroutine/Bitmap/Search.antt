-- ===== src/Coroutine/Bitmap/Search.antt =====
-- The search over 64-bit words of zcoroutine/src/scheduling/stealable_queue_bitmap.cc against a search over the workers.
use zhttp.Prelude.{
  ℕ, zero, suc, ◌+◌, ◌-◌, ◌*◌, ◌/◌, ◌%◌, ◌<◌, ◌≤◌, ◌≡◌, refl, sym, ap, subst, ◌∙◌, Bool, true,
  false, Option, none, some, arith, ltb, leb, ◌==◌, ==_iff, Bool-cases, inl, inr, min,
}
use zhttp.Coroutine.Bitmap.{Word, first, lowest_bit, masked, worker_of, scan, or_else}

-- The search depends only on the bits that it looks at.
first-cong :
    (w v : Word) (n i : ℕ) → ((j : ℕ) → i ≤ j → j < i + n → w j ≡ v j) → first w n i ≡ first v n i
unfolding first
first-cong w v zero i h = refl
first-cong w v (suc n) i h =
    rw (h i (omega arith) (omega arith))
      (rw (first-cong w v n (suc i) (λ j a b. h j (omega (arith, a)) (omega (arith, b)))) refl)

first_cong_count : (w : Word) (m n i : ℕ) → m ≡ n → first w m i ≡ first w n i
first_cong_count w m n i e = ap (λ k. first w k i) e

first-none : (w : Word) (n i : ℕ) → ((j : ℕ) → i ≤ j → j < i + n → w j ≡ false) → first w n i ≡ none
unfolding first
first-none w zero i h = refl
first-none w (suc n) i h =
    rw (h i (omega arith) (omega arith))
      (first-none w n (suc i) (λ j a b. h j (omega (arith, a)) (omega (arith, b))))

first_at : (w : Word) (n i j : ℕ) → i ≡ j → first w n i ≡ first w n j
first_at w n i j e = ap (λ k. first w n k) e

-- A search in two parts.
first_split : (w : Word) (m n i : ℕ) → first w (m + n) i ≡ or_else (first w m i) (first w n (i + m))
unfolding first
first_split w zero n i =
    first_cong_count w (0 + n) n i (omega arith) ∙ first_at w n i (i + 0) (omega arith)
first_split w (suc m) n i =
    first_cong_count w (suc m + n) (suc (m + n)) i (omega arith) ∙ elim (Bool-cases (w i)) [
      | inl on ↦ rw on refl
      | inr off ↦ rw off (
          first_split w m n (suc i)
          ∙ ap (or_else (first w m (suc i))) (first_at w n (suc i + m) (i + suc m) (omega arith)))
    ]

or_else-none : (r : Option ℕ) → or_else r none ≡ r
or_else-none none = refl
or_else-none (some i) = refl

-- The positions of a word are those of the workers from its first one on.
worker_of-first :
    (w : Word) (worker_count index : ℕ) (rest : Option ℕ) (n k : ℕ)
    → index * 64 + (k + n) ≤ worker_count
    → worker_of worker_count index rest (first (λ j. w (index * 64 + j)) n k)
      ≡ or_else (first w n (index * 64 + k)) rest
unfolding first
worker_of-first w worker_count index rest zero k h = refl
worker_of-first w worker_count index rest (suc n) k h = elim (Bool-cases (w (index * 64 + k))) [
  | inl on ↦
      let fits : ltb (index * 64 + k) worker_count ≡ true = ground arith in rw on (rw fits refl)
  | inr off ↦ rw off (
      worker_of-first w worker_count index rest n (suc k) (omega (arith, h))
      ∙ ap (λ r. or_else r rest)
          (first_at w n (index * 64 + suc k) (suc (index * 64 + k)) (omega arith)))
]

-- How many workers of the word of a position the search looks at.
abbrev extent : ℕ → ℕ → ℕ
extent i to = min to ((i / 64 + 1) * 64) - i

masked_before : (i last : ℕ) (w : Word) (j : ℕ) → 0 ≤ j → j < 0 + i % 64 → masked i last w j ≡ false
masked_before i last w j a b = ground arith

masked_within :
    (i to : ℕ) (w : Word) (j : ℕ)
    → i < to
    → i % 64 ≤ j
    → j < i % 64 + extent i to
    → masked i (to - 1) w j ≡ w j
masked_within i to w j h a b = ground arith

masked_after :
    (i to : ℕ) (w : Word) (j : ℕ)
    → i < to
    → i % 64 + extent i to ≤ j
    → j < 64
    → masked i (to - 1) w j ≡ false
masked_after i to w j h a b = ground arith

lowest_bit-masked :
    (i to : ℕ) (w : Word)
    → i < to
    → lowest_bit (masked i (to - 1) w) ≡ first w (extent i to) (i % 64)
lowest_bit-masked i to w h =
    let v = masked i (to - 1) w in
    let k = i % 64 in
    let e = extent i to in
    first_cong_count v 64 (k + (e + (64 - k - e))) 0 (omega arith)
    ∙ first_split v k (e + (64 - k - e)) 0
    ∙ ap (λ r. or_else r (first v (e + (64 - k - e)) (0 + k)))
        (first-none v k 0 (masked_before i (to - 1) w))
    ∙ first_at v (e + (64 - k - e)) (0 + k) k (omega arith)
    ∙ first_split v e (64 - k - e) k
    ∙ ap (or_else (first v e k))
        (first-none v (64 - k - e) (k + e) (λ j a b. masked_after i to w j h a (omega (arith, b))))
    ∙ or_else-none (first v e k)
    ∙ first-cong v w e k (λ j a b. masked_within i to w j h a b)

-- The bit of a worker.
abbrev pub bit_of : (ℕ → Word) → ℕ → Bool
bit_of look x = look (x / 64) (x % 64)

bit_of-look : (look : ℕ → Word) (index j : ℕ) → j < 64 → look index j ≡ bit_of look (index * 64 + j)
bit_of-look look index j h =
    let here : index ≡ (index * 64 + j) / 64 = omega arith in
    let offset : j ≡ (index * 64 + j) % 64 = omega arith in
    ap (λ k. look k j) here ∙ ap (look ((index * 64 + j) / 64)) offset

-- With a round for each worker of the range, the loop gives the first worker of the range whose bit is set.
pub scan-first :
    (fuel worker_count to : ℕ) (look : ℕ → Word) (i : ℕ)
    → to - i ≤ fuel
    → to ≤ worker_count
    → scan fuel worker_count to look i ≡ first (bit_of look) (to - i) i
unfolding scan first
scan-first zero worker_count to look i enough h =
    first_cong_count (bit_of look) 0 (to - i) i (omega arith)
scan-first (suc fuel) worker_count to look i enough h = elim (Bool-cases (ltb i to)) [
  | inr past ↦ rw past (first_cong_count (bit_of look) 0 (to - i) i (ground arith))
  | inl more ↦
      let inside : i < to = ground arith in
      let next = (i / 64 + 1) * 64 in
      let e = extent i to in
      let w = bit_of look in
      rw more (
        rw (lowest_bit-masked i to (look (i / 64)) inside) (
          ap (worker_of worker_count (i / 64) (scan fuel worker_count to look next)) (
            first-cong (look (i / 64)) (λ j. w (i / 64 * 64 + j)) e (i % 64)
              (λ j a b. bit_of-look look (i / 64) j (omega (arith, b))))
          ∙ worker_of-first w worker_count (i / 64) (scan fuel worker_count to look next) e (i % 64)
              (omega (arith, inside, h))
          ∙ ap (or_else (first w e (i / 64 * 64 + i % 64)))
              (scan-first fuel worker_count to look next (omega (arith, inside, enough)) h)
          ∙ joined i to w inside))
]
  where
    second :
        (i to : ℕ) (w : Word)
        → i < to
        → first w (to - (i / 64 + 1) * 64) ((i / 64 + 1) * 64)
          ≡ first w (to - (i / 64 + 1) * 64) (i + extent i to)
    second i to w h = elim (Bool-cases (leb to ((i / 64 + 1) * 64))) [
      | inl ends ↦
          first_cong_count w (to - (i / 64 + 1) * 64) 0 ((i / 64 + 1) * 64) (ground arith)
          ∙ first_cong_count w 0 (to - (i / 64 + 1) * 64) (i + extent i to) (ground arith)
      | inr goes ↦
          first_at w (to - (i / 64 + 1) * 64) ((i / 64 + 1) * 64) (i + extent i to) (ground arith)
    ]

    joined :
        (i to : ℕ) (w : Word)
        → i < to
        → or_else
            (first w (extent i to) (i / 64 * 64 + i % 64))
            (first w (to - (i / 64 + 1) * 64) ((i / 64 + 1) * 64))
          ≡ first w (to - i) i
    joined i to w h =
        let e = extent i to in
        let next = (i / 64 + 1) * 64 in
        ap (λ r. or_else r (first w (to - next) next))
          (first_at w e (i / 64 * 64 + i % 64) i (omega arith))
        ∙ ap (or_else (first w e i)) (second i to w h)
        ∙ sym (first_split w e (to - next) i)
        ∙ first_cong_count w (e + (to - next)) (to - i) i (omega (arith, h))

-- A position that is found has the bit and is in the range; where none is found, none in the range has it.
pub first_found :
    (w : Word) (n i j : ℕ) → first w n i ≡ some j → (w j ≡ true) × (i ≤ j) × (j < i + n)
unfolding first
first_found w zero i j h = absurd (cc)
first_found w (suc n) i j h = elim (Bool-cases (w i)) [
  | inl on ↦
      let e : i ≡ j = some-inj (sym (rw on refl) ∙ h) in
      subst (λ k. (w k ≡ true) × (i ≤ k) × (k < i + suc n)) e (on, omega arith, omega arith)
  | inr off ↦
      let e : first w n (suc i) ≡ some j = sym (rw off refl) ∙ h in
      let (a, b, c) = first_found w n (suc i) j e in (a, omega (arith, b), omega (arith, c))
]
  where
    some-inj : {a b : ℕ} → some a ≡ some b → a ≡ b
    some-inj e = cc

pub first_missed : (w : Word) (n i j : ℕ) → first w n i ≡ none → i ≤ j → j < i + n → w j ≡ false
unfolding first
first_missed w zero i j h a b = absurd (omega arith)
first_missed w (suc n) i j h a b = elim (Bool-cases (w i)) [
  | inl on ↦ absurd (cc (on, h))
  | inr off ↦ elim (Bool-cases (i == j)) [
    | inl same ↦ subst (λ k. w k ≡ false) ((==_iff i j).0 same) off
    | inr other ↦ first_missed w n (suc i) j (sym (rw off refl) ∙ h) (ground arith) (omega arith)
  ]
]
