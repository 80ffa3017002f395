-- ===== src/Coroutine/WorkStealing/Marks.antt =====
-- When the bit of a queue is set in the bitmap.
use zhttp.Prelude.{ℕ, ◌≡◌, refl, true, false, arith, Bool-cases, inl, inr, ltb, if◌then◌else◌}
use zhttp.Coroutine.WorkStealing.{WorkStealingQueue, maybe_update_bitmap, has_marks}

not-low :
    {T : Type 0} (n : ℕ) (q : WorkStealingQueue T)
    → has_marks q ≡ true
    → ltb q.high_watermark n ≡ true
    → ltb n q.low_watermark ≡ false
not-low n q marks high = ground arith

-- For a queue that uses the bitmap and has published what its bit says, an update sets the bit above the
-- high mark, clears it below the low mark and keeps it in between; and it publishes what the bit says.
pub maybe_update_bitmap_lem :
    {T : Type 0} (n : ℕ) (q : WorkStealingQueue T)
    → q.enabled ≡ true
    → has_marks q ≡ true
    → q.bitmap_published ≡ q.bit
    → ((maybe_update_bitmap n q).bit
        ≡ (if ltb q.high_watermark n then true else if ltb n q.low_watermark then false else q.bit))
      × ((maybe_update_bitmap n q).bitmap_published ≡ (maybe_update_bitmap n q).bit)
unfolding maybe_update_bitmap
maybe_update_bitmap_lem n q on marks same =
    rw (on, marks, same)
      (elim (Bool-cases q.bit) [
        | inl bit_set ↦ rw bit_set (elim (Bool-cases (ltb q.high_watermark n)) [
          | inl high ↦
              let not_low : ltb n q.low_watermark ≡ false = not-low n q marks high in
              rw (high, not_low) (refl, refl)
          | inr not_high ↦ rw not_high (elim (Bool-cases (ltb n q.low_watermark)) [
            | inl low ↦ rw low (refl, refl)
            | inr not_low ↦ rw not_low (refl, refl)
          ])
        ])
        | inr bit_clear ↦ rw bit_clear (elim (Bool-cases (ltb q.high_watermark n)) [
          | inl high ↦ rw high (refl, refl)
          | inr not_high ↦ rw not_high (elim (Bool-cases (ltb n q.low_watermark)) [
            | inl low ↦ rw low (refl, refl)
            | inr not_low ↦ rw not_low (refl, refl)
          ])
        ])
      ])
