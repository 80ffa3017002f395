-- ===== src/Net/Memory.antt =====
-- Raw memory as the buffer uses it: a block is the list of its bytes, `std::copy` and `memcpy` write
-- a list of bytes at an offset, and a pair of offsets reads one. Allocation is znet/src/allocator.cc
-- over the C library's `malloc`, whose result and fresh bytes are a parameter.
use zhttp.Prelude.{
  ℕ, ◌+◌, ◌-◌, ◌≤◌, ◌≡◌, ◌∙◌, refl, ap, ◌++◌, Option, none, some, Bytes, arith, if◌then◌else◌, ◌==◌,
  length, take, drop, length-append, length-take, length-drop, drop-take, take-append_length,
  drop-append_length, drop-append_le, append_assoc, take_cong, drop-drop, ◌≡⟨◌⟩◌, ◌∎,
}

-- The block that `malloc` returns for a size, or nothing. It is as long as was asked for.
pub record Malloc : Type 0 where
  pub malloc : ℕ → Option Bytes
  pub malloc-length : (n : ℕ) (block : Bytes) → malloc n ≡ some block → length block ≡ n

unfoldable pub allocate : Malloc → ℕ → Option Bytes
allocate m size = if size == 0 then none else m.malloc size

pub allocate-length :
    (m : Malloc) (n : ℕ) (block : Bytes) → allocate m n ≡ some block → length block ≡ n
unfolding allocate
allocate-length m n block h = ground (arith, m.malloc-length n block)

unfoldable pub overwrite : ℕ → Bytes → Bytes → Bytes
overwrite pos bytes block = take pos block ++ (bytes ++ drop (pos + length bytes) block)

unfoldable pub segment : ℕ → ℕ → Bytes → Bytes
segment from to block = take (to - from) (drop from block)

pub length-overwrite :
    (pos : ℕ) (bytes block : Bytes)
    → pos + length bytes ≤ length block
    → length (overwrite pos bytes block) ≡ length block
unfolding overwrite
length-overwrite pos bytes block h = omega (
  arith,
  length-append (take pos block) (bytes ++ drop (pos + length bytes) block),
  length-append bytes (drop (pos + length bytes) block),
  length-take pos block,
  length-drop (pos + length bytes) block,
)

pub length-segment :
    (from to : ℕ) (block : Bytes) → to ≤ length block → length (segment from to block) ≡ to - from
unfolding segment
length-segment from to block h =
    omega (arith, length-take (to - from) (drop from block), length-drop from block)

-- What was written is read back.
pub segment-overwrite :
    (pos to : ℕ) (bytes block : Bytes)
    → pos ≤ length block
    → to ≡ pos + length bytes
    → segment pos to (overwrite pos bytes block) ≡ bytes
unfolding segment overwrite
segment-overwrite pos to bytes block h e =
    ap (take (to - pos))
      (drop-append_length pos (take pos block) _ (omega (arith, length-take pos block)))
    ∙ take-append_length (to - pos) bytes _ (omega arith)

-- A write at the end of a segment extends it.
pub segment-overwrite_end :
    (from pos to : ℕ) (bytes block : Bytes)
    → from ≤ pos
    → pos ≤ length block
    → to ≡ pos + length bytes
    → segment from to (overwrite pos bytes block) ≡ segment from pos block ++ bytes
unfolding segment overwrite
segment-overwrite_end from pos to bytes block h k e =
    take (to - from) (drop from (take pos block ++ (bytes ++ tail)))
    ≡⟨ ap (take (to - from))
        (drop-append_le from (take pos block) _ (omega (arith, length-take pos block))) ⟩
      take (to - from) (drop from (take pos block) ++ (bytes ++ tail))
    ≡⟨ ap (λ p. take (to - from) (p ++ (bytes ++ tail))) (drop-take from pos block) ⟩
      take (to - from) (take (pos - from) (drop from block) ++ (bytes ++ tail))
    ≡⟨ ap (take (to - from)) ((rw append_assoc refl)) ⟩
      take (to - from) ((take (pos - from) (drop from block) ++ bytes) ++ tail)
    ≡⟨ take-append_length (to - from) (take (pos - from) (drop from block) ++ bytes) tail (
        omega (
          arith,
          length-append (take (pos - from) (drop from block)) bytes,
          length-take (pos - from) (drop from block),
          length-drop from block,
        )) ⟩
      take (pos - from) (drop from block) ++ bytes ∎
  where
    tail : Bytes
    tail = drop (pos + length bytes) block

-- Dropping from a segment moves its start.
pub segment-drop :
    (n from to : ℕ) (block : Bytes) → drop n (segment from to block) ≡ segment (from + n) to block
unfolding segment
segment-drop n from to block =
    drop-take n (to - from) (drop from block)
    ∙ (ap (take (to - from - n)) (drop-drop n from block)
        ∙ take_cong (to - from - n) (to - (from + n)) (drop (from + n) block) (omega arith))
