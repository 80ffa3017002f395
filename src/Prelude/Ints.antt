-- ===== src/Prelude/Ints.antt =====
-- `int` results: integers over the native numbers, and the conversion of an unsigned number to 32 bits.
use Prim.Native.Nat.{ℕ, ◌-◌, ◌%◌}
use zhttp.Prelude.Tests.{ltb, if◌then◌else◌}

pub data ℤ : Type 0 where
  pos : ℕ → ℤ
  negsuc : ℕ → ℤ

-- `static_cast<int>`, modulo 2 ^ 32 into the signed range.
unfoldable pub to_int : ℕ → ℤ
to_int n = let r = n % 4294967296 in if ltb r 2147483648 then pos r else negsuc (4294967295 - r)
