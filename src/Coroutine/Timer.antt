-- ===== src/Coroutine/Timer.antt =====
-- zcoroutine/include/timer and zcoroutine/src/timer: timers and their manager. A timer is an object behind shared
-- pointers, so the manager's state has the objects by their address, and `timers_` is the list of addresses
-- in the order of the `std::set`. The clock is an argument. `F` is the type of callbacks.
pub mod Order
pub mod Manager
use zhttp.Prelude.{
  ℕ, zero, suc, ◌+◌, ◌-◌, ◌%◌, Bool, true, false, not, ◌&&◌, ◌||◌, List, [], ◌∷◌, Option, none,
  some, ltb, leb, ◌==◌, if◌then◌else◌,
}

-- Arithmetic of `uint64_t`.
abbrev pub u64 : ℕ → ℕ
u64 n = n % 18446744073709551616

pub record Timer (F : Type 0) : Type 0 where
  pub next_time : ℕ
  pub interval_ms : ℕ
  pub recurring : Bool
  pub callback : Option F

-- `TimerComparator`, on the times that the addresses have.
abbrev pub less : (ℕ → ℕ) → ℕ → ℕ → Bool
less k a b = if k a == k b then ltb a b else ltb (k a) (k b)

-- `std::set`: insertion where no equivalent element is, search and erasure by the comparator.
unfoldable pub set_insert : (ℕ → ℕ) → ℕ → List ℕ → List ℕ
set_insert k a [] = a ∷ []
set_insert k a (b ∷ bs) =
    if less k a b then a ∷ (b ∷ bs) else if less k b a then b ∷ set_insert k a bs else b ∷ bs

unfoldable pub set_contains : (ℕ → ℕ) → ℕ → List ℕ → Bool
set_contains k a [] = false
set_contains k a (b ∷ bs) = if less k b a then set_contains k a bs else not (less k a b)

unfoldable pub set_erase : (ℕ → ℕ) → ℕ → List ℕ → List ℕ
set_erase k a [] = []
set_erase k a (b ∷ bs) =
    if less k b a then b ∷ set_erase k a bs else if less k a b then b ∷ bs else bs
