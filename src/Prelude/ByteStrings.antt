-- ===== src/Prelude/ByteStrings.antt =====
-- Byte strings (`std::string`): lists of native numbers, with a Boolean equality.
use Prim.Native.Nat.{ℕ, ◌<◌}
use Prim.Native.Char.{code}
use Prim.Native.String.{String}
use mathlib.Core.Path.{◌≡◌, refl}
use mathlib.Core.Logic.{◌↔◌, ◌≢◌, inl, inr}
use mathlib.Core.Bool.{Bool, true, false, ◌&&◌}
use mathlib.Core.List.{List, [], ◌∷◌, ◌++◌}
use native.Mathlib.Omega.{arith}
use zhttp.Prelude.Tests.{◌==◌, ==_refl, if◌then◌else◌, Option-cases}
use zhttp.Prelude.Lists.{All, length}
use mathlib.Core.Option
use mathlib.Core.Option.{Option, none, some}

abbrev pub Bytes : Type 0
Bytes = List ℕ

-- The bytes of a quoted text, which is ASCII wherever it is used.
abbrev pub codes : String → Bytes
codes String.[] = []
codes (String.◌∷◌ c s) = code c ∷ codes s

unfoldable pub bytes_eq : Bytes → Bytes → Bool
bytes_eq [] [] = true
bytes_eq [] (b ∷ bs) = false
bytes_eq (a ∷ as') [] = false
bytes_eq (a ∷ as') (b ∷ bs) = (a == b) && bytes_eq as' bs

pub bytes_eq_refl : (a : Bytes) → bytes_eq a a ≡ true
unfolding bytes_eq
bytes_eq_refl [] = refl
bytes_eq_refl (x ∷ a) = ground (arith, bytes_eq_refl a)

bytes_eq_sound : (a b : Bytes) → bytes_eq a b ≡ true → a ≡ b
unfolding bytes_eq
bytes_eq_sound [] [] h = refl
bytes_eq_sound [] (y ∷ b) h = cc
bytes_eq_sound (x ∷ a) [] h = cc
bytes_eq_sound (x ∷ a) (y ∷ b) h = ground (arith, bytes_eq_sound a b)

pub bytes_eq_iff : (a b : Bytes) → (bytes_eq a b ≡ true) ↔ (a ≡ b)
bytes_eq_iff a b = (bytes_eq_sound a b, λ e. rw e (bytes_eq_refl b))

-- `std::find` and `std::string::find` of one byte: nothing where it does not occur, else the text
-- before its first occurrence and the text behind it.
unfoldable pub cut : ℕ → Bytes → Option (Bytes × Bytes)
cut x [] = none
cut x (c ∷ s) = if c == x then some ([], s) else Option.map (λ p. (c ∷ p.0, p.1)) (cut x s)

abbrev pub Lacks : ℕ → Bytes → Type 0
Lacks x = All (λ c. c ≢ x)

pub cut-append : (x : ℕ) (a b : Bytes) → Lacks x a → cut x (a ++ (x ∷ b)) ≡ some (a, b)
unfolding cut
cut-append x [] b h = rw (==_refl x) refl
cut-append x (c ∷ a) b (p, h) = ground (arith, cut-append x a b h)

pub cut-none : (x : ℕ) (a : Bytes) → Lacks x a → cut x a ≡ none
unfolding cut
cut-none x [] h = refl
cut-none x (c ∷ a) (p, h) = ground (arith, cut-none x a h)

-- A cut takes one byte out, so what lies behind is shorter.
pub cut_shorter : (x : ℕ) (s : Bytes) (p : Bytes × Bytes) → cut x s ≡ some p → length p.1 < length s
unfolding cut
cut_shorter x [] p h = cc
cut_shorter x (c ∷ s) (a, b) h = elim (Option-cases (cut x s)) [
  | inl missed ↦ ground arith
  | inr (q, found) ↦ ground (arith, cut_shorter x s q found)
]
