-- ===== src/Http/Text/Decimal.antt =====
-- Decimal numbers as text.
use zhttp.Prelude.{
  ℕ, zero, suc, ◌+◌, ◌-◌, ◌*◌, ◌/◌, ◌%◌, ◌<◌, ◌≤◌, ◌≡◌, refl, ap, ◌∙◌, [], ◌∷◌, Bytes, All, arith,
  true, false, Bool-cases, inl, inr, ◌==◌,
}
use zhttp.Http.Text.{
  is_digit, is_space, digits_value, ulong_mod, in_range, strtoul, digits_of, to_decimal,
}

abbrev pub IsDigit : ℕ → Type 0
IsDigit c = (48 ≤ c) × (c ≤ 57)

digits_value-digit :
    (v n d : ℕ) (acc : Bytes)
    → d < 10
    → v * 10 + d ≡ n
    → digits_value v ((48 + d) ∷ acc) ≡ digits_value n acc
unfolding digits_value
digits_value-digit v n d acc h e =
    let t : is_digit (48 + d) ≡ true = ground arith in
    let e' : v * 10 + (48 + d - 48) ≡ n = omega arith in rw (t, e') refl

digits_value-digits_of :
    (f n : ℕ) (acc : Bytes) → n < f → digits_value 0 (digits_of f n acc) ≡ digits_value n acc
unfolding digits_of
digits_value-digits_of zero n acc h = absurd (omega arith)
digits_value-digits_of (suc f) n acc h = elim (Bool-cases (n / 10 == 0)) [
  | inl last ↦ rw last (digits_value-digit 0 n (n % 10) acc (omega arith) (ground arith))
  | inr more ↦ rw more (
      digits_value-digits_of f (n / 10) ((48 + n % 10) ∷ acc) (ground arith)
      ∙ digits_value-digit (n / 10) n (n % 10) acc (omega arith) (omega arith))
]

-- A text of digits with at least one.
abbrev pub IsNumber : Bytes → Type 0
IsNumber [] = ⊥
IsNumber (c ∷ s) = IsDigit c × All IsDigit s

digits_of-IsNumber :
    (f n : ℕ) (acc : Bytes) → All IsDigit acc → n < f → IsNumber (digits_of f n acc)
unfolding digits_of
digits_of-IsNumber zero n acc k h = absurd (omega arith)
digits_of-IsNumber (suc f) n acc k h = elim (Bool-cases (n / 10 == 0)) [
  | inl last ↦ rw last ((omega arith, omega arith), k)
  | inr more ↦ rw more (
      digits_of-IsNumber f (n / 10) ((48 + n % 10) ∷ acc) ((omega arith, omega arith), k)
        (ground arith))
]

pub to_decimal-IsNumber : (n : ℕ) → IsNumber (to_decimal n)
unfolding to_decimal
to_decimal-IsNumber n = digits_of-IsNumber (suc n) n [] tt (omega arith)

in_range-small : (n : ℕ) → n < ulong_mod → in_range n ≡ n
unfolding in_range
in_range-small n h = ground arith

value-to_decimal : (n : ℕ) → digits_value 0 (to_decimal n) ≡ n
unfolding to_decimal digits_value
value-to_decimal n = digits_value-digits_of (suc n) n [] (omega arith)

strtoul_of_IsNumber : (s : Bytes) → IsNumber s → strtoul s ≡ in_range (digits_value 0 s)
unfolding strtoul
strtoul_of_IsNumber [] h = absurd h
strtoul_of_IsNumber (c ∷ s) ((p, q), h) =
    let solid : is_space c ≡ false = (unfold is_space in ground arith) in
    let plain : (c == b'-') ≡ false = ground arith in
    let positive : (c == b'+') ≡ false = ground arith in rw (solid, plain, positive) refl

-- The decimal text of a number below 2 ^ 64 is read back by `strtoul`.
pub strtoul-to_decimal : (n : ℕ) → n < ulong_mod → strtoul (to_decimal n) ≡ n
strtoul-to_decimal n h =
    strtoul_of_IsNumber (to_decimal n) (to_decimal-IsNumber n)
    ∙ (ap in_range (value-to_decimal n) ∙ in_range-small n h)
