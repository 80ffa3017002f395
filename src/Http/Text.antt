-- ===== src/Http/Text.antt =====
-- The text routines of zhttp/src/http_request.cc, with the C library's decimal numbers: `strtoul` at
-- base 10 and the output of an unsigned integer to a stream.
pub mod Decimal
pub mod Percent
use zhttp.Prelude.{
  ℕ, zero, suc, ◌+◌, ◌-◌, ◌*◌, ◌/◌, ◌%◌, ◌^◌, Bool, true, false, ◌&&◌, ◌||◌, List, [], ◌∷◌, Bytes,
  leb, ltb, ◌==◌, if◌then◌else◌,
}

abbrev pub is_digit : ℕ → Bool
is_digit c = leb b'0' c && leb c b'9'

is_space : ℕ → Bool
is_space c = c == 32 || (leb 9 c && leb c 13)

skip_space : Bytes → Bytes
unfolding is_space
skip_space [] = []
skip_space (c ∷ s) = let rest = skip_space s in if is_space c then rest else c ∷ s

unfoldable pub digits_value : ℕ → Bytes → ℕ
digits_value value [] = value
digits_value value (c ∷ s) =
    let rest = digits_value (value * 10 + (c - b'0')) s in if is_digit c then rest else value

abbrev pub ulong_mod : ℕ
ulong_mod = 2 ^ 64

-- A value out of range gives `ULONG_MAX`, whatever the sign; another is negated modulo 2 ^ 64.
in_range : ℕ → ℕ
in_range v = if ltb v ulong_mod then v else ulong_mod - 1

negated : ℕ → ℕ
negated v = if ltb v ulong_mod then (ulong_mod - v) % ulong_mod else ulong_mod - 1

unsigned_of : Bytes → ℕ
unfolding in_range negated
unsigned_of [] = 0
unsigned_of (c ∷ s) =
    if c == b'-'
    then negated (digits_value 0 s)
    else if c == b'+'
    then in_range (digits_value 0 s)
    else in_range (digits_value 0 (c ∷ s))

unfoldable pub strtoul : Bytes → ℕ
unfolding skip_space unsigned_of
strtoul s = unsigned_of (skip_space s)

-- `stream << n`, the digits from the last one on, with fuel for n + 1 of them.
digits_of : ℕ → ℕ → Bytes → Bytes
digits_of zero n acc = acc
digits_of (suc f) n acc =
    let acc' = (b'0' + n % 10) ∷ acc in
    let more = digits_of f (n / 10) acc' in if n / 10 == 0 then acc' else more

unfoldable pub to_decimal : ℕ → Bytes
unfolding digits_of
to_decimal n = digits_of (suc n) n []

unfoldable pub is_hex_digit : ℕ → Bool
is_hex_digit c = is_digit c || (leb b'A' c && leb c b'F') || (leb b'a' c && leb c b'f')

unfoldable pub hex_to_int : ℕ → ℕ
hex_to_int c =
    if is_digit c
    then c - b'0'
    else if leb b'A' c && leb c b'F'
    then c - b'A' + 10
    else if leb b'a' c && leb c b'f'
    then c - b'a' + 10
    else 0

abbrev pub plus_to_space : ℕ → ℕ
plus_to_space c = if c == b'+' then 32 else c

-- The loop over `i`; a '%' with fewer than two bytes behind it stays.
unfoldable pub url_decode : Bytes → Bytes
unfolding is_hex_digit hex_to_int
url_decode [] = []
url_decode (c ∷ []) = plus_to_space c ∷ []
url_decode (c ∷ d ∷ []) = plus_to_space c ∷ plus_to_space d ∷ []
url_decode (c ∷ h ∷ l ∷ s) =
    let decoded = ((hex_to_int h * 16 + hex_to_int l) % 256) ∷ url_decode s in
    let kept = plus_to_space c ∷ url_decode (h ∷ l ∷ s) in
    if c == b'%' && (is_hex_digit h && is_hex_digit l) then decoded else kept
