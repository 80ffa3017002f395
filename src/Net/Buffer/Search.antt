-- ===== src/Net/Buffer/Search.antt =====
-- What the buffer's searches find.
use zhttp.Prelude.{
  ℕ, zero, suc, ◌+◌, ◌≤◌, ◌<◌, ◌≡◌, ◌≢◌, refl, [], ◌∷◌, ◌++◌, Option, none, some, Bytes, All, arith,
  ◌⊎◌, Bool-cases, Option-cases, ◌==◌, ◌&&◌, inl, inr, length, get_elem?,
}
use mathlib.Core.Option
use zhttp.Net.Buffer.{Buffer, readable, find_crlf, search_crlf, find_eol, search_byte}

-- "\r\n" stands j bytes into a string.
abbrev pub IsCrlf : Bytes → ℕ → Type 0
IsCrlf s j = (get_elem? s j ≡ some 13) × (get_elem? s (suc j) ≡ some 10)

-- A line's text: no carriage return, so no "\r\n" begins in it or across its end.
abbrev pub IsLine : Bytes → Type 0
IsLine = All (λ c. c ≢ 13)

-- A line followed by "\r\n" is found at its end, whatever comes after.
pub search_crlf-line :
    (line rest : Bytes) → IsLine line → search_crlf (line ++ (13 ∷ 10 ∷ rest)) ≡ some (length line)
unfolding search_crlf
search_crlf-line [] rest h = refl
search_crlf-line (c ∷ []) rest (p, h) = ground (arith, search_crlf-line [] rest)
search_crlf-line (c ∷ d ∷ line) rest (p, h) = ground (arith, search_crlf-line (d ∷ line) rest h)

-- More bytes behind do not move the first occurrence.
pub search_crlf-append :
    (s t : Bytes) (i : ℕ) → search_crlf s ≡ some i → search_crlf (s ++ t) ≡ some i
unfolding search_crlf
search_crlf-append [] t i h = cc
search_crlf-append (c ∷ []) t i h = cc
search_crlf-append (c ∷ d ∷ s) t i h = elim (Option-cases (search_crlf (d ∷ s))) [
  | inl missed ↦ ground arith
  | inr (j, found) ↦ ground (arith, search_crlf-append (d ∷ s) t j found)
]

-- The two bytes at the offset found lie inside the string.
pub search_crlf_bound : (s : Bytes) (i : ℕ) → search_crlf s ≡ some i → i + 2 ≤ length s
unfolding search_crlf
search_crlf_bound [] i h = cc
search_crlf_bound (c ∷ []) i h = cc
search_crlf_bound (c ∷ d ∷ s) i h = elim (Option-cases (search_crlf (d ∷ s))) [
  | inl missed ↦ ground arith
  | inr (j, found) ↦ ground (arith, search_crlf_bound (d ∷ s) j found)
]

-- The outcome of a search for one byte.
abbrev pub FirstByte : ℕ → Bytes → Option ℕ → Type 0
FirstByte x s r =
    ((r ≡ none) × ((j : ℕ) → get_elem? s j ≢ some x))
    ⊎ ((i : ℕ) × (r ≡ some i)
        × (get_elem? s i ≡ some x)
        × ((j : ℕ) → j < i → get_elem? s j ≢ some x))

FirstByte-cons :
    (x c : ℕ) (s : Bytes) (r : Option ℕ)
    → c ≢ x
    → FirstByte x s r
    → FirstByte x (c ∷ s) (Option.map suc r)
FirstByte-cons x c s r h (inl (e, never)) = inl (rw e refl, nowhere)
  where
    nowhere : (j : ℕ) → get_elem? (c ∷ s) j ≢ some x
    nowhere zero q = h (cc)
    nowhere (suc j) q = never j q
FirstByte-cons x c s r h (inr (i, e, here, first)) = inr (suc i, rw e refl, here, earlier)
  where
    earlier : (j : ℕ) → j < suc i → get_elem? (c ∷ s) j ≢ some x
    earlier zero l q = h (cc)
    earlier (suc j) l q = first j (omega arith) q

search_byte-First : (x : ℕ) (s : Bytes) → FirstByte x s (search_byte x s)
unfolding search_byte
search_byte-First x [] = inl (refl, λ j p. ground arith)
search_byte-First x (c ∷ s) = elim (Bool-cases (c == x)) [
  | inl hit ↦ rw hit (inr (0, refl, ground arith, λ j l. absurd (omega arith)))
  | inr miss ↦
      rw miss (FirstByte-cons x c s (search_byte x s) (λ p. ground arith) (search_byte-First x s))
]

-- The outcome of a search for "\r\n": the first place where it stands, or none where it stands
-- nowhere.
abbrev pub FirstCrlf : Bytes → Option ℕ → Type 0
FirstCrlf s r =
    ((r ≡ none) × ((j : ℕ) → ¬ IsCrlf s j))
    ⊎ ((i : ℕ) × (r ≡ some i) × IsCrlf s i × ((j : ℕ) → j < i → ¬ IsCrlf s j))

singleton-IsCrlf : (c : ℕ) (j : ℕ) → ¬ IsCrlf (c ∷ []) j
singleton-IsCrlf c zero (p, q) = cc
singleton-IsCrlf c (suc j) (p, q) = cc

FirstCrlf-cons :
    (c d : ℕ) (s : Bytes) (r : Option ℕ)
    → ¬ IsCrlf (c ∷ d ∷ s) 0
    → FirstCrlf (d ∷ s) r
    → FirstCrlf (c ∷ d ∷ s) (Option.map suc r)
FirstCrlf-cons c d s r h (inl (e, never)) = inl (rw e refl, nowhere)
  where
    nowhere : (j : ℕ) → ¬ IsCrlf (c ∷ d ∷ s) j
    nowhere zero = h
    nowhere (suc j) = never j
FirstCrlf-cons c d s r h (inr (i, e, here, first)) = inr (suc i, rw e refl, here, earlier)
  where
    earlier : (j : ℕ) → j < suc i → ¬ IsCrlf (c ∷ d ∷ s) j
    earlier zero l = h
    earlier (suc j) l = first j (omega arith)

pub search_crlf-FirstCrlf : (s : Bytes) → FirstCrlf s (search_crlf s)
unfolding search_crlf
search_crlf-FirstCrlf [] = inl (refl, λ j p. ground arith)
search_crlf-FirstCrlf (c ∷ []) = inl (refl, singleton-IsCrlf c)
search_crlf-FirstCrlf (c ∷ d ∷ s) = elim (Bool-cases (c == 13 && d == 10)) [
  | inl hit ↦ rw hit (inr (0, refl, (ground arith, ground arith), λ j l. absurd (omega arith)))
  | inr miss ↦ rw miss (
      FirstCrlf-cons c d s (search_crlf (d ∷ s)) (λ p. ground arith)
        (search_crlf-FirstCrlf (d ∷ s)))
]

-- `find_crlf` gives the offset of the first "\r\n" of the readable bytes, and nothing exactly where
-- there is none.
pub find_crlf_lem : (b : Buffer) → FirstCrlf (readable b) (find_crlf b)
unfolding find_crlf
find_crlf_lem b = search_crlf-FirstCrlf (readable b)

-- `find_eol` gives the offset of the first newline of the readable bytes, and nothing exactly where
-- there is none.
pub find_eol_lem :
    (b : Buffer)
    → ((find_eol b ≡ none) × ((j : ℕ) → get_elem? (readable b) j ≢ some 10))
      ⊎ ((i : ℕ) × (find_eol b ≡ some i)
          × (get_elem? (readable b) i ≡ some 10)
          × ((j : ℕ) → j < i → get_elem? (readable b) j ≢ some 10))
unfolding find_eol
find_eol_lem b = search_byte-First b'\n' (readable b)
