-- ===== src/Http/Request/Headers.antt =====
-- The header map of zhttp/src/http_request.cc: lookups under any order of iteration, and the case of names.
use zhttp.Prelude.{
  ℕ, ◌<◌, ◌≡◌, refl, ap, sym, ◌∙◌, [], ◌∷◌, map, Bytes, All, All-Mem, Mem, Bool-cases, inl, inr,
  bytes_eq, bytes_eq_iff, bytes_key, codes, false,
}
use zhttp.Http.Common.{to_upper, to_lower}
use zhttp.Http.Common.Laws.{to_lower-to_upper, map_cong}
use zhttp.Http.Text.{to_decimal, ulong_mod}
use zhttp.Http.Text.Decimal.{strtoul-to_decimal, to_decimal-IsNumber, IsNumber}
use zhttp.Http.Request.{HttpRequest, Params, lower, find_header, header, content_length}

-- A lookup by the upper-case spelling of a name finds the header that the name finds.
pub header_case :
    (r : HttpRequest) (key default : Bytes)
    → header r (map to_upper key) default ≡ header r key default
unfolding header
header_case r key default =
    ap (λ k. find_header k (r.order r.headers) default)
      (map_cong to_lower to_upper to_lower to_lower-to_upper key)

-- The iteration meets every entry, and nothing else.
abbrev pub IsIteration : Params → Params → Type 0
IsIteration headers met =
    (h : Bytes × Bytes) → (Mem h headers → Mem h met) × (Mem h met → Mem h headers)

-- All spellings of a name have one value.
abbrev pub OneValue : Bytes → Bytes → Params → Type 0
OneValue key value = All (λ h. lower h.0 ≡ lower key → h.1 ≡ value)

every_member :
    {P : Bytes × Bytes → Type 0} (ps : Params) → ((h : Bytes × Bytes) → Mem h ps → P h) → All P ps
every_member [] f = tt
every_member (p ∷ ps) f = (f p (inl refl), every_member ps (λ h i. f h (inr i)))

find_header-only :
    (key name value default : Bytes) (ps : Params)
    → OneValue key value ps
    → lower name ≡ lower key
    → Mem (name, value) ps
    → find_header (lower key) ps default ≡ value
unfolding find_header
find_header-only key name value default [] h e i = elim i [ ]
find_header-only key name value default ((k, v) ∷ ps) (p, h) e i =
    elim (Bool-cases (bytes_eq (lower k) (lower key))) [
      | inl hit ↦ rw hit (p ((bytes_eq_iff (lower k) (lower key)).0 hit))
      | inr miss ↦ rw miss (find_header-only key name value default ps h e (later miss i))
    ]
  where
    later :
        bytes_eq (lower k) (lower key) ≡ false
        → Mem (name, value) ((k, v) ∷ ps)
        → Mem (name, value) ps
    later miss (inl same) =
        let found = (bytes_eq_iff (lower k) (lower key)).1 (sym (ap (λ h. lower h.0) same) ∙ e) in
        absurd (cc (found, miss))
    later miss (inr there) = there

-- Where all spellings of a name have one value, a lookup gives that value in whatever order the map iterates.
pub header_lem :
    (r : HttpRequest) (key name value default : Bytes)
    → IsIteration r.headers (r.order r.headers)
    → OneValue key value r.headers
    → lower name ≡ lower key
    → Mem (name, value) r.headers
    → header r key default ≡ value
unfolding header
header_lem r key name value default met h e there =
    find_header-only key name value default (r.order r.headers)
      (every_member (r.order r.headers) (λ p i. All-Mem _ r.headers p h ((met p).1 i))) e
      ((met (name, value)).0 there)

IsNumber-ne-nil : (s : Bytes) → IsNumber s → bytes_eq s [] ≡ false
unfolding bytes_eq
IsNumber-ne-nil [] h = absurd h
IsNumber-ne-nil (c ∷ s) h = refl

-- A Content-Length, in any spelling of its name, that is the decimal text of a number below 2 ^ 64 is read as that number, in
-- whatever order the map iterates, if no other spelling of the header has another value.
pub content_length_lem :
    (r : HttpRequest) (name : Bytes) (n : ℕ)
    → n < ulong_mod
    → IsIteration r.headers (r.order r.headers)
    → OneValue (codes "Content-Length") (to_decimal n) r.headers
    → lower name ≡ lower (codes "Content-Length")
    → Mem (name, to_decimal n) r.headers
    → content_length r ≡ n
unfolding content_length
content_length_lem r name n h met one e there =
    rw
      (
        header_lem r (codes "Content-Length") name (to_decimal n) [] met one e there,
        IsNumber-ne-nil (to_decimal n) (to_decimal-IsNumber n),
      )
      (strtoul-to_decimal n h)
