-- ===== src/Http/Request/Query.antt =====
-- The query string of zhttp/src/http_request.cc: the fuel of its loop, and what a form encodes.
use zhttp.Prelude.{
  ℕ, zero, suc, ◌<◌, ◌≤◌, ◌≡◌, ◌≢◌, refl, ap, ◌∙◌, List, [], ◌∷◌, ◌++◌, Bytes, All, arith,
  Option-cases, inl, inr, cut, cut-append, cut-none, cut_shorter, Lacks, length, bytes_key, insert,
}
use zhttp.Http.Text.{is_hex_digit}
use zhttp.Http.Text.Percent.{percent_encode, url_decode-percent_encode, percent_encode-Lacks}
use zhttp.Http.Request.{Params, next_pair, add_pair, query_loop, parse_query_params, HttpRequest}

next_pair_shorter : (c : ℕ) (s : Bytes) → length (next_pair (c ∷ s)).1 ≤ length s
unfolding next_pair
next_pair_shorter c s = elim (Option-cases (cut b'&' (c ∷ s))) [
  | inl last ↦ rw last (omega arith)
  | inr (p, found) ↦ rw found (omega (arith, cut_shorter b'&' (c ∷ s) p found))
]

-- With any two amounts of fuel that are at least the number of bytes, the loop over a query string has the
-- same result.
pub query_loop_fuel :
    (f g : ℕ) (s : Bytes) (params : Params)
    → length s ≤ f
    → length s ≤ g
    → query_loop f s params ≡ query_loop g s params
unfolding query_loop
query_loop_fuel f g [] params h k = refl
query_loop_fuel zero g (c ∷ s) params h k = absurd (omega arith)
query_loop_fuel (suc f) zero (c ∷ s) params h k = absurd (omega arith)
query_loop_fuel (suc f) (suc g) (c ∷ s) params h k =
    let n = next_pair_shorter c s in
    query_loop_fuel f g (next_pair (c ∷ s)).1 (add_pair (next_pair (c ∷ s)).0 params) (omega arith)
      (omega arith)

-- The loop from the fuel that `parse_query_params` gives it.
abbrev query_from : Bytes → Params → Params
query_from s params = query_loop (length s) s params

query_from-step :
    (s pair rest : Bytes) (params : Params)
    → s ≢ []
    → next_pair s ≡ (pair, rest)
    → query_from s params ≡ query_from rest (add_pair pair params)
unfolding query_loop
query_from-step [] pair rest params h e = absurd (h refl)
query_from-step (c ∷ s) pair rest params h e =
    let n = next_pair_shorter c s in
    ap (λ p. query_loop (length s) p.1 (add_pair p.0 params)) e
    ∙ query_loop_fuel (length s) (length rest) rest (add_pair pair params)
        (omega (arith, ap (λ (p : Bytes × Bytes). length p.1) e)) (omega arith)

-- A form field as a browser submits it, with every byte encoded.
unfoldable pub form_pair : Bytes × Bytes → Bytes
form_pair (key, value) = percent_encode key ++ (b'=' ∷ percent_encode value)

unfoldable pub form_query : List (Bytes × Bytes) → Bytes
form_query [] = []
form_query (field ∷ []) = form_pair field
form_query (field ∷ more ∷ fields) = form_pair field ++ (b'&' ∷ form_query (more ∷ fields))

-- The map that holds the fields, a later one in place of an earlier one with the same key.
unfoldable pub insert_all : List (Bytes × Bytes) → Params → Params
insert_all [] params = params
insert_all ((key, value) ∷ fields) params = insert_all fields (insert key value params)

abbrev pub AreBytes : Bytes × Bytes → Type 0
AreBytes (key, value) = All (λ c. c < 256) key × All (λ c. c < 256) value

Lacks-append : (x : ℕ) (a b : Bytes) → Lacks x a → Lacks x b → Lacks x (a ++ b)
Lacks-append x [] b h k = k
Lacks-append x (c ∷ a) b (p, h) k = (p, Lacks-append x a b h k)

form_pair-Lacks_amp : (field : Bytes × Bytes) → AreBytes field → Lacks b'&' (form_pair field)
unfolding form_pair
form_pair-Lacks_amp (key, value) (h, k) =
    Lacks-append b'&' (percent_encode key) _
      (percent_encode-Lacks b'&' key h (unfold is_hex_digit in refl) (λ e. omega arith))
      (
        (λ e. omega arith),
        percent_encode-Lacks b'&' value k (unfold is_hex_digit in refl) (λ e. omega arith),
      )

form_pair-ne-nil : (field : Bytes × Bytes) (rest : Bytes) → form_pair field ++ rest ≢ []
unfolding form_pair percent_encode
form_pair-ne-nil ([], value) rest e = cc
form_pair-ne-nil (c ∷ key, value) rest e = cc

add_pair-form_pair :
    (key value : Bytes) (params : Params)
    → AreBytes (key, value)
    → add_pair (form_pair (key, value)) params ≡ insert key value params
unfolding add_pair form_pair
add_pair-form_pair key value params (h, k) = rw (
  cut-append b'=' (percent_encode key) (percent_encode value)
      (percent_encode-Lacks b'=' key h (unfold is_hex_digit in refl) (λ e. omega arith)),
  url_decode-percent_encode key h,
  url_decode-percent_encode value k,
)

query_from-nil : (params : Params) → query_from [] params ≡ params
unfolding query_loop
query_from-nil params = refl

next_pair_last : (s : Bytes) → Lacks b'&' s → next_pair s ≡ (s, [])
unfolding next_pair
next_pair_last s h = rw (cut-none b'&' s h)

next_pair_more : (s rest : Bytes) → Lacks b'&' s → next_pair (s ++ (b'&' ∷ rest)) ≡ (s, rest)
unfolding next_pair
next_pair_more s rest h = rw (cut-append b'&' s rest h)

query_from-form_query :
    (fields : List (Bytes × Bytes)) (params : Params)
    → All AreBytes fields
    → query_from (form_query fields) params ≡ insert_all fields params
unfolding form_query insert_all
query_from-form_query [] params h = (unfold query_loop in refl)
query_from-form_query ((key, value) ∷ []) params (h, _) =
    query_from-step (form_pair (key, value)) (form_pair (key, value)) [] params
      (λ e. form_pair-ne-nil (key, value) [] (ap (λ s. s ++ []) e))
      (next_pair_last (form_pair (key, value)) (form_pair-Lacks_amp (key, value) h))
    ∙ (query_from-nil _ ∙ add_pair-form_pair key value params h)
query_from-form_query ((key, value) ∷ more ∷ fields) params (h, k) =
    let rest : Bytes = form_query (more ∷ fields) in
    query_from-step (form_pair (key, value) ++ (b'&' ∷ rest)) (form_pair (key, value)) rest params
      (form_pair-ne-nil (key, value) (b'&' ∷ rest))
      (next_pair_more (form_pair (key, value)) rest (form_pair-Lacks_amp (key, value) h))
    ∙ (ap (query_from rest) (add_pair-form_pair key value params h)
        ∙ query_from-form_query (more ∷ fields) (insert key value params) k)

-- Parsing the query string that a form of byte strings encodes to gives the map of exactly the form's fields,
-- a later one in place of an earlier one with the same key.
pub parse_query_params-form_query :
    (r : HttpRequest) (fields : List (Bytes × Bytes))
    → r.query ≡ form_query fields
    → All AreBytes fields
    → (parse_query_params r).query_params ≡ insert_all fields []
unfolding parse_query_params
parse_query_params-form_query r fields e h =
    ap (λ q. query_from q []) e ∙ query_from-form_query fields [] h
