-- ===== src/Http/Parser/Stream.antt =====
-- The parser over the text that is readable, with no buffer: what one round decides, the loop, and
-- text in pieces.
use zhttp.Prelude.{
  ℕ, zero, suc, ◌+◌, ◌-◌, ◌<◌, ◌≤◌, ◌≡◌, ◌≢◌, refl, ap, sym, subst, ◌∙◌, ◌++◌, Option, none, some,
  Bytes, arith, false, Bool-cases, Option-cases, inl, inr, ◌⊎◌, take, drop, length, ltb,
  length-drop, length-append, take-append_le, drop-append_le, if◌then◌else◌,
}
use zhttp.Net.Buffer.{search_crlf}
use zhttp.Net.Buffer.Search.{search_crlf-append, search_crlf_bound}
use zhttp.Http.Parser.{
  HttpParser, ParseState, request_line, headers, body, ParseResult, need_more, ok,
  parse_request_line, parse_headers, set_body,
}

-- What a round does at a text: stop, or take bytes from its front and go on.
pub data Verdict : Type 0 where
  stop : ParseResult → HttpParser → Verdict
  advance : ℕ → HttpParser → Verdict

abbrev pub after_text : ℕ → ParseResult × HttpParser → Verdict
after_text n (ParseResult.error, p) = stop ParseResult.error p
after_text n (result, p) = advance (n + 2) p

abbrev pub line_verdict :
    (Bytes → HttpParser → ParseResult × HttpParser) → Option ℕ → HttpParser → Bytes → Verdict
line_verdict step none p s = stop need_more p
line_verdict step (some n) p s = after_text n (step (take n s) p)

unfoldable pub decide_in : ParseState → HttpParser → Bytes → Verdict
decide_in request_line p s = line_verdict parse_request_line (search_crlf s) p s
decide_in headers p s = line_verdict parse_headers (search_crlf s) p s
decide_in body p s =
    if ltb (length s) p.content_length
    then stop need_more p
    else advance p.content_length (set_body (take p.content_length s) p)
decide_in ParseState.complete p s = stop ParseResult.complete p
decide_in ParseState.error p s = stop ParseResult.error p

abbrev pub TextOutcome : Type 0
TextOutcome = ParseResult × HttpParser × Bytes

abbrev pub follow_text :
    (HttpParser → Bytes → Option TextOutcome) → Bytes → Verdict → Option TextOutcome
follow_text rest s (stop result p) = some (result, p, s)
follow_text rest s (advance n p) = rest p (drop n s)

unfoldable pub text_loop : ℕ → HttpParser → Bytes → Option TextOutcome
text_loop zero p s = none
text_loop (suc fuel) p s = follow_text (text_loop fuel) s (decide_in p.state p s)

-- The state's rank: lines can follow, a body can follow, or nothing.
abbrev pub rank : ParseState → ℕ
rank request_line = 2
rank headers = 2
rank body = 1
rank ParseState.complete = 0
rank ParseState.error = 0

line_verdict-append :
    (step : Bytes → HttpParser → ParseResult × HttpParser) (p : HttpParser) (s t : Bytes)
    → (line_verdict step (search_crlf s) p s ≡ stop need_more p)
      ⊎ (line_verdict step (search_crlf (s ++ t)) p (s ++ t)
          ≡ line_verdict step (search_crlf s) p s)
line_verdict-append step p s t = elim (Option-cases (search_crlf s)) [
  | inl missed ↦ rw missed (inl refl)
  | inr (n, found) ↦ inr (
      rw
        (
          found,
          search_crlf-append s t n found,
          take-append_le n s t (omega (arith, search_crlf_bound s n found)),
        )
        refl)
]

-- Text behind what is there changes a decision only where it was to wait.
decide-append :
    (st : ParseState) (p : HttpParser) (s t : Bytes)
    → (decide_in st p s ≡ stop need_more p) ⊎ (decide_in st p (s ++ t) ≡ decide_in st p s)
unfolding decide_in
decide-append request_line p s t = line_verdict-append parse_request_line p s t
decide-append headers p s t = line_verdict-append parse_headers p s t
decide-append body p s t = elim (Bool-cases (ltb (length s) p.content_length)) [
  | inl short ↦ rw short (inl refl)
  | inr enough ↦
      let enough' : ltb (length (s ++ t)) p.content_length ≡ false =
        ground (arith, length-append s t) in
      inr (rw (enough, enough', take-append_le p.content_length s t (ground arith)) refl)
]
decide-append ParseState.complete p s t = inr refl
decide-append ParseState.error p s t = inr refl

after_text-advance :
    (n m : ℕ) (x : ParseResult × HttpParser) (p : HttpParser)
    → after_text n x ≡ advance m p
    → m ≡ n + 2
after_text-advance n m (ParseResult.error, q) p e = cc
after_text-advance n m (ok, q) p e = cc
after_text-advance n m (ParseResult.complete, q) p e = cc
after_text-advance n m (need_more, q) p e = cc

stop-ne-advance :
    (r : ParseResult) (p : HttpParser) (n : ℕ) (q : HttpParser) → stop r p ≢ advance n q
stop-ne-advance r p n q e = cc

line_verdict-advance :
    (step : Bytes → HttpParser → ParseResult × HttpParser) (p q : HttpParser) (s : Bytes) (n : ℕ)
    → line_verdict step (search_crlf s) p s ≡ advance n q
    → (2 ≤ n) × (n ≤ length s)
line_verdict-advance step p q s n e = elim (Option-cases (search_crlf s)) [
  | inl missed ↦ absurd (stop-ne-advance need_more p n q (rw missed at e))
  | inr (m, found) ↦ omega (
    arith,
    after_text-advance m n (step (take m s) p) q (rw found at e),
    search_crlf_bound s m found,
  )
]

pub rank-le : (st : ParseState) → rank st ≤ 2
rank-le request_line = omega arith
rank-le _ = omega arith

advance-injective : {m n : ℕ} {p q : HttpParser} → advance m p ≡ advance n q → (m ≡ n) × (p ≡ q)
advance-injective e = (cc, cc)

rank_of_body : (q p : HttpParser) (t : Bytes) → set_body t p ≡ q → rank q.state ≡ 0
unfolding set_body
rank_of_body q p t e = sym (ap (λ (p : HttpParser). rank p.state) e)

le_of_not_ltb : {a b : ℕ} → ltb a b ≡ false → b ≤ a
le_of_not_ltb h = ground arith

-- An advance takes bytes that are there, and comes nearer to the end.
decide-advance :
    (st : ParseState) (p q : HttpParser) (s : Bytes) (n : ℕ)
    → decide_in st p s ≡ advance n q
    → (n ≤ length s) × (length s - n + rank q.state < length s + rank st)
unfolding decide_in
decide-advance request_line p q s n e =
    omega (arith, line_verdict-advance parse_request_line p q s n e, rank-le q.state)
decide-advance headers p q s n e =
    omega (arith, line_verdict-advance parse_headers p q s n e, rank-le q.state)
decide-advance body p q s n e = elim (Bool-cases (ltb (length s) p.content_length)) [
  | inl short ↦ absurd (stop-ne-advance need_more p n q (rw short at e))
  | inr enough ↦
      let (size, same) = advance-injective (rw enough at e) in
      let rest = length-drop n s in omega (arith, rank_of_body q _ _ same, le_of_not_ltb enough)
]
decide-advance ParseState.complete p q s n e = absurd (cc)
decide-advance ParseState.error p q s n e = absurd (cc)

pub Verdict-cases :
    (v : Verdict)
    → ((r : ParseResult) × (q : HttpParser) × (v ≡ stop r q))
      ⊎ ((n : ℕ) × (q : HttpParser) × (v ≡ advance n q))
Verdict-cases (stop r q) = inl (r, q, refl)
Verdict-cases (advance n q) = inr (n, q, refl)

-- Fuel beyond the text's length and the state's rank is enough.
pub text_loop_total :
    (f : ℕ) (p : HttpParser) (s : Bytes)
    → length s + rank p.state < f
    → (x : TextOutcome) × (text_loop f p s ≡ some x)
unfolding text_loop
text_loop_total zero p s h = absurd (omega arith)
text_loop_total (suc f) p s h = elim (Verdict-cases (decide_in p.state p s)) [
  | inl (r, q, e) ↦ ((r, q, s), rw e refl)
  | inr (n, q, e) ↦
      let (x, found) =
        text_loop_total f q (drop n s)
          (omega (arith, decide-advance p.state p q s n e, length-drop n s)) in
      (x, rw e found)
]

-- More fuel changes no outcome.
pub text_loop_more :
    (f g : ℕ) (p : HttpParser) (s : Bytes) (x : TextOutcome)
    → f ≤ g
    → text_loop f p s ≡ some x
    → text_loop g p s ≡ some x
unfolding text_loop
text_loop_more zero g p s x h e = cc
text_loop_more (suc f) zero p s x h e = absurd (omega arith)
text_loop_more (suc f) (suc g) p s x h e = elim (Verdict-cases (decide_in p.state p s)) [
  | inl (r, q, d) ↦ rw d (rw d at e)
  | inr (n, q, d) ↦ rw d (text_loop_more f g q (drop n s) x (omega arith) (rw d at e))
]

after_text-ne-wait :
    (n : ℕ) (x : ParseResult × HttpParser) (q : HttpParser) → after_text n x ≢ stop need_more q
after_text-ne-wait n (ParseResult.error, p) q e = cc
after_text-ne-wait n (ok, p) q e = cc
after_text-ne-wait n (ParseResult.complete, p) q e = cc
after_text-ne-wait n (need_more, p) q e = cc

line_verdict-waits :
    (step : Bytes → HttpParser → ParseResult × HttpParser) (p q : HttpParser) (s : Bytes)
    → line_verdict step (search_crlf s) p s ≡ stop need_more q
    → q ≡ p
line_verdict-waits step p q s e = elim (Option-cases (search_crlf s)) [
  | inl missed ↦ cc (rw missed at e)
  | inr (m, found) ↦ absurd (after_text-ne-wait m (step (take m s) p) q (rw found at e))
]

-- Waiting for more text leaves the parser as it was.
decide-waits :
    (st : ParseState) (p q : HttpParser) (s : Bytes) → decide_in st p s ≡ stop need_more q → q ≡ p
unfolding decide_in
decide-waits request_line p q s e = line_verdict-waits parse_request_line p q s e
decide-waits headers p q s e = line_verdict-waits parse_headers p q s e
decide-waits body p q s e = elim (Bool-cases (ltb (length s) p.content_length)) [
  | inl short ↦ cc (rw short at e)
  | inr enough ↦ absurd (stop-ne-advance need_more q _ _ (sym (rw enough at e)))
]
decide-waits ParseState.complete p q s e = absurd (cc)
decide-waits ParseState.error p q s e = absurd (cc)

pub some_outcome :
    {r r' : ParseResult} {q q' : HttpParser} {s s' : Bytes}
    → ◌≡◌ {A = Option TextOutcome} (some (r, q, s)) (some (r', q', s'))
    → (r ≡ r') × (q ≡ q') × (s ≡ s')
some_outcome e = (cc, cc, cc)

resume :
    (g : ℕ) {p q : HttpParser} {s s' : Bytes} {x : TextOutcome}
    → q ≡ p
    → s' ≡ s
    → (t : Bytes) → text_loop g q (s' ++ t) ≡ some x
    → text_loop g p (s ++ t) ≡ some x
resume g e f t k = cc

add_suc : (f g : ℕ) → suc (f + g) ≡ suc f + g
add_suc f g = omega arith

-- A parser that stopped to wait goes on, with the rest and what arrived, as if all had been there.
pub text_loop_chunks :
    (f g : ℕ) (p q : HttpParser) (s s' t : Bytes) (x : TextOutcome)
    → text_loop f p s ≡ some (need_more, q, s')
    → text_loop g q (s' ++ t) ≡ some x
    → text_loop (f + g) p (s ++ t) ≡ some x
unfolding text_loop
text_loop_chunks zero g p q s s' t x e k = cc
text_loop_chunks (suc f) g p q s s' t x e k = elim (Verdict-cases (decide_in p.state p s)) [
  | inl (r, q', d) ↦
      let (waits, parser, text) = some_outcome (rw d at e) in
      let here : q' ≡ p = decide-waits p.state p q' s (d ∙ ap (λ w. stop w q') waits) in
      text_loop_more g (suc f + g) p (s ++ t) x (omega arith)
        (resume g (sym parser ∙ here) (sym text) t k)
  | inr (n, q', d) ↦
      let grown : decide_in p.state p (s ++ t) ≡ advance n q' = elim (decide-append p.state p s t) [
        | inl waits ↦ absurd (stop-ne-advance need_more p n q' (sym waits ∙ d))
        | inr same ↦ same ∙ d
      ] in
      let fits = (decide-advance p.state p q' s n d).0 in
      let rest : text_loop (f + g) q' (drop n s ++ t) ≡ some x =
        text_loop_chunks f g q' q (drop n s) s' t x (rw d at e) k in
      subst (λ k. text_loop k p (s ++ t) ≡ some x) (add_suc f g)
        (rw grown (ap (text_loop (f + g) q') (drop-append_le n s t fits) ∙ rest))
]
