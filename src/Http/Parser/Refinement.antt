-- ===== src/Http/Parser/Refinement.antt =====
-- zhttp/src/http_parser.cc over the buffer, against the parser over the readable text.
use zhttp.Prelude.{
  ℕ, zero, suc, ◌+◌, ◌≡◌, refl, ap, sym, subst, ◌∙◌, ◌++◌, Option, none, some, Bytes, arith, true,
  false, Bool-cases, Option-cases, inl, inr, take, drop, length, ltb,
}
use zhttp.Net.Memory.{Malloc}
use zhttp.Net.Buffer.{
  Buffer, readable, readable_bytes, find_crlf, search_crlf, retrieve, read_string, append,
}
use zhttp.Net.Buffer.Validity.{IsValid, length-readable, retrieve-IsValid, readable-retrieve}
use zhttp.Net.Buffer.Queue.{read_string_lem, append-some}
use zhttp.Http.Parser.{
  HttpParser, ParseState, request_line, headers, body, ParseResult, need_more, ok, after_line,
  line_round, after_body, parse_body, Round, return, continue, round_in, Outcome, parse_loop, parse,
  parse_request_line, parse_headers, set_body,
}
use zhttp.Http.Parser.Stream.{
  Verdict, stop, advance, after_text, line_verdict, decide_in, text_loop, TextOutcome,
  text_loop_total, text_loop_more, text_loop_chunks, rank-le, Verdict-cases, some_outcome,
}

-- A round does to the buffer what the verdict says of its text.
abbrev pub Simulates : Buffer → Verdict → Round → Type 0
Simulates b (stop result q) r = r ≡ return result q b
Simulates b (advance n q) r =
    (b' : Buffer) × (r ≡ continue q b') × IsValid b' × (readable b' ≡ drop n (readable b))

after_line-Simulates :
    (n : ℕ) (x : ParseResult × HttpParser) (b : Buffer)
    → IsValid b
    → Simulates b (after_text n x) (after_line n x b)
after_line-Simulates n (ParseResult.error, p) b v = refl
after_line-Simulates n (ok, p) b v =
    (retrieve (n + 2) b, refl, retrieve-IsValid (n + 2) b v, readable-retrieve (n + 2) b v)
after_line-Simulates n (ParseResult.complete, p) b v =
    (retrieve (n + 2) b, refl, retrieve-IsValid (n + 2) b v, readable-retrieve (n + 2) b v)
after_line-Simulates n (need_more, p) b v =
    (retrieve (n + 2) b, refl, retrieve-IsValid (n + 2) b v, readable-retrieve (n + 2) b v)

line_round-Simulates :
    (step : Bytes → HttpParser → ParseResult × HttpParser) (p : HttpParser) (b : Buffer)
    → IsValid b
    → Simulates b
        (line_verdict step (search_crlf (readable b)) p (readable b))
        (line_round step (find_crlf b) p b)
unfolding find_crlf
line_round-Simulates step p b v = elim (Option-cases (search_crlf (readable b))) [
  | inl missed ↦ rw missed refl
  | inr (n, found) ↦ rw found (after_line-Simulates n (step (take n (readable b)) p) b v)
]

body_round-Simulates :
    (p : HttpParser) (b : Buffer)
    → IsValid b
    → Simulates b (decide_in body p (readable b)) (after_body (parse_body p b))
unfolding decide_in parse_body
body_round-Simulates p b v = elim (Bool-cases (ltb (length (readable b)) p.content_length)) [
  | inl short ↦
      rw (short, subst (λ k. ltb k p.content_length ≡ true) (length-readable b v) short) refl
  | inr enough ↦
      let n = p.content_length in
      let (got, left, valid) = read_string_lem n b v in
      rw (enough, subst (λ k. ltb k n ≡ false) (length-readable b v) enough)
        (
          (read_string n b).1,
          ap (λ t. continue (set_body t p) (read_string n b).1) got,
          valid,
          left,
        )
]

round_in-Simulates :
    (st : ParseState) (p : HttpParser) (b : Buffer)
    → IsValid b
    → Simulates b (decide_in st p (readable b)) (round_in st p b)
unfolding decide_in round_in
round_in-Simulates request_line p b v = line_round-Simulates parse_request_line p b v
round_in-Simulates headers p b v = line_round-Simulates parse_headers p b v
round_in-Simulates body p b v = body_round-Simulates p b v
round_in-Simulates ParseState.complete p b v = refl
round_in-Simulates ParseState.error p b v = refl

-- The two loops end alike, with the same text left.
abbrev pub Agrees : Option TextOutcome → Option Outcome → Type 0
Agrees none o = o ≡ none
Agrees (some (result, q, s)) o =
    (b : Buffer) × (o ≡ some (result, q, b)) × IsValid b × (readable b ≡ s)

parse_loop-Agrees :
    (f : ℕ) (p : HttpParser) (b : Buffer)
    → IsValid b
    → Agrees (text_loop f p (readable b)) (parse_loop f p b)
unfolding text_loop parse_loop
parse_loop-Agrees zero p b v = refl
parse_loop-Agrees (suc f) p b v = elim (Verdict-cases (decide_in p.state p (readable b))) [
  | inl (r, q, d) ↦
      let same : round_in p.state p b ≡ return r q b = rw d at (round_in-Simulates p.state p b v) in
      rw (d, same) (b, refl, v, refl)
  | inr (n, q, d) ↦
      let (b', same, valid, text) = rw d at (round_in-Simulates p.state p b v) in
      rw (d, same)
        (subst (λ s. Agrees (text_loop f q s) (parse_loop f q b')) text
          (parse_loop-Agrees f q b' valid))
]

-- The loop over the text, with the fuel of `parse`.
abbrev pub parse_text : HttpParser → Bytes → Option TextOutcome
parse_text p s = text_loop (length s + 3) p s

-- `parse` on a valid buffer always returns: its fuel is enough. Its result and its parser are those
-- of the loop over the readable text, and the buffer stays valid and holds the rest of that text.
pub parse_lem :
    (p : HttpParser) (b : Buffer)
    → IsValid b
    → (r : ParseResult) × (q : HttpParser) × (c : Buffer) × (parse p b ≡ some (r, q, c))
      × (parse_text p (readable b) ≡ some (r, q, readable c))
      × IsValid c
unfolding parse
parse_lem p b v =
    let (x, found) =
      text_loop_total (length (readable b) + 3) p (readable b) (omega (arith, rank-le p.state)) in
    let fuel : readable_bytes b + 3 ≡ length (readable b) + 3 =
      omega (arith, length-readable b v) in
    let (c, run, valid, text) = rw found at (parse_loop-Agrees (length (readable b) + 3) p b v) in
    (
      x.0,
      x.1,
      c,
      ap (λ f. parse_loop f p b) fuel ∙ run,
      found ∙ ap (λ s. some (x.0, x.1, s)) (sym text),
      valid,
    )

-- The same for an outcome that is known.
pub parse-some :
    (p q : HttpParser) (b c : Buffer) (r : ParseResult)
    → IsValid b
    → parse p b ≡ some (r, q, c)
    → (parse_text p (readable b) ≡ some (r, q, readable c)) × IsValid c
parse-some p q b c r v e =
    let (r', q', c', run, text, valid) = parse_lem p b v in
    let same : ◌≡◌ {A = Option Outcome} (some (r', q', c')) (some (r, q, c)) = sym run ∙ e in
    let here : c' ≡ c = cc in (cc, subst IsValid here valid)

-- One outcome from the same text, whatever the fuels.
pub text_loop_unique :
    (f g : ℕ) (p : HttpParser) (s : Bytes) (x y : TextOutcome)
    → text_loop f p s ≡ some x
    → text_loop g p s ≡ some y
    → ◌≡◌ {A = Option TextOutcome} (some x) (some y)
text_loop_unique f g p s x y e k =
    sym (text_loop_more f (f + g) p s x (omega arith) e)
    ∙ text_loop_more g (f + g) p s y (omega arith) k

-- Two runs of the parser that end alike.
pub record SameEnd (p q : HttpParser) (b c : Buffer) : Type 0 where
  pub result : ParseResult
  pub parser : HttpParser
  pub left : Buffer
  pub right : Buffer
  pub from_left : parse p b ≡ some (result, parser, left)
  pub from_right : parse q c ≡ some (result, parser, right)
  pub same_text : readable left ≡ readable right

-- A request may arrive in pieces. If the parser waits for more after a first piece, and a second
-- one is appended to what it left, it ends with the result, the parser and the remaining text that
-- it has when both pieces are there at the start.
pub parse_chunks :
    (m m' : Malloc) (p q : HttpParser) (b c d e : Buffer) (more : Bytes)
    → IsValid b
    → parse p b ≡ some (need_more, q, c)
    → append m more c ≡ some d
    → append m' more b ≡ some e
    → SameEnd q p d e
parse_chunks m m' p q b c d e more v waits made whole =
    let (first, valid) = parse-some p q b c need_more v waits in
    let (valid_d, end_d) = append-some m more c d valid made in
    let (valid_e, end_e) = append-some m' more b e v whole in
    let (r, w, d', run_d, text_d, _) = parse_lem q d valid_d in
    let (r', w', e', run_e, text_e, _) = parse_lem p e valid_e in
    let joint =
      text_loop_chunks (length (readable b) + 3) (length (readable d) + 3) p q (readable b)
        (readable c) more (r, w, readable d') first
        (ap (text_loop (length (readable d) + 3) q) (sym end_d) ∙ text_d) in
    let at_once = ap (text_loop (length (readable e) + 3) p) (sym end_e) ∙ text_e in
    let (results, parsers, texts) = some_outcome (
      text_loop_unique _ _ p (readable b ++ more) (r, w, readable d') (r', w', readable e') joint
        at_once) in
    record {
      result = r;
      parser = w;
      left = d';
      right = e';
      from_left = run_d;
      from_right = run_e ∙ cc (results, parsers);
      same_text = texts;
    }
