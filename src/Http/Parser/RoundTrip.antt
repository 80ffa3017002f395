-- ===== src/Http/Parser/RoundTrip.antt =====
-- zhttp/src/http_parser.cc against requests as a client writes them.
use zhttp.Prelude.{
  ℕ, suc, ◌+◌, ◌≡◌, ◌≢◌, refl, ap, sym, subst, ◌∙◌, List, [], ◌∷◌, ◌++◌, some, Bytes, arith, true,
  false, Option-cases, All, Lacks, inl, inr, drop, length, ltb, cut, cut-append, take-append_length,
  drop_cong, drop-append_length, length-append,
}
use zhttp.Net.Buffer.{Buffer, readable, search_crlf}
use zhttp.Net.Buffer.Validity.{IsValid}
use zhttp.Net.Buffer.Search.{search_crlf-line}
use zhttp.Http.Common.{HttpMethod, get, HttpVersion, http_1_0, method_to_string, version_to_string}
use zhttp.Http.Common.Laws.{string_to_method-method_to_string, string_to_version-version_to_string}
use zhttp.Http.Request.{
  HttpRequest, Params, new_request, set_header, content_length, parse_query_params,
}
use zhttp.Http.Parser.{
  HttpParser, new_parser, ParseState, headers, body, ParseResult, ok, parse, parse_request_line,
  parse_headers, take_version, take_uri, take_method, take_header, trim_front, trim_back, set_uri,
  set_body, end_headers, is_unknown, is_unknown_version,
}
use zhttp.Http.Parser.Stream.{
  stop, advance, decide_in, text_loop, TextOutcome, line_verdict, some_outcome,
}
use zhttp.Http.Parser.Refinement.{parse_lem, text_loop_unique}

-- A request as its parts.
pub record Message : Type 0 where
  pub method : HttpMethod
  pub uri : Bytes
  pub version : HttpVersion
  pub headers : List (Bytes × Bytes)
  pub body : Bytes

abbrev pub crlf : Bytes → Bytes
crlf s = 13 ∷ 10 ∷ s

abbrev pub first_line : Message → Bytes
first_line m = method_to_string m.method ++ (32 ∷ (m.uri ++ (32 ∷ version_to_string m.version)))

abbrev pub header_line : Bytes × Bytes → Bytes
header_line (key, value) = key ++ (b':' ∷ 32 ∷ value)

abbrev pub header_lines : List (Bytes × Bytes) → Bytes → Bytes
header_lines [] end = end
header_lines (h ∷ hs) end = header_line h ++ crlf (header_lines hs end)

-- The message on the wire, with the text that follows it.
abbrev pub wire : Message → Bytes → Bytes
wire m rest = first_line m ++ crlf (header_lines m.headers (crlf (m.body ++ rest)))

-- The request that the message means.
abbrev pub set_headers : List (Bytes × Bytes) → HttpRequest → HttpRequest
set_headers [] r = r
set_headers ((key, value) ∷ hs) r = set_headers hs (set_header key value r)

abbrev pub head_of : (Params → Params) → Message → HttpRequest
head_of order m =
    let named : HttpRequest = record (new_request order) { method = m.method } in
    let located : HttpRequest = set_uri m.uri named in
    set_headers m.headers (record located { version = m.version })

abbrev pub meant : (Params → Params) → Message → HttpRequest
meant order m = record (head_of order m) { body = m.body }

-- A header that fits on a line: a name without colon, a value without outer spaces.
pub record IsHeader (h : Bytes × Bytes) : Type 0 where
  pub named : h.0 ≢ []
  pub no_colon : Lacks b':' h.0
  pub one_line_key : Lacks 13 h.0
  pub one_line_value : Lacks 13 h.1
  pub trimmed : trim_back (trim_front h.1) ≡ h.1

-- The length that the code finds, in the order in which its map iterates, is that of the body: where a message has two
-- spellings of Content-Length with different values, one order satisfies this and another does not.
pub record IsMessage (order : Params → Params) (m : Message) : Type 0 where
  pub known_method : m.method ≢ HttpMethod.unknown
  pub known_version : m.version ≢ HttpVersion.unknown
  pub uri_one_word : Lacks 32 m.uri
  pub uri_one_line : Lacks 13 m.uri
  pub good_headers : All IsHeader m.headers
  pub announced : content_length (head_of order m) ≡ length m.body

-- The loop reaches an outcome, with some fuel.
abbrev Runs : HttpParser → Bytes → TextOutcome → Type 0
Runs p s x = (f : ℕ) × (text_loop f p s ≡ some x)

Runs-stop :
    (r : ParseResult) (p q : HttpParser) (s : Bytes)
    → decide_in p.state p s ≡ stop r q
    → Runs p s (r, q, s)
unfolding text_loop
Runs-stop r p q s d = (1, rw d refl)

Runs-advance :
    (n : ℕ) (p q : HttpParser) (s s' : Bytes) (x : TextOutcome)
    → decide_in p.state p s ≡ advance n q
    → drop n s ≡ s'
    → Runs q s' x
    → Runs p s x
unfolding text_loop
Runs-advance n p q s s' x d e (f, run) = (suc f, rw d (ap (text_loop f q) e ∙ run))

line_verdict-ok :
    (step : Bytes → HttpParser → ParseResult × HttpParser) (p q : HttpParser) (line rest : Bytes)
    → Lacks 13 line
    → step line p ≡ (ok, q)
    → line_verdict step (search_crlf (line ++ crlf rest)) p (line ++ crlf rest)
      ≡ advance (length line + 2) q
line_verdict-ok step p q line rest h e =
    rw (search_crlf-line line rest h, take-append_length (length line) line (crlf rest) refl, e)
      refl

drop_line : (line rest : Bytes) → drop (length line + 2) (line ++ crlf rest) ≡ rest
drop_line [] rest = refl
drop_line (c ∷ line) rest =
    drop_cong (suc (length line) + 2) (suc (length line + 2)) (c ∷ (line ++ crlf rest))
      (omega arith)
    ∙ drop_line line rest

Lacks-append : (x : ℕ) (a b : Bytes) → Lacks x a → Lacks x b → Lacks x (a ++ b)
Lacks-append x [] b h k = k
Lacks-append x (c ∷ a) b (p, h) k = (p, Lacks-append x a b h k)

method_to_string-Lacks :
    (m : HttpMethod) → Lacks 32 (method_to_string m) × Lacks 13 (method_to_string m)
unfolding method_to_string
method_to_string-Lacks get = omega arith
method_to_string-Lacks _ = omega arith

version_to_string-Lacks : (v : HttpVersion) → Lacks 13 (version_to_string v)
unfolding version_to_string
version_to_string-Lacks http_1_0 = omega arith
version_to_string-Lacks _ = omega arith

is_unknown-false : (m : HttpMethod) → m ≢ HttpMethod.unknown → is_unknown m ≡ false
is_unknown-false HttpMethod.unknown h = absurd (h refl)
is_unknown-false _ h = refl

is_unknown_version-false :
    (v : HttpVersion) → v ≢ HttpVersion.unknown → is_unknown_version v ≡ false
is_unknown_version-false HttpVersion.unknown h = absurd (h refl)
is_unknown_version-false _ h = refl

-- The parser between two lines of the head.
abbrev at_headers : HttpRequest → HttpParser
at_headers r = record { state = headers; request = r; error = []; content_length = 0 }

abbrev started : (Params → Params) → Message → HttpRequest
started order m =
    let named : HttpRequest = record (new_request order) { method = m.method } in
    let located : HttpRequest = set_uri m.uri named in record located { version = m.version }

parse_request_line-first_line :
    (order : Params → Params) (m : Message)
    → IsMessage order m
    → parse_request_line (first_line m) (new_parser order) ≡ (ok, at_headers (started order m))
unfolding parse_request_line take_method take_uri take_version
parse_request_line-first_line order m v =
    rw
      (
        cut-append 32 (method_to_string m.method) (m.uri ++ (32 ∷ version_to_string m.version))
            (method_to_string-Lacks m.method).0,
        string_to_method-method_to_string m.method,
        is_unknown-false m.method v.known_method,
        cut-append 32 m.uri (version_to_string m.version) v.uri_one_word,
        string_to_version-version_to_string m.version v.known_version,
        is_unknown_version-false m.version v.known_version,
      )
      refl

first_line-Lacks :
    (order : Params → Params) (m : Message) → IsMessage order m → Lacks 13 (first_line m)
first_line-Lacks order m v =
    Lacks-append 13 (method_to_string m.method) _ (method_to_string-Lacks m.method).1 (
      (λ e. omega arith),
      Lacks-append 13 m.uri _ v.uri_one_line
          ((λ e. omega arith), version_to_string-Lacks m.version),
    )

trim_front_space : (s : Bytes) → trim_back (trim_front (32 ∷ s)) ≡ trim_back (trim_front s)
unfolding trim_front
trim_front_space s = refl

decide-headers :
    (p q : HttpParser) (line rest : Bytes)
    → p.state ≡ headers
    → Lacks 13 line
    → parse_headers line p ≡ (ok, q)
    → decide_in p.state p (line ++ crlf rest) ≡ advance (length line + 2) q
unfolding decide_in
decide-headers p q line rest st h e =
    ap (λ st. decide_in st p (line ++ crlf rest)) st
    ∙ line_verdict-ok parse_headers p q line rest h e

parse_headers-header_line :
    (key value : Bytes) (r : HttpRequest)
    → IsHeader (key, value)
    → parse_headers (header_line (key, value)) (at_headers r)
      ≡ (ok, at_headers (set_header key value r))
unfolding parse_headers take_header
parse_headers-header_line [] value r v = absurd (v.named refl)
parse_headers-header_line (c ∷ key) value r v =
    rw (cut-append b':' (c ∷ key) (32 ∷ value) v.no_colon)
      (ap (λ t. (ok, at_headers (set_header (c ∷ key) t r))) (trim_front_space value ∙ v.trimmed))

header_line-Lacks :
    (key value : Bytes) → IsHeader (key, value) → Lacks 13 (header_line (key, value))
header_line-Lacks key value v =
    Lacks-append 13 key _ v.one_line_key
      ((λ e. omega arith), ((λ e. omega arith), v.one_line_value))

Runs-header_lines :
    (hs : List (Bytes × Bytes)) (r : HttpRequest) (end : Bytes) (x : TextOutcome)
    → All IsHeader hs
    → Runs (at_headers (set_headers hs r)) end x
    → Runs (at_headers r) (header_lines hs end) x
Runs-header_lines [] r end x v run = run
Runs-header_lines ((key, value) ∷ hs) r end x (v, vs) run =
    let line : Bytes = header_line (key, value) in
    let rest : Bytes = header_lines hs end in
    Runs-advance (length line + 2) (at_headers r) (at_headers (set_header key value r))
      (line ++ crlf rest) rest x
      (decide-headers (at_headers r) (at_headers (set_header key value r)) line rest refl
        (header_line-Lacks key value v) (parse_headers-header_line key value r v))
      (drop_line line rest) (Runs-header_lines hs (set_header key value r) end x vs run)

abbrev ended : HttpRequest → ℕ → ParseState → HttpParser
ended r n st = record { state = st; request = r; error = []; content_length = n }

end_headers-empty :
    (r : HttpRequest)
    → content_length r ≡ 0
    → end_headers (at_headers r) ≡ ended r 0 ParseState.complete
unfolding end_headers
end_headers-empty r e = rw e refl

end_headers-full :
    (r : HttpRequest) (n : ℕ)
    → content_length r ≡ suc n
    → end_headers (at_headers r) ≡ ended r (suc n) body
unfolding end_headers
end_headers-full r n e =
    let some_body : ltb 0 (suc n) ≡ true = ground arith in rw (e, some_body) refl

decide-body :
    (r : HttpRequest) (text rest : Bytes)
    → decide_in body (ended r (length text) body) (text ++ rest)
      ≡ advance (length text) (set_body text (ended r (length text) body))
unfolding decide_in
decide-body r text rest =
    let there : ltb (length (text ++ rest)) (length text) ≡ false =
      ground (arith, length-append text rest) in
    rw (there, take-append_length (length text) text rest refl) refl

-- The body's text is taken and the parser completes; the request is the head with that body.
Runs-body :
    (r : HttpRequest) (text rest : Bytes)
    → content_length r ≡ length text
    → r.body ≡ []
    → (q : HttpParser) × Runs
        (end_headers (at_headers r))
        (text ++ rest)
        (ParseResult.complete, q, rest)
      × (q.request ≡ record r { body = text })
unfolding decide_in set_body
Runs-body r [] rest e k =
    let q : HttpParser = ended r 0 ParseState.complete in
    (
      q,
      subst (λ p. Runs p rest (ParseResult.complete, q, rest)) (sym (end_headers-empty r e))
          (Runs-stop ParseResult.complete q q rest refl),
      λ i. record r { body = k i },
    )
Runs-body r (c ∷ text) rest e k =
    let p : HttpParser = ended r (length (c ∷ text)) body in
    let q : HttpParser = set_body (c ∷ text) p in
    (
      q,
      subst (λ p. Runs p (c ∷ text ++ rest) (ParseResult.complete, q, rest))
          (sym (end_headers-full r (length text) e))
          (Runs-advance (length (c ∷ text)) p q (c ∷ text ++ rest) rest
            (ParseResult.complete, q, rest) (decide-body r (c ∷ text) rest)
            (drop-append_length (length (c ∷ text)) (c ∷ text) rest refl)
            (Runs-stop ParseResult.complete q q rest refl)),
      refl,
    )

set_headers-body : (hs : List (Bytes × Bytes)) (r : HttpRequest) → (set_headers hs r).body ≡ r.body
unfolding set_header
set_headers-body [] r = refl
set_headers-body ((key, value) ∷ hs) r = set_headers-body hs (set_header key value r)

set_uri-body : (uri : Bytes) (r : HttpRequest) → (set_uri uri r).body ≡ r.body
unfolding set_uri parse_query_params
set_uri-body uri r = elim (Option-cases (cut b'?' uri)) [
  | inl plain ↦ rw plain refl
  | inr (parts, found) ↦ rw found refl
]

-- The whole wire text leads to the request that it means.
Runs-wire :
    (order : Params → Params) (m : Message) (rest : Bytes)
    → IsMessage order m
    → (q : HttpParser) × Runs (new_parser order) (wire m rest) (ParseResult.complete, q, rest)
      × (q.request ≡ meant order m)
unfolding decide_in
Runs-wire order m rest v =
    let (q, run, request) =
      Runs-body (head_of order m) m.body rest v.announced
        (set_headers-body m.headers (started order m) ∙ set_uri-body m.uri _) in
    let x : TextOutcome = (ParseResult.complete, q, rest) in
    let tail : Bytes = m.body ++ rest in
    let blank =
      Runs-advance 2 (at_headers (head_of order m)) (end_headers (at_headers (head_of order m)))
        (crlf tail) tail x
        (decide-headers (at_headers (head_of order m)) _ [] tail refl tt
          (unfold parse_headers in refl))
        refl run in
    let heads = Runs-header_lines m.headers (started order m) (crlf tail) x v.good_headers blank in
    let lines : Bytes = header_lines m.headers (crlf tail) in
    (
      q,
      Runs-advance (length (first_line m) + 2) (new_parser order) (at_headers (started order m))
          (wire m rest) lines x
          (line_verdict-ok parse_request_line (new_parser order) _ (first_line m) lines
            (first_line-Lacks order m v) (parse_request_line-first_line order m v))
          (drop_line (first_line m) lines) heads,
      request,
    )

-- Whatever order the map of headers iterates in: a buffer that starts with a well-formed message, whose Content-Length as found in
-- that order is the length of its body, is parsed to the request that the message means, and exactly the text behind
-- the message is left in the buffer.
pub parse-wire :
    (order : Params → Params) (m : Message) (rest : Bytes) (b : Buffer)
    → IsMessage order m
    → IsValid b
    → readable b ≡ wire m rest
    → (q : HttpParser) × (c : Buffer) × (parse (new_parser order) b
        ≡ some (ParseResult.complete, q, c))
      × (q.request ≡ meant order m)
      × (readable c ≡ rest)
      × IsValid c
parse-wire order m rest b v valid e =
    let (q, (f, run), request) = Runs-wire order m rest v in
    let (r', q', c, run', text, valid') = parse_lem (new_parser order) b valid in
    let (results, parsers, texts) = some_outcome (
      text_loop_unique f _ (new_parser order) (wire m rest) (ParseResult.complete, q, rest) _ run
        (ap (text_loop _ (new_parser order)) (sym e) ∙ text)) in
    (q, c, run' ∙ cc (results, parsers), request, sym texts, valid')
