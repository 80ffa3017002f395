-- ===== src/Http/Parser.antt =====
-- zhttp/include/http_parser.h and zhttp/src/http_parser.cc: the incremental request parser, over the
-- buffer of the network layer. `request_` is owned by the parser, so it is a field.
pub mod Stream
pub mod Refinement
pub mod RoundTrip
use zhttp.Prelude.{
  ℕ, zero, suc, ◌+◌, Bool, true, false, [], ◌∷◌, ◌++◌, Option, none, some, Bytes, codes, cut, take,
  ltb, ◌==◌, if◌then◌else◌,
}
use zhttp.Net.Buffer.{Buffer, find_crlf, readable, readable_bytes, retrieve, read_string}
use zhttp.Http.Common.{HttpMethod, HttpVersion, string_to_method, string_to_version}
use zhttp.Http.Request.{
  HttpRequest, Params, new_request, set_header, parse_query_params, content_length,
}

pub data ParseState : Type 0 where
  request_line headers body complete error : ParseState

pub data ParseResult : Type 0 where
  ok complete need_more error : ParseResult

pub record HttpParser : Type 0 where
  pub state : ParseState
  pub request : HttpRequest
  pub error : Bytes
  pub content_length : ℕ

abbrev pub new_parser : (Params → Params) → HttpParser
new_parser order = record {
  state = request_line;
  request = new_request order;
  error = [];
  content_length = 0;
}

unfoldable pub reset : HttpParser → HttpParser
reset p = record p {
  state = request_line;
  request = new_request p.request.order;
  error = [];
  content_length = 0;
}

-- The parser after a failure.
abbrev pub fail : Bytes → HttpParser → ParseResult × HttpParser
fail text p = (ParseResult.error, record p { error = text; state = ParseState.error })

abbrev pub set_uri_parts : Bytes → Option (Bytes × Bytes) → HttpRequest → HttpRequest
set_uri_parts uri none r = record r { path = uri }
set_uri_parts uri (some (path, query)) r =
    parse_query_params (record r { path = path; query = query })

-- Splits the URI at its first '?'.
unfoldable pub set_uri : Bytes → HttpRequest → HttpRequest
set_uri uri r = set_uri_parts uri (cut b'?' uri) r

abbrev pub is_unknown : HttpMethod → Bool
is_unknown HttpMethod.unknown = true
is_unknown _ = false

abbrev pub is_unknown_version : HttpVersion → Bool
is_unknown_version HttpVersion.unknown = true
is_unknown_version _ = false

abbrev pub no_method : Bytes
no_method = codes "Invalid request line: no method"

abbrev pub no_uri : Bytes
no_uri = codes "Invalid request line: no URI"

abbrev pub no_colon : Bytes
no_colon = codes "Invalid header line: no colon"

-- The three parts of `parse_request_line`, each with what `std::find` of a space left it.
unfoldable pub take_version : Bytes → HttpParser → ParseResult × HttpParser
take_version text p =
    let version = string_to_version text in
    if is_unknown_version version
    then fail (codes "Unknown HTTP version: " ++ text) p
    else (ok, record p { request = record p.request { version = version }; state = headers })

unfoldable pub take_uri : Option (Bytes × Bytes) → HttpParser → ParseResult × HttpParser
take_uri none p = fail no_uri p
take_uri (some (uri, rest)) p = take_version rest (record p { request = set_uri uri p.request })

unfoldable pub take_method : Option (Bytes × Bytes) → HttpParser → ParseResult × HttpParser
take_method none p = fail no_method p
take_method (some (text, rest)) p =
    let method = string_to_method text in
    if is_unknown method
    then fail (codes "Unknown HTTP method: " ++ text) p
    else take_uri (cut 32 rest) (record p { request = record p.request { method = method } })

unfoldable pub parse_request_line : Bytes → HttpParser → ParseResult × HttpParser
parse_request_line line p = take_method (cut 32 line) p

-- The two loops that skip spaces, from the front and from the end.
unfoldable pub trim_front : Bytes → Bytes
trim_front [] = []
trim_front (c ∷ s) = let rest = trim_front s in if c == 32 then rest else c ∷ s

abbrev pub unless_blank : ℕ → Bytes → Bytes
unless_blank c [] = if c == 32 then [] else c ∷ []
unless_blank c (d ∷ s) = c ∷ d ∷ s

unfoldable pub trim_back : Bytes → Bytes
trim_back [] = []
trim_back (c ∷ s) = unless_blank c (trim_back s)

unfoldable pub take_header : Option (Bytes × Bytes) → HttpParser → ParseResult × HttpParser
take_header none p = fail no_colon p
take_header (some (key, value)) p =
    (ok, record p { request = set_header key (trim_back (trim_front value)) p.request })

unfoldable pub end_headers : HttpParser → HttpParser
end_headers p =
    let n = content_length p.request in
    record p { content_length = n; state = if ltb 0 n then body else complete }

unfoldable pub parse_headers : Bytes → HttpParser → ParseResult × HttpParser
parse_headers [] p = (ok, end_headers p)
parse_headers (c ∷ s) p = take_header (cut b':' (c ∷ s)) p

unfoldable pub set_body : Bytes → HttpParser → HttpParser
set_body text p = record p { request = record p.request { body = text }; state = complete }

unfoldable pub parse_body : HttpParser → Buffer → ParseResult × HttpParser × Buffer
parse_body p b =
    if ltb (readable_bytes b) p.content_length
    then (need_more, p, b)
    else (let (text, b') = read_string p.content_length b in
        (ParseResult.complete, set_body text p, b'))

-- One round of the loop of `parse`: it returns, or goes on.
pub data Round : Type 0 where
  return : ParseResult → HttpParser → Buffer → Round
  continue : HttpParser → Buffer → Round

abbrev pub after_line : ℕ → ParseResult × HttpParser → Buffer → Round
after_line n (ParseResult.error, p) b = return ParseResult.error p b
after_line n (result, p) b = continue p (retrieve (n + 2) b)

abbrev pub line_round :
    (Bytes → HttpParser → ParseResult × HttpParser) → Option ℕ → HttpParser → Buffer → Round
line_round step none p b = return need_more p b
line_round step (some n) p b = after_line n (step (take n (readable b)) p) b

abbrev pub after_body : ParseResult × HttpParser × Buffer → Round
after_body (ParseResult.complete, p, b) = continue p b
after_body (result, p, b) = return result p b

unfoldable pub round_in : ParseState → HttpParser → Buffer → Round
round_in request_line p b = line_round parse_request_line (find_crlf b) p b
round_in headers p b = line_round parse_headers (find_crlf b) p b
round_in body p b = after_body (parse_body p b)
round_in ParseState.complete p b = return ParseResult.complete p b
round_in ParseState.error p b = return ParseResult.error p b

abbrev pub Outcome : Type 0
Outcome = ParseResult × HttpParser × Buffer

abbrev pub follow : (HttpParser → Buffer → Option Outcome) → Round → Option Outcome
follow rest (return result p b) = some (result, p, b)
follow rest (continue p b) = rest p b

-- The loop on fuel; `none` means that the fuel ran out.
unfoldable pub parse_loop : ℕ → HttpParser → Buffer → Option Outcome
parse_loop zero p b = none
parse_loop (suc fuel) p b = follow (parse_loop fuel) (round_in p.state p b)

-- A round that goes on takes two bytes or leaves the reading of lines for good.
unfoldable pub parse : HttpParser → Buffer → Option Outcome
parse p b = parse_loop (readable_bytes b + 3) p b
