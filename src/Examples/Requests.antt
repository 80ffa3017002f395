-- ===== src/Examples/Requests.antt =====
-- Requests, their texts and the parser at concrete inputs.
use zhttp.Prelude.{
  Option, none, ◌+◌, ◌-◌, ◌≡◌, refl, List, [], ◌∷◌, ◌++◌, some, Bytes, codes, arith, length,
  bytes_eq, insert, cut, take_all,
}
use zhttp.Net.Memory.{segment, overwrite, allocate}
use zhttp.Net.Buffer.{
  Buffer, find_crlf, search_crlf, make_space, prependable_bytes, readable, append, readable_bytes,
  has_written, ensure_writable_bytes, writable_bytes, retrieve,
}
use zhttp.Net.Buffer.Validity.{IsValid}
use zhttp.Examples.Buffers.{small_malloc}
use zhttp.Http.Common.{
  get, post, http_1_1, method_to_string, string_to_method, to_lower, to_upper, method_of_upper,
  string_to_version,
}
use zhttp.Http.Common.Laws.{string_to_method-method_to_string}
use zhttp.Http.Text.{strtoul, to_decimal, url_decode, digits_value}
use zhttp.Http.Text.Decimal.{strtoul-to_decimal}
use zhttp.Http.Text.Percent.{percent_encode, url_decode-percent_encode}
use zhttp.Http.Request.{
  HttpRequest, Params, new_request, header, set_header, content_length, find_header,
  parse_query_params,
}
use zhttp.Http.Request.Query.{form_query, insert_all, AreBytes, parse_query_params-form_query}
use zhttp.Http.Parser.{
  HttpParser, ParseResult, need_more, headers, new_parser, parse, parse_loop, round_in, set_uri,
  trim_front, trim_back, parse_request_line, take_method, take_uri, take_version,
}
use zhttp.Http.Parser.Refinement.{parse_text, parse_lem, SameEnd, parse_chunks}
use zhttp.Http.Parser.RoundTrip.{Message, wire, meant, IsHeader, IsMessage, parse-wire}

string_to_method-method_to_string_example : string_to_method (method_to_string post) ≡ post
string_to_method-method_to_string_example = string_to_method-method_to_string post

url_decode-percent_encode_example : url_decode (percent_encode (32 ∷ (255 ∷ []))) ≡ 32 ∷ (255 ∷ [])
url_decode-percent_encode_example =
    url_decode-percent_encode (32 ∷ (255 ∷ [])) ((omega arith), ((omega arith), tt))

strtoul-to_decimal_example : strtoul (to_decimal 1024) ≡ 1024
strtoul-to_decimal_example = strtoul-to_decimal 1024 (omega arith)

-- The later entry first, as in the C++ library of GCC where the entries share no bucket.
abbrev reverse_order : Params → Params
reverse_order [] = []
reverse_order (p ∷ ps) = reverse_order ps ++ (p ∷ [])

abbrev one_field : List (Bytes × Bytes)
one_field = (codes "q", codes "a b") ∷ []

abbrev form_request : HttpRequest
form_request = record (new_request reverse_order) { query = form_query one_field }

parse_query_params-form_query_example :
    (parse_query_params form_request).query_params ≡ insert_all one_field []
parse_query_params-form_query_example =
    parse_query_params-form_query form_request one_field refl (are_bytes, tt)
  where
    are_bytes : AreBytes (codes "q", codes "a b")
    are_bytes = (((omega arith), tt), ((omega arith), ((omega arith), ((omega arith), tt))))

abbrev short_message : Message
short_message = record {
  method = post;
  uri = codes "/a";
  version = http_1_1;
  headers = (codes "Content-Length", codes "2") ∷ [];
  body = codes "hi";
}

abbrev holding : Bytes → Buffer
holding s = record {
  memory = 0 ∷ 0 ∷ 0 ∷ 0 ∷ 0 ∷ 0 ∷ 0 ∷ 0 ∷ s;
  capacity = 8 + length s;
  reader_index = 8;
  writer_index = 8 + length s;
}

holding-IsValid : (s : Bytes) → IsValid (holding s)
holding-IsValid s = record {
  header = (omega arith);
  ordered = (omega arith);
  within = (omega arith);
  backed = (omega arith);
}

readable-holding : (s : Bytes) → readable (holding s) ≡ s
unfolding readable segment
readable-holding s = take_all (8 + length s - 8) s (omega arith)

announced-IsHeader : IsHeader (codes "Content-Length", codes "2")
unfolding trim_front trim_back
announced-IsHeader = record {
  named = λ e. cc;
  no_colon = ground arith;
  one_line_key = ground arith;
  one_line_value = ground arith;
  trimmed = refl;
}

short_message-IsMessage : IsMessage reverse_order short_message
unfolding content_length header find_header strtoul set_header insert set_uri to_lower bytes_eq cut
    digits_value
short_message-IsMessage = record {
  known_method = λ e. cc;
  known_version = λ e. cc;
  uri_one_word = ground arith;
  uri_one_line = ground arith;
  good_headers = (announced-IsHeader, tt);
  announced = refl;
}

parse-wire_example :
    (q : HttpParser) × (c : Buffer) × (parse
        (new_parser reverse_order)
        (holding (wire short_message (codes "GET")))
      ≡ some (ParseResult.complete, q, c))
    × (q.request ≡ meant reverse_order short_message)
    × (readable c ≡ codes "GET")
    × IsValid c
parse-wire_example =
    parse-wire reverse_order short_message (codes "GET")
      (holding (wire short_message (codes "GET"))) short_message-IsMessage
      (holding-IsValid (wire short_message (codes "GET")))
      (readable-holding (wire short_message (codes "GET")))

parse_lem_example :
    (r : ParseResult) × (q : HttpParser) × (c : Buffer) × (parse
        (new_parser reverse_order)
        (holding (codes "GET /"))
      ≡ some (r, q, c))
    × (parse_text (new_parser reverse_order) (readable (holding (codes "GET /")))
        ≡ some (r, q, readable c))
    × IsValid c
parse_lem_example =
    parse_lem (new_parser reverse_order) (holding (codes "GET /")) (holding-IsValid (codes "GET /"))

abbrev first_piece : Bytes
first_piece = codes "GET / HTTP/1.1" ++ (13 ∷ 10 ∷ codes "Ho")

abbrev second_piece : Bytes
second_piece = codes "st: h" ++ (13 ∷ 10 ∷ 13 ∷ 10 ∷ [])

-- The parser and the buffer after the request line.
abbrev in_headers : HttpParser
in_headers = record (new_parser reverse_order) {
  state = headers;
  request = record (new_request reverse_order) { method = get; path = codes "/" };
}

abbrev two_left : Buffer
two_left = record (holding first_piece) { reader_index = 24 }

waits :
    parse (new_parser reverse_order) (holding first_piece) ≡ some (need_more, in_headers, two_left)
unfolding parse parse_loop readable_bytes round_in find_crlf search_crlf readable segment
    parse_request_line take_method cut string_to_method method_of_upper bytes_eq to_upper take_uri
    take_version string_to_version retrieve set_uri
waits = refl

abbrev buffer_of : Option Buffer → Buffer
buffer_of none = holding []
buffer_of (some b) = b

abbrev resumed : Buffer
resumed = buffer_of (append small_malloc second_piece two_left)

abbrev whole : Buffer
whole = buffer_of (append small_malloc second_piece (holding first_piece))

resumed_joined : append small_malloc second_piece two_left ≡ some resumed
unfolding append ensure_writable_bytes make_space has_written overwrite writable_bytes
    prependable_bytes readable readable_bytes segment allocate
resumed_joined = refl

whole_joined : append small_malloc second_piece (holding first_piece) ≡ some whole
unfolding append ensure_writable_bytes make_space has_written overwrite writable_bytes
    prependable_bytes readable readable_bytes segment allocate
whole_joined = refl

parse_chunks_example : SameEnd in_headers (new_parser reverse_order) resumed whole
parse_chunks_example =
    parse_chunks small_malloc small_malloc (new_parser reverse_order) in_headers
      (holding first_piece) two_left resumed whole second_piece (holding-IsValid first_piece) waits
      resumed_joined whole_joined
