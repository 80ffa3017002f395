-- ===== src/Http/Response.antt =====
-- zhttp/include/http_response.h and zhttp/src/http_response.cc. A status is its number, as the code casts any
-- integer to one.
use zhttp.Prelude.{
  ℕ, Bool, true, [], ◌∷◌, ◌++◌, Option, none, some, Bytes, codes, bytes_key, Dict, lookup, insert,
  if◌then◌else◌, length,
}
use zhttp.Http.Common.{HttpVersion, http_1_1, version_to_string, status_to_string}
use zhttp.Http.Text.{to_decimal}

-- `order` gives the entries of the unordered map of headers in the order in which it iterates over them; it comes with the
-- C++ library.
pub record HttpResponse : Type 0 where
  pub status : ℕ
  pub version : HttpVersion
  pub headers : Dict Bytes Bytes
  pub order : Dict Bytes Bytes → Dict Bytes Bytes
  pub body : Bytes
  pub keep_alive : Bool

unfoldable pub new_response : (Dict Bytes Bytes → Dict Bytes Bytes) → HttpResponse
new_response order = record {
  status = 200;
  version = http_1_1;
  headers = insert (codes "Server") (codes "zhttp/1.0") [];
  order = order;
  body = [];
  keep_alive = true;
}

unfoldable pub set_status : ℕ → HttpResponse → HttpResponse
set_status code r = record r { status = code }

unfoldable pub set_header : Bytes → Bytes → HttpResponse → HttpResponse
set_header key value r = record r { headers = insert key value r.headers }

unfoldable pub set_content_type : Bytes → HttpResponse → HttpResponse
set_content_type type r = set_header (codes "Content-Type") type r

unfoldable pub set_body : Bytes → HttpResponse → HttpResponse
set_body body r = record r { body = body }

unfoldable pub json : Bytes → HttpResponse → HttpResponse
json text r = set_body text (set_content_type (codes "application/json; charset=utf-8") r)

unfoldable pub html : Bytes → HttpResponse → HttpResponse
html text r = set_body text (set_content_type (codes "text/html; charset=utf-8") r)

unfoldable pub text : Bytes → HttpResponse → HttpResponse
text s r = set_body s (set_content_type (codes "text/plain; charset=utf-8") r)

unfoldable pub redirect : Bytes → ℕ → HttpResponse → HttpResponse
redirect url code r = set_body [] (set_header (codes "Location") url (set_status code r))

-- "\r\n" and what follows.
abbrev pub line_end : Bytes → Bytes
line_end s = 13 ∷ 10 ∷ s

abbrev pub header_line : Bytes × Bytes → Bytes → Bytes
header_line (key, value) s = key ++ (codes ": " ++ (value ++ line_end s))

-- The loop over the headers as it meets them, before the rest of the text.
unfoldable pub header_lines : Dict Bytes Bytes → Bytes → Bytes
header_lines [] s = s
header_lines (h ∷ hs) s = header_line h (header_lines hs s)

-- A header that is written only where the map has none.
abbrev pub unless_set : Option Bytes → Bytes × Bytes → Bytes → Bytes
unless_set none h s = header_line h s
unless_set (some v) h s = s

abbrev pub connection_value : Bool → Bytes
connection_value keep = if keep then codes "keep-alive" else codes "close"

unfoldable pub serialize : HttpResponse → Bytes
serialize r =
    version_to_string r.version
    ++ (codes " "
        ++ (to_decimal r.status
            ++ (codes " "
                ++ (status_to_string r.status
                    ++ line_end (
                        header_lines (r.order r.headers) (
                          unless_set (lookup (codes "Content-Length") r.headers)
                            (codes "Content-Length", to_decimal (length r.body))
                            (unless_set (lookup (codes "Connection") r.headers)
                              (codes "Connection", connection_value r.keep_alive)
                              (line_end r.body))))))))
