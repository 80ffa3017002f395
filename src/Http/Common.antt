-- ===== src/Http/Common.antt =====
-- zhttp/include/http_common.h and zhttp/src/http_common.cc: methods, versions, status texts, MIME types.
-- `std::toupper` and `std::tolower` are those of the C locale.
pub mod Laws
use zhttp.Prelude.{
  ℕ, ◌+◌, ◌-◌, ◌&&◌, List, [], ◌∷◌, map, Option, none, some, Bytes, codes, bytes_eq, leb, ◌==◌,
  if◌then◌else◌, Dict, lookup, bytes_key,
}
use mathlib.Core.Option

pub data HttpMethod : Type 0 where
  get post put delete head options patch connect trace unknown : HttpMethod

pub data HttpVersion : Type 0 where
  http_1_0 http_1_1 unknown : HttpVersion

unfoldable pub to_upper : ℕ → ℕ
to_upper c = if leb b'a' c && leb c b'z' then c - 32 else c

unfoldable pub to_lower : ℕ → ℕ
to_lower c = if leb b'A' c && leb c b'Z' then c + 32 else c

unfoldable pub method_to_string : HttpMethod → Bytes
method_to_string get = codes "GET"
method_to_string post = codes "POST"
method_to_string put = codes "PUT"
method_to_string delete = codes "DELETE"
method_to_string head = codes "HEAD"
method_to_string options = codes "OPTIONS"
method_to_string patch = codes "PATCH"
method_to_string connect = codes "CONNECT"
method_to_string trace = codes "TRACE"
method_to_string HttpMethod.unknown = codes "UNKNOWN"

unfoldable pub method_of_upper : Bytes → HttpMethod
method_of_upper upper =
    if bytes_eq upper (codes "GET")
    then get
    else if bytes_eq upper (codes "POST")
    then post
    else if bytes_eq upper (codes "PUT")
    then put
    else if bytes_eq upper (codes "DELETE")
    then delete
    else if bytes_eq upper (codes "HEAD")
    then head
    else if bytes_eq upper (codes "OPTIONS")
    then options
    else if bytes_eq upper (codes "PATCH")
    then patch
    else if bytes_eq upper (codes "CONNECT")
    then connect
    else if bytes_eq upper (codes "TRACE")
    then trace
    else HttpMethod.unknown

unfoldable pub string_to_method : Bytes → HttpMethod
string_to_method str = method_of_upper (map to_upper str)

unfoldable pub version_to_string : HttpVersion → Bytes
version_to_string http_1_0 = codes "HTTP/1.0"
version_to_string http_1_1 = codes "HTTP/1.1"
version_to_string HttpVersion.unknown = codes "HTTP/1.1"

unfoldable pub string_to_version : Bytes → HttpVersion
string_to_version str =
    if bytes_eq str (codes "HTTP/1.0")
    then http_1_0
    else if bytes_eq str (codes "HTTP/1.1")
    then http_1_1
    else HttpVersion.unknown

-- The named values of `HttpStatus` with their texts. A status is its number, since `status(int)`
-- casts any number to the enumeration.
abbrev pub status_texts : Dict ℕ Bytes
status_texts =
    (100, codes "Continue")
    ∷ (101, codes "Switching Protocols")
    ∷ (200, codes "OK")
    ∷ (201, codes "Created")
    ∷ (202, codes "Accepted")
    ∷ (204, codes "No Content")
    ∷ (301, codes "Moved Permanently")
    ∷ (302, codes "Found")
    ∷ (303, codes "See Other")
    ∷ (304, codes "Not Modified")
    ∷ (307, codes "Temporary Redirect")
    ∷ (308, codes "Permanent Redirect")
    ∷ (400, codes "Bad Request")
    ∷ (401, codes "Unauthorized")
    ∷ (403, codes "Forbidden")
    ∷ (404, codes "Not Found")
    ∷ (405, codes "Method Not Allowed")
    ∷ (408, codes "Request Timeout")
    ∷ (409, codes "Conflict")
    ∷ (411, codes "Length Required")
    ∷ (413, codes "Payload Too Large")
    ∷ (414, codes "URI Too Long")
    ∷ (415, codes "Unsupported Media Type")
    ∷ (429, codes "Too Many Requests")
    ∷ (500, codes "Internal Server Error")
    ∷ (501, codes "Not Implemented")
    ∷ (502, codes "Bad Gateway")
    ∷ (503, codes "Service Unavailable")
    ∷ (504, codes "Gateway Timeout")
    ∷ (505, codes "HTTP Version Not Supported")
    ∷ []

text_of : ℕ → Dict ℕ Bytes → Bytes
text_of status [] = codes "Unknown"
text_of status ((s, text) ∷ more) = if s == status then text else text_of status more

unfoldable pub status_to_string : ℕ → Bytes
unfolding text_of
status_to_string status = text_of status status_texts

abbrev pub mime_types : Dict Bytes Bytes
mime_types =
    (codes "html", codes "text/html")
    ∷ (codes "htm", codes "text/html")
    ∷ (codes "css", codes "text/css")
    ∷ (codes "js", codes "application/javascript")
    ∷ (codes "json", codes "application/json")
    ∷ (codes "xml", codes "application/xml")
    ∷ (codes "txt", codes "text/plain")
    ∷ (codes "png", codes "image/png")
    ∷ (codes "jpg", codes "image/jpeg")
    ∷ (codes "jpeg", codes "image/jpeg")
    ∷ (codes "gif", codes "image/gif")
    ∷ (codes "svg", codes "image/svg+xml")
    ∷ (codes "ico", codes "image/x-icon")
    ∷ (codes "webp", codes "image/webp")
    ∷ (codes "mp3", codes "audio/mpeg")
    ∷ (codes "mp4", codes "video/mp4")
    ∷ (codes "webm", codes "video/webm")
    ∷ (codes "pdf", codes "application/pdf")
    ∷ (codes "zip", codes "application/zip")
    ∷ (codes "gz", codes "application/gzip")
    ∷ (codes "woff", codes "font/woff")
    ∷ (codes "woff2", codes "font/woff2")
    ∷ (codes "ttf", codes "font/ttf")
    ∷ (codes "wasm", codes "application/wasm")
    ∷ []

unfoldable pub get_mime_type : Bytes → Bytes
get_mime_type extension = elim (lookup (map to_lower extension) mime_types) [
  | none ↦ codes "application/octet-stream"
  | some mime ↦ mime
]
