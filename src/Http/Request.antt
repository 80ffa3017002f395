-- ===== src/Http/Request.antt =====
-- zhttp/include/http_request.h and zhttp/src/http_request.cc. A map is an association list, the
-- last entry at the end. The order in which the unordered map of the headers iterates is a parameter, as it depends on
-- the hash function of the C++ library; a lookup by the key itself does not depend on it.
pub mod Query
pub mod Headers
use zhttp.Prelude.{
  ℕ, zero, suc, Bool, not, List, [], ◌∷◌, ◌++◌, map, Option, none, some, Bytes, codes, bytes_eq,
  bytes_key, cut, if◌then◌else◌, Dict, lookup, insert, length,
}
use zhttp.Http.Common.{HttpMethod, HttpVersion, http_1_1, http_1_0, to_lower}
use zhttp.Http.Text.{url_decode, strtoul}

abbrev pub Params : Type 0
Params = Dict Bytes Bytes

-- `order` gives the entries of the map of headers in the order in which it iterates over them.
pub record HttpRequest : Type 0 where
  pub method : HttpMethod
  pub path : Bytes
  pub query : Bytes
  pub version : HttpVersion
  pub headers : Params
  pub order : Params → Params
  pub body : Bytes
  pub path_params : Params
  pub query_params : Params

-- The iteration order is given with the C++ library.
abbrev pub new_request : (Params → Params) → HttpRequest
new_request order = record {
  method = HttpMethod.unknown;
  path = [];
  query = [];
  version = http_1_1;
  headers = [];
  order = order;
  body = [];
  path_params = [];
  query_params = [];
}

abbrev pub lower : Bytes → Bytes
lower = map to_lower

abbrev pub value_or : Option Bytes → Bytes → Bytes
value_or none default = default
value_or (some v) default = v

-- The loop of `header` over the entries in the order of iteration.
unfoldable pub find_header : Bytes → Params → Bytes → Bytes
find_header lower_key [] default = default
find_header lower_key ((k, v) ∷ more) default =
    if bytes_eq (lower k) lower_key then v else find_header lower_key more default

unfoldable pub header : HttpRequest → Bytes → Bytes → Bytes
header r key default = find_header (lower key) (r.order r.headers) default

unfoldable pub path_param : HttpRequest → Bytes → Bytes → Bytes
path_param r key default = value_or (lookup key r.path_params) default

unfoldable pub query_param : HttpRequest → Bytes → Bytes → Bytes
query_param r key default = value_or (lookup key r.query_params) default

unfoldable pub set_header : Bytes → Bytes → HttpRequest → HttpRequest
set_header key value r = record r { headers = insert key value r.headers }

unfoldable pub set_path_param : Bytes → Bytes → HttpRequest → HttpRequest
set_path_param key value r = record r { path_params = insert key value r.path_params }

abbrev pub whole_or : Bytes → Option (Bytes × Bytes) → Bytes × Bytes
whole_or s none = (s, [])
whole_or s (some p) = p

-- The text up to the next '&', or up to the end, and the text from which the loop goes on.
unfoldable pub next_pair : Bytes → Bytes × Bytes
next_pair s = whole_or s (cut b'&' s)

abbrev pub add_field : Bytes → Option (Bytes × Bytes) → Params → Params
add_field pair (some (key, value)) params = insert (url_decode key) (url_decode value) params
add_field pair none params = if bytes_eq pair [] then params else insert (url_decode pair) [] params

-- What one "key=value" does to the parameters.
unfoldable pub add_pair : Bytes → Params → Params
add_pair pair params = add_field pair (cut b'=' pair) params

-- The loop over `pos`, which is the text from there on, with fuel for its rounds.
unfoldable pub query_loop : ℕ → Bytes → Params → Params
query_loop fuel [] params = params
query_loop zero (c ∷ s) params = params
query_loop (suc fuel) (c ∷ s) params =
    let (pair, rest) = next_pair (c ∷ s) in query_loop fuel rest (add_pair pair params)

-- Every round takes a byte at least, so there are no more rounds than bytes.
unfoldable pub parse_query_params : HttpRequest → HttpRequest
parse_query_params r = record r { query_params = query_loop (length r.query) r.query [] }

unfoldable pub is_keep_alive : HttpRequest → Bool
is_keep_alive r =
    let connection = lower (header r (codes "Connection") []) in
    elim r.version [
      | http_1_1 ↦ not (bytes_eq connection (codes "close"))
      | _ ↦ bytes_eq connection (codes "keep-alive")
    ]

unfoldable pub content_length : HttpRequest → ℕ
content_length r =
    let len_str = header r (codes "Content-Length") [] in
    if bytes_eq len_str [] then 0 else strtoul len_str

unfoldable pub content_type : HttpRequest → Bytes
content_type r = header r (codes "Content-Type") []
