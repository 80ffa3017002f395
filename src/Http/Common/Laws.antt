-- ===== src/Http/Common/Laws.antt =====
-- The names of zhttp/src/http_common.cc: printing and reading them, and the case of their letters.
use zhttp.Prelude.{ℕ, ◌≡◌, ◌≢◌, refl, ap, ap₂, [], ◌∷◌, map, Bytes, arith, bytes_eq}
use zhttp.Http.Common.{
  HttpMethod, get, HttpVersion, http_1_0, http_1_1, to_upper, to_lower, method_to_string,
  string_to_method, method_of_upper, version_to_string, string_to_version, get_mime_type,
}

-- A method's name is read back as the method, the unknown one included.
pub string_to_method-method_to_string : (m : HttpMethod) → string_to_method (method_to_string m) ≡ m
unfolding string_to_method method_to_string method_of_upper bytes_eq to_upper
string_to_method-method_to_string get = refl
string_to_method-method_to_string _ = refl

to_upper_idem : (c : ℕ) → to_upper (to_upper c) ≡ to_upper c
unfolding to_upper
to_upper_idem c = ground arith

to_upper-to_lower : (c : ℕ) → to_upper (to_lower c) ≡ to_upper c
unfolding to_upper to_lower
to_upper-to_lower c = ground arith

pub to_lower_idem : (c : ℕ) → to_lower (to_lower c) ≡ to_lower c
unfolding to_lower
to_lower_idem c = ground arith

pub to_lower-to_upper : (c : ℕ) → to_lower (to_upper c) ≡ to_lower c
unfolding to_upper to_lower
to_lower-to_upper c = ground arith

pub map_cong : (f g h : ℕ → ℕ) → ((c : ℕ) → f (g c) ≡ h c) → (s : Bytes) → map f (map g s) ≡ map h s
map_cong f g h e [] = refl
map_cong f g h e (c ∷ s) = ap₂ ◌∷◌ (e c) (map_cong f g h e s)

-- The method that a text names does not depend on the case of its letters.
pub string_to_method_case :
    (s : Bytes)
    → (string_to_method (map to_upper s) ≡ string_to_method s)
      × (string_to_method (map to_lower s) ≡ string_to_method s)
unfolding string_to_method
string_to_method_case s = (
  ap method_of_upper (map_cong to_upper to_upper to_upper to_upper_idem s),
  ap method_of_upper (map_cong to_upper to_lower to_upper to_upper-to_lower s),
)

get_mime_type_cong :
    (s t : Bytes) → map to_lower s ≡ map to_lower t → get_mime_type s ≡ get_mime_type t
unfolding get_mime_type
get_mime_type_cong s t e = rw (e, get_mime_type) refl

-- The MIME type of an extension does not depend on the case of its letters.
pub get_mime_type_case :
    (s : Bytes)
    → (get_mime_type (map to_upper s) ≡ get_mime_type s)
      × (get_mime_type (map to_lower s) ≡ get_mime_type s)
get_mime_type_case s = (
  get_mime_type_cong _ _ (map_cong to_lower to_upper to_lower to_lower-to_upper s),
  get_mime_type_cong _ _ (map_cong to_lower to_lower to_lower to_lower_idem s),
)

-- The versions that are known are read back from their names.
pub string_to_version-version_to_string :
    (v : HttpVersion) → v ≢ HttpVersion.unknown → string_to_version (version_to_string v) ≡ v
unfolding string_to_version version_to_string bytes_eq
string_to_version-version_to_string http_1_0 h = refl
string_to_version-version_to_string http_1_1 h = refl
string_to_version-version_to_string HttpVersion.unknown h = absurd (h refl)
