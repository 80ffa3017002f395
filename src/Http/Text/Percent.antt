-- ===== src/Http/Text/Percent.antt =====
-- Percent-encoding, as the inverse of `url_decode`.
use zhttp.Prelude.{
  ℕ, ◌+◌, ◌-◌, ◌*◌, ◌/◌, ◌%◌, ◌<◌, ◌≡◌, ◌≢◌, refl, ap, ap₂, ◌∙◌, [], ◌∷◌, Bytes, All, arith, true,
  false, ltb, if◌then◌else◌, Lacks,
}
use zhttp.Http.Text.{is_hex_digit, hex_to_int, url_decode}

-- The digits of the form RFC 3986 recommends: upper case.
hex_digit : ℕ → ℕ
hex_digit n = if ltb n 10 then b'0' + n else b'A' + (n - 10)

-- Every byte as "%XX".
unfoldable pub percent_encode : Bytes → Bytes
unfolding hex_digit
percent_encode [] = []
percent_encode (c ∷ s) = b'%' ∷ hex_digit (c / 16) ∷ hex_digit (c % 16) ∷ percent_encode s

hex_to_int-hex_digit : (n : ℕ) → n < 16 → hex_to_int (hex_digit n) ≡ n
unfolding hex_to_int hex_digit
hex_to_int-hex_digit n h = ground arith

is_hex_digit-hex_digit : (n : ℕ) → n < 16 → is_hex_digit (hex_digit n) ≡ true
unfolding is_hex_digit hex_digit
is_hex_digit-hex_digit n h = ground arith

hex_digit-ne : (x n : ℕ) → n < 16 → is_hex_digit x ≡ false → hex_digit n ≢ x
hex_digit-ne x n h k e = cc (is_hex_digit-hex_digit n h, ap is_hex_digit e)

url_decode-escape :
    (h l : ℕ) (s : Bytes)
    → is_hex_digit h ≡ true
    → is_hex_digit l ≡ true
    → url_decode (b'%' ∷ h ∷ l ∷ s) ≡ ((hex_to_int h * 16 + hex_to_int l) % 256) ∷ url_decode s
unfolding url_decode
url_decode-escape h l s p q = rw (p, q) refl

-- `url_decode` undoes the percent-encoding of every byte, for every string of bytes below 256.
pub url_decode-percent_encode :
    (s : Bytes) → All (λ c. c < 256) s → url_decode (percent_encode s) ≡ s
unfolding percent_encode
url_decode-percent_encode [] h = (unfold url_decode in refl)
url_decode-percent_encode (c ∷ s) (p, h) =
    url_decode-escape (hex_digit (c / 16)) (hex_digit (c % 16)) (percent_encode s)
      (is_hex_digit-hex_digit (c / 16) (omega arith))
      (is_hex_digit-hex_digit (c % 16) (omega arith))
    ∙ ap₂ ◌∷◌
        (omega (
          arith,
          hex_to_int-hex_digit (c / 16) (omega arith),
          hex_to_int-hex_digit (c % 16) (omega arith),
        ))
        (url_decode-percent_encode s h)

-- The encoding is made of '%' and hexadecimal digits, so no separator of a query occurs in it.
pub percent_encode-Lacks :
    (x : ℕ) (s : Bytes)
    → All (λ c. c < 256) s
    → is_hex_digit x ≡ false
    → x ≢ b'%'
    → Lacks x (percent_encode s)
unfolding percent_encode
percent_encode-Lacks x [] h p q = tt
percent_encode-Lacks x (c ∷ s) (b, h) p q = (
  λ e. q (cc),
  (
    hex_digit-ne x (c / 16) (omega arith) p,
    (hex_digit-ne x (c % 16) (omega arith) p, percent_encode-Lacks x s h p q),
  ),
)

-- A string without '%' and '+' is left as it is.
pub url_decode_plain : (s : Bytes) → Lacks b'%' s → Lacks b'+' s → url_decode s ≡ s
unfolding url_decode
url_decode_plain [] h k = refl
url_decode_plain (c ∷ []) (p, _) (q, _) = ground arith
url_decode_plain (c ∷ d ∷ []) (p, (p', _)) (q, (q', _)) = ground arith
url_decode_plain (c ∷ d ∷ e ∷ s) (p, h) (q, k) = ground (arith, url_decode_plain (d ∷ e ∷ s) h k)
