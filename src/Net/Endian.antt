-- ===== src/Net/Endian.antt =====
-- znet/include/znet_endian.h on a little-endian host: a w-byte integer is its bit pattern, a number
-- below 256 ^ w, and `memcpy` of it moves its bytes, least significant first.
use zhttp.Prelude.{
  ℕ, zero, suc, ◌+◌, ◌*◌, ◌/◌, ◌%◌, ◌^◌, ◌<◌, ◌≡◌, ◌∙◌, refl, ap, [], ◌∷◌, ◌++◌, reverse, Bytes,
  All, arith, length, length-append,
}
use mathlib.Core.List.{reverse-cons, reverse-reverse}
use native.Mathlib.Nat.{pow-suc}

unfoldable pub le_bytes : ℕ → ℕ → Bytes
le_bytes zero x = []
le_bytes (suc w) x = (x % 256) ∷ le_bytes w (x / 256)

unfoldable pub le_value : Bytes → ℕ
le_value [] = 0
le_value (b ∷ bs) = b + 256 * le_value bs

unfoldable pub byteswap : ℕ → ℕ → ℕ
byteswap w x = le_value (reverse (le_bytes w x))

unfoldable pub host_to_network : ℕ → ℕ → ℕ
host_to_network w x = byteswap w x

unfoldable pub network_to_host : ℕ → ℕ → ℕ
network_to_host w x = byteswap w x

abbrev pub IsByte : ℕ → Type 0
IsByte b = b < 256

pub length-le_bytes : (w x : ℕ) → length (le_bytes w x) ≡ w
unfolding le_bytes
length-le_bytes zero x = refl
length-le_bytes (suc w) x = ap suc (length-le_bytes w (x / 256))

le_bytes-IsByte : (w x : ℕ) → All IsByte (le_bytes w x)
unfolding le_bytes
le_bytes-IsByte zero x = tt
le_bytes-IsByte (suc w) x = (omega arith, le_bytes-IsByte w (x / 256))

pub le_value-le_bytes : (w x : ℕ) → x < 256 ^ w → le_value (le_bytes w x) ≡ x
unfolding le_bytes le_value
le_value-le_bytes zero x h = omega arith
le_value-le_bytes (suc w) x h =
    omega (arith, le_value-le_bytes w (x / 256) (omega (arith, pow-suc 256 w)))

pub le_bytes-le_value : (bs : Bytes) → All IsByte bs → le_bytes (length bs) (le_value bs) ≡ bs
unfolding le_bytes le_value
le_bytes-le_value [] h = refl
le_bytes-le_value (b ∷ bs) (p, h) =
    let low : (b + 256 * le_value bs) % 256 ≡ b = omega arith in
    let high : (b + 256 * le_value bs) / 256 ≡ le_value bs = omega arith in
    rw (low, high) (ap (◌∷◌ b) (le_bytes-le_value bs h))

All-append : (xs ys : Bytes) → All IsByte xs → All IsByte ys → All IsByte (xs ++ ys)
All-append [] ys h k = k
All-append (x ∷ xs) ys (p, h) k = (p, All-append xs ys h k)

All-reverse : (xs : Bytes) → All IsByte xs → All IsByte (reverse xs)
All-reverse [] h = tt
All-reverse (x ∷ xs) (p, h) =
    rw (reverse-cons x xs) (All-append (reverse xs) (x ∷ []) (All-reverse xs h) (p, tt))

pub length-reverse : (xs : Bytes) → length (reverse xs) ≡ length xs
length-reverse [] = refl
length-reverse (x ∷ xs) =
    omega
      (arith, ap length (reverse-cons x xs), length-append (reverse xs) (x ∷ []), length-reverse xs)

-- The bytes of the swapped integer are the integer's bytes, most significant first.
pub le_bytes-byteswap : (w x : ℕ) → le_bytes w (byteswap w x) ≡ reverse (le_bytes w x)
unfolding byteswap
le_bytes-byteswap w x =
    ap (λ n. le_bytes n (byteswap w x)) width
    ∙ le_bytes-le_value (reverse (le_bytes w x)) (All-reverse _ (le_bytes-IsByte w x))
  where
    width : w ≡ length (reverse (le_bytes w x))
    width = omega (arith, length-reverse (le_bytes w x), length-le_bytes w x)

pub byteswap-byteswap : (w x : ℕ) → x < 256 ^ w → byteswap w (byteswap w x) ≡ x
byteswap-byteswap w x h =
    unfold byteswap in
    ap (λ bs. le_value (reverse bs)) (le_bytes-byteswap w x)
    ∙ (ap le_value (reverse-reverse (le_bytes w x)) ∙ le_value-le_bytes w x h)

le_value-byteswap : (w x : ℕ) → le_value (le_bytes w (byteswap w x)) ≡ byteswap w x
le_value-byteswap w x =
    ap le_value (le_bytes-byteswap w x)
    ∙ (let e : le_value (reverse (le_bytes w x)) ≡ byteswap w x = (unfold byteswap in refl) in e)

-- An integer of w bytes that was stored in network order and loaded again is the same integer.
pub network_to_host-host_to_network :
    (w x : ℕ) → x < 256 ^ w → network_to_host w (le_value (le_bytes w (host_to_network w x))) ≡ x
network_to_host-host_to_network w x h =
    unfold network_to_host host_to_network in
    ap (byteswap w) (le_value-byteswap w x) ∙ byteswap-byteswap w x h
