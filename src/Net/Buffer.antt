-- ===== src/Net/Buffer.antt =====
-- znet/include/buff.h and znet/src/buff.cc: the byte buffer between sockets and parsers.
-- A C++ `std::bad_alloc` is `none`; the state of the buffer is then the one before the call, since
-- the code throws before it writes a field (`read_fd` has by then counted its first block). Sizes do not reach 2^64.
pub mod Validity
pub mod Queue
pub mod Search
pub mod Fd
use zhttp.Prelude.{
  ℕ, zero, suc, ◌+◌, ◌-◌, ◌&&◌, [], ◌∷◌, Option, none, some, Bytes, ltb, leb, ◌==◌, if◌then◌else◌,
  length, take, ◌%◌,
}
use mathlib.Core.Option
use zhttp.Net.Memory.{Malloc, allocate, overwrite, segment}
use zhttp.Net.Endian.{le_bytes, le_value, host_to_network, network_to_host}

pub record Buffer : Type 0 where
  pub memory : Bytes
  pub capacity : ℕ
  pub reader_index : ℕ
  pub writer_index : ℕ

abbrev pub cheap_prepend : ℕ
cheap_prepend = 8

abbrev pub initial_size : ℕ
initial_size = 1024

infixl 5 ◌>>=◌
abbrev pub ◌>>=◌ : {A B : Type 0} → Option A → (A → Option B) → Option B
none >>= f = none
some a >>= f = f a

unfoldable pub construct : Malloc → ℕ → Option Buffer
construct m size = do
  block ← allocate m (cheap_prepend + size)
  some (record {
    memory = block;
    capacity = cheap_prepend + size;
    reader_index = cheap_prepend;
    writer_index = cheap_prepend;
  })

unfoldable pub readable_bytes : Buffer → ℕ
readable_bytes b = b.writer_index - b.reader_index

unfoldable pub writable_bytes : Buffer → ℕ
writable_bytes b = b.capacity - b.writer_index

unfoldable pub prependable_bytes : Buffer → ℕ
prependable_bytes b = b.reader_index

-- The bytes from `peek()` up to `begin_write()`.
unfoldable pub readable : Buffer → Bytes
readable b = segment b.reader_index b.writer_index b.memory

unfoldable pub retrieve_all : Buffer → Buffer
retrieve_all b = record b { reader_index = cheap_prepend; writer_index = cheap_prepend }

unfoldable pub retrieve : ℕ → Buffer → Buffer
unfolding readable_bytes retrieve_all
retrieve len b =
    if ltb len (readable_bytes b)
    then record b { reader_index = b.reader_index + len }
    else retrieve_all b

-- The length that a read of `len` bytes is cut to.
abbrev pub clip : ℕ → Buffer → ℕ
clip len b = if ltb (readable_bytes b) len then readable_bytes b else len

-- The bytes copied out, and the buffer after it; the caller's memory holds the bytes.
unfoldable pub read : ℕ → Buffer → Bytes × Buffer
read len b = let n = clip len b in if ltb 0 n then (take n (readable b), retrieve n b) else ([], b)

unfoldable pub read_string : ℕ → Buffer → Bytes × Buffer
read_string len b = let n = clip len b in (take n (readable b), retrieve n b)

unfoldable pub read_all_as_string : Buffer → Bytes × Buffer
read_all_as_string b = read_string (readable_bytes b) b

-- `T x = 0; read(&x, sizeof(x))`: bytes that were not read stay zero.
abbrev pub zero_fill : ℕ → Bytes → Bytes
zero_fill zero bs = []
zero_fill (suc w) [] = 0 ∷ zero_fill w []
zero_fill (suc w) (b ∷ bs) = b ∷ zero_fill w bs

-- `read_int8`, `read_int16`, `read_int32` and `read_int64` at w = 1, 2, 4 and 8.
unfoldable pub read_int : ℕ → Buffer → ℕ × Buffer
read_int w b = let (bs, b') = read w b in (network_to_host w (le_value (zero_fill w bs)), b')

unfoldable pub has_written : ℕ → Buffer → Buffer
has_written len b = record b { writer_index = b.writer_index + len }

unfoldable pub make_space : Malloc → ℕ → Buffer → Option Buffer
make_space m len b =
    if ltb (writable_bytes b + prependable_bytes b) (len + cheap_prepend)
    then (do
      block ← allocate m (b.writer_index + len)
      some (record b {
        memory = overwrite b.reader_index (readable b) block;
        capacity = b.writer_index + len;
      }))
    else some (record b {
      memory = overwrite cheap_prepend (readable b) b.memory;
      reader_index = cheap_prepend;
      writer_index = cheap_prepend + readable_bytes b;
    })

unfoldable pub ensure_writable_bytes : Malloc → ℕ → Buffer → Option Buffer
ensure_writable_bytes m len b = if ltb (writable_bytes b) len then make_space m len b else some b

unfoldable pub append : Malloc → Bytes → Buffer → Option Buffer
append m bytes b = do
  b' ← ensure_writable_bytes m (length bytes) b
  some (
      has_written (length bytes) (record b' { memory = overwrite b'.writer_index bytes b'.memory }))

-- `write_int8`, `write_int16`, `write_int32` and `write_int64` at w = 1, 2, 4 and 8.
unfoldable pub write_int : Malloc → ℕ → ℕ → Buffer → Option Buffer
write_int m w x b = append m (le_bytes w (host_to_network w x)) b

-- `std::search` for "\r\n": the offset of the first occurrence.
unfoldable pub search_crlf : Bytes → Option ℕ
search_crlf [] = none
search_crlf (c ∷ []) = none
search_crlf (c ∷ d ∷ s) =
    if c == 13 && d == 10 then some 0 else Option.map suc (search_crlf (d ∷ s))

-- A pointer into the readable bytes is its offset from `peek()`.
unfoldable pub find_crlf : Buffer → Option ℕ
find_crlf b = search_crlf (readable b)

unfoldable pub search_byte : ℕ → Bytes → Option ℕ
search_byte x [] = none
search_byte x (c ∷ s) = if c == x then some 0 else Option.map suc (search_byte x s)

unfoldable pub find_eol : Buffer → Option ℕ
find_eol b = search_byte b'\n' (readable b)

-- The size is a `size_t`, so the sum wraps.
unfoldable pub shrink : Malloc → ℕ → Buffer → Buffer
shrink m reserve b =
    let size = (cheap_prepend + readable_bytes b + reserve) % 18446744073709551616 in
    if leb b.capacity size then b else elim (allocate m size) [
      | none ↦ b
      | some block ↦ record {
        memory = overwrite cheap_prepend (readable b) block;
        capacity = size;
        reader_index = cheap_prepend;
        writer_index = cheap_prepend + readable_bytes b;
      }
    ]

unfoldable pub swap : Buffer × Buffer → Buffer × Buffer
swap (b, rhs) = (rhs, b)
