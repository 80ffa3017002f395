-- ===== src/Examples/Buffers.antt =====
-- The buffer at concrete inputs.
use zhttp.Prelude.{
  ℕ, zero, suc, ◌+◌, ◌≤◌, ◌<◌, ◌≡◌, ◌≢◌, refl, [], ◌∷◌, ◌++◌, none, some, Bytes, codes, arith, ◌⊎◌,
  length, get_elem?, leb, if◌then◌else◌,
}
use zhttp.Net.Memory.{Malloc, overwrite}
use zhttp.Net.Endian.{host_to_network, le_value, le_bytes, byteswap}
use zhttp.Net.Buffer.{
  Buffer, readable, readable_bytes, writable_bytes, read_string, read_int, write_int, retrieve,
  append, shrink, ensure_writable_bytes, find_crlf, find_eol, has_written,
}
use zhttp.Net.Buffer.Validity.{IsValid}
use zhttp.Net.Buffer.Queue.{append_lem, Reads, read_string_lem, read_int-write_int, shrink_lem}
use zhttp.Net.Buffer.Search.{FirstCrlf, find_crlf_lem, find_eol_lem}
use zhttp.Net.Buffer.Fd.{moved, Receives, arrived, read_fd, read_fd_lem}

abbrev pub zeros : ℕ → Bytes
zeros zero = []
zeros (suc n) = 0 ∷ zeros n

length-zeros : (n : ℕ) → length (zeros n) ≡ n
length-zeros zero = refl
length-zeros (suc n) = omega (arith, length-zeros n)

pub length-some-zeros :
    (n : ℕ) (block : Bytes)
    → (if leb n 4096 then some (zeros n) else none) ≡ some block
    → length block ≡ n
length-some-zeros n block e = ground (arith, length-zeros n)

-- An allocator that has at most 4096 bytes.
abbrev pub small_malloc : Malloc
small_malloc = record {
  malloc = λ n. if leb n 4096 then some (zeros n) else none;
  malloc-length = length-some-zeros;
}

-- Two readable bytes, "a\n", two writable ones.
abbrev two_bytes : Buffer
two_bytes = record {
  memory = zeros 8 ++ (codes "a" ++ (10 ∷ zeros 2));
  capacity = 12;
  reader_index = 8;
  writer_index = 10;
}

two_bytes-IsValid : IsValid two_bytes
two_bytes-IsValid = record {
  header = (omega arith);
  ordered = (omega arith);
  within = (omega arith);
  backed = refl;
}

append_lem_example :
    ((append small_malloc (codes "bcd") two_bytes ≡ none) × (small_malloc.malloc (10 + 3) ≡ none))
    ⊎ ((c : Buffer) × (append small_malloc (codes "bcd") two_bytes ≡ some c)
        × IsValid c
        × (readable c ≡ readable two_bytes ++ codes "bcd"))
append_lem_example = append_lem small_malloc (codes "bcd") two_bytes two_bytes-IsValid

read_string_lem_example : Reads 1 two_bytes (read_string 1 two_bytes)
read_string_lem_example = read_string_lem 1 two_bytes two_bytes-IsValid

-- The buffer with the two bytes of 258 behind its own.
abbrev after_258 : Buffer
after_258 = record {
  memory = zeros 8 ++ (codes "a" ++ (10 ∷ (1 ∷ (2 ∷ []))));
  capacity = 12;
  reader_index = 8;
  writer_index = 12;
}

written_258 : write_int small_malloc 2 258 two_bytes ≡ some after_258
unfolding write_int append ensure_writable_bytes has_written overwrite writable_bytes le_bytes
    host_to_network byteswap le_value
written_258 = refl

read_int-write_int_example :
    let (y, d) = read_int 2 (retrieve (readable_bytes two_bytes) after_258) in
    (y ≡ 258) × (readable d ≡ []) × IsValid d
read_int-write_int_example =
    read_int-write_int small_malloc 2 258 two_bytes after_258 two_bytes-IsValid (omega arith)
      written_258

shrink_lem_example :
    let c = shrink small_malloc 0 two_bytes in
    IsValid c
    × (readable c ≡ readable two_bytes)
    × (c.capacity ≤ 12)
    × ((c ≡ two_bytes) ⊎ (writable_bytes c ≡ 0))
unfolding readable_bytes
shrink_lem_example = shrink_lem small_malloc 0 two_bytes two_bytes-IsValid (omega arith)

find_crlf_lem_example : FirstCrlf (readable two_bytes) (find_crlf two_bytes)
find_crlf_lem_example = find_crlf_lem two_bytes

find_eol_lem_example :
    ((find_eol two_bytes ≡ none) × ((j : ℕ) → get_elem? (readable two_bytes) j ≢ some 10))
    ⊎ ((i : ℕ) × (find_eol two_bytes ≡ some i)
        × (get_elem? (readable two_bytes) i ≡ some 10)
        × ((j : ℕ) → j < i → get_elem? (readable two_bytes) j ≢ some 10))
find_eol_lem_example = find_eol_lem two_bytes

read_fd_lem_example :
    Receives small_malloc
      (arrived (moved (codes "bcd")) two_bytes)
      two_bytes
      (read_fd small_malloc (moved (codes "bcd")) two_bytes)
read_fd_lem_example = read_fd_lem small_malloc (moved (codes "bcd")) two_bytes two_bytes-IsValid
