-- ===== src/Net/Buffer/Queue.antt =====
-- The buffer as a first-in-first-out queue of bytes: its reads, writes, integers and shrinking.
use zhttp.Prelude.{
  ℕ, zero, suc, ◌+◌, ◌≤◌, ◌<◌, ◌^◌, ◌≡◌, refl, ap, sym, subst, ◌∙◌, [], ◌∷◌, ◌++◌, none, some,
  Bytes, arith, ◌⊎◌, Bool-cases, Option-cases, ltb, leb, inl, inr, length, take, drop, drop_all,
  take_all, take-append_length, drop-append_length, append-nil, ◌%◌,
}
use zhttp.Net.Memory.{
  Malloc, allocate, allocate-length, overwrite, length-overwrite, segment-overwrite,
  segment-overwrite_end,
}
use zhttp.Net.Endian.{
  le_bytes, le_value, host_to_network, network_to_host, length-le_bytes,
  network_to_host-host_to_network,
}
use zhttp.Net.Buffer.{
  Buffer, readable_bytes, writable_bytes, readable, retrieve, read, read_string, read_int,
  zero_fill, write_int, append, shrink, has_written, clip,
}
use zhttp.Net.Buffer.Validity.{
  IsValid, length-readable, retrieve-IsValid, readable-retrieve, ensure_writable_bytes_lem,
}

-- Writing into the room behind the readable bytes, and counting it as written.
pub readable-has_written :
    (bytes : Bytes) (b : Buffer)
    → IsValid b
    → length bytes ≤ writable_bytes b
    → let c =
        has_written
          (length bytes)
          (record b { memory = overwrite b.writer_index bytes b.memory }) in
      IsValid c × (readable c ≡ readable b ++ bytes)
unfolding has_written writable_bytes
readable-has_written bytes b v h = (
  record {
    header = v.header;
    ordered = omega arith;
    within = omega arith;
    backed = length-overwrite b.writer_index bytes b.memory (omega arith) ∙ v.backed;
  },
  (unfold readable in
      segment-overwrite_end b.reader_index b.writer_index (b.writer_index + length bytes) bytes
        b.memory v.ordered (omega arith) refl),
)

-- Appending to a valid buffer either fails because the allocator refuses a block of `writer_index + length` bytes, or
-- puts the bytes behind the readable ones and keeps the indices valid.
pub append_lem :
    (m : Malloc) (bytes : Bytes) (b : Buffer)
    → IsValid b
    → ((append m bytes b ≡ none) × (m.malloc (b.writer_index + length bytes) ≡ none))
      ⊎ ((c : Buffer) × (append m bytes b ≡ some c)
          × IsValid c
          × (readable c ≡ readable b ++ bytes))
unfolding append
append_lem m bytes b v = elim (ensure_writable_bytes_lem m (length bytes) b v) [
  | inl (failed, refused) ↦ inl (rw failed refl, refused)
  | inr (c, made, roomy) ↦
      let (valid, end) = readable-has_written bytes c roomy.valid roomy.room in
      inr (_, rw made refl, valid, end ∙ ap (λ s. s ++ bytes) roomy.same)
]

-- The same for a call that is known to have returned.
pub append-some :
    (m : Malloc) (bytes : Bytes) (b c : Buffer)
    → IsValid b
    → append m bytes b ≡ some c
    → IsValid c × (readable c ≡ readable b ++ bytes)
append-some m bytes b c v e = elim (append_lem m bytes b v) [
  | inl (failed, _) ↦ absurd (cc)
  | inr (c', made, valid, end) ↦
      let same : c' ≡ c = cc in (subst IsValid same valid, ap readable (sym same) ∙ end)
]

take-clip : (n : ℕ) (b : Buffer) → IsValid b → take (clip n b) (readable b) ≡ take n (readable b)
take-clip n b v = elim (Bool-cases (ltb (readable_bytes b) n)) [
  | inr fits ↦ rw fits refl
  | inl over ↦
      let k = length-readable b v in
      rw over (
        take_all (readable_bytes b) (readable b) (omega arith)
        ∙ sym (take_all n (readable b) (ground arith)))
]

drop-clip : (n : ℕ) (b : Buffer) → IsValid b → drop (clip n b) (readable b) ≡ drop n (readable b)
drop-clip n b v = elim (Bool-cases (ltb (readable_bytes b) n)) [
  | inr fits ↦ rw fits refl
  | inl over ↦
      let k = length-readable b v in
      rw over (
        drop_all (readable_bytes b) (readable b) (omega arith)
        ∙ sym (drop_all n (readable b) (ground arith)))
]

-- The bytes that a read of n returns, and what it leaves.
abbrev pub Reads : ℕ → Buffer → Bytes × Buffer → Type 0
Reads n b (got, c) = (got ≡ take n (readable b)) × (readable c ≡ drop n (readable b)) × IsValid c

-- A string read of n bytes from a valid buffer returns the first n readable bytes, or all if there are fewer, and leaves
-- exactly the others.
pub read_string_lem : (n : ℕ) (b : Buffer) → IsValid b → Reads n b (read_string n b)
unfolding read_string
read_string_lem n b v = (
  take-clip n b v,
  readable-retrieve (clip n b) b v ∙ drop-clip n b v,
  retrieve-IsValid (clip n b) b v,
)

pub read_lem : (n : ℕ) (b : Buffer) → IsValid b → Reads n b (read n b)
unfolding read
read_lem n b v = elim (Bool-cases (ltb 0 (clip n b))) [
  | inl some_bytes ↦ rw some_bytes (unfold read_string in read_string_lem n b v)
  | inr nothing ↦
      let zero_clip : clip n b ≡ 0 = ground arith in
      rw nothing (rw zero_clip at (take-clip n b v), rw zero_clip at (drop-clip n b v), v)
]

zero_fill_full : (w : ℕ) (bs : Bytes) → length bs ≡ w → zero_fill w bs ≡ bs
zero_fill_full zero [] h = refl
zero_fill_full zero (b ∷ bs) h = absurd (omega arith)
zero_fill_full (suc w) [] h = absurd (omega arith)
zero_fill_full (suc w) (b ∷ bs) h = ap (◌∷◌ b) (zero_fill_full w bs (omega arith))

-- The bytes of an integer at the front of the buffer are read back as that integer.
pub read_int_front :
    (w x : ℕ) (rest : Bytes) (b : Buffer)
    → IsValid b
    → x < 256 ^ w
    → readable b ≡ le_bytes w (host_to_network w x) ++ rest
    → ((read_int w b).0 ≡ x) × (readable (read_int w b).1 ≡ rest) × IsValid (read_int w b).1
unfolding read_int
read_int_front w x rest b v h e =
    let (got, left, valid) = read_lem w b v in
    let wire : Bytes = le_bytes w (host_to_network w x) in
    let size = length-le_bytes w (host_to_network w x) in
    let whole : (read w b).0 ≡ wire =
      got ∙ (ap (take w) e ∙ take-append_length w wire rest (sym size)) in
    (
      ap (λ bs. network_to_host w (le_value (zero_fill w bs))) whole
          ∙ (ap (λ bs. network_to_host w (le_value bs)) (zero_fill_full w wire size)
              ∙ network_to_host-host_to_network w x h),
      left ∙ (ap (drop w) e ∙ drop-append_length w wire rest (sym size)),
      valid,
    )

-- An integer of w bytes that was written to a valid buffer is read back once the bytes before it are
-- discarded, and the buffer is then empty and valid.
pub read_int-write_int :
    (m : Malloc) (w x : ℕ) (b c : Buffer)
    → IsValid b
    → x < 256 ^ w
    → write_int m w x b ≡ some c
    → let (y, d) = read_int w (retrieve (readable_bytes b) c) in
      (y ≡ x) × (readable d ≡ []) × IsValid d
unfolding write_int
read_int-write_int m w x b c v h e =
    let (valid, end) = append-some m (le_bytes w (host_to_network w x)) b c v e in
    let n = readable_bytes b in
    read_int_front w x [] (retrieve n c) (retrieve-IsValid n c valid) h (
      readable-retrieve n c valid
      ∙ (ap (drop n) end
          ∙ (drop-append_length n (readable b) _ (sym (length-readable b v)) ∙ sym (append-nil _))))

shrink_into :
    (size reserve : ℕ) (b : Buffer) (block : Bytes)
    → IsValid b
    → size ≡ 8 + readable_bytes b + reserve
    → length block ≡ size
    → let c : Buffer = record {
      memory = overwrite 8 (readable b) block;
      capacity = size;
      reader_index = 8;
      writer_index = 8 + readable_bytes b;
    } in
      IsValid c × (readable c ≡ readable b) × (writable_bytes c ≡ reserve)
unfolding writable_bytes
shrink_into size reserve b block v exact e =
    let n = length-readable b v in
    (
      record {
        header = omega arith;
        ordered = omega arith;
        within = omega arith;
        backed = length-overwrite 8 (readable b) block (omega arith) ∙ e;
      },
      (unfold readable in
          segment-overwrite 8 (8 + readable_bytes b) (readable b) block (omega arith)
            (omega arith)),
      omega arith,
    )

-- Shrinking a valid buffer keeps it valid, keeps the readable bytes and never enlarges the block; where it
-- changes anything, it leaves exactly the reserve writable. The size of the block that is asked for, which is 8 for the
-- prepended bytes, the readable bytes and the reserve, fits into 64 bits.
pub shrink_lem :
    (m : Malloc) (reserve : ℕ) (b : Buffer)
    → IsValid b
    → 8 + readable_bytes b + reserve < 18446744073709551616
    → let c = shrink m reserve b in
      IsValid c
      × (readable c ≡ readable b)
      × (c.capacity ≤ b.capacity)
      × ((c ≡ b) ⊎ (writable_bytes c ≡ reserve))
unfolding shrink
shrink_lem m reserve b v fits =
    let size : ℕ = (8 + readable_bytes b + reserve) % 18446744073709551616 in
    let exact : size ≡ 8 + readable_bytes b + reserve = omega (arith, fits) in
    elim (Bool-cases (leb b.capacity size)) [
      | inl small ↦ rw small (v, refl, omega arith, inl refl)
      | inr large ↦ elim (Option-cases (allocate m size)) [
        | inl failed ↦ rw (large, failed) (v, refl, omega arith, inl refl)
        | inr (block, found) ↦
            let (valid, same, room) =
              shrink_into size reserve b block v exact (allocate-length m _ block found) in
            rw (large, found) (valid, same, ground arith, inr room)
      ]
    ]
