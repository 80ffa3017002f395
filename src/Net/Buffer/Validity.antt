-- ===== src/Net/Buffer/Validity.antt =====
-- The index invariant of the buffer, and what each operation does to the readable bytes.
use zhttp.Prelude.{
  ℕ, ◌+◌, ◌≤◌, ◌<◌, ◌≡◌, refl, sym, ◌∙◌, [], Option, none, some, Bytes, arith, ◌⊎◌, Bool-cases,
  Option-cases, ltb, inl, inr, length, drop, drop_all,
}
use zhttp.Net.Memory.{
  Malloc, allocate, allocate-length, overwrite, segment, length-overwrite, length-segment,
  segment-overwrite, segment-drop,
}
use zhttp.Net.Buffer.{
  Buffer, construct, readable_bytes, writable_bytes, prependable_bytes, readable, retrieve,
  retrieve_all, make_space, ensure_writable_bytes,
}

pub record IsValid (b : Buffer) : Type 0 where
  pub header : 8 ≤ b.reader_index
  pub ordered : b.reader_index ≤ b.writer_index
  pub within : b.writer_index ≤ b.capacity
  pub backed : length b.memory ≡ b.capacity

pub construct_lem :
    (m : Malloc) (size : ℕ) (b : Buffer)
    → construct m size ≡ some b
    → IsValid b × (readable b ≡ []) × (writable_bytes b ≡ size)
unfolding construct readable writable_bytes segment
construct_lem m size b h = elim (Option-cases (allocate m (8 + size))) [
  | inl failed ↦ absurd (ground arith)
  | inr (block, found) ↦
      let sized = allocate-length m (8 + size) block found in
      let same : b
          ≡ record { memory = block; capacity = 8 + size; reader_index = 8; writer_index = 8 } =
        ground arith in
      rw same (
        record {
          header = omega arith;
          ordered = omega arith;
          within = omega arith;
          backed = sized;
        },
        refl,
        omega arith,
      )
]

pub length-readable : (b : Buffer) → IsValid b → length (readable b) ≡ readable_bytes b
unfolding readable readable_bytes
length-readable b v = length-segment b.reader_index b.writer_index b.memory (omega arith)

pub retrieve-IsValid : (n : ℕ) (b : Buffer) → IsValid b → IsValid (retrieve n b)
unfolding retrieve
retrieve-IsValid n b v = ground arith

pub readable-retrieve_all : (b : Buffer) → readable (retrieve_all b) ≡ []
unfolding readable retrieve_all segment
readable-retrieve_all b = refl

-- Discarding n bytes drops the first n readable ones, and all of them if n is larger.
pub readable-retrieve :
    (n : ℕ) (b : Buffer) → IsValid b → readable (retrieve n b) ≡ drop n (readable b)
unfolding retrieve
readable-retrieve n b v = elim (Bool-cases (ltb n (readable_bytes b))) [
  | inl less ↦
      rw less (unfold readable in sym (segment-drop n b.reader_index b.writer_index b.memory))
  | inr more ↦ rw more (
      readable-retrieve_all b ∙ sym (drop_all n (readable b) (ground (arith, length-readable b v))))
]

make_space_grow :
    (m : Malloc) (len : ℕ) (b : Buffer) (block : Bytes)
    → IsValid b
    → length block ≡ b.writer_index + len
    → let c = record b {
      memory = overwrite b.reader_index (readable b) block;
      capacity = b.writer_index + len;
    } in
      IsValid c × (readable c ≡ readable b) × (len ≤ writable_bytes c)
unfolding writable_bytes readable_bytes
make_space_grow m len b block v e =
    let n = length-readable b v in
    (
      record {
        header = v.header;
        ordered = v.ordered;
        within = omega arith;
        backed = length-overwrite b.reader_index (readable b) block (omega arith) ∙ e;
      },
      (unfold readable in
          segment-overwrite b.reader_index b.writer_index (readable b) block (omega arith)
            (omega arith)),
      omega arith,
    )

make_space_move :
    (len : ℕ) (b : Buffer)
    → IsValid b
    → len + 8 ≤ writable_bytes b + b.reader_index
    → let c = record b {
      memory = overwrite 8 (readable b) b.memory;
      reader_index = 8;
      writer_index = 8 + readable_bytes b;
    } in
      IsValid c × (readable c ≡ readable b) × (len ≤ writable_bytes c)
unfolding writable_bytes readable_bytes
make_space_move len b v e =
    let n = length-readable b v in
    (
      record {
        header = omega arith;
        ordered = omega arith;
        within = omega arith;
        backed = length-overwrite 8 (readable b) b.memory (omega arith) ∙ v.backed;
      },
      (unfold readable in
          segment-overwrite 8 (8 + readable_bytes b) (readable b) b.memory (omega arith)
            (omega arith)),
      omega arith,
    )

-- What a call that makes room guarantees, where it returns.
pub record Roomy (len : ℕ) (b c : Buffer) : Type 0 where
  pub valid : IsValid c
  pub same : readable c ≡ readable b
  pub room : len ≤ writable_bytes c

-- Either the block of `writer_index + len` bytes is refused, or there is room and nothing else shows.
abbrev pub MakesRoom : Malloc → ℕ → Buffer → Option Buffer → Type 0
MakesRoom m len b r =
    ((r ≡ none) × (m.malloc (b.writer_index + len) ≡ none))
    ⊎ ((c : Buffer) × (r ≡ some c) × Roomy len b c)

make_space_lem :
    (m : Malloc) (len : ℕ) (b : Buffer)
    → IsValid b
    → writable_bytes b < len
    → MakesRoom m len b (make_space m len b)
unfolding make_space allocate prependable_bytes
make_space_lem m len b v h = elim (Bool-cases (ltb (writable_bytes b + b.reader_index) (len + 8))) [
  | inr enough ↦
      let (valid, same, room) = make_space_move len b v (ground arith) in
      inr (_, rw enough refl, record { valid = valid; same = same; room = room })
  | inl short ↦ elim (Option-cases (allocate m (b.writer_index + len))) [
    | inl failed ↦ inl (ground arith, ground arith)
    | inr (block, found) ↦
        let (valid, same, room) =
          make_space_grow m len b block v (allocate-length m _ block found) in
        inr (_, rw (short, found) refl, record { valid = valid; same = same; room = room })
  ]
]

-- On a valid buffer `ensure_writable_bytes` either fails because the allocator refuses a block of
-- `writer_index + len` bytes, or leaves a valid buffer with the same readable bytes and room for len.
pub ensure_writable_bytes_lem :
    (m : Malloc) (len : ℕ) (b : Buffer)
    → IsValid b
    → MakesRoom m len b (ensure_writable_bytes m len b)
unfolding ensure_writable_bytes
ensure_writable_bytes_lem m len b v = elim (Bool-cases (ltb (writable_bytes b) len)) [
  | inl short ↦ rw short (make_space_lem m len b v (ground arith))
  | inr enough ↦ rw enough (inr (b, refl, record { valid = v; same = refl; room = ground arith }))
]
