-- ===== src/Net/Buffer/Fd.antt =====
-- `Buffer::read_fd` and `Buffer::write_fd`. The system calls are the environment: `readv` has a
-- stream of bytes ready, of which it stores as many as the blocks offered hold, first in the buffer
-- and then in the stack's block of 65536 bytes; both calls may fail with an error number.
use zhttp.Prelude.{
  ℕ, ◌+◌, ◌≤◌, ◌≡◌, refl, ap, sym, ◌∙◌, [], ◌++◌, Option, none, some, Bytes, arith, ◌⊎◌, Bool-cases,
  ltb, leb, inl, inr, length, take, drop, if◌then◌else◌, length-take, length-drop, take-append-drop,
  append_assoc, append-nil,
}
use zhttp.Net.Memory.{Malloc, overwrite}
use zhttp.Net.Buffer.{Buffer, writable_bytes, readable, retrieve, append, has_written}
use zhttp.Net.Buffer.Validity.{IsValid, retrieve-IsValid, readable-retrieve}
use zhttp.Net.Buffer.Queue.{append_lem, readable-has_written}

pub data Io : Type 0 where
  failed : (errno : ℕ) → Io
  moved : Bytes → Io

abbrev pub extrabuf_size : ℕ
extrabuf_size = 65536

-- How many bytes `readv` may store: the second block counts where the first is shorter than it.
unfoldable pub offered : Buffer → ℕ
offered b =
    if ltb (writable_bytes b) extrabuf_size
    then writable_bytes b + extrabuf_size
    else writable_bytes b

-- The bytes that `readv` stored in the first block are written before the indices move.
unfoldable pub filled : Bytes → Buffer → Buffer
filled bytes b =
    has_written (length bytes) (record b { memory = overwrite b.writer_index bytes b.memory })

-- The buffer after the call; `none` where the append of the second block throws.
unfoldable pub read_fd : Malloc → Io → Buffer → Option Buffer
read_fd m (failed errno) b = some b
read_fd m (moved stream) b =
    let bytes = take (offered b) stream in
    if leb (length bytes) (writable_bytes b)
    then some (filled bytes b)
    else append m (drop (writable_bytes b) bytes) (filled (take (writable_bytes b) bytes) b)

-- `write` reports how many of the readable bytes it took.
unfoldable pub write_fd : Io → Buffer → Buffer
write_fd (failed errno) b = b
write_fd (moved taken) b = retrieve (length taken) b

-- The bytes that `write` takes.
abbrev pub sent : Io → Bytes
sent (failed errno) = []
sent (moved taken) = taken

-- The bytes that `readv` stores.
abbrev pub arrived : Io → Buffer → Bytes
arrived (failed errno) b = []
arrived (moved stream) b = take (offered b) stream

-- What a read may end in: a refused block of the size that holds everything, or the buffer with the
-- bytes that arrived behind the readable ones.
abbrev pub Receives : Malloc → Bytes → Buffer → Option Buffer → Type 0
Receives m bytes b r =
    ((r ≡ none) × (m.malloc (b.writer_index + length bytes) ≡ none))
    ⊎ ((c : Buffer) × (r ≡ some c) × IsValid c × (readable c ≡ readable b ++ bytes))

spill :
    (m : Malloc) (bytes : Bytes) (b : Buffer)
    → IsValid b
    → writable_bytes b ≤ length bytes
    → Receives m bytes b
        (append m (drop (writable_bytes b) bytes) (filled (take (writable_bytes b) bytes) b))
unfolding filled has_written
spill m bytes b v h =
    let w : ℕ = writable_bytes b in
    let n = length-take w bytes in
    let (valid, end) = readable-has_written (take w bytes) b v (omega arith) in
    elim (append_lem m (drop w bytes) _ valid) [
      | inl (failed', refused) ↦ inl (failed', ap m.malloc (total w bytes b) ∙ refused)
      | inr (c, made, valid', end') ↦ inr (
        c,
        made,
        valid',
        end'
            ∙ (ap (λ s. s ++ drop w bytes) end
                ∙ (append_assoc (readable b) (take w bytes) (drop w bytes)
                    ∙ ap (◌++◌ (readable b)) (take-append-drop w bytes))),
      )
    ]
  where
    total :
        (w : ℕ) (bytes : Bytes) (b : Buffer)
        → b.writer_index + length bytes
          ≡ b.writer_index + length (take w bytes) + length (drop w bytes)
    total w bytes b = omega (arith, length-take w bytes, length-drop w bytes)

-- On a valid buffer a read puts what `readv` stored, in order, behind the readable bytes, also where it
-- spilled over into the stack's block; only a refused allocation gives no result.
pub read_fd_lem :
    (m : Malloc) (io : Io) (b : Buffer) → IsValid b → Receives m (arrived io b) b (read_fd m io b)
unfolding read_fd filled
read_fd_lem m (failed errno) b v = inr (b, refl, v, sym (append-nil _))
read_fd_lem m (moved stream) b v =
    elim (Bool-cases (leb (length (take (offered b) stream)) (writable_bytes b))) [
      | inl fits ↦
          let (valid, end) = readable-has_written (take (offered b) stream) b v (ground arith) in
          inr (filled (take (offered b) stream) b, rw fits refl, valid, end)
      | inr over ↦ rw over (spill m (take (offered b) stream) b v (ground arith))
    ]

-- On a valid buffer a write takes the bytes that the system call accepted from the front of the readable
-- ones, a failed call none, and the buffer stays valid.
pub write_fd_lem :
    (io : Io) (b : Buffer)
    → IsValid b
    → IsValid (write_fd io b) × (readable (write_fd io b) ≡ drop (length (sent io)) (readable b))
unfolding write_fd
write_fd_lem (failed errno) b v = (v, refl)
write_fd_lem (moved taken) b v =
    (retrieve-IsValid (length taken) b v, readable-retrieve (length taken) b v)
