-- ===== src/SsTable/Segment/File.antt =====
-- What std::fs gives the readers of a segment: the calls on an open file, and what they return for
-- a file whose reads are complete, or may be short or fail.
use rkvs.Base.{
  ℕ, ◌⊎◌, ◌+◌, ◌-◌, ◌<◌, ◌≤◌, ◌≡◌, List, [], ◌++◌, length, take, drop, Outcome, ok, err, panic,
  IoError,
}

-- FileExt::read_at: at an offset, into a buffer of a size; it may return fewer bytes.
abbrev pub ReadAt : Type 0
ReadAt = ℕ → ℕ → Outcome IoError (List ℕ)

-- An open file: its size, read_at, a seek to the last `n` bytes with read_to_end, and a seek to an
-- offset with read_exact.
pub record File : Type 0 where
  pub size : ℕ
  pub read_at : ReadAt
  pub read_last : ℕ → Outcome IoError (List ℕ)
  pub read_exact : ℕ → ℕ → Outcome IoError (List ℕ)

-- The file holds these bytes, and every read within them succeeds and is complete. read_at may do
-- less on some systems.
pub record Holds (file : File) (contents : List ℕ) : Type 0 where
  pub size_lem : file.size ≡ length contents
  pub read_at_lem : (offset n : ℕ) → file.read_at offset n ≡ ok (take n (drop offset contents))
  pub read_last_lem :
      (n : ℕ) → n ≤ length contents → file.read_last n ≡ ok (drop (length contents - n) contents)
  pub read_exact_lem :
      (offset n : ℕ)
      → offset + n ≤ length contents
      → file.read_exact offset n ≡ ok (take n (drop offset contents))

-- What read_at may come to on a file that has these bytes at the offset, within the size of the
-- buffer: an error, or some of them from the first on, one at least where there is one.
abbrev pub ReadsSome : List ℕ → Outcome IoError (List ℕ) → Type 0
ReadsSome bytes (ok got) =
    (more : List ℕ) × (bytes ≡ got ++ more) × ((0 < length got) ⊎ (bytes ≡ []))
ReadsSome bytes (err e) = Unit
ReadsSome bytes panic = ⊥

-- read_at reads these contents, with short reads and with errors.
abbrev pub MayRead : File → List ℕ → Type 0
MayRead file contents =
    (offset n : ℕ) → ReadsSome (take n (drop offset contents)) (file.read_at offset n)

-- the error of a read
abbrev pub ReadFailed : File → IoError → Type 0
ReadFailed file e = (offset : ℕ) × (n : ℕ) × (file.read_at offset n ≡ err e)
