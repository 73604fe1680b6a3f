-- ===== src/Wal/Filename.antt =====
-- The names of the segments of the log, src/storage_engine/memtable/wal/segment.rs: 8 hex digits
-- each for the timeline, the logical log and the number of the segment in it, and ".wal".
use rkvs.Base.{
  ℕ, ◌+◌, ◌*◌, ◌/◌, ◌%◌, ◌^◌, [], ◌∷◌, ◌++◌, Bool, Option, none, some, length, if◌then◌else◌, ltb,
  ◌==◌, Outcome, ok, ◌>>=◌, ◌>>◌, assert, unwrap, slice, to_hex, pad, from_hex, Text,
}

abbrev pub extension : Text
extension = b'.' ∷ b'w' ∷ b'a' ∷ b'l' ∷ []

unfoldable pub determine_segment_filename : {E : Type 0} → ℕ → ℕ → ℕ → Outcome E Text
determine_segment_filename timeline sequence_number segment_size = do
  timeline_hex ← pad 8 (to_hex timeline)
  sequence_hex ← pad 16 (to_hex sequence_number)
  let segment_no = sequence_number % 2 ^ 32 / segment_size
  segment_hex ← pad 16 (to_hex segment_no)
  log_hex ← slice sequence_hex 0 8
  number_hex ← slice segment_hex 8 (length segment_hex)
  ok ((timeline_hex ++ (log_hex ++ number_hex)) ++ extension)

-- What stands in front of the last dot.
unfoldable pub before_last_dot : Text → Option Text
before_last_dot [] = none
before_last_dot (c ∷ cs) = elim (before_last_dot cs) [
  | some front ↦ some (c ∷ front)
  | none ↦ if c == b'.' then some [] else none
]

-- PathBuf::file_stem of a name: a dot in front of everything else does not count.
unfoldable pub file_stem : Text → Text
file_stem name = elim (before_last_dot name) [
  | none ↦ name
  | some [] ↦ name
  | some (c ∷ cs) ↦ c ∷ cs
]

-- The first sequence number of the segment of this name, as Segment::new and Segment::from read it.
unfoldable pub base_lsn : {E : Type 0} → Text → ℕ → Outcome E ℕ
base_lsn name max_size = do
  let stem = file_stem name
  assert (length stem == 24)
  log_hex ← slice stem 8 16
  log ← unwrap (from_hex log_hex)
  number_hex ← slice stem 16 (length stem)
  number ← unwrap (from_hex number_hex)
  ok (log * 2 ^ 32 + number * max_size)

unfoldable pub final_entry_after : {E : Type 0} → Text → ℕ → ℕ → Outcome E Bool
final_entry_after filename file_size sequence_number = do
  number_hex ← slice filename 16 24
  segment_no ← unwrap (from_hex number_hex)
  log_hex ← slice filename 8 16
  logical_log_no ← unwrap (from_hex log_hex)
  ok (ltb sequence_number (logical_log_no * 2 ^ 32 + file_size * (segment_no + 1)))
