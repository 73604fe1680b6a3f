-- ===== src/Wal/Append.antt =====
-- `Wal` of src/storage_engine/memtable/wal.rs: entries go to the active segment, and a new segment
-- is begun when an entry does not fit. Files are named relative to the directory of the log.
use rkvs.Base.{ℕ, ◌+◌, ◌%◌, ◌^◌, List, length, leb, slice, IoError, if◌then◌else◌}
use rkvs.Base.Io.{Io, ◌>>=◌, ◌>>◌, pure, modify}
use rkvs.Wal.Entry.{WalEntry, header_size, to_bytes}
use rkvs.Wal.Filename.{determine_segment_filename}
use rkvs.Wal.Segment
use rkvs.Wal.Segment.{FileSystem, State, on_disk, next_lsn}

module _ (fs : FileSystem) (segment_max_size : ℕ) where
  -- Wal::rotate
  unfoldable pub rotate : ℕ → Io (State fs) IoError (Unit {0})
  rotate next_sequence_number = do
    path ← pure (determine_segment_filename 0 next_sequence_number segment_max_size)
    on_disk fs (fs.create path)
    segment ← Segment.new fs path segment_max_size
    modify λ s. record { disk = s.disk; active_segment = segment }

  -- the three ways in which append writes the bytes of an entry
  unfoldable pub append_whole : List ℕ → Io (State fs) IoError (Unit {0})
  append_whole buf = Segment.append fs buf

  unfoldable pub append_split : ℕ → List ℕ → Io (State fs) IoError (Unit {0})
  append_split next buf = do
    head ← pure (slice buf 0 header_size)
    Segment.append fs head
    Segment.pad fs
    rotate next
    rest ← pure (slice buf header_size (length buf))
    Segment.append fs rest

  unfoldable pub append_next : ℕ → List ℕ → Io (State fs) IoError (Unit {0})
  append_next next buf = do Segment.pad fs; rotate next; Segment.append fs buf

  unfoldable pub append_by_space : ℕ → List ℕ → ℕ → ℕ → Io (State fs) IoError (Unit {0})
  append_by_space next buf buf_size free_space =
      if leb buf_size free_space
      then append_whole buf
      else if leb header_size free_space
      then append_split next buf
      else append_next next buf

  unfoldable pub append_bytes : ℕ → List ℕ → Io (State fs) IoError (Unit {0})
  unfolding append_by_space
  append_bytes sequence_number buf = do
    let buf_size = length buf % 2 ^ 32
    free_space ← Segment.remaining_space fs
    append_by_space (sequence_number + buf_size) buf buf_size free_space

  -- Wal::append
  unfoldable pub append : (List ℕ → ℕ) → WalEntry → Io (State fs) IoError (Unit {0})
  append checksum entry = do
    buf ← pure (to_bytes checksum entry)
    append_bytes entry.sequence_number buf

  -- Wal::create_new
  unfoldable pub create_new : Io (State fs) IoError (Unit {0})
  create_new = rotate 0

  -- Wal::next_sequence_number
  abbrev pub next_sequence_number : State fs → ℕ
  next_sequence_number s = next_lsn s.active_segment

  -- Wal::from_segment
  abbrev pub from_segment : fs.Disk → Segment.Segment → State fs
  from_segment disk segment = record { disk = disk; active_segment = segment }
