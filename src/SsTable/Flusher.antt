-- ===== src/SsTable/Flusher.antt =====
-- `Flusher` of src/storage_engine/memtable_flusher.rs, with `SsTable::find_and_add_segment` of
-- src/storage_engine/sstable.rs and `LevelContainer::add_to_level_zero` of
-- src/storage_engine/sstable/level.rs.
pub mod Laws
pub mod Examples
use rkvs.Base.{
  ℕ, ◌+◌, List, [], Bool, ◌||◌, Outcome, ok, err, panic, if◌then◌else◌, Text, text_eq, IoError,
}
use rkvs.Base.Io.{Io, ◌>>=◌, ◌>>◌, pure, get, modify}
use rkvs.SsTable.Filename.{determine_segment_filename}
use rkvs.SsTable.Level
use rkvs.SsTable.Level.{LevelContainer, add_to_level_zero, do_compact, highest_segment_number}
use rkvs.SsTable.Output.{Output, WriteFails, OpenFails, contents}
use rkvs.SsTable.Segment.{Segment}
use rkvs.SsTable.Segment.File.{File}
use rkvs.SsTable.Segment.Open.{SegmentOpenError, io_error, corrupt, from_file}
use rkvs.SsTable.Writer.Flush.{segment_file_from_memtable}
use rkvs.Memtable.Table.{Table}

-- The levels, what the files of the directory hold (nothing, where there is none), and whether the
-- compaction thread has been notified.
pub record Flusher : Type 0 where
  pub container : LevelContainer
  pub files : Text → List ℕ
  pub notified : Bool

-- the match in LevelContainer::add_to_level_zero
unfoldable pub add_opened :
    Outcome SegmentOpenError Segment → LevelContainer → Outcome IoError LevelContainer
add_opened (ok s) c = ok (add_to_level_zero s c)
add_opened (err (io_error e)) c = err e
add_opened (err corrupt) c = panic
add_opened panic c = panic

abbrev pub store : Text → List ℕ → (Text → List ℕ) → Text → List ℕ
store name bytes files other = if text_eq other name then bytes else files other

-- what is written to a file that is opened without a truncation
unfoldable pub with_file : {A : Type 0} → Text → Io Output IoError A → Io Flusher IoError A
with_file name write f =
    let (r, o) = write (record { old = f.files name; written = [] }) in
    (r, record f { files = store name (contents o) f.files })

module _ (opens : OpenFails) (open_file : List ℕ → File) (fails : WriteFails)
    (index_sparsity_factor : ℕ) where
  -- SsTable::find_and_add_segment
  unfoldable pub find_and_add_segment : Text → Io Flusher IoError (Unit {0})
  unfolding add_opened
  find_and_add_segment path = do
    f ← get
    c ← pure (add_opened (from_file opens path (open_file (f.files path))) f.container)
    modify (λ f. record f { container = c; notified = f.notified || do_compact c })

  -- Flusher::flush
  unfoldable pub flush : Table → Io Flusher IoError (Unit {0})
  unfolding find_and_add_segment with_file
  flush table = do
    f ← get
    let number = highest_segment_number f.container.level_zero + 1
    name ← pure (determine_segment_filename 0 number)
    path ←
        with_file name (segment_file_from_memtable opens fails index_sparsity_factor table number)
    find_and_add_segment path
