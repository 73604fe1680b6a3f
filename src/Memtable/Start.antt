-- ===== src/Memtable/Start.antt =====
-- `MemTable::start` of src/storage_engine/memtable.rs: the segments in the directory of the log are
-- listed, opened and recovered, and the worker goes on behind them.
use rkvs.Base.{
  ℕ, ◌+◌, ◌%◌, ◌^◌, List, [], ◌∷◌, Bool, true, false, Option, none, some, ltb, if◌then◌else◌,
  Outcome, ok, err, panic, assert, Text, text_lt, IoError,
}
use rkvs.Base
use rkvs.Base.Io.{Io, ◌>>=◌, ◌>>◌, pure}
use rkvs.Wal.Parse.{io, corrupted}
use rkvs.Wal.Filename.{final_entry_after}
use rkvs.Wal.Segment
use rkvs.Wal.Segment.{FileSystem, State, result, next_lsn}
use rkvs.Wal.Append
use rkvs.SsTable.Writer.Flush.{sort}
use rkvs.Memtable.Table.{Table}
use rkvs.Memtable.Worker.{Worker}
use rkvs.Memtable.Recover.{SegmentFile, Recovered, recover}

-- What std::fs tells of an entry of a directory.
pub record DirEntry : Type 0 where
  pub name : Text
  pub is_file : Outcome IoError Bool
  pub len : Outcome IoError ℕ

-- What else std::fs gives the start, in the directory of the log.
pub record Directory (fs : FileSystem) : Type 0 where
  pub create_dir_all : fs.Disk → Option IoError × fs.Disk
  pub read_dir : fs.Disk → Outcome IoError (List (Outcome IoError DirEntry))
  pub open_to_read : Text → fs.Disk → Option IoError
  pub open_to_write : Text → fs.Disk → Option IoError
  pub metadata_len : Text → fs.Disk → Outcome IoError ℕ
  pub read_to_end : Text → fs.Disk → Option IoError × List ℕ
  pub set_len : Text → ℕ → fs.Disk → Option IoError × fs.Disk
  pub remove_file : Text → fs.Disk → Option IoError × fs.Disk

-- whether an entry of the directory is a segment with something behind the number
abbrev pub is_listed : ℕ → DirEntry → Outcome IoError Bool
is_listed sequence_number entry = Base.◌>>=◌ entry.is_file λ is_file.
    if is_file
    then Base.◌>>=◌ entry.len (λ len. final_entry_after entry.name len sequence_number)
    else ok false

abbrev pub keep_if : Bool → Text → List Text → List Text
keep_if true name names = name ∷ names
keep_if false name names = names

-- the loop over the entries of the directory
unfoldable pub list_entries : ℕ → List (Outcome IoError DirEntry) → Outcome IoError (List Text)
list_entries sequence_number [] = ok []
list_entries sequence_number (found ∷ more) = Base.◌>>=◌ found λ entry.
    Base.◌>>=◌ (is_listed sequence_number entry) λ keep.
      Base.◌>>=◌ (list_entries sequence_number more) λ names. ok (keep_if keep entry.name names)

-- the last path of a list
abbrev pub last : List Text → Option Text
last [] = none
last (path ∷ []) = some path
last (path ∷ (next ∷ paths)) = last (next ∷ paths)

-- the paths at or behind a path
abbrev pub from_path : Text → List Text → List Text
from_path path [] = []
from_path path (p ∷ paths) =
    let rest = from_path path paths in if text_lt p path then rest else p ∷ rest

module _ (fs : FileSystem) (dir : Directory fs) where
  -- a call that changes the disk, and one that only reads it
  abbrev pub effect : (fs.Disk → Option IoError × fs.Disk) → Io fs.Disk IoError (Unit {0})
  effect call d = (result (call d).0, (call d).1)

  abbrev pub observe : {A : Type 0} → (fs.Disk → Outcome IoError A) → Io fs.Disk IoError A
  observe f d = (f d, d)

  -- MemTable::list_segment_files
  unfoldable pub list_segment_files : ℕ → Io fs.Disk IoError (List Text)
  unfolding list_entries sort
  list_segment_files sequence_number = do
    entries ← observe dir.read_dir
    segment_file_paths ← pure (list_entries sequence_number entries)
    pure (ok (sort segment_file_paths))

  -- a segment that is opened in one of the two ways
  unfoldable pub open_segment :
      (Text → fs.Disk → Option IoError) → ℕ → Text → Io fs.Disk IoError Segment.Segment
  open_segment opens segment_size path = do
    observe (λ d. result (opens path d))
    file_size ← observe (dir.metadata_len path)
    if ltb segment_size file_size
        then pure (err IoError.file_too_large)
        else pure (Segment.from path (file_size % 2 ^ 32) segment_size)

  unfoldable pub open_segments : ℕ → List Text → Io fs.Disk IoError (List Segment.Segment)
  unfolding open_segment
  open_segments segment_size [] = pure (ok [])
  open_segments segment_size (path ∷ paths) = do
    segment ← open_segment dir.open_to_read segment_size path
    segments ← open_segments segment_size paths
    pure (ok (segment ∷ segments))

  -- MemTable::find_and_open_segments
  unfoldable pub find_and_open_segments : ℕ → ℕ → Io fs.Disk IoError (List Segment.Segment)
  unfolding list_segment_files open_segments
  find_and_open_segments segment_size sequence_number = do
    segment_file_paths ← list_segment_files sequence_number
    open_segments segment_size segment_file_paths

  -- the last path that was found
  unfoldable pub open_found : ℕ → Option Text → Io fs.Disk IoError Segment.Segment
  unfolding open_segment
  open_found segment_size none = pure (err IoError.not_found)
  open_found segment_size (some fp) = open_segment dir.open_to_write segment_size fp

  -- MemTable::open_last_segment
  unfoldable pub open_last_segment : ℕ → Io fs.Disk IoError Segment.Segment
  unfolding list_segment_files open_found
  open_last_segment segment_size = do
    paths ← list_segment_files 0
    open_found segment_size (last paths)

  -- MemTable::truncate_and_open_segment_file
  unfoldable pub truncate_and_open_segment_file : Text → ℕ → ℕ → Io fs.Disk IoError Segment.Segment
  unfolding list_segment_files
  truncate_and_open_segment_file segment_fp offset segment_size = do
    segment_filepaths ← list_segment_files 0
    elim (from_path segment_fp (sort segment_filepaths)) [
      | [] ↦ pure (err IoError.not_found)
      | first ∷ _ ↦ do
        observe (λ d. result (dir.open_to_write first d))
        effect (dir.set_len first offset)
        pure (Segment.from first (offset % 2 ^ 32) segment_size)
    ]

  unfoldable pub remove_files : List Text → Io fs.Disk IoError (Unit {0})
  remove_files [] = pure (ok tt)
  remove_files (fp ∷ paths) = do effect (dir.remove_file fp); remove_files paths

  -- what the recovery reads of segments that are open
  abbrev pub reading : fs.Disk → List Segment.Segment → List SegmentFile
  reading d [] = []
  reading d (segment ∷ segments) =
      record {
        file_path = segment.file_path;
        contents = (dir.read_to_end segment.file_path d).1;
        failure = (dir.read_to_end segment.file_path d).0;
      }
      ∷ reading d segments

  module _ (segment_size : ℕ) (checksum : List ℕ → ℕ) {F : Type 0}
      (flush : Table → Io F IoError (Unit {0})) (max_size : ℕ) (flusher : F) where
    -- The worker, or `none` for a parser that ran out of fuel.
    abbrev pub Started : Type 0
    Started = Io fs.Disk IoError (Option (Worker fs segment_size checksum flush max_size))

    -- MemTable::from
    unfoldable pub from :
        Table → State fs → ℕ → Option (Worker fs segment_size checksum flush max_size)
    from table wal current_size =
        some (record { table = table; wal = wal; flusher = flusher; current_size = current_size })

    -- a worker whose log goes on in this segment
    abbrev pub go_on : Table → ℕ → Segment.Segment → Started
    go_on table current_size segment d =
        (ok (from table (Append.from_segment fs segment_size d segment) current_size), d)

    -- what the start makes of the result of the recovery
    unfoldable pub after_recovery : Recovered → Started
    unfolding open_last_segment truncate_and_open_segment_file list_segment_files remove_files from
    after_recovery none = pure (ok none)
    after_recovery (some (table, ok current_size)) = do
      segment ← open_last_segment segment_size
      go_on table current_size segment
    after_recovery (some (table, err (current_size, corrupted fp offset))) = do
      segment ← truncate_and_open_segment_file fp offset segment_size
      file_paths ← list_segment_files (next_lsn segment)
      remove_files file_paths
      go_on table current_size segment
    after_recovery (some (table, err (current_size, io e))) = pure (err e)
    after_recovery (some (table, panic)) = pure panic

    -- the log of a directory without segments; none is active before it is created
    unfoldable pub start_new : Started
    unfolding from
    start_new d =
        let (r, s) = Append.create_new fs segment_size (record {
          disk = d;
          active_segment = record { file_path = []; file_size = 0; max_size = 0; base_lsn = 0 };
        }) in
        (Base.◌>>=◌ r (λ _. ok (from [] s 0)), s.disk)

    -- what is made of the segments that are found
    unfoldable pub start_with : ℕ → List Segment.Segment → Started
    unfolding after_recovery start_new
    start_with sequence_number [] = start_new
    start_with sequence_number (first ∷ more) = do
      pure (assert (ltb 0 segment_size))
      recovered ← observe (λ d. ok (
          recover checksum (reading d (first ∷ more)) (sequence_number % segment_size) none
            ([], 0)))
      after_recovery recovered

    -- MemTable::start
    unfoldable pub start : ℕ → Started
    unfolding find_and_open_segments start_with
    start sequence_number = do
      effect dir.create_dir_all
      segments ← find_and_open_segments segment_size sequence_number
      start_with sequence_number segments
