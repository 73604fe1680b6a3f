-- ===== src/Memtable/StartLaws.antt =====
-- The calls of `MemTable::start` on a directory that holds the files of a log.
use mathlib.Core.Path.{subst}
use mathlib.Core.List.{Permᴰ}
use rkvs.Base.{
  ℕ, ◌%◌, ◌^◌, ◌<◌, ◌≤◌, ◌≡◌, refl, sym, List, [], ◌∷◌, ◌++◌, true, Option, none, some, length,
  le→not-ltb, All, Outcome, ok, Text, IoError,
}
use rkvs.Wal.Filename.{base_lsn, final_entry_after}
use rkvs.Wal.Segment
use rkvs.Wal.Segment.{FileSystem, State}
use rkvs.Wal.DiskLaws.{DiskLaws}
use rkvs.SsTable.Writer.SortLaws.{AscendsKeys}
use rkvs.Memtable.RecoverLaws.{Chunk}
use rkvs.Memtable.Chunks.{paths_of}
use rkvs.Memtable.Listing.{sort-listed}
use rkvs.Memtable.Start.{
  DirEntry, Directory, last, list_entries, list_segment_files, open_segment, open_segments, reading,
}
use rkvs.Memtable.Durable.{opened}

All-permuted : {A : Type 0} (P : A → Type 0) {xs ys : List A} → Permᴰ xs ys → All P ys → All P xs
All-permuted P Permᴰ.nil h = tt
All-permuted P (Permᴰ.cons e d) (h, hs) = (subst P (sym e) h, All-permuted P d hs)
All-permuted P (Permᴰ.swap e f) (h, (k, hs)) = (subst P (sym e) k, (subst P (sym f) h, hs))
All-permuted P (Permᴰ.trans d e) h = All-permuted P d (All-permuted P e h)

pub last-paths_of :
    (cs : List Chunk) (c : Chunk) → last (paths_of (cs ++ c ∷ [])) ≡ some c.file_path
last-paths_of [] c = refl
last-paths_of (x ∷ []) c = refl
last-paths_of (x ∷ (y ∷ cs)) c = last-paths_of (y ∷ cs) c

module _ (fs : FileSystem) (disk : DiskLaws fs) (dir : Directory fs) (d : fs.Disk) where
  -- the calls on a file, where none fails
  pub record IsReadable (path : Text) : Type 0 where
    pub to_read : dir.open_to_read path d ≡ none
    pub to_write : dir.open_to_write path d ≡ none
    pub len : dir.metadata_len path d ≡ ok (length (disk.read path d))
    pub bytes : dir.read_to_end path d ≡ (none, disk.read path d)

  -- the entries of files in a directory
  abbrev pub entries_at : List Text → List (Outcome IoError DirEntry)
  entries_at [] = []
  entries_at (name ∷ names) =
      ok (record { name = name; is_file = ok true; len = ok (length (disk.read name d)) })
      ∷ entries_at names

  -- The directory is there, and lists these files, in some order; no call on them fails.
  pub record Answers (paths : List Text) : Type 0 where
    pub exists : dir.create_dir_all d ≡ (none, d)
    pub names : List Text
    pub lists : dir.read_dir d ≡ ok (entries_at names)
    pub same_names : Permᴰ names paths
    pub readable : All IsReadable paths

  abbrev IsListed : Text → Type 0
  IsListed path = final_entry_after {E = IoError} path (length (disk.read path d)) 0 ≡ ok true

  list_entries-entries_at :
      (names : List Text) → All IsListed names → list_entries 0 (entries_at names) ≡ ok names
  unfolding list_entries
  list_entries-entries_at [] h = refl
  list_entries-entries_at (name ∷ names) (h, hs) = rw (h, list_entries-entries_at names hs) refl

  -- A path of the log, as the start needs it.
  pub record IsSegmentFile (size : ℕ) (path : Text) : Type 0 where
    pub listed : IsListed path
    pub fits : length (disk.read path d) ≤ size
    pub base : ℕ
    pub base_eq : base_lsn {E = IoError} path size ≡ ok base

  all-IsListed :
      (size : ℕ) (paths : List Text) → All (IsSegmentFile size) paths → All IsListed paths
  all-IsListed size [] h = tt
  all-IsListed size (p ∷ paths) (h, hs) = (h.listed, all-IsListed size paths hs)

  pub list_segment_files-paths :
      (size : ℕ) (paths : List Text)
      → Answers paths
      → All (IsSegmentFile size) paths
      → AscendsKeys paths
      → list_segment_files fs dir 0 d ≡ (ok paths, d)
  unfolding list_segment_files
  list_segment_files-paths size paths a h ascends =
      rw
        (
          a.lists,
          list_entries-entries_at a.names
              (All-permuted IsListed a.same_names (all-IsListed size paths h)),
          sort-listed a.names paths a.same_names ascends,
        )
        refl

  -- the segment at a path
  abbrev pub segment_at : ℕ → Text → ℕ → Segment.Segment
  segment_at size path base = record {
    file_path = path;
    file_size = length (disk.read path d) % 2 ^ 32;
    max_size = size;
    base_lsn = base;
  }

  pub open_segment-path :
      (opens : Text → fs.Disk → Option IoError) (size : ℕ) (path : Text)
      (h : IsSegmentFile size path)
      → IsReadable path
      → opens path d ≡ none
      → open_segment fs dir opens size path d ≡ (ok (segment_at size path h.base), d)
  unfolding open_segment Segment.from
  open_segment-path opens size path h r e =
      rw (e, r.len, le→not-ltb size (length (disk.read path d)) h.fits, h.base_eq) refl

  -- what opening files comes to
  pub record Opens (checksum : List ℕ → ℕ) (size : ℕ) (size_pos : 0 < size) (paths : List Text)
      : Type 0 where
    pub segments : List Segment.Segment
    pub open_eq : open_segments fs dir size paths d ≡ (ok segments, d)
    pub reading_eq : reading fs dir d segments ≡ opened fs disk checksum size size_pos d paths

  pub open_segments-paths :
      (checksum : List ℕ → ℕ) (size : ℕ) (size_pos : 0 < size) (paths : List Text)
      → All (IsSegmentFile size) paths
      → All IsReadable paths
      → Opens checksum size size_pos paths
  unfolding open_segments
  open_segments-paths checksum size size_pos [] h r = record {
    segments = [];
    open_eq = refl;
    reading_eq = refl;
  }
  open_segments-paths checksum size size_pos (path ∷ paths) (h, hs) (r, rs) =
      let rest = open_segments-paths checksum size size_pos paths hs rs in
      record {
        segments = segment_at size path h.base ∷ rest.segments;
        open_eq =
            rw (open_segment-path dir.open_to_read size path h r r.to_read, rest.open_eq) refl;
        reading_eq = rw (r.bytes, rest.reading_eq) refl;
      }
