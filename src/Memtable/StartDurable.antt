-- ===== src/Memtable/StartDurable.antt =====
-- A start behind a crash: the worker goes on where the one before it was.
use mathlib.Core.Path.{subst}
use rkvs.Base.{
  ℕ, ◌*◌, ◌%◌, ◌^◌, ◌<◌, ◌≤◌, ◌≡◌, ◌≢◌, refl, sym, ap, ◌∙◌, arith, List, [], ◌∷◌, ◌++◌, some,
  length, lt→ltb, All, ok, Text, IoError,
}
use rkvs.Base.Io.{Io}
use rkvs.Wal.Segment
use rkvs.Wal.Segment.{FileSystem, State}
use rkvs.Wal.NameLaws.{IsNamed, IsNamed-base_lsn, IsNamed-final_entry_after}
use rkvs.Wal.DiskLaws.{DiskLaws}
use rkvs.SsTable.Writer.SortLaws.{AscendsKeys}
use rkvs.Memtable.Table.{Table}
use rkvs.Memtable.Worker.{Worker}
use rkvs.Memtable.RecoverLaws.{Chunk}
use rkvs.Memtable.Chunks.{active, paths_of}
use rkvs.Memtable.LogStored.{Earlier, IsFilled, paths_of-AscendsKeys}
use rkvs.Memtable.Durable.{opened, chunks, IsDurable, recover-IsDurable}
use rkvs.Memtable.Start.{
  Directory, find_and_open_segments, open_last_segment, open_found, reading, start, start_with,
  after_recovery, from,
}
use rkvs.Memtable.StartLaws.{
  Answers, IsReadable, IsSegmentFile, segment_at, last-paths_of, list_segment_files-paths,
  open_segment-path, open_segments-paths,
}

segment_eq :
    {path : Text} {a a' b b' c c' : ℕ}
    → a ≡ a'
    → b ≡ b'
    → c ≡ c'
    → ◌≡◌ {A = Segment.Segment}
        (record { file_path = path; file_size = a; max_size = b; base_lsn = c })
        (record { file_path = path; file_size = a'; max_size = b'; base_lsn = c' })
segment_eq h k l = rw (h, k, l) refl

module _ (fs : FileSystem) (disk : DiskLaws fs) (dir : Directory fs) (checksum : List ℕ → ℕ)
    (size : ℕ) (size_pos : 0 < size) where
  module _ (d : fs.Disk) where
    segment_file :
        (number : ℕ) (path : Text)
        → IsNamed size number path
        → 0 < length (disk.read path d)
        → length (disk.read path d) ≤ size
        → IsSegmentFile fs disk dir d size path
    segment_file number path named positive fits = record {
      listed =
          IsNamed-final_entry_after size number path (length (disk.read path d)) named positive;
      fits = fits;
      base = number * size;
      base_eq = IsNamed-base_lsn size number path named;
    }

    done_files :
        (number : ℕ) (cs : List Chunk)
        → All (Earlier fs disk checksum size size_pos number) cs
        → All (IsFilled fs disk checksum size size_pos d) cs
        → All (IsSegmentFile fs disk dir d size) (paths_of cs)
    done_files number [] h f = tt
    done_files number (c ∷ cs) (h, hs) (f, fl) = (
      segment_file h.number c.file_path h.named (omega (arith, f, size_pos)) (omega (arith, f)),
      done_files number cs hs fl,
    )

    paths-append :
        (P : Text → Type 0) (cs : List Chunk) (c : Chunk)
        → All P (paths_of cs)
        → P c.file_path
        → All P (paths_of (cs ++ c ∷ []))
    paths-append P [] c h k = (k, tt)
    paths-append P (x ∷ cs) c (h, hs) k = (h, paths-append P cs c hs k)

    paths-last :
        (P : Text → Type 0) (cs : List Chunk) (c : Chunk)
        → All P (paths_of (cs ++ c ∷ []))
        → P c.file_path
    paths-last P [] c (h, hs) = h
    paths-last P (x ∷ cs) c (h, hs) = paths-last P cs c hs

    not_empty :
        (cs : List Chunk) (c : Chunk)
        → [] ≢ opened fs disk checksum size size_pos d (paths_of (cs ++ c ∷ []))
    not_empty [] c h = cc
    not_empty (x ∷ cs) c h = cc

  module _ (size_u32 : size < 2 ^ 32) {F : Type 0} (flush : Table → Io F IoError (Unit {0}))
      (max_size : ℕ) where
    module _ (w : Worker fs size checksum flush max_size)
        (durable : IsDurable fs disk checksum size size_pos flush max_size w)
        (written : 0 < w.wal.active_segment.file_size) where
      abbrev d : fs.Disk
      d = w.wal.disk

      abbrev log : List Chunk
      log = chunks fs disk checksum size size_pos durable.logged

      abbrev paths : List Text
      paths = paths_of log

      abbrev path : Text
      path = w.wal.active_segment.file_path

      path_len : length (disk.read path d) ≡ w.wal.active_segment.file_size
      path_len = let here = durable.logged.at_end in ap (λ l. length l) here.here ∙ sym here.size_eq

      abbrev path_file : IsSegmentFile fs disk dir d size path
      path_file =
          let here = durable.logged.at_end in
          record {
            listed =
                IsNamed-final_entry_after size durable.logged.number path
                  (length (disk.read path d)) here.named (omega (arith, path_len, written));
            fits = omega (arith, path_len, here.fits);
            base = durable.logged.number * size;
            base_eq = IsNamed-base_lsn size durable.logged.number path here.named;
          }

      files : All (IsSegmentFile fs disk dir d size) paths
      files =
          let l = durable.logged in
          paths-append d (IsSegmentFile fs disk dir d size) l.done (active path l.whole)
            (done_files d l.number l.done l.at_end.stored.before l.at_end.stored.filled) path_file

      ascends : AscendsKeys paths
      ascends =
          let l = durable.logged in
          paths_of-AscendsKeys fs disk checksum size size_pos l.number l.done (active path l.whole)
            l.at_end.stored.before l.at_end.named l.at_end.stored.ascends

      same_segment :
          segment_at fs disk dir d size path (durable.logged.number * size) ≡ w.wal.active_segment
      same_segment =
          let here = durable.logged.at_end in
          let g = w.wal.active_segment in
          let len : length (disk.read path d) % 2 ^ 32 ≡ g.file_size =
            omega (arith, path_len, here.fits, size_u32) in
          segment_eq len (sym here.max_eq) (sym here.starts)

      opens_path :
          IsReadable fs disk dir d path
          → open_found fs dir size (some path) d ≡ (ok w.wal.active_segment, d)
      unfolding open_found
      opens_path readable =
          rw
            (
              open_segment-path fs disk dir d dir.open_to_write size path path_file readable
                  readable.to_write,
              same_segment,
            )
            refl

      open_last :
          Answers fs disk dir d paths
          → open_last_segment fs dir size d ≡ (ok w.wal.active_segment, d)
      unfolding open_last_segment
      open_last answers =
          let l = durable.logged in
          let readable =
            paths-last d (IsReadable fs disk dir d) l.done (active path l.whole) answers.readable in
          rw (list_segment_files-paths fs disk dir d size paths answers files ascends) (
            subst (λ found. open_found fs dir size found d ≡ (ok w.wal.active_segment, d))
              (sym (last-paths_of l.done (active path l.whole))) (opens_path readable))

      -- the recovery, on segments that are opened
      recovered :
          (flusher : F) (fits : (bytes : List ℕ) → checksum bytes < 2 ^ 32)
          (answers : Answers fs disk dir d paths) (segments : List Segment.Segment)
          → reading fs dir d segments ≡ opened fs disk checksum size size_pos d paths
          → start_with fs dir size checksum flush max_size flusher 0 segments d
            ≡ (ok (some (record w { flusher = flusher })), d)
      unfolding start_with after_recovery from
      recovered flusher fits answers [] e =
          absurd (not_empty d durable.logged.done (active path durable.logged.whole) e)
      recovered flusher fits answers (first ∷ more) e =
          rw
            (
              lt→ltb 0 size size_pos,
              no_rest,
              e,
              recover-IsDurable fs disk checksum size size_pos flush max_size fits w durable,
              open_last answers,
            )
            refl
        where
          no_rest : 0 % size ≡ 0
          no_rest = omega arith

      -- Where the directory lists the files of the log, in whatever order, and no call fails, the
      -- start of a memtable at the sequence number 0 recovers the table of the worker before it,
      -- and its size, and goes on in the active segment at the same place. The log holds the
      -- entries that make the table, a byte is written to its active segment, a segment is smaller
      -- than 2 ^ 32, and a checksum is below 2 ^ 32.
      pub start-IsDurable :
          (flusher : F) (fits : (bytes : List ℕ) → checksum bytes < 2 ^ 32)
          → Answers fs disk dir d paths
          → start fs dir size checksum flush max_size flusher 0 d
            ≡ (ok (some (record w { flusher = flusher })), d)
      unfolding start find_and_open_segments
      start-IsDurable flusher fits answers =
          let found =
            open_segments-paths fs disk dir d checksum size size_pos paths files answers.readable in
          rw
            (
              answers.exists,
              list_segment_files-paths fs disk dir d size paths answers files ascends,
              found.open_eq,
            )
            (recovered flusher fits answers found.segments found.reading_eq)
