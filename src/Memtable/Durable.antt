-- ===== src/Memtable/Durable.antt =====
-- What the worker has written is recovered: the files of the log give back the table and its size.
use mathlib.Core.Path.{subst}
use rkvs.Base.{
  ℕ, ◌^◌, ◌<◌, ◌≡◌, refl, sym, ap, ◌∙◌, arith, List, [], ◌∷◌, ◌++◌, Option, none, some, All, ok,
  Text, IoError,
}
use rkvs.Base.Io.{Io}
use rkvs.Wal.Entry.{WalEntry, OpType}
use rkvs.Wal.EntryLaws.{IsLoggable}
use rkvs.Wal.Segment.{FileSystem, State}
use rkvs.Wal.DiskLaws.{DiskLaws}
use rkvs.Wal.Append
use rkvs.Wal.Append.{next_sequence_number}
use rkvs.Memtable.Table.{Table}
use rkvs.Memtable.Worker.{Worker}
use rkvs.Memtable.Recover.{SegmentFile, insert_entries, recover}
use rkvs.Memtable.RecoverLaws.{Chunk, IsLog, ended, replay, files, recover-replay}
use rkvs.Memtable.Chunks.{
  paths_of, Follows, entries_of, active, ended_by, ended-ended_by, entries_of-append,
  Follows-append,
}
use rkvs.Memtable.LogStored.{OnDisk, OnDisk-append}
use rkvs.Memtable.LogCases.{IsLogged}

insert_entries-append :
    (xs ys : List WalEntry) (s : Table × ℕ)
    → insert_entries (xs ++ ys) s ≡ insert_entries ys (insert_entries xs s)
unfolding insert_entries
insert_entries-append [] ys s = refl
insert_entries-append (x ∷ xs) ys (t, n) =
    insert_entries-append xs ys (insert_entries (x ∷ []) (t, n))

replay-entries_of :
    (a : Option WalEntry) (cs : List Chunk) (s : Table × ℕ)
    → replay a cs s ≡ insert_entries (entries_of a cs) s
unfolding insert_entries
replay-entries_of a [] s = refl
replay-entries_of a (c ∷ cs) s =
    replay-entries_of c.cut cs (insert_entries (ended a c) s)
    ∙ sym (insert_entries-append (ended a c) (entries_of c.cut cs) s)

Follows-IsLog : (a : Option WalEntry) (cs : List Chunk) → Follows a cs none → IsLog a cs
Follows-IsLog none [] h = tt
Follows-IsLog (some e) [] h = cc
Follows-IsLog none (c ∷ cs) (w, cut, h) = (w, cut, Follows-IsLog c.cut cs h)
Follows-IsLog (some e) (c ∷ cs) (w, cut, h) = (w, cut, Follows-IsLog c.cut cs h)

module _ (fs : FileSystem) (disk : DiskLaws fs) (checksum : List ℕ → ℕ) (size : ℕ)
    (size_pos : 0 < size) where
  -- the segments at these paths, opened on a disk from which every read succeeds
  abbrev pub opened : fs.Disk → List Text → List SegmentFile
  opened d [] = []
  opened d (path ∷ paths) =
      record { file_path = path; contents = disk.read path d; failure = none } ∷ opened d paths

  opened-files :
      (d : fs.Disk) (a : Option WalEntry) (cs : List Chunk)
      → OnDisk fs disk checksum size size_pos d a cs
      → opened d (paths_of cs) ≡ files checksum a cs
  opened-files d a [] h = refl
  opened-files d a (c ∷ cs) (here, h) = rw (here, opened-files d c.cut cs h) refl

  -- the segments of the log, the active one last
  abbrev pub chunks :
      {es : List WalEntry} {s : State fs}
      → IsLogged fs disk checksum size size_pos es s
      → List Chunk
  chunks {es} {s} l = l.done ++ active s.active_segment.file_path l.whole ∷ []

  -- The recovery of the files of a log puts its entries, in their order, into the table.
  pub recover-IsLogged :
      (fits : (bytes : List ℕ) → checksum bytes < 2 ^ 32) (es : List WalEntry) (s : State fs)
      (l : IsLogged fs disk checksum size size_pos es s)
      → recover checksum (opened s.disk (paths_of (chunks l))) 0 none ([], 0)
        ≡ some ((insert_entries es ([], 0)).0, ok (insert_entries es ([], 0)).1)
  recover-IsLogged fits es s l =
      let here = l.at_end in
      let last = active s.active_segment.file_path l.whole in
      let ends : ended l.carried last ≡ ended_by l.carried l.whole =
        ended-ended_by l.carried last in
      let whole_log =
        Follows-append none l.carried l.done last here.stored.follows
          (subst (λ es. All IsLoggable es) (sym ends) here.loggable) (omega arith) in
      let stored =
        OnDisk-append fs disk checksum size size_pos s.disk none l.carried l.done last
          here.stored.follows here.stored.on_disk here.here in
      let all : entries_of none (chunks l) ≡ es =
        entries_of-append none l.carried l.done last here.stored.follows
        ∙ (ap (λ xs. entries_of none l.done ++ xs) ends ∙ l.entries) in
      rw
        (
          opened-files s.disk none (chunks l) stored,
          recover-replay checksum fits (chunks l) ([], 0) (Follows-IsLog none (chunks l) whole_log),
          replay-entries_of none (chunks l) ([], 0),
          all,
        )
        refl

  module _ {F : Type 0} (flush : Table → Io F IoError (Unit {0})) (max_size : ℕ) where
    -- The log holds entries that make the table and its size.
    pub record IsDurable (w : Worker fs size checksum flush max_size) : Type 0 where
      pub entries : List WalEntry
      pub logged : IsLogged fs disk checksum size size_pos entries w.wal
      pub table_eq : insert_entries entries ([], 0) ≡ (w.table, w.current_size)

    -- the entry that a write makes
    abbrev pub next_entry :
        OpType → Text → Option Text → Worker fs size checksum flush max_size → WalEntry
    next_entry op key value w = record {
      operation_type = op;
      key = key;
      value = value;
      sequence_number = next_sequence_number fs size w.wal;
    }

    -- After a crash the recovery of the files of the log gives the table of the worker, and its
    -- size. The files hold the entries that make the table, and a checksum is below 2 ^ 32.
    pub recover-IsDurable :
        (fits : (bytes : List ℕ) → checksum bytes < 2 ^ 32)
        (w : Worker fs size checksum flush max_size) (d : IsDurable w)
        → recover checksum (opened w.wal.disk (paths_of (chunks d.logged))) 0 none ([], 0)
          ≡ some (w.table, ok w.current_size)
    recover-IsDurable fits w d =
        recover-IsLogged fits d.entries w.wal d.logged ∙ ap (λ s. some (s.0, ok s.1)) d.table_eq
