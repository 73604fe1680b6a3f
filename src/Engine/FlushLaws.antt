-- ===== src/Engine/FlushLaws.antt =====
-- A full memtable that is flushed into the levels: a get does not see the difference.
use rkvs.Base.{
  ℕ, ◌+◌, ◌<◌, ◌≤◌, ◌^◌, ◌≡◌, ◌≢◌, refl, sym, ap, ◌∙◌, List, [], All, Option, none, some, length,
  Outcome, ok, err, panic, Text, IoError, inl, inr, le→leb,
}
use rkvs.Base.Io.{Ends}
use rkvs.Wal.Segment.{FileSystem}
use rkvs.SsTable.Entry.{SsTableEntry}
use rkvs.SsTable.EntryLaws.{IsStorable, block}
use rkvs.SsTable.Filename.{determine_segment_filename}
use rkvs.SsTable.Flusher
use rkvs.SsTable.Flusher.{Flusher}
use rkvs.SsTable.Flusher.Laws.{NotNewer, table_or, flush-get}
use rkvs.SsTable.Level
use rkvs.SsTable.Level.{LevelContainer, highest_segment_number}
use rkvs.SsTable.Output.{WriteFails, OpenFails}
use rkvs.SsTable.Segment
use rkvs.SsTable.Segment.{Segment}
use rkvs.SsTable.Segment.File.{File, Holds}
use rkvs.SsTable.Writer.Flush.{keys, sort}
use rkvs.SsTable.Writer.Laws.{FlushFailed}
use rkvs.SsTable.Writer.SortLaws.{entries, DistinctKeys}
use rkvs.Memtable.Table.{Table, MemTableValue, lookup}
use rkvs.Memtable.Worker.{Worker, flush_if_full, after_flush, emptied}
use rkvs.Engine

-- a table over some levels, and levels that have it
over_levels :
    Option MemTableValue → Outcome IoError (Option SsTableEntry) → Outcome IoError (Option Text)
over_levels none below = Engine.from_tables below
over_levels (some v) below = ok v.value

from_tables-table_or :
    (key : Text) (v : Option MemTableValue) (below : Outcome IoError (Option SsTableEntry))
    → Engine.from_tables (table_or key v below) ≡ over_levels v below
unfolding over_levels
from_tables-table_or key none below = refl
from_tables-table_or key (some v) below = refl

get-over_levels :
    (table : Table) (tables : LevelContainer) (key : Text)
    → Engine.get table tables key ≡ over_levels (lookup key table) (Level.get tables key)
unfolding Engine.get over_levels
get-over_levels table tables key = by_found (lookup key table)
  where
    by_found :
        (v : Option MemTableValue)
        → ◌≡◌ {A = Outcome IoError (Option Text)}
            (elim v [ some v ↦ ok v.value | none ↦ Engine.from_tables (Level.get tables key) ])
            (over_levels v (Level.get tables key))
    by_found none = refl
    by_found (some v) = refl

get-emptied :
    (tables : LevelContainer) (key : Text)
    → Engine.get [] tables key ≡ Engine.from_tables (Level.get tables key)
unfolding Engine.get lookup
get-emptied tables key = refl

no_error : (e : IoError) → ◌≡◌ {A = Option IoError} (some e) none → ⊥
no_error e h = cc

module _ (fs : FileSystem) (segment_size : ℕ) (checksum : List ℕ → ℕ) (max_size : ℕ)
    (opens : OpenFails) (open_file : List ℕ → File) (fails : WriteFails) (factor : ℕ) where
  -- the memtable over the flusher
  abbrev pub Memtable_ : Type 0
  Memtable_ = Worker fs segment_size checksum (Flusher.flush opens open_file fails factor) max_size

  -- The table can be written to a segment: its keys are distinct and there is one, and its entries
  -- fit.
  pub record IsWritable (w : Memtable_) : Type 0 where
    pub nonempty : w.table ≢ []
    pub few : length w.table < 2 ^ 32
    pub distinct : DistinctKeys (keys w.table)
    pub storable : All IsStorable (entries w.table (sort (keys w.table)))
    pub size : length (block (entries w.table (sort (keys w.table)))) < 2 ^ 64
    pub numbered : highest_segment_number w.flusher.container.level_zero + 1 < 2 ^ 32
    pub new_file :
        (name : Text)
        → determine_segment_filename {E = IoError} 0
            (highest_segment_number w.flusher.container.level_zero + 1)
          ≡ ok name
        → w.flusher.files name ≡ []

  -- Where no file fails to be opened or to give its metadata, no write fails, and the reads of an
  -- open file are complete and give what was written, a full memtable whose table can be written to
  -- a new file is emptied, its size being 0 then, and for every key whose entries in level 0 can be
  -- looked up and are not newer than the table's, a get reads behind the flush what it read before.
  pub flush_if_full-get :
      (w : Memtable_) (key : Text) (found : Segment → Option SsTableEntry)
      → ((bytes : List ℕ) → Holds (open_file bytes) bytes)
      → ((name : Text)
          → (opens.to_write name ≡ none)
            × (opens.to_read name ≡ none)
            × (opens.metadata name ≡ none))
      → ((written bytes : List ℕ) → fails written bytes ≡ none)
      → 0 < factor
      → max_size ≤ w.current_size
      → IsWritable w
      → All (λ s. Segment.get s key ≡ ok (found s)) w.flusher.container.level_zero
      → All (λ s. NotNewer (lookup key w.table) (found s)) w.flusher.container.level_zero
      → (w' : Memtable_) × (flush_if_full fs segment_size checksum
            (Flusher.flush opens open_file fails factor)
            max_size
            w
          ≡ (ok tt, w'))
        × (w'.table ≡ [])
        × (w'.current_size ≡ 0)
        × (Engine.get w'.table w'.flusher.container key
            ≡ Engine.get w.table w.flusher.container key)
  unfolding flush_if_full
  flush_if_full-get w key found holds can_open no_failure positive full writable found_eq old =
      rw (le→leb max_size w.current_size full) (
        by_result (Flusher.flush opens open_file fails factor w.table w.flusher) (
          flush-get opens open_file fails factor w.table w.flusher holds positive writable.nonempty
            writable.few writable.distinct writable.storable writable.size writable.numbered key
            found writable.new_file found_eq old))
    where
      by_result :
          (r : Outcome IoError (Unit {0}) × Flusher)
          → Ends
              (FlushFailed opens fails)
              (λ _ f'.
                Level.get f'.container key
                ≡ table_or key (lookup key w.table) (Level.get w.flusher.container key))
              r
          → (w' : Memtable_) × (after_flush fs segment_size checksum
                (Flusher.flush opens open_file fails factor)
                max_size
                w
                r
              ≡ (ok tt, w'))
            × (w'.table ≡ [])
            × (w'.current_size ≡ 0)
            × (Engine.get w'.table w'.flusher.container key
                ≡ Engine.get w.table w.flusher.container key)
      by_result (ok done, f) h = (
        emptied fs segment_size checksum (Flusher.flush opens open_file fails factor) max_size w f,
        refl,
        refl,
        refl,
        get-emptied f.container key
            ∙ (ap Engine.from_tables h
                ∙ (from_tables-table_or key (lookup key w.table) (Level.get w.flusher.container key)
                    ∙ sym (get-over_levels w.table w.flusher.container key))),
      )
      by_result (err e, f) (inl (written, bytes, h)) =
          absurd (no_error e (sym h ∙ no_failure written bytes))
      by_result (err e, f) (inr (name, inl h)) = absurd (no_error e (sym h ∙ (can_open name).0))
      by_result (err e, f) (inr (name, inr (inl h))) =
          absurd (no_error e (sym h ∙ (can_open name).1))
      by_result (err e, f) (inr (name, inr (inr h))) =
          absurd (no_error e (sym h ∙ (can_open name).2))
      by_result (panic, f) h = absurd h
