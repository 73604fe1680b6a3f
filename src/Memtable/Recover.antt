-- ===== src/Memtable/Recover.antt =====
-- `MemTable::recover` of src/storage_engine/memtable.rs, and the reads of a segment that it makes,
-- of src/storage_engine/memtable/wal/segment.rs.
use rkvs.Base.{
  ℕ, ◌+◌, ◌-◌, List, [], ◌∷◌, ◌++◌, Option, none, some, length, ltb, leb, drop, if◌then◌else◌,
  Outcome, ok, err, panic, Text, IoError,
}
use rkvs.Wal.Entry.{WalEntry}
use rkvs.Wal.Parse.{
  RecoveryError, io, corrupted, PartialWalEntry, ParseResult, Parsed, parse_validate_wal_entries,
}
use rkvs.SsTable.Entry.{len}
use rkvs.Memtable.Table.{Table, insert}

-- A segment that is opened for the recovery, with what reading its file gives.
pub record SegmentFile : Type 0 where
  pub file_path : Text
  pub contents : List ℕ
  pub failure : Option IoError

-- the offsets of a result, counted from the start of the file
abbrev pub shift : ℕ → ParseResult → ParseResult
shift offset (ok none) = ok none
shift offset (ok (some p)) = ok (some (record p { offset = p.offset + offset }))
shift offset (err (io e)) = err (io e)
shift offset (err (corrupted path pos)) = err (corrupted path (pos + offset))
shift offset panic = panic

-- the same behind `n` carried bytes; a subtraction below 0 is a panic
abbrev pub unshift : ℕ → ParseResult → ParseResult
unshift n (ok none) = ok none
unshift n (ok (some p)) =
    if leb n p.offset then ok (some (record p { offset = p.offset - n })) else panic
unshift n (err (io e)) = err (io e)
unshift n (err (corrupted path pos)) = err (corrupted path (if ltb n pos then pos - n else pos))
unshift n panic = panic

abbrev pub with_result : (ParseResult → ParseResult) → Parsed → Parsed
with_result f none = none
with_result f (some (entries, r)) = some (entries, f r)

-- What the recovery comes to: the table, and the size or the error with the size so far. `none`
-- stands for a parser that ran out of fuel.
abbrev pub Recovered : Type 0
Recovered = Option (Table × Outcome (ℕ × RecoveryError) ℕ)

-- the loop over the entries of a segment: puts and deletes are treated alike
unfoldable pub insert_entries : List WalEntry → Table × ℕ → Table × ℕ
insert_entries [] s = s
insert_entries (e ∷ es) (t, n) = insert_entries es (
  insert e.key (record { value = e.value; sequence_number = e.sequence_number }) t,
  n + len (length e.key) e.value,
)

-- the error that is returned for a segment that continues an entry
abbrev pub blame : PartialWalEntry → List WalEntry → RecoveryError → RecoveryError
blame p [] e = corrupted p.segment_file_path p.offset
blame p (x ∷ xs) e = e

module _ (checksum : List ℕ → ℕ) where
  -- Segment::read_parse_validate_from_offset
  unfoldable pub read_parse_validate_from_offset : SegmentFile → ℕ → Parsed
  read_parse_validate_from_offset segment offset = elim segment.failure [
    | some e ↦ some ([], err (io e))
    | none ↦
        with_result (shift offset)
          (parse_validate_wal_entries checksum segment.file_path (drop offset segment.contents))
  ]

  -- Segment::read_parse_validate_from_partial_record
  unfoldable pub read_parse_validate_from_partial_record : SegmentFile → List ℕ → Parsed
  read_parse_validate_from_partial_record segment bytes = elim segment.failure [
    | some e ↦ some ([], err (io e))
    | none ↦
        with_result (unshift (length bytes))
          (parse_validate_wal_entries checksum segment.file_path (bytes ++ segment.contents))
  ]

  -- what recover makes of a segment that was read: its entries are inserted, and `next` goes on
  abbrev pub take_in :
      (List WalEntry → RecoveryError → RecoveryError)
      → Parsed
      → Table × ℕ
      → (Option PartialWalEntry → Table × ℕ → Recovered)
      → Recovered
  take_in error none s next = none
  take_in error (some (entries, ok partial)) s next = next partial (insert_entries entries s)
  take_in error (some (entries, err e)) s next =
      let (t, n) = insert_entries entries s in some (t, err (n, error entries e))
  take_in error (some (entries, panic)) (t, n) next = some (t, panic)

  -- MemTable::recover, the offset and the partial entry being those of the next segment
  unfoldable pub recover : List SegmentFile → ℕ → Option PartialWalEntry → Table × ℕ → Recovered
  recover [] offset none (t, n) = some (t, ok n)
  recover [] offset (some p) (t, n) = some (t, err (n, corrupted p.segment_file_path p.offset))
  recover (segment ∷ more) offset none s =
      take_in (λ entries e. e) (read_parse_validate_from_offset segment offset) s
        (λ partial s'. recover more 0 partial s')
  recover (segment ∷ more) offset (some p) s =
      take_in (blame p) (read_parse_validate_from_partial_record segment p.bytes) s
        (λ partial s'. recover more offset partial s')
