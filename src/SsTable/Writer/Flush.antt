-- ===== src/SsTable/Writer/Flush.antt =====
-- `SegmentWriter::segment_file_from_memtable` of src/storage_engine/sstable/level/segment.rs.
use rkvs.Base.{
  ℕ, ◌+◌, ◌%◌, ◌^◌, ◌==◌, List, [], ◌∷◌, length, ltb, if◌then◌else◌, ok, assert, unwrap, le_bytes,
  Text, text_lt, IoError,
}
use rkvs.Base.Io.{Io, ◌>>=◌, ◌>>◌, pure}
use rkvs.SsTable.Entry.{SsTableEntry, len, to_bytes}
use rkvs.SsTable.Index
use rkvs.SsTable.Index.{SegmentIndex, add_index, footer_to_bytes}
use rkvs.SsTable.Filename.{determine_segment_filename}
use rkvs.SsTable.Output.{Output, WriteFails, OpenFails, failed, write_all}
use rkvs.Memtable.Table.{Table, MemTableValue, lookup}

-- HashMap::keys
abbrev pub keys : Table → List Text
keys [] = []
keys ((k, v) ∷ t) = k ∷ keys t

-- sort_unstable, on keys that differ
unfoldable pub insert_key : Text → List Text → List Text
insert_key k [] = k ∷ []
insert_key k (x ∷ xs) = let rest = insert_key k xs in if text_lt k x then k ∷ (x ∷ xs) else x ∷ rest

unfoldable pub sort : List Text → List Text
unfolding insert_key
sort [] = []
sort (k ∷ ks) = insert_key k (sort ks)

-- SsTableEntry::from
abbrev pub from : Text → MemTableValue → SsTableEntry
from key v = record { key = key; value = v.value; sequence_number = v.sequence_number }

-- the index, where every entry whose counter is a multiple of the factor is in it
abbrev pub next_index : ℕ → ℕ → ℕ → Text → SegmentIndex → SegmentIndex
next_index factor counter offset key index =
    if counter % factor == 0 then add_index index key offset else index

module _ (fails : WriteFails) (index_sparsity_factor : ℕ) where
  -- the loop over the keys: the index, and the offset behind the last entry; the counter is a u32
  unfoldable pub write_keys :
      Table → List Text → SegmentIndex → ℕ → ℕ → Io Output IoError (SegmentIndex × ℕ)
  unfolding write_all
  write_keys table [] index counter offset = pure (ok (index, offset))
  write_keys table (key ∷ keys) index counter offset = do
    pure (assert (ltb 0 index_sparsity_factor))
    value ← pure (unwrap (lookup key table))
    bytes ← pure (to_bytes (from key value))
    write_all fails (le_bytes 4 (length bytes))
    write_all fails bytes
    pure (assert (ltb (counter + 1) (2 ^ 32)))
    write_keys table keys (next_index index_sparsity_factor counter offset key index) (counter + 1)
        (offset + 4 + len (length key) value.value)

module _ (opens : OpenFails) (fails : WriteFails) (index_sparsity_factor : ℕ) where
  -- the file is opened and written to the output, and its name is returned
  unfoldable pub segment_file_from_memtable : Table → ℕ → Io Output IoError Text
  unfolding write_all write_keys sort
  segment_file_from_memtable table segment_number = do
    filename ← pure (determine_segment_filename 0 segment_number)
    pure (failed (opens.to_write filename))
    (index, offset) ← write_keys fails index_sparsity_factor table (sort (keys table)) Index.new 0 0
    index_bytes ← pure (Index.to_bytes index)
    write_all fails index_bytes
    footer_bytes ← pure (footer_to_bytes (record { index_offset = offset }))
    write_all fails footer_bytes
    write_all fails []
    pure (ok filename)
