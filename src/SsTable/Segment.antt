-- ===== src/SsTable/Segment.antt =====
-- The reads of a segment file: `Segment` of src/storage_engine/sstable/level/segment.rs.
pub mod File
pub mod Open
pub mod ReadBuf
pub mod Divided
pub mod ReadLaws
pub mod Stores
pub mod GetLaws
pub mod OpenLaws
pub mod Fitting
pub mod MostLaws
pub mod BufLaws
pub mod Examples
use rkvs.Base.{
  ℕ, zero, suc, ◌+◌, ◌-◌, List, [], ◌∷◌, Bool, ◌&&◌, ◌==◌, Option, none, some, length, leb,
  if◌then◌else◌, Outcome, ok, ◌>>=◌, ◌>>◌, assert, unwrap, zeroed, copy_to, from_le, Text, text_eq,
  text_lt, text_le, IoError,
}
use rkvs.SsTable.Segment.File.{ReadAt}
use rkvs.SsTable.Entry.{SsTableEntry, from_bytes, vec_from_bytes}
use rkvs.SsTable.Index.{SegmentIndex, find, hit, range, IndexSearchResult}

pub record Segment : Type 0 where
  pub file : ReadAt
  pub filepath : Text
  pub index : SegmentIndex
  pub size : ℕ
  pub number : ℕ
  pub level_number : ℕ
  pub data_block_end : ℕ
  pub first_key : Text
  pub last_key : Text
  pub highest_sequence_no : ℕ

-- The loop that fills a buffer, and how many bytes it has read. As in the source, the offsets grow
-- by all that has been read so far. A round reads a byte at least, or is the last one; `none` means
-- that the fuel ran out.
unfoldable pub fill_loop : ReadAt → ℕ → List ℕ → ℕ → ℕ → ℕ → Outcome IoError (Option (List ℕ × ℕ))
fill_loop file zero buf buf_offset bytes_read curr_offset = ok none
fill_loop file (suc fuel) buf buf_offset bytes_read curr_offset =
    if leb (length buf) bytes_read then ok (some (buf, curr_offset)) else do
      assert (leb buf_offset (length buf))
      bytes ← file curr_offset (length buf - buf_offset)
      buf ← copy_to buf buf_offset (buf_offset + length bytes) bytes
      let total = bytes_read + length bytes
      let rest = fill_loop file fuel buf (buf_offset + total) total (curr_offset + total)
      if length bytes == 0 then ok (some (buf, curr_offset + total)) else rest

-- a buffer of `n` bytes, read from an offset on, and the offset behind it
unfoldable pub fill : ReadAt → ℕ → ℕ → Outcome IoError (List ℕ × ℕ)
unfolding fill_loop
fill file n offset = do res ← fill_loop file (n + 2) (zeroed n) 0 0 offset; unwrap res

-- Segment::read_table_entries
unfoldable pub read_table_entries : ReadAt → ℕ → ℕ → Outcome IoError (List SsTableEntry)
unfolding fill
read_table_entries file start end = do
  assert (leb start end)
  (buf, offset) ← fill file (end - start) start
  vec_from_bytes buf

-- Segment::read_table_entry
unfoldable pub read_table_entry : ReadAt → ℕ → Outcome IoError SsTableEntry
unfolding fill
read_table_entry file offset = do
  (len_bytes, offset) ← fill file 4 offset
  (buf, offset) ← fill file (from_le len_bytes) offset
  from_bytes buf

-- the loop of Segment::get over the entries of a range
unfoldable pub scan : Text → List SsTableEntry → Option SsTableEntry
scan key [] = none
scan key (e ∷ es) =
    let rest = scan key es in
    if text_eq e.key key then some e else if text_lt key e.key then none else rest

unfoldable pub get_in : Segment → Text → IndexSearchResult → Outcome IoError (Option SsTableEntry)
unfolding scan read_table_entry read_table_entries
get_in s key (hit offset) = do entry ← read_table_entry s.file offset; ok (some entry)
get_in s key (range start none) = do
  entries ← read_table_entries s.file start s.data_block_end
  ok (scan key entries)
get_in s key (range start (some end)) = do
  entries ← read_table_entries s.file start end
  ok (scan key entries)

-- Segment::get
unfoldable pub get : Segment → Text → Outcome IoError (Option SsTableEntry)
unfolding get_in
get s key = do found ← find s.index key; get_in s key found

-- Segment::overlaps
unfoldable pub overlaps : Segment → Segment → Bool
overlaps s other = text_le other.first_key s.last_key && text_le s.first_key other.last_key
