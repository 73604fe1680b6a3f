-- ===== src/SsTable/Segment/ReadBuf.antt =====
-- `Segment::read_at_most` and `SegmentReadBuf` of src/storage_engine/sstable/level/segment.rs.
use rkvs.Base.{
  ℕ, zero, suc, ◌+◌, ◌-◌, List, [], ◌∷◌, ◌++◌, Bool, true, false, ◌==◌, Option, none, some, length,
  take, leb, if◌then◌else◌, Outcome, ok, ◌>>=◌, ◌>>◌, assert, unwrap, zeroed, copy_to, IoError,
}
use rkvs.SsTable.Entry.{SsTableEntry, len, deque_from_bytes}
use rkvs.SsTable.Segment.{Segment}
use rkvs.SsTable.Segment.File.{ReadAt}

-- The loop of read_at_most: the buffer and how many of its bytes were read. A round reads a byte at
-- least, or is the last one; `none` means that the fuel ran out.
unfoldable pub most_loop : ReadAt → ℕ → List ℕ → ℕ → ℕ → Outcome IoError (Option (List ℕ × ℕ))
most_loop file zero buf total curr_offset = ok none
most_loop file (suc fuel) buf total curr_offset =
    if leb (length buf) total then ok (some (buf, total)) else do
      bytes ← file curr_offset (length buf - total)
      buf ← copy_to buf total (total + length bytes) bytes
      let rest = most_loop file fuel buf (total + length bytes) (curr_offset + length bytes)
      if length bytes == 0 then ok (some (buf, total)) else rest

abbrev pub smaller : ℕ → ℕ → ℕ
smaller a b = if leb a b then a else b

unfoldable pub read_at_most : Segment → ℕ → ℕ → Outcome IoError (List SsTableEntry)
unfolding most_loop
read_at_most s offset max_bytes = do
  assert (leb offset s.data_block_end)
  let bytes_to_read = smaller (s.data_block_end - offset + 1) max_bytes
  res ← most_loop s.file (bytes_to_read + 1) (zeroed bytes_to_read) 0 offset
  (buf, total) ← unwrap res
  deque_from_bytes (take total buf)

pub record SegmentReadBuf : Type 0 where
  pub segment : Segment
  pub buf : List SsTableEntry
  pub curr_offset : ℕ
  pub size : ℕ
  pub max_size : ℕ

-- SegmentReadBuf::new
abbrev pub new : Segment → ℕ → SegmentReadBuf
new segment read_buf_len = record {
  segment = segment;
  buf = [];
  curr_offset = 0;
  size = 0;
  max_size = read_buf_len;
}

-- the bytes of an entry in the block, its length included
abbrev pub stored_len : SsTableEntry → ℕ
stored_len e = len (length e.key) e.value + 4

-- the loop of fill over the new entries
unfoldable pub push_all : List SsTableEntry → SegmentReadBuf → SegmentReadBuf
push_all [] b = b
push_all (e ∷ es) b = push_all es (record b {
  buf = b.buf ++ e ∷ [];
  curr_offset = b.curr_offset + stored_len e;
  size = b.size + stored_len e;
})

-- SegmentReadBuf::fill
unfoldable pub fill : SegmentReadBuf → Outcome IoError SegmentReadBuf
unfolding push_all
fill b = do
  assert (leb b.size b.max_size)
  new_entries ← read_at_most b.segment b.curr_offset (b.max_size - b.size)
  ok (push_all new_entries b)

-- SegmentReadBuf::front, back, is_empty
unfoldable pub front : SegmentReadBuf → Option SsTableEntry
front b = elim b.buf [ [] ↦ none | e ∷ _ ↦ some e ]

unfoldable pub last_entry : List SsTableEntry → Option SsTableEntry
last_entry [] = none
last_entry (e ∷ []) = some e
last_entry (e ∷ (f ∷ es)) = last_entry (f ∷ es)

unfoldable pub back : SegmentReadBuf → Option SsTableEntry
unfolding last_entry
back b = last_entry b.buf

unfoldable pub is_empty : SegmentReadBuf → Bool
is_empty b = elim b.buf [ [] ↦ true | _ ∷ _ ↦ false ]

-- SegmentReadBuf::pop_front
unfoldable pub pop_front :
    {E : Type 0} → SegmentReadBuf → Outcome E (Option SsTableEntry × SegmentReadBuf)
pop_front b = elim b.buf [
  | [] ↦ ok (none, b)
  | e ∷ es ↦ do
    assert (leb (stored_len e) b.size)
    ok (some e, record b { buf = es; size = b.size - stored_len e })
]
