-- ===== src/SsTable/Index.antt =====
-- `SegmentIndex`, `SegmentIndexEntry` and `SegmentFooter` of
-- src/storage_engine/sstable/level/segment.rs.
pub mod Search
pub mod Laws
use rkvs.Base.{
  ℕ, zero, suc, ◌+◌, ◌-◌, ◌/◌, List, [], ◌∷◌, ◌++◌, Bool, true, false, Option, none, some, length,
  get_elem?, leb, ltb, ◌==◌, if◌then◌else◌, Outcome, ok, err, panic, ◌>>=◌, ◌>>◌, assert, unwrap,
  zeroed, slice, copy_to, le_bytes, from_le, from_utf8_unwrap, Text, text_eq, text_lt, text_le,
}

pub record SegmentIndexEntry : Type 0 where
  pub key : Text
  pub offset : ℕ

-- `len` is a size that `add_index` keeps up.
pub record SegmentIndex : Type 0 where
  pub indices : List SegmentIndexEntry
  pub len : ℕ

pub data IndexSearchResult : Type 0 where
  hit : ℕ → IndexSearchResult
  range : ℕ → Option ℕ → IndexSearchResult

-- SegmentIndex::new
abbrev pub new : SegmentIndex
new = record { indices = []; len = 0 }

unfoldable pub add_index : SegmentIndex → Text → ℕ → SegmentIndex
add_index index key offset = record {
  indices = index.indices ++ record { key = key; offset = offset } ∷ [];
  len = index.len + (length key + 8 + 4);
}

-- the loop of binary_search; each round narrows the range, so its width is enough fuel
unfoldable pub search_loop : {E : Type 0} → List SegmentIndexEntry → Text → ℕ → ℕ → ℕ → Outcome E ℕ
search_loop indices key zero l r = ok l
search_loop indices key (suc fuel) l r = elim (ltb l r) [
  | false ↦ ok l
  | true ↦ do
    let m = (l + r) / 2 + 1
    e ← unwrap (get_elem? indices m)
    elim (text_le e.key key) [
      | true ↦ search_loop indices key fuel m r
      | false ↦ search_loop indices key fuel l (m - 1)
    ]
]

unfoldable pub binary_search :
    {E : Type 0} → List SegmentIndexEntry → Text → Outcome E (SegmentIndexEntry × ℕ)
binary_search indices key = do
  l ← search_loop indices key (length indices) 0 (length indices - 1)
  e ← unwrap (get_elem? indices l)
  ok (e, l)

-- what find makes of the result of the binary search
unfoldable pub neighbours :
    {E : Type 0}
    → List SegmentIndexEntry
    → Text
    → SegmentIndexEntry
    → ℕ
    → Outcome E IndexSearchResult
neighbours indices key e i =
    if text_eq key e.key
    then ok (hit e.offset)
    else if ltb i (length indices - 1)
    then (do next ← unwrap (get_elem? indices (i + 1)); ok (range e.offset (some next.offset)))
    else ok (range e.offset none)

unfoldable pub find_in : {E : Type 0} → List SegmentIndexEntry → Text → Outcome E IndexSearchResult
find_in [] key = ok (range 0 none)
find_in (first ∷ more) key =
    if text_lt key first.key
    then ok (range 0 (some first.offset))
    else do (e, i) ← binary_search (first ∷ more) key; neighbours (first ∷ more) key e i

-- SegmentIndex::find
abbrev pub find : {E : Type 0} → SegmentIndex → Text → Outcome E IndexSearchResult
find index key = find_in index.indices key

-- SegmentIndexEntry::to_bytes: the length takes 4 bytes of the 8 that are there for it
unfoldable pub entry_to_bytes : {E : Type 0} → SegmentIndexEntry → Outcome E (List ℕ)
entry_to_bytes e = do
  buf ← copy_to (zeroed (length e.key + 16)) 0 4 (le_bytes 4 (length e.key))
  buf ← copy_to buf 8 (8 + length e.key) e.key
  copy_to buf (8 + length e.key) (length buf) (le_bytes 8 e.offset)

unfoldable pub entries_to_bytes : {E : Type 0} → List SegmentIndexEntry → Outcome E (List ℕ)
unfolding entry_to_bytes
entries_to_bytes [] = ok []
entries_to_bytes (e ∷ es) = do
  bytes ← entry_to_bytes e
  more ← entries_to_bytes es
  ok (bytes ++ more)

-- SegmentIndex::to_bytes
abbrev pub to_bytes : {E : Type 0} → SegmentIndex → Outcome E (List ℕ)
to_bytes index = entries_to_bytes index.indices

-- the loop of SegmentIndex::from_bytes; a round takes 16 bytes at least
unfoldable pub from_loop :
    {E : Type 0} → ℕ → List ℕ → ℕ → SegmentIndex → Outcome E (Option SegmentIndex)
from_loop zero buf offset index = ok none
from_loop (suc fuel) buf offset index = if leb (length buf) offset then ok (some index) else do
  len_bytes ← slice buf offset (offset + 8)
  let key_len = from_le len_bytes
  key_bytes ← slice buf (offset + 8) (offset + 8 + key_len)
  key ← from_utf8_unwrap key_bytes
  offset_bytes ← slice buf (offset + 8 + key_len) (offset + 8 + key_len + 8)
  from_loop fuel buf (offset + 8 + key_len + 8) (add_index index key (from_le offset_bytes))

unfoldable pub from_bytes : {E : Type 0} → List ℕ → Outcome E SegmentIndex
from_bytes buf = do index ← from_loop (length buf + 1) buf 0 new; unwrap index

-- SEGMENT_FOOTER_LEN and MAGIC_BYTES
abbrev pub segment_footer_len : ℕ
segment_footer_len = 12

abbrev pub magic_bytes : List ℕ
magic_bytes = 0x72 ∷ 0x6b ∷ 0x76 ∷ 0x73 ∷ []

pub record SegmentFooter : Type 0 where
  pub index_offset : ℕ

unfoldable pub footer_from_bytes : {E : Type 0} → List ℕ → Outcome E SegmentFooter
footer_from_bytes buf = do
  assert (length buf == segment_footer_len - length magic_bytes)
  offset_bytes ← slice buf 0 8
  ok (record { index_offset = from_le offset_bytes })

unfoldable pub footer_to_bytes : {E : Type 0} → SegmentFooter → Outcome E (List ℕ)
footer_to_bytes f = do
  buf ← copy_to (zeroed (8 + length magic_bytes)) 0 8 (le_bytes 8 f.index_offset)
  copy_to buf 8 (length buf) magic_bytes
