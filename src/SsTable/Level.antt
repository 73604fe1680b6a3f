-- ===== src/SsTable/Level.antt =====
-- The lookups in the levels, src/storage_engine/sstable/level.rs, and in the whole table,
-- src/storage_engine/sstable.rs.
use rkvs.Base.{
  ℕ, ◌+◌, List, [], ◌∷◌, ◌++◌, Bool, ◌&&◌, Option, none, some, ltb, if◌then◌else◌, Outcome, ok,
  ◌>>=◌, Text, text_le, IoError,
}
use rkvs.SsTable.Entry.{SsTableEntry}
use rkvs.SsTable.Segment
use rkvs.SsTable.Segment.{Segment, overlaps}

-- the match in the loop of OverlappingLevel::get
unfoldable pub newer : Option SsTableEntry → Option SsTableEntry → Option SsTableEntry
newer curr none = curr
newer none (some e) = some e
newer (some c) (some e) = if ltb e.sequence_number c.sequence_number then some c else some e

unfoldable pub get_newest :
    List Segment → Text → Option SsTableEntry → Outcome IoError (Option SsTableEntry)
unfolding newer
get_newest [] key curr = ok curr
get_newest (s ∷ segments) key curr = do
  found ← Segment.get s key
  get_newest segments key (newer curr found)

-- OverlappingLevel::get
unfoldable pub overlapping_get : List Segment → Text → Outcome IoError (Option SsTableEntry)
overlapping_get segments key = get_newest segments key none

-- PartitionedLevel::find_containing_segment
unfoldable pub find_containing_segment : List Segment → Text → Option Segment
find_containing_segment [] key = none
find_containing_segment (s ∷ segments) key =
    let rest = find_containing_segment segments key in
    if text_le s.first_key key && text_le key s.last_key then some s else rest

-- PartitionedLevel::get
unfoldable pub partitioned_get : List Segment → Text → Outcome IoError (Option SsTableEntry)
unfolding find_containing_segment
partitioned_get segments key = elim (find_containing_segment segments key) [
  | none ↦ ok none
  | some s ↦ Segment.get s key
]

-- the loop of SsTable::get over the partitioned levels
unfoldable pub get_below : List (List Segment) → Text → Outcome IoError (Option SsTableEntry)
get_below [] key = ok none
get_below (level ∷ levels) key = do
  found ← partitioned_get level key
  elim found [ some e ↦ ok (some e) | none ↦ get_below levels key ]

pub record LevelContainer : Type 0 where
  pub level_zero : List Segment
  pub level_zero_target_size : ℕ
  pub partitioned_levels : List (List Segment)

-- SsTable::get
unfoldable pub get : LevelContainer → Text → Outcome IoError (Option SsTableEntry)
get c key = do
  found ← overlapping_get c.level_zero key
  elim found [ some e ↦ ok (some e) | none ↦ get_below c.partitioned_levels key ]

-- the sum in exceeds_target_size
unfoldable pub total_size : List Segment → ℕ
total_size [] = 0
total_size (s ∷ segments) = s.size + total_size segments

-- exceeds_target_size, and LevelContainer::do_compact
unfoldable pub exceeds_target_size : List Segment → ℕ → Bool
unfolding total_size
exceeds_target_size segments target_size = ltb target_size (total_size segments)

unfoldable pub do_compact : LevelContainer → Bool
unfolding exceeds_target_size
do_compact c = exceeds_target_size c.level_zero c.level_zero_target_size

-- highest_segment_number, from the highest one so far
unfoldable pub highest_from : ℕ → List Segment → ℕ
highest_from res [] = res
highest_from res (s ∷ segments) = highest_from (if ltb res s.number then s.number else res) segments

unfoldable pub highest_segment_number : List Segment → ℕ
unfolding highest_from
highest_segment_number segments = highest_from 0 segments

-- LevelContainer::swap_all_levels and swap_partitioned_levels
unfoldable pub swap_all_levels : List (List Segment) → LevelContainer → LevelContainer
swap_all_levels levels c = record {
  level_zero = [];
  level_zero_target_size = c.level_zero_target_size;
  partitioned_levels = levels;
}

unfoldable pub swap_partitioned_levels : List (List Segment) → LevelContainer → LevelContainer
swap_partitioned_levels levels c = record c { partitioned_levels = levels }

-- add_to_level_zero, of a segment that was opened
unfoldable pub add_to_level_zero : Segment → LevelContainer → LevelContainer
add_to_level_zero s c = record c { level_zero = c.level_zero ++ s ∷ [] }

-- whether a segment of the level goes into a merge, by its loop over the incoming ones
unfoldable pub overlaps_any : List Segment → Segment → Bool
overlaps_any [] s = Bool.false
overlaps_any (i ∷ incoming) s =
    let rest = overlaps_any incoming s in if overlaps s i then Bool.true else rest

-- the first loop of PartitionedLevel::merge: the segments that take part, and the untouched ones
unfoldable pub split_level : List Segment → List Segment → List Segment × List Segment
unfolding overlaps_any
split_level incoming [] = ([], [])
split_level incoming (s ∷ segments) =
    let (taken, untouched) = split_level incoming segments in
    if overlaps_any incoming s then (s ∷ taken, untouched) else (taken, s ∷ untouched)

-- SsTableLevel::highest_sequence_no, from the highest one so far
unfoldable pub highest_sequence_from : ℕ → List Segment → ℕ
highest_sequence_from res [] = res
highest_sequence_from res (s ∷ segments) =
    highest_sequence_from (if ltb res s.highest_sequence_no then s.highest_sequence_no else res)
      segments

-- the loop of SsTable::highest_sequence_number over the partitioned levels
unfoldable pub highest_of_levels : ℕ → List (List Segment) → ℕ
unfolding highest_sequence_from
highest_of_levels res [] = res
highest_of_levels res (level ∷ levels) =
    let num = highest_sequence_from 0 level in
    highest_of_levels (if ltb res num then num else res) levels

-- SsTable::highest_sequence_number
unfoldable pub highest_sequence_number : LevelContainer → ℕ
unfolding highest_of_levels
highest_sequence_number c =
    let segment_no = highest_sequence_from 0 c.level_zero in
    highest_of_levels (if ltb 0 segment_no then segment_no else 0) c.partitioned_levels
