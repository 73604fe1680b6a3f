-- ===== src/SsTable/Compaction.antt =====
-- `CompactionBt` of src/storage_engine/sstable/compaction.rs: the levels that are compacted, and
-- the deletion of the segment files that are no longer in use.
pub mod Laws
pub mod Examples
use mathlib.Core.List.{reverse}
use rkvs.Base.{
  ℕ, zero, suc, List, [], ◌∷◌, ◌++◌, Bool, Outcome, ok, panic, ◌>>=◌, if◌then◌else◌, ◌==◌, length,
  take, drop, Text, map,
}
use rkvs.SsTable.Level
use rkvs.SsTable.Segment.{Segment}

pub record PartitionedLevel : Type 0 where
  pub segments : List Segment
  pub target_size : ℕ
  pub level_number : ℕ

-- PartitionedLevel::exceeds_target_size
abbrev pub exceeds : PartitionedLevel → Bool
exceeds level = Level.exceeds_target_size level.segments level.target_size

-- the loop of find_partitioned_levels_to_compact: the index of the first level that exceeds its
-- size
unfoldable pub first_exceeding : List PartitionedLevel → ℕ
first_exceeding [] = 0
first_exceeding (level ∷ levels) =
    let rest = first_exceeding levels in if exceeds level then 0 else suc rest

-- CompactionBt::find_partitioned_levels_to_compact: the levels to keep, and those to compact
unfoldable pub find_partitioned_levels_to_compact :
    List PartitionedLevel → List PartitionedLevel × List PartitionedLevel
unfolding first_exceeding
find_partitioned_levels_to_compact levels =
    let idx = first_exceeding levels in
    if idx == length levels then (levels, []) else (take idx levels, drop idx levels)

-- Vec::remove
unfoldable pub remove_at : {E : Type 0} → ℕ → List Segment → Outcome E (List Segment)
remove_at i [] = panic
remove_at zero (s ∷ segments) = ok segments
remove_at (suc i) (s ∷ segments) = do left ← remove_at i segments; ok (s ∷ left)

-- the loop over the indices, from the last one on
unfoldable pub remove_all : {E : Type 0} → List ℕ → List Segment → Outcome E (List Segment)
unfolding remove_at
remove_all [] segments = ok segments
remove_all (i ∷ indices) segments = do left ← remove_at i segments; remove_all indices left

module _ (strong_count : Segment → ℕ) where
  -- the first loop of remove_segment_files, from an index on: the indices and the files
  unfoldable pub unused : ℕ → List Segment → List ℕ × List Text
  unused i [] = ([], [])
  unused i (s ∷ segments) =
      let (indices, files) = unused (suc i) segments in
      if strong_count s == 1 then (i ∷ indices, s.filepath ∷ files) else (indices, files)

  -- CompactionBt::remove_segment_files: the segments that are still to be deleted, and the files
  -- that are removed
  unfoldable pub remove_segment_files :
      {E : Type 0} → List Segment → Outcome E (List Segment × List Text)
  unfolding unused remove_all
  remove_segment_files segments_to_delete = do
    let (indices, files) = unused 0 segments_to_delete
    left ← remove_all (reverse indices) segments_to_delete
    ok (left, files)
