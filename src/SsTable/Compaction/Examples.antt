-- ===== src/SsTable/Compaction/Examples.antt =====
-- A segment that is still in use, and one that is not.
use rkvs.Base.{ℕ, ◌≡◌, [], ◌∷◌, ok, IoError, ◌==◌, if◌then◌else◌}
use rkvs.SsTable.Segment.{Segment}
use rkvs.SsTable.Compaction.{remove_segment_files}
use rkvs.SsTable.Compaction.Laws.{in_use, unused_files, remove_segment_files-in_use}
use rkvs.SsTable.Writer.Examples.{segment}

abbrev read_segment : Segment
read_segment = record segment { number = 8 }

-- a reader holds segment 8
abbrev counts : Segment → ℕ
counts s = if s.number == 8 then 2 else 1

remove_segment_files-in_use_example :
    remove_segment_files counts {E = IoError} (segment ∷ (read_segment ∷ []))
    ≡ ok (
      in_use counts (segment ∷ (read_segment ∷ [])),
      unused_files counts (segment ∷ (read_segment ∷ [])),
    )
remove_segment_files-in_use_example =
    remove_segment_files-in_use counts (segment ∷ (read_segment ∷ []))
