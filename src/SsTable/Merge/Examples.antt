-- ===== src/SsTable/Merge/Examples.antt =====
-- Merges of concrete levels.
use rkvs.Base.{
  ℕ, ◌<◌, ◌≡◌, refl, arith, List, [], ◌∷◌, none, some, ok, err, panic, Text, text_lt, false, Option,
  Outcome,
}
use rkvs.SsTable.Entry.{SsTableEntry}
use rkvs.SsTable.Segment.ReadBuf.{SegmentReadBuf}
use rkvs.SsTable.Segment.ReadBuf
use rkvs.SsTable.Merge.Sort
use rkvs.Base
use rkvs.SsTable.Merge.Sort.{Merging}
use rkvs.SsTable.Merge.Rounds.{Fueled, merge_sort, stands_before}
use rkvs.SsTable.Segment.{Segment}
use rkvs.SsTable.Level.{total_size}
use rkvs.SsTable.Index
use rkvs.SsTable.Merge.Choice.{segments_to_merge}
use rkvs.SsTable.Merge.ChoiceLaws.{segments_to_merge-panics}

-- a segment of 60 bytes
abbrev numbered : ℕ → Segment
numbered n = record {
  file = λ offset count. ok [];
  filepath = [];
  index = Index.new;
  size = 60;
  number = n;
  level_number = 1;
  data_block_end = 0;
  first_key = [];
  last_key = [];
  highest_sequence_no = 0;
}

abbrev OfSixty : Segment → Type 0
OfSixty s = s.size ≡ 60

-- the segments 1 and 2, in the order in which the second is found first
abbrev level : List Segment
level = numbered 2 ∷ (numbered 1 ∷ [])

-- the segments 1 and 2, in the order of their numbers
abbrev flushed : List Segment
flushed = numbered 1 ∷ (numbered 2 ∷ [])

flushed_size : 100 < total_size flushed
unfolding total_size
flushed_size = omega arith

segments_to_merge-panics_example : segments_to_merge flushed 100 ≡ some panic
segments_to_merge-panics_example =
    segments_to_merge-panics 1 flushed 100 (refl, (refl, tt)) refl flushed_size

abbrev entry : ℕ → ℕ → SsTableEntry
entry c n = record { key = c ∷ []; value = none; sequence_number = n }

abbrev buffer : List SsTableEntry → SegmentReadBuf
buffer es = record { segment = numbered 1; buf = es; curr_offset = 0; size = 1000; max_size = 1000 }

-- what is put out, without the buffers
abbrev put_out : Fueled Merging → Fueled (List SsTableEntry)
put_out none = none
put_out (some (ok m)) = some (ok m.res)
put_out (some (err e)) = some (err e)
put_out (some panic) = some panic

-- "a", "c" and "x" in one buffer, "b", "d" and "y" in the other: "d" is put out before "c", which
-- stays behind
merge_sort_order :
    put_out (
      merge_sort 9 (
        buffer (entry 97 1 ∷ (entry 99 2 ∷ (entry 120 3 ∷ [])))
        ∷ (buffer (entry 98 4 ∷ (entry 100 5 ∷ (entry 121 6 ∷ []))) ∷ [])))
    ≡ some (ok (entry 97 1 ∷ (entry 98 4 ∷ (entry 100 5 ∷ []))))
unfolding merge_sort ReadBuf.back ReadBuf.front Base.text_le stands_before ReadBuf.pop_front
    Sort.put_at
merge_sort_order = refl

-- "a" in both buffers, "b" in one and "c" in both: each key once, with its newest entry
merge_sort_newest :
    put_out (
      merge_sort 9 (
        buffer (entry 97 1 ∷ (entry 99 2 ∷ []))
        ∷ (buffer (entry 97 3 ∷ (entry 98 7 ∷ (entry 99 4 ∷ []))) ∷ [])))
    ≡ some (ok (entry 97 3 ∷ (entry 98 7 ∷ (entry 99 4 ∷ []))))
unfolding merge_sort ReadBuf.back ReadBuf.front Base.text_le stands_before ReadBuf.pop_front
    Sort.put_at
merge_sort_newest = refl
