-- ===== src/SsTable/Merge/Choice.antt =====
-- `segments_to_merge` of both kinds of levels, src/storage_engine/sstable/level.rs. The arithmetic
-- of u64 is checked: a subtraction below 0 is a panic.
use rkvs.Base.{
  ℕ, zero, suc, ◌+◌, ◌-◌, List, [], ◌∷◌, ◌++◌, true, false, ◌==◌, Option, none, some, ltb, leb,
  if◌then◌else◌, Outcome, ok, err, panic, ◌>>=◌, ◌>>◌, assert, IoError,
}
use rkvs.SsTable.Segment.{Segment}
use rkvs.SsTable.Level.{total_size, highest_segment_number}

-- the variables of the loops
pub record Choosing : Type 0 where
  pub chosen : List Segment
  pub size : ℕ
  pub curr_segment_number : ℕ

-- the body of the inner loop, up to the subtraction
unfoldable pub take_if_current : Segment → Choosing → Outcome IoError Choosing
take_if_current s c =
    if s.number == c.curr_segment_number
    then (do
      assert (leb s.size c.size)
      ok (record c { chosen = c.chosen ++ s ∷ []; size = c.size - s.size }))
    else ok c

-- the inner loop
unfoldable pub choose_round : List Segment → Choosing → Outcome IoError Choosing
unfolding take_if_current
choose_round [] c = ok c
choose_round (s ∷ segments) c = do
  c ← take_if_current s c
  assert (leb 1 c.curr_segment_number)
  choose_round segments (record c { curr_segment_number = c.curr_segment_number - 1 })

-- what follows a round
abbrev pub next_round :
    (Choosing → Option (Outcome IoError (List Segment)))
    → Outcome IoError Choosing
    → Option (Outcome IoError (List Segment))
next_round rest (ok c) = rest c
next_round rest (err e) = some (err e)
next_round rest panic = some panic

-- The outer loop; `none` stands for fuel that ran out.
unfoldable pub choose_loop :
    ℕ → List Segment → ℕ → Choosing → Option (Outcome IoError (List Segment))
unfolding choose_round
choose_loop zero segments target_size c = none
choose_loop (suc fuel) segments target_size c = elim (ltb target_size c.size) [
  | true ↦ next_round (choose_loop fuel segments target_size) (choose_round segments c)
  | false ↦ some (ok c.chosen)
]

-- segments_to_merge; a round lowers the number, so the highest one bounds the rounds
unfoldable pub segments_to_merge : List Segment → ℕ → Option (Outcome IoError (List Segment))
unfolding choose_loop
segments_to_merge segments target_size =
    choose_loop (highest_segment_number segments + 2) segments target_size (record {
      chosen = [];
      size = total_size segments;
      curr_segment_number = highest_segment_number segments;
    })
