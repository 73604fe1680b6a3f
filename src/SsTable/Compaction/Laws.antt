-- ===== src/SsTable/Compaction/Laws.antt =====
-- Which levels are compacted, and which files are removed.
use mathlib.Core.List.{reverse, reverse-cons}
use rkvs.Base.{
  ℕ, suc, ◌≡◌, refl, sym, ap, ◌∙◌, arith, List, [], ◌∷◌, ◌++◌, append_assoc, append-nil, Bool, true,
  false, All, Bool-cases, inl, inr, Outcome, ok, err, panic, ◌>>=◌, if◌then◌else◌, ◌==◌, length,
  length-append, take, drop, Text,
}
use rkvs.SsTable.Segment.{Segment}
use rkvs.SsTable.Compaction.{
  PartitionedLevel, exceeds, first_exceeding, find_partitioned_levels_to_compact, remove_at,
  remove_all, unused, remove_segment_files,
}

-- the segments that are used, and the files of those that are not
abbrev pub in_use : (Segment → ℕ) → List Segment → List Segment
in_use strong_count [] = []
in_use strong_count (s ∷ segments) =
    if strong_count s == 1 then in_use strong_count segments else s ∷ in_use strong_count segments

abbrev pub unused_files : (Segment → ℕ) → List Segment → List Text
unused_files strong_count [] = []
unused_files strong_count (s ∷ segments) =
    if strong_count s == 1
    then s.filepath ∷ unused_files strong_count segments
    else unused_files strong_count segments

remove_at-append :
    {E : Type 0} (pre : List Segment) (s : Segment) (post : List Segment)
    → remove_at {E = E} (length pre) (pre ++ s ∷ post) ≡ ok (pre ++ post)
unfolding remove_at
remove_at-append [] s post = refl
remove_at-append {E = E} (p ∷ pre) s post = rw (remove_at-append {E = E} pre s post)

remove_all-append :
    {E : Type 0} (is js : List ℕ) (segments left : List Segment)
    → remove_all {E = E} is segments ≡ ok left
    → remove_all {E = E} (is ++ js) segments ≡ remove_all {E = E} js left
unfolding remove_all
remove_all-append {E = E} [] js segments left h =
    let same : segments ≡ left = cc in ap (λ l. remove_all {E = E} js l) same
remove_all-append {E = E} (i ∷ is) js segments left h =
    by_removed (remove_at i segments) h (λ l hl. remove_all-append {E = E} is js l left hl)
  where
    by_removed :
        (r : Outcome E (List Segment))
        → (r >>= λ l. remove_all {E = E} is l) ≡ ok left
        → ((l : List Segment)
            → remove_all {E = E} is l ≡ ok left
            → remove_all {E = E} (is ++ js) l ≡ remove_all {E = E} js left)
        → (r >>= λ l. remove_all {E = E} (is ++ js) l) ≡ remove_all {E = E} js left
    by_removed (ok l) h next = next l h
    by_removed (err e) h next = cc
    by_removed panic h next = cc

module _ (strong_count : Segment → ℕ) where
  remove_all-unused :
      {E : Type 0} (segments pre : List Segment) (i : ℕ)
      → length pre ≡ i
      → remove_all {E = E} (reverse (unused strong_count i segments).0) (pre ++ segments)
        ≡ ok (pre ++ in_use strong_count segments)
  unfolding unused remove_all
  remove_all-unused [] pre i h = ap ok refl
  remove_all-unused {E = E} (s ∷ segments) pre i h =
      let indices : List ℕ = (unused strong_count (suc i) segments).0 in
      let rest : remove_all {E = E} (reverse indices) (pre ++ s ∷ segments)
          ≡ ok (pre ++ s ∷ in_use strong_count segments) =
        ap (remove_all {E = E} (reverse indices)) (sym (append_assoc pre (s ∷ []) segments))
        ∙ (remove_all-unused {E = E} segments (pre ++ s ∷ []) (suc i)
              (omega (arith, h, length-append pre (s ∷ [])))
            ∙ ap ok (append_assoc pre (s ∷ []) (in_use strong_count segments))) in
      elim (Bool-cases (strong_count s == 1)) [
        | inl only ↦
            rw (only, reverse-cons i indices)
              (remove_all-append {E = E} (reverse indices) (i ∷ []) (pre ++ s ∷ segments)
                  (pre ++ s ∷ in_use strong_count segments) rest
                ∙ (ap (λ n. remove_all {E = E} (n ∷ []) (pre ++ s ∷ in_use strong_count segments))
                      (sym h)
                    ∙ rw (remove_at-append {E = E} pre s (in_use strong_count segments)) refl))
        | inr shared ↦ rw (shared) rest
      ]

  unused-unused_files :
      (segments : List Segment) (i : ℕ)
      → (unused strong_count i segments).1 ≡ unused_files strong_count segments
  unfolding unused
  unused-unused_files [] i = refl
  unused-unused_files (s ∷ segments) i = elim (Bool-cases (strong_count s == 1)) [
    | inl only ↦ rw only (ap (λ l. s.filepath ∷ l) (unused-unused_files segments (suc i)))
    | inr shared ↦ rw (shared) (unused-unused_files segments (suc i))
  ]

  -- `remove_segment_files` does not panic: it removes the files of the segments that nothing else
  -- refers to, in their order, and keeps every other segment, in its order, to be deleted later.
  pub remove_segment_files-in_use :
      {E : Type 0} (segments_to_delete : List Segment)
      → remove_segment_files strong_count {E = E} segments_to_delete
        ≡ ok (in_use strong_count segments_to_delete, unused_files strong_count segments_to_delete)
  unfolding remove_segment_files
  remove_segment_files-in_use {E = E} segments =
      rw (remove_all-unused {E = E} segments [] 0 refl, unused-unused_files segments 0)

-- The first level exceeds its size, if there is one.
abbrev pub FirstExceeds : List PartitionedLevel → Type 0
FirstExceeds [] = Unit
FirstExceeds (level ∷ levels) = exceeds level ≡ true

none_exceed :
    (levels : List PartitionedLevel)
    → first_exceeding levels ≡ length levels
    → All (λ l. exceeds l ≡ false) levels
unfolding first_exceeding
none_exceed [] h = tt
none_exceed (l ∷ levels) h =
    let (under, rest) = by_test (exceeds l) (first_exceeding levels) (length levels) h in
    (under, none_exceed levels rest)
  where
    by_test : (b : Bool) (r n : ℕ) → (if b then 0 else suc r) ≡ suc n → (b ≡ false) × (r ≡ n)
    by_test true r n h = absurd (omega arith)
    by_test false r n h = (refl, omega arith)

split_at_first :
    (levels : List PartitionedLevel)
    → (take (first_exceeding levels) levels ++ drop (first_exceeding levels) levels ≡ levels)
      × All (λ l. exceeds l ≡ false) (take (first_exceeding levels) levels)
      × FirstExceeds (drop (first_exceeding levels) levels)
unfolding first_exceeding
split_at_first [] = (refl, tt, tt)
split_at_first (l ∷ levels) =
    let (e, all, first) = split_at_first levels in
    elim (Bool-cases (exceeds l)) [
      | inl over ↦ rw over (refl, tt, over)
      | inr under ↦ rw under (ap (λ m. l ∷ m) e, (under, all), first)
    ]

-- The levels to keep and those to compact are all levels in their order; none that is kept exceeds
-- its size, and the first to compact does.
pub find_partitioned_levels_to_compact-FirstExceeds :
    (levels : List PartitionedLevel)
    → ((find_partitioned_levels_to_compact levels).0
          ++ (find_partitioned_levels_to_compact levels).1
        ≡ levels)
      × All (λ l. exceeds l ≡ false) (find_partitioned_levels_to_compact levels).0
      × FirstExceeds (find_partitioned_levels_to_compact levels).1
unfolding find_partitioned_levels_to_compact
find_partitioned_levels_to_compact-FirstExceeds levels =
    elim (Bool-cases (first_exceeding levels == length levels)) [
      | inl all ↦ rw all (append-nil levels, none_exceed levels (ground arith), tt)
      | inr some_exceed ↦ rw some_exceed (split_at_first levels)
    ]
