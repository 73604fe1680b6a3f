-- ===== src/SsTable/Segment/GetLaws.antt =====
-- `Segment::get` finds what is in the data block.
use mathlib.Core.Path.{subst}
use rkvs.Base.{
  ℕ, suc, ◌+◌, ◌-◌, ◌≡◌, refl, sym, ap, ◌∙◌, arith, List, [], ◌∷◌, ◌++◌, le_bytes, append_assoc,
  true, false, none, some, length, length-append_bytes, length-append, get_elem?, All, All-left,
  All-right, Bool-cases, inl, inr, lt→ltb, le→not-ltb, Outcome, ok, IoError, ◌>>=◌, Text, text_eq,
  text_lt, text_le, text_eq→eq, text_eq_refl, text_lt_total,
}
use rkvs.SsTable.Entry.{SsTableEntry, len}
use rkvs.SsTable.EntryLaws.{IsStorable, layout, block}
use rkvs.SsTable.Index.{
  SegmentIndexEntry, binary_search, find_in, neighbours, hit, range, IndexSearchResult,
}
use rkvs.SsTable.Index.Search.{binary_search-Locates, IsAscending, Locates, in_range}
use rkvs.SsTable.Ordered
use rkvs.SsTable.Ordered.{
  lookup_entry, Ascends, AllAbove, AllBelow, scan-Ascends, lookup_entry-AllBelow,
  lookup_entry-AllAbove, lookup_entry-skip_left, lookup_entry-skip_right,
}
use rkvs.SsTable.Segment
use rkvs.SsTable.Segment.{Segment, get_in, read_table_entries, read_table_entry}
use rkvs.SsTable.Segment.ReadLaws.{read_table_entries-block, read_table_entry-layout}
use rkvs.SsTable.Segment.Divided.{
  Part, members, flatten, marks, mark_of, At, block-append, get_elem?-marks, marks-IsAscending,
  flatten-append, length-marks, marks-next,
}
use rkvs.SsTable.Segment.File.{Holds}
use rkvs.SsTable.Segment.Stores.{Stores}

not_equal-text_le : (a b : Text) → text_eq b a ≡ false → text_le a b ≡ true → text_lt a b ≡ true
unfolding text_le
not_equal-text_le a b h k = elim (Bool-cases (text_lt a b)) [
  | inl less ↦ less
  | inr not ↦ absurd (equal_not a b (text_eq→eq a b (sym (rw not) ∙ k)) h)
]
  where
    equal_not : (a b : Text) → a ≡ b → text_eq b a ≡ false → ⊥
    equal_not a b e h = cc (text_eq_refl b)

text_le-not_lt : (a b : Text) → text_lt a b ≡ false → text_le b a ≡ true
unfolding text_le
text_le-not_lt a b h = ground (arith, text_lt_total b a)

neighbours_hit :
    (indices : List SegmentIndexEntry) (key : Text) (e : SegmentIndexEntry) (i : ℕ)
    → text_eq key e.key ≡ true
    → ◌≡◌ {A = Outcome IoError IndexSearchResult} (neighbours indices key e i) (ok (hit e.offset))
unfolding neighbours
neighbours_hit indices key e i h = rw h refl

block_split :
    (pre mid post : List SsTableEntry) (rest : List ℕ)
    → block (pre ++ (mid ++ post)) ++ rest ≡ block pre ++ (block mid ++ (block post ++ rest))
block_split pre mid post rest =
    rw (block-append pre (mid ++ post), block-append mid post) (simp append_assoc)

length-block :
    (pre mid post : List SsTableEntry)
    → length (block (pre ++ (mid ++ post)))
      ≡ length (block pre) + (length (block mid) + length (block post))
length-block pre mid post =
    rw (block-append pre (mid ++ post), block-append mid post)
      (omega (
        arith,
        length-append_bytes (block pre) (block mid ++ block post),
        length-append_bytes (block mid) (block post),
      ))

module _ (s : Segment) (es : List SsTableEntry) (st : Stores s es) (key : Text)
    (holds : Holds st.open_file st.contents) where
  -- the entries of a range are read and scanned, when the key is in no other part of the block
  read_mid :
      (pre mid post : List SsTableEntry) (start end : ℕ)
      → es ≡ pre ++ (mid ++ post)
      → start ≡ length (block pre)
      → end ≡ start + length (block mid)
      → read_table_entries s.file start end ≡ ok mid
  read_mid pre mid post start end e hs he =
      ap (λ f. read_table_entries f start end) st.file_eq
      ∙ read_table_entries-block st.open_file st.contents holds (block pre) (block post ++ st.rest)
          mid start end
          (st.block_eq ∙ (ap (λ l. block l ++ st.rest) e ∙ block_split pre mid post st.rest)) hs he
          (All-left _ mid post
            (All-right _ pre (mid ++ post) (subst (λ l. All IsStorable l) e st.storable)))

  found_mid :
      (pre mid post : List SsTableEntry)
      → es ≡ pre ++ (mid ++ post)
      → lookup_entry key pre ≡ none
      → lookup_entry key post ≡ none
      → Segment.scan key mid ≡ lookup_entry key es
  found_mid pre mid post e hp hq =
      scan-Ascends key mid (
        Ordered.Ascends-left mid post
          (Ordered.Ascends-right pre (mid ++ post) (subst Ascends e st.ascends)))
      ∙ (sym (lookup_entry-skip_right key mid post hq)
          ∙ (sym (lookup_entry-skip_left key pre (mid ++ post) hp) ∙ ap (lookup_entry key) (sym e)))

  -- a range that ends before `end`, or at the end of the block
  get_some :
      (pre mid post : List SsTableEntry) (start end : ℕ)
      → es ≡ pre ++ (mid ++ post)
      → start ≡ length (block pre)
      → end ≡ start + length (block mid)
      → lookup_entry key pre ≡ none
      → lookup_entry key post ≡ none
      → get_in s key (range start (some end)) ≡ ok (lookup_entry key es)
  unfolding get_in
  get_some pre mid post start end e hs he hp hq =
      rw (read_mid pre mid post start end e hs he) (ap ok (found_mid pre mid post e hp hq))

  get_none :
      (pre mid : List SsTableEntry) (start : ℕ)
      → es ≡ pre ++ (mid ++ [])
      → start ≡ length (block pre)
      → lookup_entry key pre ≡ none
      → get_in s key (range start none) ≡ ok (lookup_entry key es)
  unfolding get_in
  get_none pre mid start e hs hp =
      let end : s.data_block_end ≡ start + length (block mid) =
        omega (arith, st.end_eq, ap (λ l. length (block l)) e, length-block pre mid [], hs) in
      rw (read_mid pre mid [] start s.data_block_end e hs end)
        (ap ok (found_mid pre mid [] e hp refl))

  -- before the first entry of the index
  get_first :
      (part : Part) (more : List Part)
      → st.parts ≡ part ∷ more
      → text_lt key part.head.key ≡ true
      → get_in s key (range 0 (some (length (block st.first)))) ≡ ok (lookup_entry key es)
  get_first part more e h =
      let whole : es ≡ [] ++ (st.first ++ flatten (part ∷ more)) =
        st.parts_eq ∙ ap (λ ps. st.first ++ flatten ps) e in
      let up =
        Ordered.Ascends-right st.first (flatten (part ∷ more)) (subst Ascends whole st.ascends) in
      get_some [] st.first (flatten (part ∷ more)) 0 (length (block st.first)) whole refl
        (omega arith) refl
        (lookup_entry-AllAbove key (flatten (part ∷ more))
          (h, Ordered.AllAbove-trans key part.head.key (part.tail ++ flatten more) h up.0))

  -- at or behind an entry of the index
  module _ (before : List Part) (part : Part) (after : List Part) (e : SegmentIndexEntry) (i : ℕ)
      (parts_at : st.parts ≡ before ++ part ∷ after) (count : length before ≡ i)
      (key_at : part.head.key ≡ e.key)
      (offset_at : e.offset ≡ length (block st.first) + length (block (flatten before)))
      (low : text_le e.key key ≡ true)
      (high : (f : SegmentIndexEntry)
        → get_elem? s.index.indices (suc i) ≡ some f
        → text_lt key f.key ≡ true) where
    abbrev pre : List SsTableEntry
    pre = st.first ++ flatten before

    whole : es ≡ pre ++ (members part ++ flatten after)
    whole =
        st.parts_eq
        ∙ (ap (λ ps. st.first ++ flatten ps) parts_at
            ∙ (ap (λ l. st.first ++ l) (flatten-append before (part ∷ after))
                ∙ sym (append_assoc st.first (flatten before) (members part ++ flatten after))))

    offset_pre : e.offset ≡ length (block pre)
    offset_pre = omega (
      arith,
      offset_at,
      ap (λ l. length l) (block-append st.first (flatten before)),
      length-append_bytes (block st.first) (block (flatten before)),
    )

    up : Ascends (pre ++ (members part ++ flatten after))
    up = subst Ascends whole st.ascends

    below_head : AllBelow part.head.key pre
    below_head = Ordered.AllBelow-Ascends pre part.head (part.tail ++ flatten after) up

    get_hit : text_eq key e.key ≡ true → get_in s key (hit e.offset) ≡ ok (lookup_entry key es)
    unfolding get_in
    get_hit h =
        let same : part.head.key ≡ key = key_at ∙ sym (text_eq→eq key e.key h) in
        let here : text_eq part.head.key key ≡ true =
          subst (λ k. text_eq part.head.key k ≡ true) same (text_eq_refl part.head.key) in
        let found : lookup_entry key es ≡ some part.head =
          ap (lookup_entry key) whole
          ∙ (lookup_entry-skip_left key pre (members part ++ flatten after)
                (lookup_entry-AllBelow key pre (subst (λ k. AllBelow k pre) same below_head))
              ∙ rw here refl) in
        let place : st.contents
            ≡ block pre
              ++ (le_bytes 4 (len (length part.head.key) part.head.value)
                  ++ (layout part.head ++ (block (part.tail ++ flatten after) ++ st.rest))) =
          st.block_eq
          ∙ (ap (λ l. block l ++ st.rest) whole
              ∙ rw (block-append pre (members part ++ flatten after)) (simp append_assoc)) in
        let read : read_table_entry s.file e.offset ≡ ok part.head =
          ap (λ f. read_table_entry f e.offset) st.file_eq
          ∙ read_table_entry-layout st.open_file st.contents holds (block pre)
              (block (part.tail ++ flatten after) ++ st.rest) part.head e.offset place offset_pre
              (All-right _ pre (members part ++ flatten after)
                (subst (λ l. All IsStorable l) whole st.storable)).0 in
        rw (read, found) refl

    strictly_below : text_eq key e.key ≡ false → AllBelow key pre
    unfolding text_le
    strictly_below h =
        let less : text_lt e.key key ≡ true = not_equal-text_le e.key key h low in
        Ordered.AllBelow-trans part.head.key key pre
          (subst (λ k. text_lt k key ≡ true) (sym key_at) less) below_head

    -- behind the last entry of the index
    get_last :
        text_eq key e.key ≡ false
        → after ≡ []
        → (neighbours s.index.indices key e i >>= get_in s key) ≡ ok (lookup_entry key es)
    unfolding neighbours
    get_last h a =
        let total : length s.index.indices ≡ i + 1 = omega (
          arith,
          ap (λ l. length l) st.index_eq,
          length-marks st.parts (length (block st.first)),
          ap (λ l. length l) (parts_at ∙ ap (λ l. before ++ part ∷ l) a),
          length-append before (part ∷ []),
          count,
        ) in
        rw (h, le→not-ltb i (length s.index.indices - 1) (omega arith))
          (get_none pre (members part) e.offset
            (whole ∙ ap (λ l. pre ++ (members part ++ flatten l)) a) offset_pre
            (lookup_entry-AllBelow key pre (strictly_below h)))

    -- between two entries of the index
    get_inner :
        (q : Part) (qs : List Part)
        → text_eq key e.key ≡ false
        → after ≡ q ∷ qs
        → (neighbours s.index.indices key e i >>= get_in s key) ≡ ok (lookup_entry key es)
    unfolding neighbours
    get_inner q qs h a =
        let next : SegmentIndexEntry =
          mark_of
            (length (block st.first)
              + (length (block (flatten before)) + length (block (members part))))
            q in
        let found : get_elem? s.index.indices (suc i) ≡ some next =
          ap (λ l. get_elem? l (suc i))
            (st.index_eq
              ∙ ap (marks (length (block st.first))) (parts_at ∙ ap (λ l. before ++ part ∷ l) a))
          ∙ marks-next before part q qs (length (block st.first)) i count in
        let more = in_range s.index.indices (suc i) next found in
        let found_at : get_elem? s.index.indices (i + 1) ≡ some next =
          ap (λ n. get_elem? s.index.indices n) (omega arith) ∙ found in
        let larger : text_lt key q.head.key ≡ true = high next found in
        let divided = whole ∙ ap (λ l. pre ++ (members part ++ flatten l)) a in
        let rising : Ascends (flatten (q ∷ qs)) =
          Ordered.Ascends-right (members part) (flatten (q ∷ qs)) (
            Ordered.Ascends-right pre (members part ++ flatten (q ∷ qs))
              (subst Ascends divided st.ascends)) in
        rw (h, lt→ltb i (length s.index.indices - 1) (omega arith), found_at)
          (get_some pre (members part) (flatten (q ∷ qs)) e.offset next.offset divided offset_pre
            (omega (arith, offset_at)) (lookup_entry-AllBelow key pre (strictly_below h))
            (lookup_entry-AllAbove key (flatten (q ∷ qs)) (
              larger,
              Ordered.AllAbove-trans key q.head.key (q.tail ++ flatten qs) larger rising.0,
            )))

    get_range :
        text_eq key e.key ≡ false
        → (qs : List Part) → after ≡ qs
        → (neighbours s.index.indices key e i >>= get_in s key) ≡ ok (lookup_entry key es)
    get_range h [] a = get_last h a
    get_range h (q ∷ qs) a = get_inner q qs h a

  next_above :
      (i : ℕ)
      → Locates s.index.indices key i
      → (f : SegmentIndexEntry) → get_elem? s.index.indices (suc i) ≡ some f
      → text_lt key f.key ≡ true
  next_above i found f h = found.above (suc i) f (omega arith) h

  get-At :
      (e : SegmentIndexEntry) (i : ℕ)
      → At (length (block st.first)) st.parts i e
      → Locates s.index.indices key i
      → get_elem? s.index.indices i ≡ some e
      → (neighbours s.index.indices key e i >>= get_in s key) ≡ ok (lookup_entry key es)
  get-At e i at found here = elim (Bool-cases (text_eq key e.key)) [
    | inl same ↦ rw (neighbours_hit s.index.indices key e i same) (
        get_hit at.before at.part at.after e i at.parts_eq at.count at.key_eq at.offset_eq
          (found.below e here) (next_above i found) same)
    | inr differs ↦
        get_range at.before at.part at.after e i at.parts_eq at.count at.key_eq at.offset_eq
          (found.below e here) (next_above i found) differs at.after refl
  ]

  located_in :
      (p : Part) (ps : List Part)
      → st.parts ≡ p ∷ ps
      → text_lt key p.head.key ≡ false
      → (i : ℕ) × (e : SegmentIndexEntry) × (◌≡◌ {A = Outcome IoError (SegmentIndexEntry × ℕ)}
          (binary_search s.index.indices key)
          (ok (e, i)))
        × (get_elem? s.index.indices i ≡ some e)
        × Locates s.index.indices key i
  located_in p ps e h =
      binary_search-Locates s.index.indices key
        (subst IsAscending (sym st.index_eq) (
          marks-IsAscending st.parts (length (block st.first)) (
            Ordered.Ascends-right st.first (flatten st.parts)
              (subst Ascends st.parts_eq st.ascends))))
        (mark_of (length (block st.first)) p)
        (ap (λ l. get_elem? l 0) (st.index_eq ∙ ap (marks (length (block st.first))) e))
        (text_le-not_lt key p.head.key h)

  get_parts :
      (parts : List Part)
      → st.parts ≡ parts
      → (find_in s.index.indices key >>= get_in s key) ≡ ok (lookup_entry key es)
  unfolding find_in
  get_parts [] e =
      ap (λ l. find_in l key >>= get_in s key)
        (st.index_eq ∙ ap (marks (length (block st.first))) e)
      ∙ get_none [] st.first 0 (st.parts_eq ∙ ap (λ ps. st.first ++ flatten ps) e) refl refl
  get_parts (p ∷ ps) e =
      let here : s.index.indices ≡ marks (length (block st.first)) (p ∷ ps) =
        st.index_eq ∙ ap (marks (length (block st.first))) e in
      ap (λ l. find_in l key >>= get_in s key) here ∙ elim (Bool-cases (text_lt key p.head.key)) [
        | inl below ↦ rw below (get_first p ps e below)
        | inr above ↦
            let (i, entry, searched, found, located) = located_in p ps e above in
            rw (above, ap (λ l. binary_search {E = IoError} l key) (sym here) ∙ searched)
              (ap (λ l. neighbours l key entry i >>= get_in s key) (sym here)
                ∙ get-At entry i
                    (get_elem?-marks st.parts (length (block st.first)) i entry
                      (ap (λ l. get_elem? l i) (sym st.index_eq) ∙ found))
                    located found)
      ]

-- Where every read of the segment's file succeeds and is complete, which read_at alone does not
-- promise, the segment's `get` gives the entry of the key among those of its file, and nothing
-- where there is none; it does not fail.
pub get-lookup_entry :
    (s : Segment) (es : List SsTableEntry) (key : Text) (st : Stores s es)
    → Holds st.open_file st.contents
    → Segment.get s key ≡ ok (lookup_entry key es)
unfolding Segment.get
get-lookup_entry s es key st holds = get_parts s es st key holds st.parts refl
