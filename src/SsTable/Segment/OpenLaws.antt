-- ===== src/SsTable/Segment/OpenLaws.antt =====
-- `Segment::from_file` on a file that was written whole: the segment it opens.
use rkvs.Base.{
  ℕ, ◌+◌, ◌-◌, ◌<◌, ◌^◌, ◌≡◌, refl, sym, ap, ◌∙◌, arith, lengths, List, [], ◌∷◌, ◌++◌, append_assoc,
  append-nil, length, drop, drop_left, All, All-right, le→leb, Option, none, some, Outcome, ok, err,
  panic, ◌>>◌, ◌⊎◌, inl, inr, IoError, Text, text_eq_refl, le_bytes, length-append_bytes, slice_mid,
}
use mathlib.Core.Path.{subst}
use rkvs.SsTable.Entry.{SsTableEntry, len}
use rkvs.SsTable.EntryLaws.{IsStorable, block}
use rkvs.SsTable.Index
use rkvs.SsTable.Index.{
  SegmentIndex, SegmentIndexEntry, footer_from_bytes, magic_bytes, segment_footer_len,
}
use rkvs.SsTable.Index.Laws.{
  IsIndexable, index_block, add_all, add_all-indices, from_bytes-add_all, footer_from_bytes-layout,
}
use rkvs.SsTable.Filename.{level_and_segment_number_from_filename}
use rkvs.SsTable.Output.{OpenFails, failed}
use rkvs.SsTable.Ordered.{Ascends, lookup_entry}
use rkvs.SsTable.Segment
use rkvs.SsTable.Segment.{Segment, read_table_entry, read_table_entries}
use rkvs.SsTable.Segment.File.{File, Holds}
use rkvs.SsTable.Segment.ReadLaws.{read_table_entries-block, read_table_entry-layout, take-drop_mid}
use rkvs.SsTable.Segment.Divided.{Part, members, flatten, marks, block-append}
use rkvs.SsTable.Segment.GetLaws.{get-lookup_entry}
use rkvs.SsTable.Segment.Stores.{Stores}
use rkvs.SsTable.Segment.Open.{
  SegmentOpenError, io_error, corrupt, try, from_file, read_segment, check_magic, last_offset,
  last_key, highest_number,
}

-- The bytes of a segment file: the data block, the index, and the footer.
abbrev pub file_layout : List SsTableEntry → List SegmentIndexEntry → List ℕ
file_layout es indices =
    block es ++ (index_block indices ++ (le_bytes 8 (length (block es)) ++ magic_bytes))

-- Entries that are divided by a sparse index.
pub record Indexed (offset : ℕ) (es : List SsTableEntry) (indices : List SegmentIndexEntry)
    : Type 0 where
  pub first : List SsTableEntry
  pub parts : List Part
  pub parts_eq : es ≡ first ++ flatten parts
  pub index_eq : indices ≡ marks (offset + length (block first)) parts

-- the entries from the offset of the last index entry on
pub record Last (offset : ℕ) (es : List SsTableEntry) (at : ℕ) : Type 0 where
  pub before : List SsTableEntry
  pub behind : List SsTableEntry
  pub split : es ≡ before ++ behind
  pub at_eq : at ≡ offset + length (block before)

Last-marks :
    (p : Part) (ps : List Part) (offset : ℕ)
    → Last offset (flatten (p ∷ ps)) (last_offset (marks offset (p ∷ ps)))
unfolding last_offset
Last-marks p [] offset = record {
  before = [];
  behind = flatten (p ∷ []);
  split = refl;
  at_eq = omega arith;
}
Last-marks p (q ∷ ps) offset =
    let rest = Last-marks q ps (offset + length (block (members p))) in
    record {
      before = members p ++ rest.before;
      behind = rest.behind;
      split =
          ap (λ l. members p ++ l) rest.split
          ∙ sym (append_assoc (members p) rest.before rest.behind);
      at_eq = omega (
        arith,
        rest.at_eq,
        ap (λ l. length l) (block-append (members p) rest.before),
        length-append_bytes (block (members p)) (block rest.before),
      );
    }

Last-Indexed :
    (es : List SsTableEntry) (indices : List SegmentIndexEntry)
    → Indexed 0 es indices
    → Last 0 es (last_offset indices)
unfolding last_offset
Last-Indexed es indices d = from_parts d.parts refl
  where
    from_parts : (ps : List Part) → d.parts ≡ ps → Last 0 es (last_offset indices)
    from_parts [] e = record {
      before = [];
      behind = es;
      split = refl;
      at_eq = ap last_offset (d.index_eq ∙ ap (marks (0 + length (block d.first))) e);
    }
    from_parts (p ∷ ps) e =
        let rest = Last-marks p ps (0 + length (block d.first)) in
        record {
          before = d.first ++ rest.before;
          behind = rest.behind;
          split =
              d.parts_eq
              ∙ (ap (λ l. d.first ++ l) (ap flatten e ∙ rest.split)
                  ∙ sym (append_assoc d.first rest.before rest.behind));
          at_eq = omega (
            arith,
            ap last_offset (d.index_eq ∙ ap (marks (0 + length (block d.first))) e),
            rest.at_eq,
            ap (λ l. length l) (block-append d.first rest.before),
            length-append_bytes (block d.first) (block rest.before),
          );
        }

check_magic-layout :
    (offset_bytes : List ℕ)
    → length offset_bytes ≡ 8
    → check_magic (offset_bytes ++ magic_bytes) ≡ ok tt
unfolding check_magic
check_magic-layout bytes h = rw (
  le→leb 4 (length (bytes ++ magic_bytes)) (omega lengths),
  slice_mid {E = SegmentOpenError} (bytes ++ magic_bytes) bytes magic_bytes []
      (length (bytes ++ magic_bytes) - 4) (length (bytes ++ magic_bytes))
      (ap (λ l. bytes ++ l) (sym (append-nil magic_bytes))) (omega lengths) (omega lengths),
  text_eq_refl magic_bytes,
)

-- The error of opening a file or of reading its metadata.
abbrev pub OpenFailed : OpenFails → IoError → Type 0
OpenFailed opens e =
    (name : Text) × ((opens.to_write name ≡ some e)
      ⊎ (opens.to_read name ≡ some e)
      ⊎ (opens.metadata name ≡ some e))

-- A segment is opened, unless the file or its metadata cannot be read.
abbrev pub OpensAs : OpenFails → Segment → Outcome SegmentOpenError Segment → Type 0
OpensAs opens s (ok opened) = opened ≡ s
OpensAs opens s (err (io_error e)) = OpenFailed opens e
OpensAs opens s (err corrupt) = ⊥
OpensAs opens s panic = ⊥

OpensAs->>= :
    (opens : OpenFails) (s : Segment) (m : Option IoError) (rest : Outcome SegmentOpenError Segment)
    → ((e : IoError) → m ≡ some e → OpenFailed opens e)
    → OpensAs opens s rest
    → OpensAs opens s (try (failed m) >> rest)
OpensAs->>= opens s none rest h k = k
OpensAs->>= opens s (some e) rest h k = h e refl

module _ (filename : Text) (level_number number : ℕ) (file : File) (es : List SsTableEntry)
    (x : SsTableEntry) (more : List SsTableEntry) (indices : List SegmentIndexEntry)
    (es_eq : es ≡ x ∷ more)
    (name_eq : level_and_segment_number_from_filename {E = SegmentOpenError} filename
      ≡ ok (level_number, number))
    (holds : Holds file (file_layout es indices)) (indexed : Indexed 0 es indices)
    (storable : All IsStorable es) (indexable : All IsIndexable indices)
    (size : length (block es) < 2 ^ 64) where
  abbrev pub opened : List SsTableEntry → Segment
  opened behind = record {
    file = file.read_at;
    filepath = filename;
    index = add_all Index.new indices;
    size = file.size;
    number = number;
    level_number = level_number;
    data_block_end = length (block es);
    first_key = x.key;
    last_key = last_key x.key behind;
    highest_sequence_no = highest_number 0 behind;
  }

  read_footer :
      file.read_last segment_footer_len ≡ ok (le_bytes 8 (length (block es)) ++ magic_bytes)
  read_footer =
      let foot = le_bytes 8 (length (block es)) ++ magic_bytes in
      holds.read_last_lem 12 (omega (lengths))
      ∙ ap ok (
          ap (drop (length (file_layout es indices) - 12))
            (sym (append_assoc (block es) (index_block indices) foot))
          ∙ drop_left (length (file_layout es indices) - 12) (block es ++ index_block indices) foot
              (omega lengths))

  read_index :
      file.read_exact (length (block es)) (file.size - segment_footer_len - length (block es))
      ≡ ok (index_block indices)
  read_index =
      holds.read_exact_lem (length (block es)) (file.size - 12 - length (block es))
        (omega (lengths, holds.size_lem))
      ∙ ap ok (
          take-drop_mid (block es) (index_block indices)
            (le_bytes 8 (length (block es)) ++ magic_bytes) (length (block es))
            (file.size - 12 - length (block es)) refl (omega (lengths, holds.size_lem)))

  read_first : read_table_entry file.read_at 0 ≡ ok x
  read_first =
      let n = len (length x.key) x.value in
      read_table_entry-layout file (file_layout es indices) holds []
        (block more ++ (index_block indices ++ (le_bytes 8 (length (block es)) ++ magic_bytes))) x 0
        (ap
            (λ l.
              block l ++ (index_block indices ++ (le_bytes 8 (length (block es)) ++ magic_bytes)))
            es_eq
          ∙ simp append_assoc)
        refl (subst (λ l. All IsStorable l) es_eq storable).0

  read_rest :
      (l : Last 0 es (last_offset indices))
      → read_table_entries file.read_at (last_offset indices) (length (block es)) ≡ ok l.behind
  read_rest l =
      read_table_entries-block file (file_layout es indices) holds (block l.before)
        (index_block indices ++ (le_bytes 8 (length (block es)) ++ magic_bytes)) l.behind
        (last_offset indices) (length (block es))
        (ap (λ m. m ++ (index_block indices ++ (le_bytes 8 (length (block es)) ++ magic_bytes)))
            whole
          ∙ simp append_assoc)
        (omega (arith, l.at_eq))
        (omega (
          arith,
          l.at_eq,
          ap (λ m. length m) whole,
          length-append_bytes (block l.before) (block l.behind),
        ))
        (All-right _ l.before l.behind (subst (λ m. All IsStorable m) l.split storable))
    where
      whole : block es ≡ block l.before ++ block l.behind
      whole = ap block l.split ∙ block-append l.before l.behind

  read_segment-opened :
      (l : Last 0 es (last_offset indices))
      → read_segment filename level_number number file ≡ ok (opened l.behind)
  unfolding read_segment
  read_segment-opened l =
      let n = length (block es) in
      let places : last_offset (add_all Index.new indices).indices ≡ last_offset indices =
        ap last_offset (add_all-indices indices Index.new) in
      rw (
        read_footer,
        check_magic-layout (le_bytes 8 n) (omega lengths),
        slice_mid {E = SegmentOpenError} (le_bytes 8 n ++ magic_bytes) [] (le_bytes 8 n) magic_bytes
            0 8 refl refl (omega lengths),
        footer_from_bytes-layout {E = SegmentOpenError} n size,
        le→leb (12 + n) file.size (omega (lengths, holds.size_lem)),
        read_index,
        from_bytes-add_all {E = SegmentOpenError} indices indexable,
        read_first,
        places,
        read_rest l,
      )

  pub from_file-opened :
      (opens : OpenFails) (l : Last 0 es (last_offset indices))
      → OpensAs opens (opened l.behind) (from_file opens filename file)
  unfolding from_file
  from_file-opened opens l =
      rw (name_eq, read_segment-opened l)
        (OpensAs->>= opens (opened l.behind) (opens.to_read filename)
          (try (failed (opens.metadata filename)) >> ok (opened l.behind))
          (λ e h. (filename, inr (inl h)))
          (OpensAs->>= opens (opened l.behind) (opens.metadata filename) (ok (opened l.behind))
            (λ e h. (filename, inr (inr h))) refl))

  abbrev pub opened_stores : (behind : List SsTableEntry) → Ascends es → Stores (opened behind) es
  opened_stores behind up = record {
    open_file = file;
    contents = file_layout es indices;
    rest = index_block indices ++ (le_bytes 8 (length (block es)) ++ magic_bytes);
    first = indexed.first;
    parts = indexed.parts;
    file_eq = refl;
    block_eq = refl;
    end_eq = refl;
    parts_eq = indexed.parts_eq;
    index_eq =
        add_all-indices indices Index.new
        ∙ (indexed.index_eq ∙ ap (λ n. marks n indexed.parts) (omega arith));
    storable = storable;
    ascends = up;
  }

  pub get-from_file :
      (opens : OpenFails)
      → Ascends es
      → (s : Segment) × OpensAs opens s (from_file opens filename file)
        × (s.number ≡ number)
        × (s.level_number ≡ level_number)
        × (s.first_key ≡ x.key)
        × ((key : Text) → Segment.get s key ≡ ok (lookup_entry key es))
  get-from_file opens up =
      let l = Last-Indexed es indices indexed in
      (
        opened l.behind,
        from_file-opened opens l,
        refl,
        refl,
        refl,
        λ key. get-lookup_entry (opened l.behind) es key (opened_stores l.behind up) holds,
      )
