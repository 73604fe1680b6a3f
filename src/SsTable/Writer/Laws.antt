-- ===== src/SsTable/Writer/Laws.antt =====
-- A flush and the reads behind it: the file that `segment_file_from_memtable` writes is opened by
-- `from_file`, and its segment has what the table has.
use mathlib.Core.Path.{subst}
use rkvs.Base.{
  ℕ, ◌⊎◌, zero, suc, drop, ◌+◌, ◌<◌, ◌≤◌, ◌^◌, ◌≡◌, ◌≢◌, Bool-cases, inl, inr, text_lt, refl, sym,
  ap, ◌∙◌, arith, List, [], ◌∷◌, ◌++◌, append_assoc, append-nil, Option, none, some, length,
  length-append_bytes, All, All-right, ok, IoError, Text, le_bytes,
}
use rkvs.Base.Io.{Io, ◌>>=◌, pure, ◌>>◌, Ends, Ends->>=, Ends-errors, Ends-map}
use rkvs.SsTable.Entry.{SsTableEntry, len}
use rkvs.SsTable.EntryLaws.{IsStorable, block}
use rkvs.SsTable.Index
use rkvs.SsTable.Index.{
  entries_to_bytes, SegmentIndex, SegmentIndexEntry, footer_to_bytes, magic_bytes,
}
use rkvs.SsTable.Index.Laws.{
  IsIndexable, index_block, entries_to_bytes-index_block, footer_to_bytes-layout,
}
use rkvs.SsTable.Filename.{determine_segment_filename, numbers-determine_segment_filename}
use rkvs.SsTable.Output.{Output, WriteFails, OpenFails, failed, write_all, contents}
use rkvs.SsTable.Segment
use rkvs.SsTable.Segment.{Segment}
use rkvs.SsTable.Segment.File.{File, Holds}
use rkvs.SsTable.Segment.Divided.{Part, members, flatten, marks, block-append}
use rkvs.SsTable.Segment.Open.{SegmentOpenError, from_file}
use rkvs.SsTable.Segment.OpenLaws.{Indexed, OpenFailed, OpensAs, file_layout, get-from_file}
use rkvs.SsTable.Writer.Flush.{keys, insert_key, sort, write_keys, segment_file_from_memtable}
use rkvs.SsTable.Writer.FlushLaws.{Failed, Wrote, write_keys-Wrote, Ends-write_all}
use rkvs.SsTable.Writer.SortLaws.{
  entries, entry_at, entry_of, IsIn, keys-IsIn, All-sort, sort-AscendsKeys, Ascends-entries,
  lookup_entry-sort, DistinctKeys,
}
use rkvs.Memtable.Table.{Table, lookup}

length-insert_key : (k : Text) (ks : List Text) → length (insert_key k ks) ≡ suc (length ks)
unfolding insert_key
length-insert_key k [] = refl
length-insert_key k (x ∷ ks) = elim (Bool-cases (text_lt k x)) [
  | inl less ↦ rw less refl
  | inr not ↦ rw not (ap suc (length-insert_key k ks))
]

length-sort : (ks : List Text) → length (sort ks) ≡ length ks
unfolding sort
length-sort [] = refl
length-sort (k ∷ ks) = length-insert_key k (sort ks) ∙ ap suc (length-sort ks)

length-keys : (t : Table) → length (keys t) ≡ length t
length-keys [] = refl
length-keys ((k, v) ∷ t) = ap suc (length-keys t)

length-len : (k : ℕ) (v : Option Text) → k ≤ len k v
length-len k none = omega arith
length-len k (some v) = omega arith

marks-IsIndexable :
    (ps : List Part) (offset : ℕ)
    → All IsStorable (flatten ps)
    → offset + length (block (flatten ps)) < 2 ^ 64
    → All IsIndexable (marks offset ps)
marks-IsIndexable [] offset h size = tt
marks-IsIndexable (p ∷ ps) offset (h, hs) size = (
  record {
    key = h.key;
    size = omega (arith, h.size, length-len (length p.head.key) p.head.value);
    offset = omega arith;
  },
  marks-IsIndexable ps (offset + length (block (members p))) (All-right _ p.tail (flatten ps) hs) (
      omega (
        arith,
        size,
        ap (λ l. length l) (block-append (members p) (flatten ps)),
        length-append_bytes (block (members p)) (block (flatten ps)),
      )),
)

pub Indexed-IsIndexable :
    (es : List SsTableEntry) (indices : List SegmentIndexEntry)
    → Indexed 0 es indices
    → All IsStorable es
    → length (block es) < 2 ^ 64
    → All IsIndexable indices
Indexed-IsIndexable es indices d h size =
    subst (λ l. All IsIndexable l) (sym d.index_eq)
      (marks-IsIndexable d.parts (0 + length (block d.first))
        (All-right _ d.first (flatten d.parts) (subst (λ l. All IsStorable l) d.parts_eq h))
        (omega (
          arith,
          size,
          ap (λ l. length (block l)) d.parts_eq,
          ap (λ l. length l) (block-append d.first (flatten d.parts)),
          length-append_bytes (block d.first) (block (flatten d.parts)),
        )))

-- The error of a write, of opening a file, or of reading its metadata.
abbrev pub FlushFailed : OpenFails → WriteFails → IoError → Type 0
FlushFailed opens fails e = Failed fails e ⊎ OpenFailed opens e

-- the file is written whole, behind what the output had
pub record Flushed (es : List SsTableEntry) (filename : Text) (o : Output) (name : Text)
    (o' : Output) : Type 0 where
  pub name_eq : name ≡ filename
  pub indices : List SegmentIndexEntry
  pub indexed : Indexed 0 es indices
  pub written : o' ≡ record o { written = o.written ++ file_layout es indices }

module _ (opens : OpenFails) (fails : WriteFails) (factor : ℕ) (positive : 0 < factor) (t : Table)
    (segment_number : ℕ) (filename : Text)
    (named : determine_segment_filename {E = IoError} 0 segment_number ≡ ok filename)
    (storable : All IsStorable (entries t (sort (keys t))))
    (size : length (block (entries t (sort (keys t)))) < 2 ^ 64) (few : length t < 2 ^ 32) where
  abbrev es : List SsTableEntry
  es = entries t (sort (keys t))

  -- what comes behind the entries
  abbrev finish : SegmentIndex × ℕ → Io Output IoError Text
  finish (index, offset) = do
    index_bytes ← pure (Index.to_bytes index)
    write_all fails index_bytes
    footer_bytes ← pure (footer_to_bytes (record { index_offset = offset }))
    write_all fails footer_bytes
    write_all fails []
    pure (ok filename)

  finished :
      (o : Output) (r : SegmentIndex × ℕ) (o' : Output)
      → Wrote fails factor positive Index.new 0 es o r o'
      → Ends (Failed fails) (Flushed es filename o) (finish r o')
  finished o (index, offset) o' w =
      let fit : All IsIndexable w.grown.added =
        Indexed-IsIndexable es w.grown.added w.grown.indexed storable size in
      let bytes : List ℕ = index_block w.grown.added in
      let foot : List ℕ = le_bytes 8 offset ++ magic_bytes in
      let block_end : offset ≡ length (block es) = omega (arith, w.offset_eq) in
      rw
        (
          ap (λ l. entries_to_bytes {E = IoError} l) w.grown.added_eq
              ∙ entries_to_bytes-index_block {E = IoError} w.grown.added fit,
          footer_to_bytes-layout {E = IoError} (record { index_offset = offset }),
        )
        (Ends-write_all fails bytes (Flushed es filename o)
          (write_all fails foot >> (write_all fails [] >> pure (ok filename))) o'
          (Ends-write_all fails foot (Flushed es filename o)
            (write_all fails [] >> pure (ok filename)) (record o' { written = o'.written ++ bytes })
            (Ends-write_all fails [] (Flushed es filename o) (pure (ok filename))
              (record o' { written = (o'.written ++ bytes) ++ foot })
              (record {
                name_eq = refl;
                indices = w.grown.added;
                indexed = w.grown.indexed;
                written =
                    ap (λ (p : Output). record p { written = ((p.written ++ bytes) ++ foot) ++ [] })
                      w.written
                    ∙ ap (λ l. record o { written = l })
                        (ap
                            (λ n.
                              (((o.written ++ block es) ++ bytes) ++ (le_bytes 8 n ++ magic_bytes))
                              ++ [])
                            block_end
                          ∙ simp (append_assoc, append-nil));
              }))))

  -- what comes behind the opening
  abbrev write_file : Io Output IoError Text
  write_file = write_keys fails factor t (sort (keys t)) Index.new 0 0 >>= finish

  written_file : (o : Output) → Ends (Failed fails) (Flushed es filename o) (write_file o)
  written_file o =
      Ends->>= (Failed fails) (Wrote fails factor positive Index.new 0 es o) (Flushed es filename o)
        (write_keys fails factor t (sort (keys t)) Index.new 0 0) finish o
        (write_keys-Wrote fails factor positive t (sort (keys t)) Index.new 0 0 o
          (All-sort (IsIn t) (keys t) (keys-IsIn t))
          (omega (arith, few, length-sort (keys t), length-keys t)))
        (finished o)

  behind_open :
      (m : Option IoError) (o : Output)
      → opens.to_write filename ≡ m
      → Ends (FlushFailed opens fails) (Flushed es filename o) ((pure (failed m) >> write_file) o)
  behind_open none o h =
      Ends-errors (Failed fails) (FlushFailed opens fails) (Flushed es filename o) (write_file o)
        (λ e h. inl h) (written_file o)
  behind_open (some e) o h = inr (filename, inl h)

  pub segment_file_from_memtable-Flushed :
      (o : Output)
      → Ends
          (FlushFailed opens fails)
          (Flushed es filename o)
          (segment_file_from_memtable opens fails factor t segment_number o)
  unfolding segment_file_from_memtable
  segment_file_from_memtable-Flushed o = rw named (behind_open (opens.to_write filename) o refl)

-- a file that held nothing
contents_new : (bytes : List ℕ) → contents (record { old = []; written = bytes }) ≡ bytes
contents_new bytes = ap (λ l. bytes ++ l) (drop_nil (length bytes)) ∙ append-nil bytes
  where
    drop_nil : (n : ℕ) → drop {A = ℕ} n [] ≡ []
    drop_nil zero = refl
    drop_nil (suc n) = refl

insert_key-nonempty :
    (k : Text) (ks : List Text) → (a : Text) × (rest : List Text) × (insert_key k ks ≡ a ∷ rest)
unfolding insert_key
insert_key-nonempty k [] = (k, [], refl)
insert_key-nonempty k (x ∷ ks) = elim (Bool-cases (text_lt k x)) [
  | inl less ↦ (k, x ∷ ks, rw less refl)
  | inr not ↦ (x, insert_key k ks, rw not refl)
]

sort-nonempty : (t : Table) → t ≢ [] → (a : Text) × (rest : List Text) × (sort (keys t) ≡ a ∷ rest)
unfolding sort
sort-nonempty [] h = absurd (h refl)
sort-nonempty ((k, v) ∷ t) h = insert_key-nonempty k (sort (keys t))

entries-nonempty :
    (t : Table)
    → t ≢ []
    → (x : SsTableEntry) × (rest : List SsTableEntry) × (entries t (sort (keys t)) ≡ x ∷ rest)
entries-nonempty t h =
    let (a, rest, e) = sort-nonempty t h in (entry_at t a, entries t rest, ap (entries t) e)

-- What is read from the file that was written: unless it cannot be opened or its metadata cannot be
-- read, the segment opens, under its number, and has for every key what the table has.
pub record Readable (opens : OpenFails) (open_file : List ℕ → File) (t : Table) (segment_number : ℕ)
    (name : Text) (o : Output) : Type 0 where
  pub named : determine_segment_filename {E = IoError} 0 segment_number ≡ ok name
  pub segment : Segment
  pub opened : OpensAs opens segment (from_file opens name (open_file (contents o)))
  pub number_eq : segment.number ≡ segment_number
  pub level_eq : segment.level_number ≡ 0
  pub gets : (key : Text) → Segment.get segment key ≡ ok (entry_of key (lookup key t))

pub segment_file_from_memtable-get :
    (opens : OpenFails) (open_file : List ℕ → File) (fails : WriteFails) (factor : ℕ) (t : Table)
    (segment_number : ℕ)
    → ((bytes : List ℕ) → Holds (open_file bytes) bytes)
    → 0 < factor
    → t ≢ []
    → length t < 2 ^ 32
    → segment_number < 2 ^ 32
    → DistinctKeys (keys t)
    → All IsStorable (entries t (sort (keys t)))
    → length (block (entries t (sort (keys t)))) < 2 ^ 64
    → Ends (FlushFailed opens fails) (Readable opens open_file t segment_number) (
        segment_file_from_memtable opens fails factor t segment_number
          (record { old = []; written = [] }))
segment_file_from_memtable-get opens open_file fails factor t segment_number holds positive nonempty
      few number distinct storable size =
    let (filename, named, numbers) =
      numbers-determine_segment_filename {E = IoError} {F = SegmentOpenError} 0 segment_number
        (omega arith) number in
    Ends-map (FlushFailed opens fails)
      (Flushed (entries t (sort (keys t))) filename (record { old = []; written = [] }))
      (Readable opens open_file t segment_number) _
      (λ name o w.
        let (x, rest, es_eq) = entries-nonempty t nonempty in
        let fit =
          Indexed-IsIndexable (entries t (sort (keys t))) w.indices w.indexed storable size in
        let (s, opened, number_eq, level_eq, _, gets) =
          get-from_file filename 0 segment_number (open_file (contents o))
            (entries t (sort (keys t))) x rest w.indices es_eq numbers
            (subst (λ c. Holds (open_file (contents o)) c)
              (ap contents w.written
                ∙ contents_new (file_layout (entries t (sort (keys t))) w.indices))
              (holds (contents o)))
            w.indexed storable fit size opens
            (Ascends-entries t (sort (keys t)) (sort-AscendsKeys (keys t) distinct)) in
        record {
          named = named ∙ ap ok (sym w.name_eq);
          segment = s;
          opened =
              subst (λ n. OpensAs opens s (from_file opens n (open_file (contents o))))
                (sym w.name_eq) opened;
          number_eq = number_eq;
          level_eq = level_eq;
          gets = λ key. gets key ∙ ap ok (lookup_entry-sort t key);
        })
      (segment_file_from_memtable-Flushed opens fails factor positive t segment_number filename
        named storable size few (record { old = []; written = [] }))
