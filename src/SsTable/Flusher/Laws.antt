-- ===== src/SsTable/Flusher/Laws.antt =====
-- After a flush the levels have what the table has, and below it what they had before.
use mathlib.Core.Path.{subst}
use rkvs.Base.{
  ℕ, ◌||◌, ◌+◌, ◌<◌, ◌≤◌, ◌^◌, ◌≡◌, ◌≢◌, refl, sym, ap, ◌∙◌, arith, inl, inr, List, [], ◌∷◌, ◌++◌,
  All, true, Option, none, some, length, Outcome, ok, err, panic, ◌>>=◌, IoError, Text, text_eq,
  text_eq_refl, le→not-ltb,
}
use rkvs.Base.Io.{Io, continue, modify, Ends, Ends->>=}
use rkvs.SsTable.Entry.{SsTableEntry}
use rkvs.SsTable.EntryLaws.{IsStorable, block}
use rkvs.SsTable.Filename.{determine_segment_filename, numbers-determine_segment_filename}
use rkvs.SsTable.Level
use rkvs.SsTable.Level.{
  LevelContainer, newer, get_newest, overlapping_get, add_to_level_zero, do_compact,
  highest_segment_number,
}
use rkvs.SsTable.LevelLaws.{IsFound, overlapping_get-newest}
use rkvs.SsTable.Output.{Output, WriteFails, OpenFails, contents}
use rkvs.SsTable.Segment
use rkvs.SsTable.Segment.{Segment}
use rkvs.SsTable.Segment.File.{File, Holds}
use rkvs.SsTable.Segment.Open.{SegmentOpenError, io_error, corrupt, from_file}
use rkvs.SsTable.Segment.OpenLaws.{OpensAs}
use rkvs.SsTable.Flusher.{Flusher, store, add_opened, with_file, find_and_add_segment, flush}
use rkvs.SsTable.Writer.Flush.{keys, sort, from, segment_file_from_memtable}
use rkvs.SsTable.Writer.SortLaws.{entries, entry_of, DistinctKeys}
use rkvs.SsTable.Writer.Laws.{FlushFailed, Readable, segment_file_from_memtable-get}
use rkvs.Memtable.Table.{Table, MemTableValue, lookup}

-- what a table does not have is read from the levels
abbrev pub table_or :
    Text
    → Option MemTableValue
    → Outcome IoError (Option SsTableEntry)
    → Outcome IoError (Option SsTableEntry)
table_or key none below = below
table_or key (some v) below = ok (some (from key v))

-- an entry that is not newer than a value
abbrev pub NotNewer : Option MemTableValue → Option SsTableEntry → Type 0
NotNewer none e = Unit
NotNewer (some v) none = Unit
NotNewer (some v) (some e) = e.sequence_number ≤ v.sequence_number

get_newest-append :
    (segments : List Segment) (s : Segment) (key : Text) (curr r e : Option SsTableEntry)
    → get_newest segments key curr ≡ ok r
    → Segment.get s key ≡ ok e
    → get_newest (segments ++ s ∷ []) key curr ≡ ok (newer r e)
unfolding get_newest
get_newest-append [] s key curr r e h k =
    rw k (ap (λ (o : Outcome IoError (Option SsTableEntry)). o >>= λ c. ok (newer c e)) h)
get_newest-append (x ∷ segments) s key curr r e h k =
    by_found (Segment.get x key) (λ f hf. get_newest-append segments s key (newer curr f) r e hf k)
      h
  where
    by_found :
        (found : Outcome IoError (Option SsTableEntry))
        → ((f : Option SsTableEntry)
            → get_newest segments key (newer curr f) ≡ ok r
            → get_newest (segments ++ s ∷ []) key (newer curr f) ≡ ok (newer r e))
        → (found >>= λ f. get_newest segments key (newer curr f)) ≡ ok r
        → (found >>= λ f. get_newest (segments ++ s ∷ []) key (newer curr f)) ≡ ok (newer r e)
    by_found (ok f) next h = next f h
    by_found (err f) next h = cc
    by_found panic next h = cc

newer-none : (r : Option SsTableEntry) → newer r none ≡ r
unfolding newer
newer-none none = refl
newer-none (some e) = refl

IsFound-NotNewer :
    (key : Text) (found : Segment → Option SsTableEntry) (v : Option MemTableValue)
    (r : Option SsTableEntry) (segments : List Segment)
    → IsFound key found r segments
    → All (λ s. NotNewer v (found s)) segments
    → NotNewer v r
IsFound-NotNewer key found v r [] h hs = subst (NotNewer v) (sym h) (nothing v)
  where
    nothing : (v : Option MemTableValue) → NotNewer v none
    nothing none = tt
    nothing (some v) = tt
IsFound-NotNewer key found v r (s ∷ segments) (inl h) (k, hs) = subst (NotNewer v) (sym h) k
IsFound-NotNewer key found v r (s ∷ segments) (inr h) (k, hs) =
    IsFound-NotNewer key found v r segments h hs

newer-NotNewer :
    (key : Text) (v : MemTableValue) (r : Option SsTableEntry)
    → NotNewer (some v) r
    → newer r (some (from key v)) ≡ some (from key v)
unfolding newer
newer-NotNewer key v none h = refl
newer-NotNewer key v (some e) h = rw (le→not-ltb v.sequence_number e.sequence_number h) refl

-- a segment that has what a table has, behind the others of level 0
get-add_to_level_zero :
    (c : LevelContainer) (s : Segment) (key : Text) (found : Segment → Option SsTableEntry)
    (v : Option MemTableValue)
    → All (λ s. Segment.get s key ≡ ok (found s)) c.level_zero
    → All (λ s. NotNewer v (found s)) c.level_zero
    → Segment.get s key ≡ ok (entry_of key v)
    → Level.get (add_to_level_zero s c) key ≡ table_or key v (Level.get c key)
unfolding Level.get add_to_level_zero overlapping_get
get-add_to_level_zero c s key found none h old k =
    let (r, e, _, from) = overlapping_get-newest key found c.level_zero h in
    rw (get_newest-append c.level_zero s key none r none e k, newer-none r, e) refl
get-add_to_level_zero c s key found (some v) h old k =
    let (r, e, _, from) = overlapping_get-newest key found c.level_zero h in
    rw
      (
        get_newest-append c.level_zero s key none r (entry_of key (some v)) e k,
        newer-NotNewer key v r (IsFound-NotNewer key found (some v) r c.level_zero from old),
      )
      refl

-- an action on a file, in the terms of the files
Ends-with_file :
    {A : Type 0} (P : IoError → Type 0) (Q : A → Output → Type 0) (R : A → Flusher → Type 0)
    (name : Text) (write : Io Output IoError A) (f : Flusher)
    → Ends P Q (write (record { old = f.files name; written = [] }))
    → ((a : A) (o : Output) → Q a o → R a (record f { files = store name (contents o) f.files }))
    → Ends P R (with_file name write f)
unfolding with_file
Ends-with_file {A = A} P Q R name write f h k =
    by_result (write (record { old = f.files name; written = [] })) h
  where
    by_result :
        (r : Outcome IoError A × Output)
        → Ends P Q r
        → Ends P R (let (r, o) = r in (r, record f { files = store name (contents o) f.files }))
    by_result (ok a, o) h = k a o h
    by_result (err e, o) h = h
    by_result (panic, o) h = h

module _ (opens : OpenFails) (open_file : List ℕ → File) (fails : WriteFails) (factor : ℕ)
    (t : Table) (f : Flusher) (holds : (bytes : List ℕ) → Holds (open_file bytes) bytes)
    (positive : 0 < factor) (nonempty : t ≢ []) (few : length t < 2 ^ 32)
    (distinct : DistinctKeys (keys t)) (storable : All IsStorable (entries t (sort (keys t))))
    (size : length (block (entries t (sort (keys t)))) < 2 ^ 64)
    (numbered : highest_segment_number f.container.level_zero + 1 < 2 ^ 32) where
  abbrev number : ℕ
  number = highest_segment_number f.container.level_zero + 1

  record Written (name path : Text) (f' : Flusher) : Type 0 where
    output : Output
    readable : Readable opens open_file t number path output
    files_eq : f' ≡ record f { files = store name (contents output) f.files }

  abbrev After : Text → Flusher → Type 0
  After key f' =
      Level.get f'.container key ≡ table_or key (lookup key t) (Level.get f.container key)

  added :
      (key : Text) (found : Segment → Option SsTableEntry) (name : Text)
      → determine_segment_filename {E = IoError} 0 number ≡ ok name
      → All (λ s. Segment.get s key ≡ ok (found s)) f.container.level_zero
      → All (λ s. NotNewer (lookup key t) (found s)) f.container.level_zero
      → (path : Text) (f' : Flusher) → Written name path f'
      → Ends
          (FlushFailed opens fails)
          (λ _ f'. After key f')
          (find_and_add_segment opens open_file fails factor path f')
  unfolding find_and_add_segment add_opened
  added key found name named found_eq old path f' w =
      let o = w.output in
      let same : path ≡ name = cc (w.readable.named, named) in
      let here : text_eq path name ≡ true =
        subst (λ n. text_eq path n ≡ true) same (text_eq_refl path) in
      let stored : store name (contents o) f.files path ≡ contents o = rw here refl in
      let opened : OpensAs opens w.readable.segment
          (from_file opens path (open_file (store name (contents o) f.files path))) =
        subst (λ b. OpensAs opens w.readable.segment (from_file opens path (open_file b)))
          (sym stored) w.readable.opened in
      subst
        (λ g.
          Ends (FlushFailed opens fails) (λ _ f'. After key f')
            (find_and_add_segment opens open_file fails factor path g))
        (sym w.files_eq)
        (by_opened (from_file opens path (open_file (store name (contents o) f.files path))) opened)
    where
      by_opened :
          (r : Outcome SegmentOpenError Segment)
          → OpensAs opens w.readable.segment r
          → Ends
              (FlushFailed opens fails)
              (λ _ f'. After key f')
              (continue
                (add_opened r f.container)
                (λ c. modify (λ (f : Flusher). record f {
                  container = c;
                  notified = f.notified || do_compact c;
                }))
                (record f { files = store name (contents w.output) f.files }))
      by_opened (ok s) h =
          get-add_to_level_zero f.container s key found (lookup key t) found_eq old
            (ap (λ s. Segment.get s key) h ∙ w.readable.gets key)
      by_opened (err (io_error e)) h = inr h
      by_opened (err corrupt) h = absurd h
      by_opened panic h = absurd h

  -- Where the file of the next segment is new, the segments of level 0 can be looked up, and no
  -- entry that they have for the key is newer than the table's, a flush fails only with the error
  -- of opening a file, of reading its metadata or of a write; otherwise a lookup of the key in the
  -- levels gives behind it what the table has, tombstones included, and what the levels had before
  -- for a key that the table does not have. The reads of a file that has been opened are complete
  -- and give what was written. The table's keys are distinct, there is one and there are fewer than
  -- 2 ^ 32, its entries can be stored in fewer than 2 ^ 64 bytes, the number of the segment is
  -- below 2 ^ 32 and the factor is not 0.
  pub flush-get :
      (key : Text) (found : Segment → Option SsTableEntry)
      → ((name : Text)
          → determine_segment_filename {E = IoError} 0 number ≡ ok name
          → f.files name ≡ [])
      → All (λ s. Segment.get s key ≡ ok (found s)) f.container.level_zero
      → All (λ s. NotNewer (lookup key t) (found s)) f.container.level_zero
      → Ends
          (FlushFailed opens fails)
          (λ _ f'.
            Level.get f'.container key ≡ table_or key (lookup key t) (Level.get f.container key))
          (flush opens open_file fails factor t f)
  unfolding flush
  flush-get key found new found_eq old =
      let (name, named, _) =
        numbers-determine_segment_filename {E = IoError} {F = IoError} 0 number (omega arith)
          numbered in
      rw named (
        Ends->>= (FlushFailed opens fails) (Written name) (λ _ f'. After key f')
          (with_file name (segment_file_from_memtable opens fails factor t number))
          (λ path. find_and_add_segment opens open_file fails factor path) f
          (Ends-with_file (FlushFailed opens fails) (Readable opens open_file t number)
            (Written name) name (segment_file_from_memtable opens fails factor t number) f
            (subst
              (λ (b : List ℕ). Ends (FlushFailed opens fails) (Readable opens open_file t number) (
                segment_file_from_memtable opens fails factor t number
                  (record { old = b; written = [] })))
              (sym (new name named))
              (segment_file_from_memtable-get opens open_file fails factor t number holds positive
                nonempty few numbered distinct storable size))
            (λ path o r. record { output = o; readable = r; files_eq = refl }))
          (λ path f' w. added key found name named found_eq old path f' w))
