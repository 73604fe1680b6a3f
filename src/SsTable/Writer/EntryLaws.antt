-- ===== src/SsTable/Writer/EntryLaws.antt =====
-- A segment that is written entry by entry, as a merge does: `write_entry` for each entry, then
-- `write_index_and_footer`.
use mathlib.Core.Path.{subst}
use rkvs.Base.{
  ℕ, ◌+◌, ◌%◌, ◌==◌, ◌<◌, ◌^◌, ◌≡◌, refl, sym, ap, ◌∙◌, arith, List, [], ◌∷◌, ◌++◌, append_assoc,
  append-nil, Bool, true, false, if◌then◌else◌, not, length, All, Outcome, ok, err, panic, assert,
  IoError, le_bytes, lt→ltb, ltb,
}
use rkvs.Base.Io.{Io, continue, modify, ◌>>◌, pure, Ends, Ends->>=, Ends-map}
use rkvs.SsTable.Entry.{SsTableEntry}
use rkvs.SsTable.EntryLaws.{IsStorable, layout, block, to_bytes-layout, length-layout}
use rkvs.SsTable.Index
use rkvs.SsTable.Index.{SegmentIndex, SegmentIndexEntry, add_index, entries_to_bytes, magic_bytes}
use rkvs.SsTable.Index.Laws.{
  IsIndexable, index_block, entries_to_bytes-index_block, footer_to_bytes-layout,
}
use rkvs.SsTable.Output.{Output, WriteFails, write_all}
use rkvs.SsTable.Segment.OpenLaws.{Indexed, file_layout}
use rkvs.SsTable.Writer.{SegmentWriter, write_entry, write_index_and_footer, put, counted}
use rkvs.SsTable.Writer.FlushLaws.{Failed, Appended, write_all-Appended}
use rkvs.SsTable.Writer.IndexLaws.{Grown, Grown-nil, Grown-cons, length-block_cons}
use rkvs.SsTable.Writer.Laws.{Indexed-IsIndexable}

-- Of entries that are written from an offset on, behind a number of others: every entry whose
-- number, counted from 1, is a multiple of the factor, with its offset.
abbrev pub marked_entries : ℕ → ℕ → ℕ → List SsTableEntry → List SegmentIndexEntry
marked_entries factor before offset [] = []
marked_entries factor before offset (e ∷ es) =
    let rest = marked_entries factor (before + 1) (offset + length (block (e ∷ []))) es in
    if (before + 1) % factor == 0 then record { key = e.key; offset = offset } ∷ rest else rest

mark-cons :
    (b : Bool) (index : SegmentIndex) (e : SsTableEntry) (offset : ℕ)
    (rest : List SegmentIndexEntry)
    → (if b then add_index index e.key offset else index).indices ++ rest
      ≡ index.indices ++ (if b then record { key = e.key; offset = offset } ∷ rest else rest)
unfolding add_index
mark-cons true index e offset rest =
    append_assoc index.indices (record { key = e.key; offset = offset } ∷ []) rest
mark-cons false index e offset rest = refl

module _ (fails : WriteFails) where
  -- the entries, one after the other
  abbrev pub write_entries : List SsTableEntry → Io SegmentWriter IoError (Unit {0})
  write_entries [] = pure (ok tt)
  write_entries (e ∷ es) = write_entry fails e >> write_entries es

  -- the writer with more bytes written
  abbrev written_more : List ℕ → SegmentWriter → SegmentWriter
  written_more bytes w = record w {
    output = record w.output { written = w.output.written ++ bytes };
  }

  Ends-put :
      (bytes : List ℕ) (R : Unit {0} → SegmentWriter → Type 0)
      (next : Io SegmentWriter IoError (Unit {0})) (w : SegmentWriter)
      → Ends (Failed fails) R (next (written_more bytes w))
      → Ends (Failed fails) R ((put fails bytes >> next) w)
  Ends-put bytes R next w h =
      by_result (write_all fails bytes w.output) (write_all-Appended fails bytes w.output)
    where
      by_result :
          (r : Outcome IoError (Unit {0}) × Output)
          → Ends (Failed fails) (Appended bytes w.output) r
          → Ends (Failed fails) R (continue r.0 (λ _. next) (record w { output = r.1 }))
      by_result (ok done, o) e =
          subst (λ o. Ends (Failed fails) R (next (record w { output = o }))) (sym e) h
      by_result (err e, o) k = k
      by_result (panic, o) k = k

  record Extended (es : List SsTableEntry) (w w' : SegmentWriter) : Type 0 where
    pub output_eq : w'.output ≡ record w.output { written = w.output.written ++ block es }
    pub grown : Grown w.curr_size es w.index w'.index
    pub size_eq : w'.curr_size ≡ w.curr_size + length (block es)
    pub marked_eq :
        w'.index.indices
        ≡ w.index.indices ++ marked_entries w.index_sparsity_factor w.entries_written w.curr_size es
    pub count_eq : w'.entries_written ≡ w.entries_written + length es
    pub open_still : w'.finished ≡ false

  write_entry-Extended :
      (e : SsTableEntry) (w : SegmentWriter)
      → w.finished ≡ false
      → 0 < w.index_sparsity_factor
      → (R : Unit {0} → SegmentWriter → Type 0)
      → Ends (Failed fails) R (
        ok tt,
        counted fails e
            (length (layout e))
            (written_more (layout e) (written_more (le_bytes 4 (length (layout e))) w)),
      )
      → Ends (Failed fails) R (write_entry fails e w)
  unfolding write_entry
  write_entry-Extended e w going positive R h =
      let unfinished : ◌≡◌ {A = Outcome IoError (Unit {0})} (assert (not w.finished)) (ok tt) =
        ap (λ b. assert (not b)) going in
      let tail : Io SegmentWriter IoError (Unit {0}) =
        pure (assert (ltb 0 w.index_sparsity_factor))
        >> modify (counted fails e (length (layout e))) in
      rw (unfinished, to_bytes-layout {E = IoError} e)
        (Ends-put (le_bytes 4 (length (layout e))) R (put fails (layout e) >> tail) w (
          Ends-put (layout e) R tail (written_more (le_bytes 4 (length (layout e))) w)
            (rw (lt→ltb 0 w.index_sparsity_factor positive) h)))

  Extended-cons :
      (e : SsTableEntry) (es : List SsTableEntry) (w w' : SegmentWriter)
      → Extended es
          (counted fails e
            (length (layout e))
            (written_more (layout e) (written_more (le_bytes 4 (length (layout e))) w)))
          w'
      → Extended (e ∷ es) w w'
  Extended-cons e es w w' x = record {
    output_eq =
        x.output_eq
        ∙ ap (λ l. record w.output { written = l })
            (ap (λ n. ((w.output.written ++ le_bytes 4 n) ++ layout e) ++ block es)
                (length-layout e)
              ∙ simp append_assoc);
    grown =
        Grown-cons ((w.entries_written + 1) % w.index_sparsity_factor == 0) w.curr_size
          (w.curr_size + (length (layout e) + 4)) e es w.index w'.index
          (omega (arith, length-layout e)) x.grown;
    size_eq = omega (arith, x.size_eq, length-block_cons e es, length-layout e);
    marked_eq =
        x.marked_eq
        ∙ (mark-cons ((w.entries_written + 1) % w.index_sparsity_factor == 0) w.index e w.curr_size
              (marked_entries w.index_sparsity_factor (w.entries_written + 1)
                (w.curr_size + (length (layout e) + 4)) es)
            ∙ ap
                (λ n.
                  w.index.indices
                  ++ (if (w.entries_written + 1) % w.index_sparsity_factor == 0
                      then record { key = e.key; offset = w.curr_size }
                        ∷ marked_entries w.index_sparsity_factor (w.entries_written + 1) n es
                      else marked_entries w.index_sparsity_factor (w.entries_written + 1) n es))
                (omega (arith, length-layout e, length-block_cons e [])));
    count_eq = omega (arith, x.count_eq);
    open_still = x.open_still;
  }

  write_entries-Extended :
      (es : List SsTableEntry) (w : SegmentWriter)
      → w.finished ≡ false
      → 0 < w.index_sparsity_factor
      → Ends (Failed fails) (λ _ w'. Extended es w w') (write_entries es w)
  write_entries-Extended [] w going positive = record {
    output_eq = ap (λ l. record w.output { written = l }) (sym (append-nil w.output.written));
    grown = Grown-nil w.curr_size w.index;
    size_eq = omega arith;
    marked_eq = sym (append-nil w.index.indices);
    count_eq = omega arith;
    open_still = going;
  }
  write_entries-Extended (e ∷ es) w going positive =
      let w' =
        counted fails e (length (layout e))
          (written_more (layout e) (written_more (le_bytes 4 (length (layout e))) w)) in
      Ends->>= (Failed fails) (λ _ v. v ≡ w') (λ _ v. Extended (e ∷ es) w v) (write_entry fails e)
        (λ _. write_entries es) w (write_entry-Extended e w going positive (λ _ v. v ≡ w') refl)
        (λ _ v same.
          subst (λ v. Ends (Failed fails) (λ _ u. Extended (e ∷ es) w u) (write_entries es v))
            (sym same)
            (Ends-map (Failed fails) (λ _ u. Extended es w' u) (λ _ u. Extended (e ∷ es) w u)
              (write_entries es w') (λ _ u x. Extended-cons e es w u x)
              (write_entries-Extended es w' going positive)))

  -- The file is written whole, with every entry in its index whose number is a multiple of the
  -- factor, and the writer is done.
  pub record IsWhole (factor : ℕ) (es : List SsTableEntry) (w' : SegmentWriter) : Type 0 where
    pub indices : List SegmentIndexEntry
    pub indexed : Indexed 0 es indices
    pub marked : indices ≡ marked_entries factor 0 0 es
    pub count : w'.entries_written ≡ length es
    pub written : w'.output.written ≡ file_layout es indices
    pub finished : w'.finished ≡ true

  finish-IsWhole :
      (factor : ℕ) (es : List SsTableEntry) (v : SegmentWriter) (indices : List SegmentIndexEntry)
      → Indexed 0 es indices
      → indices ≡ marked_entries factor 0 0 es
      → v.entries_written ≡ length es
      → All IsStorable es
      → length (block es) < 2 ^ 64
      → v.index.indices ≡ indices
      → v.output.written ≡ block es
      → v.curr_size ≡ length (block es)
      → v.finished ≡ false
      → Ends (Failed fails) (λ _ w'. IsWhole factor es w') (write_index_and_footer fails v)
  unfolding write_index_and_footer
  finish-IsWhole factor es v indices indexed marked count storable size indices_eq written_eq
        size_eq going =
      let fit : All IsIndexable indices = Indexed-IsIndexable es indices indexed storable size in
      let bytes : List ℕ = index_block indices in
      let foot : List ℕ = le_bytes 8 v.curr_size ++ magic_bytes in
      let unfinished : ◌≡◌ {A = Outcome IoError (Unit {0})} (assert (not v.finished)) (ok tt) =
        ap (λ b. assert (not b)) going in
      let done : Io SegmentWriter IoError (Unit {0}) = modify (λ w. record w { finished = true }) in
      rw
        (
          unfinished,
          ap (λ l. entries_to_bytes {E = IoError} l) indices_eq
              ∙ entries_to_bytes-index_block {E = IoError} indices fit,
          footer_to_bytes-layout {E = IoError} (record { index_offset = v.curr_size }),
        )
        (Ends-put bytes (λ _ w'. IsWhole factor es w') (put fails foot >> (put fails [] >> done)) v
          (Ends-put foot (λ _ w'. IsWhole factor es w') (put fails [] >> done)
            (written_more bytes v)
            (Ends-put [] (λ _ w'. IsWhole factor es w') done
              (written_more foot (written_more bytes v))
              (record {
                indices = indices;
                indexed = indexed;
                marked = marked;
                count = count;
                written =
                    ap (λ l. ((l ++ bytes) ++ foot) ++ []) written_eq
                    ∙ (ap (λ n. ((block es ++ bytes) ++ (le_bytes 8 n ++ magic_bytes)) ++ [])
                          size_eq
                        ∙ simp (append_assoc, append-nil));
                finished = refl;
              }))))

  -- Entries that are written one by one, from a new file on, and then the index and the footer,
  -- fail only with the error of a write, and otherwise make a whole segment file: the block of the
  -- entries, an index that has every entry whose number, counted from 1, is a multiple of the
  -- factor, with its offset in the file, and the footer. The writer has counted the entries then,
  -- and is done. The factor is not 0, the entries can be stored, in fewer than 2 ^ 64 bytes.
  pub write_entries-IsWhole :
      (es : List SsTableEntry) (w : SegmentWriter)
      → w.output ≡ record { old = []; written = [] }
      → w.index ≡ Index.new
      → w.curr_size ≡ 0
      → w.entries_written ≡ 0
      → w.finished ≡ false
      → 0 < w.index_sparsity_factor
      → All IsStorable es
      → length (block es) < 2 ^ 64
      → Ends
          (Failed fails)
          (λ _ w'. IsWhole w.index_sparsity_factor es w')
          ((write_entries es >> write_index_and_footer fails) w)
  unfolding write_index_and_footer
  write_entries-IsWhole es w empty no_index start uncounted going positive storable size =
      Ends->>= (Failed fails) (λ _ v. Extended es w v) (λ _ v. IsWhole w.index_sparsity_factor es v)
        (write_entries es) (λ _. write_index_and_footer fails) w
        (write_entries-Extended es w going positive) (λ _ v x. finish v x)
    where
      finish :
          (v : SegmentWriter)
          → Extended es w v
          → Ends
              (Failed fails)
              (λ _ w'. IsWhole w.index_sparsity_factor es w')
              (write_index_and_footer fails v)
      finish v x =
          finish-IsWhole w.index_sparsity_factor es v x.grown.added
            (subst (λ n. Indexed n es x.grown.added) start x.grown.indexed)
            (sym (ap (λ (i : SegmentIndex). i.indices ++ x.grown.added) no_index)
              ∙ (sym x.grown.added_eq
                  ∙ (x.marked_eq
                      ∙ (ap
                            (λ (i : SegmentIndex).
                              i.indices
                              ++ marked_entries w.index_sparsity_factor w.entries_written
                                  w.curr_size es)
                            no_index
                          ∙ (ap (λ n. marked_entries w.index_sparsity_factor n w.curr_size es)
                                uncounted
                              ∙ ap (λ n. marked_entries w.index_sparsity_factor 0 n es) start)))))
            (omega (arith, x.count_eq, uncounted)) storable size
            (x.grown.added_eq ∙ ap (λ (i : SegmentIndex). i.indices ++ x.grown.added) no_index)
            (ap (λ (o : Output). o.written) x.output_eq
              ∙ ap (λ (o : Output). o.written ++ block es) empty)
            (omega (arith, x.size_eq, start)) x.open_still
