-- ===== src/SsTable/Writer/FlushLaws.antt =====
-- What `segment_file_from_memtable` writes.
use rkvs.Base.{
  ℕ, ◌+◌, ◌%◌, ◌==◌, ◌<◌, ◌^◌, ◌≡◌, refl, sym, ap, ◌∙◌, arith, List, [], ◌∷◌, ◌++◌, append_assoc,
  append-nil, Option, none, some, length, All, IoError, Text, le_bytes, lt→ltb,
}
use mathlib.Core.Path.{subst}
use rkvs.Base.Io.{◌>>◌, Ends, Ends->>=, Ends-map, Io, continue, modify}
use rkvs.SsTable.Entry.{SsTableEntry, len}
use rkvs.SsTable.EntryLaws.{layout, block, to_bytes-layout, length-layout}
use rkvs.SsTable.Index.{SegmentIndex}
use rkvs.SsTable.Output.{Output, WriteFails, write_all, failed}
use rkvs.SsTable.Writer.Flush.{from, next_index, write_keys}
use rkvs.SsTable.Writer.IndexLaws.{Grown, Grown-nil, Grown-cons, length-block_cons}
use rkvs.SsTable.Writer.SortLaws.{entries, entry_at, IsIn}
use rkvs.Memtable.Table.{Table}

-- the error of a write that fails
abbrev pub Failed : WriteFails → IoError → Type 0
Failed fails e = (written bytes : List ℕ) × (fails written bytes ≡ some e)

abbrev pub Appended : List ℕ → Output → {A : Type 0} → A → Output → Type 0
Appended bytes o a o' = o' ≡ record o { written = o.written ++ bytes }

pub write_all-Appended :
    (fails : WriteFails) (bytes : List ℕ) (o : Output)
    → Ends (Failed fails) (Appended bytes o) (write_all fails bytes o)
unfolding write_all
write_all-Appended fails bytes o = by_result (fails o.written bytes) refl
  where
    by_result :
        (r : Option IoError)
        → fails o.written bytes ≡ r
        → Ends (Failed fails) (Appended bytes o) (
            continue
              (failed r)
              (λ _. modify (λ (o : Output). record o { written = o.written ++ bytes }))
              o)
    by_result none h = refl
    by_result (some e) h = (o.written, bytes, h)

-- a write, and what comes behind it
pub Ends-write_all :
    {A : Type 0} (fails : WriteFails) (bytes : List ℕ) (R : A → Output → Type 0)
    (next : Io Output IoError A) (o : Output)
    → Ends (Failed fails) R (next (record o { written = o.written ++ bytes }))
    → Ends (Failed fails) R ((write_all fails bytes >> next) o)
Ends-write_all fails bytes R next o h =
    Ends->>= (Failed fails) (Appended bytes o) R (write_all fails bytes) (λ _. next) o
      (write_all-Appended fails bytes o)
      (λ _ o' e. subst (λ s. Ends (Failed fails) R (next s)) (sym e) h)

module _ (fails : WriteFails) (factor : ℕ) (positive : 0 < factor) where
  pub record Wrote (index : SegmentIndex) (offset : ℕ) (es : List SsTableEntry) (o : Output)
      (r : SegmentIndex × ℕ) (o' : Output) : Type 0 where
    pub written : o' ≡ record o { written = o.written ++ block es }
    pub grown : Grown offset es index r.0
    pub offset_eq : r.1 ≡ offset + length (block es)

  -- an entry that is written in front of others
  joined :
      (e : SsTableEntry) (es : List SsTableEntry) (index : SegmentIndex) (counter offset : ℕ)
      (o : Output) (r : SegmentIndex × ℕ) (o' : Output)
      → Wrote
          (next_index factor counter offset e.key index)
          (offset + 4 + len (length e.key) e.value)
          es
          (record o { written = (o.written ++ le_bytes 4 (length (layout e))) ++ layout e })
          r
          o'
      → Wrote index offset (e ∷ es) o r o'
  joined e es index counter offset o r o' w = record {
    written =
        w.written
        ∙ ap (λ l. record o { written = l })
            (ap (λ n. ((o.written ++ le_bytes 4 n) ++ layout e) ++ block es) (length-layout e)
              ∙ simp append_assoc);
    grown =
        Grown-cons (counter % factor == 0) offset (offset + 4 + len (length e.key) e.value) e es
          index r.0 (omega arith) w.grown;
    offset_eq = omega (arith, w.offset_eq, length-block_cons e es);
  }

  pub write_keys-Wrote :
      (t : Table) (ks : List Text) (index : SegmentIndex) (counter offset : ℕ) (o : Output)
      → All (IsIn t) ks
      → counter + length ks < 2 ^ 32
      → Ends
          (Failed fails)
          (Wrote index offset (entries t ks) o)
          (write_keys fails factor t ks index counter offset o)
  unfolding write_keys
  write_keys-Wrote t [] index counter offset o h few = record {
    written = ap (λ l. record o { written = l }) (sym (append-nil o.written));
    grown = Grown-nil offset index;
    offset_eq = omega arith;
  }
  write_keys-Wrote t (k ∷ ks) index counter offset o ((v, h), hs) few =
      let e : SsTableEntry = from k v in
      let index' = next_index factor counter offset k index in
      let behind = offset + 4 + len (length k) v.value in
      let same : entry_at t k ≡ e = rw h refl in
      rw
        (
          lt→ltb 0 factor positive,
          h,
          to_bytes-layout {E = IoError} e,
          lt→ltb (counter + 1) (2 ^ 32) (omega (arith, few)),
        )
        (Ends-write_all fails (le_bytes 4 (length (layout e)))
          (Wrote index offset (e ∷ entries t ks) o)
          (write_all fails (layout e) >> write_keys fails factor t ks index' (counter + 1) behind) o
          (Ends-write_all fails (layout e) (Wrote index offset (e ∷ entries t ks) o)
            (write_keys fails factor t ks index' (counter + 1) behind)
            (record o { written = o.written ++ le_bytes 4 (length (layout e)) })
            (Ends-map (Failed fails) _ (Wrote index offset (e ∷ entries t ks) o) _
              (λ r o' w. joined e (entries t ks) index counter offset o r o' w)
              (write_keys-Wrote t ks index' (counter + 1) behind _ hs (omega (arith, few))))))
