-- ===== src/SsTable/Writer/IndexLaws.antt =====
-- The sparse index that grows with the entries that are written: it divides them.
use rkvs.Base.{
  ℕ, ◌+◌, ◌≡◌, refl, sym, ap, ◌∙◌, arith, lengths, List, [], ◌∷◌, ◌++◌, append_assoc, append-nil,
  length, Bool, true, false, if◌then◌else◌,
}
use rkvs.SsTable.Entry.{SsTableEntry, len}
use rkvs.SsTable.EntryLaws.{block, length-layout}
use rkvs.SsTable.Index.{SegmentIndex, SegmentIndexEntry, add_index}
use rkvs.SsTable.Segment.Divided.{marks}
use rkvs.SsTable.Segment.OpenLaws.{Indexed}

-- what has been added to an index for entries that are written from an offset on
pub record Grown (offset : ℕ) (es : List SsTableEntry) (index index' : SegmentIndex) : Type 0 where
  pub added : List SegmentIndexEntry
  pub added_eq : index'.indices ≡ index.indices ++ added
  pub indexed : Indexed offset es added

pub Grown-nil : (offset : ℕ) (index : SegmentIndex) → Grown offset [] index index
Grown-nil offset index = record {
  added = [];
  added_eq = sym (append-nil index.indices);
  indexed = record { first = []; parts = []; parts_eq = refl; index_eq = refl };
}

pub length-block_cons :
    (e : SsTableEntry) (es : List SsTableEntry)
    → length (block (e ∷ es)) ≡ 4 + len (length e.key) e.value + length (block es)
length-block_cons e es = omega (lengths, length-layout e)

-- an entry in front of the others, with its index entry or without
pub Grown-cons :
    (indexes : Bool) (offset next : ℕ) (e : SsTableEntry) (es : List SsTableEntry)
    (index index' : SegmentIndex)
    → next ≡ offset + (4 + len (length e.key) e.value)
    → Grown next es (if indexes then add_index index e.key offset else index) index'
    → Grown offset (e ∷ es) index index'
unfolding add_index
Grown-cons true offset next e es index index' h g =
    let entry : SegmentIndexEntry = record { key = e.key; offset = offset } in
    record {
      added = entry ∷ g.added;
      added_eq = g.added_eq ∙ append_assoc index.indices (entry ∷ []) g.added;
      indexed = record {
        first = [];
        parts = record { head = e; tail = g.indexed.first } ∷ g.indexed.parts;
        parts_eq = ap (λ l. e ∷ l) g.indexed.parts_eq;
        index_eq =
            ap (λ n. record { key = e.key; offset = n } ∷ g.added) (omega arith)
            ∙ ap (λ l. record { key = e.key; offset = offset + 0 } ∷ l)
                (g.indexed.index_eq
                  ∙ ap (λ n. marks n g.indexed.parts)
                      (omega (arith, h, length-block_cons e g.indexed.first)));
      };
    }
Grown-cons false offset next e es index index' h g = record {
  added = g.added;
  added_eq = g.added_eq;
  indexed = record {
    first = e ∷ g.indexed.first;
    parts = g.indexed.parts;
    parts_eq = ap (λ l. e ∷ l) g.indexed.parts_eq;
    index_eq =
        g.indexed.index_eq
        ∙ ap (λ n. marks n g.indexed.parts) (omega (arith, h, length-block_cons e g.indexed.first));
  };
}
