-- ===== src/SsTable/Segment/Divided.antt =====
-- A sparse index divides the entries of a block into parts, one for each of its entries.
use mathlib.Core.Path.{subst}
use rkvs.Base.{
  ℕ, zero, suc, ◌+◌, ◌<◌, ◌≡◌, refl, sym, ap, ◌∙◌, arith, List, [], ◌∷◌, ◌++◌, append_assoc, true,
  some, length, length-append_bytes, get_elem?, All, All-right, Text, text_lt,
}
use rkvs.SsTable.Entry.{SsTableEntry}
use rkvs.SsTable.EntryLaws.{block}
use rkvs.SsTable.Index.{SegmentIndexEntry}
use rkvs.SsTable.Index.Search.{IsAscending}
use rkvs.SsTable.Ordered.{Ascends, Ascends-right, AllAbove}

-- an entry that is in the index, and those behind it that are not
pub record Part : Type 0 where
  pub head : SsTableEntry
  pub tail : List SsTableEntry

abbrev pub members : Part → List SsTableEntry
members p = p.head ∷ p.tail

abbrev pub flatten : List Part → List SsTableEntry
flatten [] = []
flatten (p ∷ ps) = members p ++ flatten ps

abbrev pub mark_of : ℕ → Part → SegmentIndexEntry
mark_of offset p = record { key = p.head.key; offset = offset }

-- the index of the parts, the first of which stands at an offset
abbrev pub marks : ℕ → List Part → List SegmentIndexEntry
marks offset [] = []
marks offset (p ∷ ps) = mark_of offset p ∷ marks (offset + length (block (members p))) ps

-- the i-th index entry is that of a part, at the place of the part
pub record At (offset : ℕ) (ps : List Part) (i : ℕ) (e : SegmentIndexEntry) : Type 0 where
  pub before : List Part
  pub part : Part
  pub after : List Part
  pub parts_eq : ps ≡ before ++ part ∷ after
  pub count : length before ≡ i
  pub key_eq : part.head.key ≡ e.key
  pub offset_eq : e.offset ≡ offset + length (block (flatten before))

pub block-append : (xs ys : List SsTableEntry) → block (xs ++ ys) ≡ block xs ++ block ys
block-append [] ys = refl
block-append (x ∷ xs) ys = rw (block-append xs ys) (simp append_assoc)

pub get_elem?-marks :
    (ps : List Part) (offset i : ℕ) (e : SegmentIndexEntry)
    → get_elem? (marks offset ps) i ≡ some e
    → At offset ps i e
get_elem?-marks [] offset i e h = cc
get_elem?-marks (p ∷ ps) offset zero e h =
    let same : mark_of offset p ≡ e = cc in
    record {
      before = [];
      part = p;
      after = ps;
      parts_eq = refl;
      count = refl;
      key_eq = ap (λ (x : SegmentIndexEntry). x.key) same;
      offset_eq = omega (arith, ap (λ (x : SegmentIndexEntry). x.offset) same);
    }
get_elem?-marks (p ∷ ps) offset (suc i) e h =
    let at = get_elem?-marks ps (offset + length (block (members p))) i e h in
    record {
      before = p ∷ at.before;
      part = at.part;
      after = at.after;
      parts_eq = ap (λ l. p ∷ l) at.parts_eq;
      count = ap suc at.count;
      key_eq = at.key_eq;
      offset_eq = omega (
        arith,
        at.offset_eq,
        ap (λ l. length l) (block-append (members p) (flatten at.before)),
        length-append_bytes (block (members p)) (block (flatten at.before)),
      );
    }

-- the index keys ascend with the entries
AllMarks :
    (key : Text) (ps : List Part) (offset : ℕ)
    → AllAbove key (flatten ps)
    → All (λ (e : SegmentIndexEntry). text_lt key e.key ≡ true) (marks offset ps)
AllMarks key [] offset h = tt
AllMarks key (p ∷ ps) offset h = (
  h.0,
  AllMarks key ps (offset + length (block (members p))) (All-right _ p.tail (flatten ps) h.1),
)

-- ascending index entries, as a list
abbrev AscendsIndex : List SegmentIndexEntry → Type 0
AscendsIndex [] = Unit
AscendsIndex (e ∷ es) =
    All (λ (f : SegmentIndexEntry). text_lt e.key f.key ≡ true) es × AscendsIndex es

All-get_elem? :
    (P : SegmentIndexEntry → Type 0) (es : List SegmentIndexEntry) (i : ℕ) (e : SegmentIndexEntry)
    → All P es
    → get_elem? es i ≡ some e
    → P e
All-get_elem? P [] i e h k = cc
All-get_elem? P (x ∷ es) zero e (h, hs) k = let same : x ≡ e = cc in subst P same h
All-get_elem? P (x ∷ es) (suc i) e (h, hs) k = All-get_elem? P es i e hs k

ascending_at :
    (es : List SegmentIndexEntry)
    → AscendsIndex es
    → (i j : ℕ) (e f : SegmentIndexEntry) → i < j
    → get_elem? es i ≡ some e
    → get_elem? es j ≡ some f
    → text_lt e.key f.key ≡ true
ascending_at [] h i j e f hij he hf = cc
ascending_at (x ∷ es) h i zero e f hij he hf = absurd (omega arith)
ascending_at (x ∷ es) (above, h) zero (suc j) e f hij he hf =
    let same : x ≡ e = cc in
    subst (λ (y : SegmentIndexEntry). text_lt y.key f.key ≡ true) same
      (All-get_elem? (λ g. text_lt x.key g.key ≡ true) es j f above hf)
ascending_at (x ∷ es) (above, h) (suc i) (suc j) e f hij he hf =
    ascending_at es h i j e f (omega arith) he hf

marks-AscendsIndex :
    (ps : List Part) (offset : ℕ) → Ascends (flatten ps) → AscendsIndex (marks offset ps)
marks-AscendsIndex [] offset h = tt
marks-AscendsIndex (p ∷ ps) offset (above, h) = (
  AllMarks p.head.key ps (offset + length (block (members p)))
      (All-right _ p.tail (flatten ps) above),
  marks-AscendsIndex ps (offset + length (block (members p))) (Ascends-right p.tail (flatten ps) h),
)

-- The index of ascending entries ascends.
pub marks-IsAscending :
    (ps : List Part) (offset : ℕ) → Ascends (flatten ps) → IsAscending (marks offset ps)
marks-IsAscending ps offset h = record {
  at = ascending_at (marks offset ps) (marks-AscendsIndex ps offset h);
}

pub flatten-append : (ps qs : List Part) → flatten (ps ++ qs) ≡ flatten ps ++ flatten qs
flatten-append [] qs = refl
flatten-append (p ∷ ps) qs =
    rw (flatten-append ps qs)
      (ap (λ l. p.head ∷ l) (sym (append_assoc p.tail (flatten ps) (flatten qs))))

pub length-marks : (ps : List Part) (offset : ℕ) → length (marks offset ps) ≡ length ps
length-marks [] offset = refl
length-marks (p ∷ ps) offset = ap suc (length-marks ps (offset + length (block (members p))))

-- the index entry behind that of a part
pub marks-next :
    (before : List Part) (part q : Part) (after : List Part) (offset i : ℕ)
    → length before ≡ i
    → get_elem? (marks offset (before ++ part ∷ (q ∷ after))) (suc i)
      ≡ some
          (mark_of (offset + (length (block (flatten before)) + length (block (members part)))) q)
marks-next [] part q after offset zero h = ap (λ n. some (mark_of n q)) (omega arith)
marks-next [] part q after offset (suc i) h = absurd (omega arith)
marks-next (p ∷ before) part q after offset zero h = absurd (omega arith)
marks-next (p ∷ before) part q after offset (suc i) h =
    marks-next before part q after (offset + length (block (members p))) i (omega arith)
    ∙ ap (λ n. some (mark_of n q))
        (omega (
          arith,
          ap (λ l. length l) (block-append (members p) (flatten before)),
          length-append_bytes (block (members p)) (block (flatten before)),
        ))
