-- ===== src/SsTable/Index/Laws.antt =====
-- The index and the footer of a segment file: what their bytes are, and that they are read back.
use rkvs.Base.{
  ℕ, zero, suc, ◌+◌, ◌/◌, ◌<◌, ◌^◌, ◌≡◌, refl, sym, ap, ◌∙◌, arith, lengths, List, [], ◌∷◌, ◌++◌,
  append_assoc, append-nil, some, length, ok, le_bytes, from_le-le_bytes, copy_next, zeroed,
  replicate-append, slice_mid, All, IsUtf8, from_utf8_unwrap-IsUtf8, le→leb, lt→not-leb,
  length-append_bytes, length-le_bytes,
}
use rkvs.SsTable.Index
use rkvs.SsTable.Index.{
  SegmentIndexEntry, SegmentIndex, SegmentFooter, add_index, entry_to_bytes, entries_to_bytes,
  from_loop, from_bytes, footer_from_bytes, footer_to_bytes, magic_bytes,
}

pub record IsIndexable (e : SegmentIndexEntry) : Type 0 where
  pub key : IsUtf8 e.key
  pub size : length e.key < 2 ^ 32
  pub offset : e.offset < 2 ^ 64

-- Length and key, offset.
abbrev pub index_layout : SegmentIndexEntry → List ℕ
index_layout e = le_bytes 8 (length e.key) ++ (e.key ++ le_bytes 8 e.offset)

abbrev pub index_block : List SegmentIndexEntry → List ℕ
index_block [] = []
index_block (e ∷ es) = index_layout e ++ index_block es

le_bytes_zero : (m : ℕ) → le_bytes m 0 ≡ zeroed m
unfolding le_bytes
le_bytes_zero zero = refl
le_bytes_zero (suc m) = ap (λ l. 0 ∷ l) (le_bytes_zero m)

-- a number that fits into fewer bytes
le_bytes_wide : (k w m n : ℕ) → k ≡ w + m → n < 256 ^ w → le_bytes k n ≡ le_bytes w n ++ zeroed m
unfolding le_bytes
le_bytes_wide k zero m zero e h = ap (λ i. le_bytes i 0) (e ∙ omega arith) ∙ le_bytes_zero m
le_bytes_wide k zero m (suc n) e h = absurd (omega arith)
le_bytes_wide zero (suc w) m n e h = absurd (omega arith)
le_bytes_wide (suc k) (suc w) m n e h =
    rw (le_bytes_wide k w m (n / 256) (omega arith) (omega arith)) refl

pub entry_to_bytes-index_layout :
    {E : Type 0} (e : SegmentIndexEntry)
    → length e.key < 2 ^ 32
    → entry_to_bytes {E = E} e ≡ ok (index_layout e)
unfolding entry_to_bytes
entry_to_bytes-index_layout {E = E} e h =
    let k = length e.key in
    rw
      (
        copy_next {E = E} [] (le_bytes 4 k) (4 + (k + 8)) 0 4 (k + 16) refl (omega lengths) refl
            (omega lengths),
        widened k h,
        copy_next {E = E} (le_bytes 8 k) e.key 8 8 (8 + k) (k + 8) refl refl (omega lengths) refl,
        copy_next {E = E} (le_bytes 8 k ++ e.key) (le_bytes 8 e.offset) 0 (8 + k)
            (length ((le_bytes 8 k ++ e.key) ++ zeroed 8)) 8 refl (omega lengths) (omega lengths)
            (omega lengths),
      )
      (simp (append_assoc, append-nil))
  where
    widened :
        (k : ℕ) → k < 2 ^ 32 → le_bytes 4 k ++ zeroed (4 + (k + 8)) ≡ le_bytes 8 k ++ zeroed (k + 8)
    widened k h =
        ap (λ l. le_bytes 4 k ++ l) (sym (replicate-append 4 (k + 8) 0))
        ∙ (sym (append_assoc (le_bytes 4 k) (zeroed 4) (zeroed (k + 8)))
            ∙ ap (λ l. l ++ zeroed (k + 8)) (sym (le_bytes_wide 8 4 4 k refl (omega (arith, h)))))

pub entries_to_bytes-index_block :
    {E : Type 0} (es : List SegmentIndexEntry)
    → All IsIndexable es
    → entries_to_bytes {E = E} es ≡ ok (index_block es)
unfolding entries_to_bytes
entries_to_bytes-index_block [] h = refl
entries_to_bytes-index_block {E = E} (e ∷ es) (h, hs) =
    rw (entry_to_bytes-index_layout {E = E} e h.size, entries_to_bytes-index_block {E = E} es hs)

abbrev pub add_all : SegmentIndex → List SegmentIndexEntry → SegmentIndex
add_all index [] = index
add_all index (e ∷ es) = add_all (add_index index e.key e.offset) es

pub add_all-indices :
    (es : List SegmentIndexEntry) (index : SegmentIndex)
    → (add_all index es).indices ≡ index.indices ++ es
unfolding add_index
add_all-indices [] index = sym (append-nil index.indices)
add_all-indices (e ∷ es) index =
    add_all-indices es (add_index index e.key e.offset) ∙ append_assoc index.indices (e ∷ []) es

from_loop-index_block :
    {E : Type 0} (es : List SegmentIndexEntry) (pre buf : List ℕ) (fuel offset : ℕ)
    (index : SegmentIndex)
    → buf ≡ pre ++ index_block es
    → offset ≡ length pre
    → length (index_block es) < fuel
    → All IsIndexable es
    → from_loop {E = E} fuel buf offset index ≡ ok (some (add_all index es))
unfolding from_loop
from_loop-index_block es pre buf zero offset index e ho hf h = absurd (omega arith)
from_loop-index_block [] pre buf (suc fuel) offset index e ho hf h =
    rw
      (le→leb (length buf) offset (omega (arith, ap (λ l. length l) e, length-append_bytes pre [])))
      refl
from_loop-index_block {E = E} (x ∷ es) pre buf (suc fuel) offset index e ho hf (h, hs) =
    let k = length x.key in
    let kl = le_bytes 8 k in
    let ol = le_bytes 8 x.offset in
    let place : buf ≡ pre ++ (kl ++ (x.key ++ (ol ++ index_block es))) = e ∙ simp append_assoc in
    let size = ap (λ l. length l) place in
    rw
      (
        lt→not-leb (length buf) offset (omega (lengths, size)),
        slice_mid {E = E} buf pre kl (x.key ++ (ol ++ index_block es)) offset (offset + 8) place ho
            (omega lengths),
        from_le-le_bytes 8 k (omega (arith, h.size)),
        slice_mid {E = E} buf (pre ++ kl) x.key (ol ++ index_block es) (offset + 8) (offset + 8 + k)
            (place ∙ simp append_assoc) (omega lengths) refl,
        from_utf8_unwrap-IsUtf8 {E = E} x.key h.key,
        slice_mid {E = E} buf ((pre ++ kl) ++ x.key) ol (index_block es) (offset + 8 + k)
            (offset + 8 + k + 8) (place ∙ simp append_assoc) (omega lengths) (omega lengths),
        from_le-le_bytes 8 x.offset (omega (arith, h.offset)),
      )
      (from_loop-index_block {E = E} es (((pre ++ kl) ++ x.key) ++ ol) buf fuel (offset + 8 + k + 8)
        (add_index index x.key x.offset) (place ∙ simp append_assoc) (omega lengths) (omega lengths)
        hs)

pub from_bytes-add_all :
    {E : Type 0} (es : List SegmentIndexEntry)
    → All IsIndexable es
    → from_bytes {E = E} (index_block es) ≡ ok (add_all Index.new es)
unfolding from_bytes
from_bytes-add_all {E = E} es h = rw (
    from_loop-index_block {E = E} es [] (index_block es) (length (index_block es) + 1) 0 Index.new
      refl refl (omega arith) h)

-- What the entries take in the size that an index keeps: each its key and twelve bytes.
abbrev pub indexed_size : List SegmentIndexEntry → ℕ
indexed_size [] = 0
indexed_size (e ∷ es) = length e.key + 12 + indexed_size es

pub footer_to_bytes-layout :
    {E : Type 0} (f : SegmentFooter)
    → footer_to_bytes {E = E} f ≡ ok (le_bytes 8 f.index_offset ++ magic_bytes)
unfolding footer_to_bytes
footer_to_bytes-layout {E = E} f =
    rw
      (
        copy_next {E = E} [] (le_bytes 8 f.index_offset) 4 0 8 12 refl (omega lengths) refl
            (omega lengths),
        copy_next {E = E} (le_bytes 8 f.index_offset) magic_bytes 0 8
            (length (le_bytes 8 f.index_offset ++ zeroed 4)) 4 refl refl (omega lengths)
            (omega lengths),
      )
      (simp append-nil)

pub footer_from_bytes-layout :
    {E : Type 0} (offset : ℕ)
    → offset < 2 ^ 64
    → footer_from_bytes {E = E} (le_bytes 8 offset) ≡ ok (record { index_offset = offset })
unfolding footer_from_bytes
footer_from_bytes-layout {E = E} offset h = rw (
  length-le_bytes 8 offset,
  slice_mid {E = E} (le_bytes 8 offset) [] (le_bytes 8 offset) [] 0 8
      (sym (append-nil (le_bytes 8 offset))) refl (omega lengths),
  from_le-le_bytes 8 offset (omega arith),
)
