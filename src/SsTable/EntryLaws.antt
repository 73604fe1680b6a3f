-- ===== src/SsTable/EntryLaws.antt =====
-- The entries of a table are read back from their bytes, tombstones included.
use rkvs.Base.{
  ℕ, zero, suc, ◌+◌, ◌<◌, ◌≤◌, ◌^◌, ◌≡◌, refl, ap, ◌∙◌, arith, List, [], ◌∷◌, ◌++◌, append-nil,
  append_assoc, Option, none, some, length, ok, le_bytes, from_le-le_bytes, copy_next, zeroed, All,
  lengths, length-le_bytes, length-append_bytes, slice_mid, index_mid, IsUtf8,
  from_utf8_unwrap-IsUtf8, Text, le→leb, lt→not-leb,
}
use native.Mathlib.Nat.{add-zero}
use rkvs.SsTable.Entry.{
  SsTableEntry, len, write_value, to_bytes, read_value, from_bytes, vec_loop, vec_from_bytes,
}

abbrev pub value_of : Option Text → Text
value_of none = []
value_of (some v) = v

-- The tombstone byte.
abbrev pub mark : Option Text → ℕ
mark none = 1
mark (some v) = 0

abbrev pub ValueIsUtf8 : Option Text → Type 0
ValueIsUtf8 none = Unit
ValueIsUtf8 (some v) = IsUtf8 v

pub record IsStorable (e : SsTableEntry) : Type 0 where
  pub key : IsUtf8 e.key
  pub value : ValueIsUtf8 e.value
  pub sequence_number : e.sequence_number < 2 ^ 64
  pub size : len (length e.key) e.value < 2 ^ 32

-- Length and key, length of the value and tombstone byte, value, sequence number.
abbrev pub layout : SsTableEntry → List ℕ
layout e =
    le_bytes 4 (length e.key)
    ++ (e.key
        ++ ((le_bytes 4 (length (value_of e.value)) ++ mark e.value ∷ [])
            ++ (value_of e.value ++ le_bytes 8 e.sequence_number)))

pub len-value_of : (k : ℕ) (v : Option Text) → len k v ≡ 17 + k + length (value_of v)
len-value_of k none = omega arith
len-value_of k (some v) = omega arith

pub length-layout : (e : SsTableEntry) → length (layout e) ≡ len (length e.key) e.value
length-layout e = omega (lengths, len-value_of (length e.key) e.value)

write_value-layout :
    {E : Type 0} (pre : List ℕ) (value : Option Text) (m n offset : ℕ)
    → n ≡ 5 + length (value_of value) + m
    → offset ≡ length pre
    → write_value {E = E} offset value (pre ++ zeroed n)
      ≡ ok (
        (pre ++ ((le_bytes 4 (length (value_of value)) ++ mark value ∷ []) ++ value_of value))
            ++ zeroed m,
        offset + 5 + length (value_of value),
      )
unfolding write_value
write_value-layout pre none m n o e h =
    rw
      (
        copy_next pre (le_bytes 4 0) (1 + m) o (o + 4) n refl (omega (lengths)) h (omega lengths),
        copy_next (pre ++ le_bytes 4 0) (1 ∷ []) m (o + 4) (o + 5) (1 + m) refl (omega arith)
            (omega lengths) (omega arith),
        add-zero (o + 5),
      )
      (simp (append_assoc, append-nil))
write_value-layout pre (some v) m n o e h =
    rw
      (
        copy_next pre (le_bytes 4 (length v)) (1 + (length v + m)) o (o + 4) n refl
            (omega (lengths)) h (omega lengths),
        copy_next (pre ++ le_bytes 4 (length v)) (0 ∷ []) (length v + m) (o + 4) (o + 5)
            (1 + (length v + m)) refl (omega arith) (omega lengths) (omega arith),
        copy_next ((pre ++ le_bytes 4 (length v)) ++ 0 ∷ []) v m (o + 5) (o + 5 + length v)
            (length v + m) refl refl (omega lengths) refl,
      )
      (simp append_assoc)

-- `to_bytes` never panics, and writes the parts of an entry one behind the other.
pub to_bytes-layout : {E : Type 0} (e : SsTableEntry) → to_bytes {E = E} e ≡ ok (layout e)
unfolding to_bytes
to_bytes-layout {E = E} e =
    let k = length e.key in
    let v = length (value_of e.value) in
    let kl = le_bytes 4 k in
    let vpart = (le_bytes 4 v ++ mark e.value ∷ []) ++ value_of e.value in
    rw
      (
        copy_next [] kl (13 + k + v) 0 4 (len k e.value) refl
            (omega (lengths, len-value_of k e.value)) refl (omega lengths),
        copy_next kl e.key (13 + v) 4 (4 + k) (13 + k + v) refl (omega arith) (omega lengths) refl,
        write_value-layout {E = E} (kl ++ e.key) e.value 8 (13 + v) (4 + k) (omega arith)
            (omega lengths),
        copy_next ((kl ++ e.key) ++ vpart) (le_bytes 8 e.sequence_number) 0 (4 + k + 5 + v)
            (length (((kl ++ e.key) ++ vpart) ++ zeroed 8)) 8 refl (omega lengths) value_end
            (omega (lengths, value_end, length-append_bytes ((kl ++ e.key) ++ vpart) (zeroed 8))),
      )
      (simp (append_assoc, append-nil))
  where
    value_end :
        4 + length e.key + 5 + length (value_of e.value)
        ≡ length (
            (le_bytes 4 (length e.key) ++ e.key)
            ++ ((le_bytes 4 (length (value_of e.value)) ++ mark e.value ∷ []) ++ value_of e.value))
    value_end = omega lengths

read_value-mark :
    {E : Type 0} (bytes pre post : List ℕ) (value : Option Text) (offset : ℕ)
    → bytes ≡ pre ++ (value_of value ++ post)
    → offset ≡ length pre
    → ValueIsUtf8 value
    → read_value {E = E} bytes offset (length (value_of value)) (mark value) ≡ ok value
unfolding read_value
read_value-mark bytes pre post none o e h u = refl
read_value-mark bytes pre post (some v) o e h u =
    rw (slice_mid bytes pre v post o (o + length v) e h refl, from_utf8_unwrap-IsUtf8 v u)

pub from_bytes-layout :
    {E : Type 0} (e : SsTableEntry) → IsStorable e → from_bytes {E = E} (layout e) ≡ ok e
unfolding from_bytes
from_bytes-layout {E = E} e h =
    let k = length e.key in
    let v = length (value_of e.value) in
    let kl = le_bytes 4 k in
    let vl = le_bytes 4 v in
    let vb = value_of e.value in
    let sq = le_bytes 8 e.sequence_number in
    rw (
      slice_mid (layout e) [] kl (e.key ++ ((vl ++ mark e.value ∷ []) ++ (vb ++ sq))) 0 4 refl refl
          (omega lengths),
      from_le-le_bytes 4 k (omega (arith, size)),
      slice_mid (layout e) kl e.key ((vl ++ mark e.value ∷ []) ++ (vb ++ sq)) 4 (4 + k) refl
          (omega lengths) refl,
      from_utf8_unwrap-IsUtf8 {E = E} e.key h.key,
      slice_mid (layout e) (kl ++ e.key) vl (mark e.value ∷ (vb ++ sq)) (4 + k) (4 + k + 4)
          (simp append_assoc) (omega lengths) (omega lengths),
      from_le-le_bytes 4 v (omega (arith, size)),
      index_mid (layout e) ((kl ++ e.key) ++ vl) (mark e.value) (vb ++ sq) (4 + k + 4)
          (simp append_assoc) (omega lengths),
      read_value-mark {E = E} (layout e) ((kl ++ e.key) ++ (vl ++ mark e.value ∷ [])) sq e.value
          (4 + k + 5) (simp append_assoc) (omega lengths) h.value,
      slice_mid (layout e) ((kl ++ e.key) ++ ((vl ++ mark e.value ∷ []) ++ vb)) sq []
          (4 + k + 5 + v) (4 + k + 5 + v + 8) (simp (append_assoc, append-nil)) (omega lengths)
          (omega lengths),
      from_le-le_bytes 8 e.sequence_number h.sequence_number,
    )
  where
    size : 17 + length e.key + length (value_of e.value) < 2 ^ 32
    size = omega (arith, len-value_of (length e.key) e.value, h.size)

-- What is written for an entry, `len` bytes of it, is read back as the same entry.
pub from_bytes-to_bytes :
    {E : Type 0} (e : SsTableEntry)
    → IsStorable e
    → (bytes : List ℕ) × (to_bytes {E = E} e ≡ ok bytes)
      × (length bytes ≡ len (length e.key) e.value)
      × (from_bytes {E = E} bytes ≡ ok e)
from_bytes-to_bytes e h = (layout e, to_bytes-layout e, length-layout e, from_bytes-layout e h)

-- The data block of a segment: each entry behind its length.
abbrev pub block : List SsTableEntry → List ℕ
block [] = []
block (e ∷ es) = le_bytes 4 (len (length e.key) e.value) ++ (layout e ++ block es)

vec_loop-block :
    {E : Type 0} (es : List SsTableEntry) (pre buf : List ℕ) (fuel offset : ℕ)
    (res : List SsTableEntry)
    → buf ≡ pre ++ block es
    → offset ≡ length pre
    → length es < fuel
    → All IsStorable es
    → vec_loop {E = E} fuel buf offset res ≡ ok (some (res ++ es))
unfolding vec_loop
vec_loop-block es pre buf zero o res e ho hf hs = absurd (omega arith)
vec_loop-block [] pre buf (suc f) o res e ho hf hs =
    rw (le→leb (length buf) o (omega (lengths, ap (λ l. length l) e)), append-nil)
vec_loop-block (x ∷ es) pre buf (suc f) o res e ho hf (hx, hs) =
    let n = len (length x.key) x.value in
    rw
      (
        lt→not-leb (length buf) o (omega (arith, total)),
        slice_mid buf pre (le_bytes 4 n) (layout x ++ block es) o (o + 4) e ho (omega lengths),
        from_le-le_bytes 4 n (omega (arith, hx.size)),
        slice_mid buf (pre ++ le_bytes 4 n) (layout x) (block es) (o + 4) (o + 4 + n)
            (e ∙ simp append_assoc) (omega lengths) (omega (arith, length-layout x)),
        from_bytes-layout x hx,
      )
      (vec_loop-block es (pre ++ (le_bytes 4 n ++ layout x)) buf f (o + 4 + n) (res ++ x ∷ [])
          (e ∙ simp append_assoc)
          (omega (lengths, length-append_bytes pre (le_bytes 4 n ++ layout x), length-layout x))
          (omega arith) hs
        ∙ ap (λ l. ok (some l)) (append_assoc res (x ∷ []) es))
  where
    total : length buf ≡ o + 4 + len (length x.key) x.value + length (block es)
    total = omega (
      arith,
      ap (λ l. length l) e,
      length-append_bytes pre (block (x ∷ es)),
      length-append_bytes (le_bytes 4 (len (length x.key) x.value)) (layout x ++ block es),
      length-append_bytes (layout x) (block es),
      length-le_bytes 4 (len (length x.key) x.value),
      length-layout x,
    )

length-le-block : (es : List SsTableEntry) → length es ≤ length (block es)
length-le-block [] = omega arith
length-le-block (x ∷ es) = omega (lengths, length-le-block es)

-- The entries of a data block are read back in order, to the last.
pub vec_from_bytes-block :
    {E : Type 0} (es : List SsTableEntry)
    → All IsStorable es
    → vec_from_bytes {E = E} (block es) ≡ ok es
unfolding vec_from_bytes
vec_from_bytes-block es hs = rw (
    vec_loop-block es [] (block es) (length (block es) + 1) 0 [] refl refl
      (omega (arith, length-le-block es)) hs)
