-- ===== src/Wal/EntryLaws.antt =====
-- `WalEntry::to_bytes` and `WalEntry::from_bytes` are inverse to one another.
use rkvs.Base.{
  ℕ, suc, ◌+◌, ◌-◌, ◌<◌, ◌^◌, ◌≡◌, refl, sym, ap, ◌∙◌, arith, List, [], ◌∷◌, ◌++◌, append-nil,
  append_assoc, false, Option, none, some, length, ok, le_bytes, from_le-le_bytes, copy_next,
  copy_mid, zeroed, lengths, length-le_bytes, length-append_bytes, ◌==◌, if◌then◌else◌, slice_mid,
  index_mid, IsUtf8, from_utf8-IsUtf8, Text, le→not-ltb, lt→ltb, replicate-append,
}
use native.Mathlib.Nat.{zero-add, add-zero}
use rkvs.Wal.Entry.{
  WalEntry, OpType, buffer_len, write_op, write_value, to_bytes, read_value, read_sequence_number,
  from_bytes, is_empty,
}

abbrev pub op_byte : OpType → ℕ
op_byte OpType.put = 1
op_byte OpType.delete = 2

-- A put has a value, a delete has none.
abbrev pub OpFits : OpType → Option Text → Type 0
OpFits OpType.put none = ⊥
OpFits OpType.put (some v) = Unit
OpFits OpType.delete none = Unit
OpFits OpType.delete (some v) = ⊥

abbrev pub ValueIsUtf8 : Option Text → Type 0
ValueIsUtf8 none = Unit
ValueIsUtf8 (some v) = IsUtf8 v

-- An entry that the log can hold.
pub record IsLoggable (e : WalEntry) : Type 0 where
  pub key : IsUtf8 e.key
  pub key_ne : 0 < length e.key
  pub op : OpFits e.operation_type e.value
  pub value : ValueIsUtf8 e.value
  pub sequence_number : e.sequence_number < 2 ^ 64
  pub size : buffer_len (length e.key) e.value < 2 ^ 32

abbrev pub value_layout : Option Text → List ℕ
value_layout none = []
value_layout (some v) = le_bytes 4 (length v) ++ v

-- The part that the checksum covers.
abbrev pub body : WalEntry → List ℕ
body e =
    op_byte e.operation_type
    ∷ (le_bytes 4 (length e.key)
        ++ (e.key ++ (value_layout e.value ++ le_bytes 8 e.sequence_number)))

pub buffer_len-value_layout :
    (key_len : ℕ) (value : Option Text)
    → buffer_len key_len value ≡ 21 + key_len + length (value_layout value)
buffer_len-value_layout key_len none = omega arith
buffer_len-value_layout key_len (some v) = omega lengths

pub length-body : (e : WalEntry) → length (body e) + 8 ≡ buffer_len (length e.key) e.value
length-body e = omega (lengths, buffer_len-value_layout (length e.key) e.value)

zeroed_split : (n : ℕ) → zeroed (9 + n) ≡ zeroed 8 ++ zeroed (suc n)
zeroed_split n = sym (replicate-append 8 (suc n) 0 ∙ ap zeroed (omega arith))

write_op-op_byte :
    {E : Type 0} (t : OpType) (value : Option Text) (n : ℕ)
    → OpFits t value
    → write_op {E = E} t value (zeroed (9 + n)) ≡ ok ((zeroed 8 ++ op_byte t ∷ []) ++ zeroed n)
unfolding write_op
write_op-op_byte OpType.put none n h = absurd h
write_op-op_byte OpType.put (some v) n h =
    rw (copy_next (zeroed 8) (1 ∷ []) n 8 9 (suc n) (zeroed_split n) (omega arith) refl refl)
write_op-op_byte OpType.delete none n h =
    rw (copy_next (zeroed 8) (2 ∷ []) n 8 9 (suc n) (zeroed_split n) (omega arith) refl refl)
write_op-op_byte OpType.delete (some v) n h = absurd h

write_value-value_layout :
    {E : Type 0} (pre : List ℕ) (value : Option Text) (m n offset : ℕ)
    → n ≡ length (value_layout value) + m
    → offset ≡ length pre
    → write_value {E = E} offset value (pre ++ zeroed n)
      ≡ ok ((pre ++ value_layout value) ++ zeroed m)
unfolding write_value
write_value-value_layout pre none m n o e h = rw (append-nil, e, zero-add)
write_value-value_layout pre (some v) m n o e h =
    rw
      (
        copy_next pre (le_bytes 4 (length v)) (length v + m) o (o + 4) n refl (omega lengths) h
            (omega lengths),
        copy_next (pre ++ le_bytes 4 (length v)) v m (o + 4) (o + 4 + length v) (length v + m) refl
            refl (omega lengths) refl,
      )
      (ap ok (simp append_assoc))

not-is_empty : (key : List ℕ) → 0 < length key → is_empty key ≡ false
not-is_empty [] h = absurd (omega arith)
not-is_empty (x ∷ key) h = refl

read_value-value_layout :
    (pre : List ℕ) (value : Option Text) (post buf : List ℕ) (offset : ℕ)
    → buf ≡ pre ++ (value_layout value ++ post)
    → offset ≡ length pre
    → length post ≡ 8
    → ValueIsUtf8 value
    → length (value_layout value) < 2 ^ 32
    → read_value buf offset ≡ ok (value, offset + length (value_layout value))
unfolding read_value
read_value-value_layout pre none post buf o e ho hp hv hs =
    rw (le→not-ltb (o + 8) (length buf) (omega (lengths, ap (λ l. length l) e)), add-zero)
read_value-value_layout pre (some v) post buf o e ho hp hv hs = rw (
  lt→ltb (o + 8) (length buf) (omega (lengths, ap (λ l. length l) e)),
  slice_mid buf pre (le_bytes 4 (length v)) (v ++ post) o (o + 4) (e ∙ simp append_assoc) ho
      (omega lengths),
  from_le-le_bytes 4 (length v) (omega lengths),
  le→not-ltb (length buf) (o + 4 + length v) (omega (lengths, ap (λ l. length l) e)),
  slice_mid buf (pre ++ le_bytes 4 (length v)) v post (o + 4) (o + 4 + length v)
      (e ∙ simp append_assoc) (omega lengths) refl,
  from_utf8-IsUtf8 v tt hv,
  end,
)
  where
    end : o + 4 + length v ≡ o + length (value_layout (some v))
    end = omega lengths

module _ (checksum : List ℕ → ℕ) where
  -- An entry in the log: its length without these four bytes, the checksum, and the body.
  abbrev pub layout : WalEntry → List ℕ
  layout e =
      le_bytes 4 (buffer_len (length e.key) e.value - 4)
      ++ (le_bytes 4 (checksum (body e)) ++ body e)

  -- An entry with a key, and a value as its operation wants it, is written as its length without
  -- the four bytes of the length, the checksum of its body, and the body.
  pub to_bytes-layout :
      {E : Type 0} (e : WalEntry)
      → 0 < length e.key
      → OpFits e.operation_type e.value
      → to_bytes checksum {E = E} e ≡ ok (layout e)
  unfolding to_bytes
  to_bytes-layout {E = E} e hk ho =
      let n = buffer_len (length e.key) e.value in
      let m = length (value_layout e.value) in
      let k = length e.key in
      let op = zeroed 8 ++ op_byte e.operation_type ∷ [] in
      let kl = le_bytes 4 k in
      let vl = value_layout e.value in
      let sq = le_bytes 8 e.sequence_number in
      rw (
        not-is_empty e.key hk,
        size,
        write_op-op_byte {E = E} e.operation_type e.value (12 + k + m) ho,
        copy_next op kl (8 + k + m) 9 13 (12 + k + m) refl (omega lengths) refl (omega lengths),
        copy_next (op ++ kl) e.key (8 + m) 13 (13 + k) (8 + k + m) refl (omega arith)
            (omega lengths) refl,
        write_value-value_layout {E = E} ((op ++ kl) ++ e.key) e.value 8 (8 + m) (13 + k)
            (omega arith) key_end,
        copy_next (((op ++ kl) ++ e.key) ++ vl) sq 0 (9 + (12 + k + m) - 8) (9 + (12 + k + m)) 8
            refl (omega lengths) value_end (omega lengths),
        whole,
        slice_mid (zeroed 8 ++ body e) (zeroed 8) (body e) [] 8 (9 + (12 + k + m)) (rw append-nil)
            refl (omega lengths),
        copy_mid [] (zeroed 4) (zeroed 4 ++ body e) (le_bytes 4 (9 + (12 + k + m) - 4)) 0 4 refl
            refl (omega lengths) (omega lengths),
        copy_mid (le_bytes 4 (9 + (12 + k + m) - 4)) (zeroed 4) (body e)
            (le_bytes 4 (checksum (body e))) 4 8 refl (omega lengths) (omega lengths)
            (omega lengths),
      )
    where
      keyed : List ℕ
      keyed = ((zeroed 8 ++ op_byte e.operation_type ∷ []) ++ le_bytes 4 (length e.key)) ++ e.key

      key_end : 13 + length e.key ≡ length keyed
      key_end = omega (
        arith,
        length-append_bytes
            ((zeroed 8 ++ op_byte e.operation_type ∷ []) ++ le_bytes 4 (length e.key)) e.key,
        length-le_bytes 4 (length e.key),
      )

      value_end :
          9 + (12 + length e.key + length (value_layout e.value)) - 8
          ≡ length (keyed ++ value_layout e.value)
      value_end = omega (arith, key_end, length-append_bytes keyed (value_layout e.value))

      size :
          buffer_len (length e.key) e.value
          ≡ 9 + (12 + length e.key + length (value_layout e.value))
      size = omega (arith, buffer_len-value_layout (length e.key) e.value)

      whole :
          ((((((zeroed 8 ++ op_byte e.operation_type ∷ []) ++ le_bytes 4 (length e.key)) ++ e.key)
                ++ value_layout e.value)
              ++ le_bytes 8 e.sequence_number)
            ++ zeroed 0)
          ≡ zeroed 8 ++ body e
      whole = simp (append_assoc, append-nil)

read_op-op_byte : (t : OpType) → (if op_byte t == 1 then OpType.put else OpType.delete) ≡ t
read_op-op_byte OpType.put = refl
read_op-op_byte OpType.delete = refl

read_sequence_number-le_bytes :
    {E : Type 0} (buf pre : List ℕ) (n offset : ℕ)
    → buf ≡ pre ++ le_bytes 8 n
    → offset ≡ length pre
    → n < 2 ^ 64
    → read_sequence_number {E = E} buf offset ≡ ok n
unfolding read_sequence_number
read_sequence_number-le_bytes buf pre n o e h hn = rw (
  slice_mid buf pre (le_bytes 8 n) [] o (length buf) (rw append-nil e) h
      (omega (lengths, ap (λ l. length l) e)),
  length-le_bytes 8 n,
  from_le-le_bytes 8 n hn,
)

-- `from_bytes` reads back the body of every entry that the log can hold.
pub from_bytes-body : (e : WalEntry) → IsLoggable e → from_bytes (body e) ≡ ok e
unfolding from_bytes
from_bytes-body e h =
    let k = length e.key in
    let kl = le_bytes 4 k in
    let vl = value_layout e.value in
    let sq = le_bytes 8 e.sequence_number in
    let op = op_byte e.operation_type ∷ [] in
    let m = length vl in
    rw (
      le→not-ltb (length (body e)) 5 (omega lengths),
      index_mid (body e) [] (op_byte e.operation_type) (kl ++ (e.key ++ (vl ++ sq))) 0 refl refl,
      slice_mid (body e) op kl (e.key ++ (vl ++ sq)) 1 5 refl refl (omega lengths),
      from_le-le_bytes 4 k (omega (lengths, size)),
      le→not-ltb (length (body e)) (5 + k) (omega lengths),
      slice_mid (body e) (op ++ kl) e.key (vl ++ sq) 5 (5 + k) refl (omega lengths) refl,
      from_utf8-IsUtf8 e.key tt h.key,
      read_value-value_layout (op ++ (kl ++ e.key)) e.value sq (body e) (5 + k) (simp append_assoc)
          (omega lengths) (omega lengths) h.value (omega (lengths, size)),
      le→not-ltb (length (body e)) (5 + k + m + 8) (omega lengths),
      read_sequence_number-le_bytes {E = Unit {0}} (body e) (op ++ (kl ++ (e.key ++ vl)))
          e.sequence_number (5 + k + m) (simp append_assoc) (omega lengths) h.sequence_number,
      read_op-op_byte e.operation_type,
    )
  where
    size : 21 + length e.key + length (value_layout e.value) < 2 ^ 32
    size = omega (arith, buffer_len-value_layout (length e.key) e.value, h.size)
