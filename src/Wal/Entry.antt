-- ===== src/Wal/Entry.antt =====
-- `WalEntry` of src/storage_engine/memtable/wal/segment.rs, and its bytes.
use rkvs.Base.{
  ℕ, ◌+◌, ◌-◌, List, [], ◌∷◌, Bool, true, false, not, Option, none, some, length, ltb, ◌==◌,
  if◌then◌else◌, Outcome, ok, err, panic, ◌>>=◌, ◌>>◌, assert, zeroed, slice, index, copy_to,
  le_bytes, from_le, from_utf8, Text,
}

-- HEADER_SIZE: length, checksum and length of the key, 4 bytes each, and the operation
abbrev pub header_size : ℕ
header_size = 13

pub data OpType : Type 0 where
  put delete : OpType

pub record WalEntry : Type 0 where
  pub operation_type : OpType
  pub key : Text
  pub value : Option Text
  pub sequence_number : ℕ

abbrev pub is_some : Option Text → Bool
is_some none = false
is_some (some v) = true

abbrev pub is_empty : List ℕ → Bool
is_empty [] = true
is_empty (x ∷ xs) = false

-- `buf_size` of WalEntry::to_bytes
abbrev pub buffer_len : ℕ → Option Text → ℕ
buffer_len key_len none = header_size + 8 + key_len
buffer_len key_len (some v) = header_size + 4 + 8 + key_len + length v

-- the match on the operation, with its assertions
unfoldable pub write_op : {E : Type 0} → OpType → Option Text → List ℕ → Outcome E (List ℕ)
write_op OpType.put value buf = do buf ← copy_to buf 8 9 (1 ∷ []); assert (is_some value); ok buf
write_op OpType.delete value buf = do
  buf ← copy_to buf 8 9 (2 ∷ [])
  assert (not (is_some value))
  ok buf

-- `if let Some(value)`
unfoldable pub write_value : {E : Type 0} → ℕ → Option Text → List ℕ → Outcome E (List ℕ)
write_value offset none buf = ok buf
write_value offset (some v) buf = do
  buf ← copy_to buf offset (offset + 4) (le_bytes 4 (length v))
  copy_to buf (offset + 4) (offset + 4 + length v) v

-- `checksum` is calculate_checksum, which hands its argument to the crate `crc`.
module _ (checksum : List ℕ → ℕ) where
  unfoldable pub to_bytes : {E : Type 0} → WalEntry → Outcome E (List ℕ)
  unfolding write_op write_value
  to_bytes e = do
    assert (not (is_empty e.key))
    let size = buffer_len (length e.key) e.value
    buf ← write_op e.operation_type e.value (zeroed size)
    buf ← copy_to buf 9 13 (le_bytes 4 (length e.key))
    buf ← copy_to buf 13 (13 + length e.key) e.key
    buf ← write_value (13 + length e.key) e.value buf
    buf ← copy_to buf (size - 8) size (le_bytes 8 e.sequence_number)
    body ← slice buf 8 size
    buf ← copy_to buf 0 4 (le_bytes 4 (size - 4))
    copy_to buf 4 8 (le_bytes 4 (checksum body))

-- the value of from_bytes and the offset behind it
unfoldable pub read_value : List ℕ → ℕ → Outcome (Unit {0}) (Option Text × ℕ)
read_value bytes offset =
    if ltb (offset + 8) (length bytes)
    then (do
      len_bytes ← slice bytes offset (offset + 4)
      let value_len = from_le len_bytes
      if ltb (length bytes) (offset + 4 + value_len) then err tt else do
        value_bytes ← slice bytes (offset + 4) (offset + 4 + value_len)
        value ← from_utf8 value_bytes tt
        ok (some value, offset + 4 + value_len))
    else ok (none, offset)

-- u64::from_le_bytes of bytes[offset..], which must be 8 bytes
unfoldable pub read_sequence_number : {E : Type 0} → List ℕ → ℕ → Outcome E ℕ
read_sequence_number bytes offset = do
  rest ← slice bytes offset (length bytes)
  if length rest == 8 then ok (from_le rest) else panic

unfoldable pub from_bytes : List ℕ → Outcome (Unit {0}) WalEntry
from_bytes bytes = if ltb (length bytes) 5 then err tt else do
  op_byte ← index bytes 0
  let op = if op_byte == 1 then OpType.put else OpType.delete
  len_bytes ← slice bytes 1 5
  let key_len = from_le len_bytes
  if ltb (length bytes) (5 + key_len) then err tt else do
    key_bytes ← slice bytes 5 (5 + key_len)
    key ← from_utf8 key_bytes tt
    (value, offset) ← read_value bytes (5 + key_len)
    if ltb (length bytes) (offset + 8) then err tt else do
      sequence_number ← read_sequence_number bytes offset
      ok (record {
        operation_type = op;
        key = key;
        value = value;
        sequence_number = sequence_number;
      })
