-- ===== src/SsTable/Entry.antt =====
-- `SsTableEntry` of src/storage_engine/sstable.rs, and its bytes.
use rkvs.Base.{
  ℕ, zero, suc, ◌+◌, List, [], ◌∷◌, ◌++◌, Option, none, some, length, leb, ltb, ◌==◌, if◌then◌else◌,
  Outcome, ok, panic, ◌>>=◌, zeroed, slice, index, copy_to, le_bytes, from_le, from_utf8_unwrap,
  Text,
}

pub record SsTableEntry : Type 0 where
  pub key : Text
  pub value : Option Text
  pub sequence_number : ℕ

-- SsTableEntry::len
abbrev pub len : ℕ → Option Text → ℕ
len key_len none = 16 + key_len + 1
len key_len (some v) = 16 + key_len + (length v + 1)

-- the match on the value in to_bytes, with the offset behind it
unfoldable pub write_value : {E : Type 0} → ℕ → Option Text → List ℕ → Outcome E (List ℕ × ℕ)
write_value offset (some v) buf = do
  buf ← copy_to buf offset (offset + 4) (le_bytes 4 (length v))
  buf ← copy_to buf (offset + 4) (offset + 5) (0 ∷ [])
  buf ← copy_to buf (offset + 5) (offset + 5 + length v) v
  ok (buf, offset + 5 + length v)
write_value offset none buf = do
  buf ← copy_to buf offset (offset + 4) (le_bytes 4 0)
  buf ← copy_to buf (offset + 4) (offset + 5) (1 ∷ [])
  ok (buf, offset + 5)

unfoldable pub to_bytes : {E : Type 0} → SsTableEntry → Outcome E (List ℕ)
to_bytes e = do
  buf ← copy_to (zeroed (len (length e.key) e.value)) 0 4 (le_bytes 4 (length e.key))
  buf ← copy_to buf 4 (4 + length e.key) e.key
  (buf, offset) ← write_value (4 + length e.key) e.value buf
  copy_to buf offset (length buf) (le_bytes 8 e.sequence_number)

-- the value, by the tombstone byte
unfoldable pub read_value : {E : Type 0} → List ℕ → ℕ → ℕ → ℕ → Outcome E (Option Text)
read_value bytes offset value_len tombstone = if tombstone == 1 then ok none else do
  value_bytes ← slice bytes offset (offset + value_len)
  value ← from_utf8_unwrap value_bytes
  ok (some value)

unfoldable pub from_bytes : {E : Type 0} → List ℕ → Outcome E SsTableEntry
from_bytes bytes = do
  key_len_bytes ← slice bytes 0 4
  let key_len = from_le key_len_bytes
  key_bytes ← slice bytes 4 (4 + key_len)
  key ← from_utf8_unwrap key_bytes
  value_len_bytes ← slice bytes (4 + key_len) (4 + key_len + 4)
  let value_len = from_le value_len_bytes
  tombstone ← index bytes (4 + key_len + 4)
  let offset = 4 + key_len + 5
  value ← read_value bytes offset value_len tombstone
  number_bytes ← slice bytes (offset + value_len) (offset + value_len + 8)
  ok (record { key = key; value = value; sequence_number = from_le number_bytes })

-- The loop of vec_from_bytes; a round takes the 4 bytes of a length at least, and `none` means that
-- the fuel ran out.
unfoldable pub vec_loop :
    {E : Type 0} → ℕ → List ℕ → ℕ → List SsTableEntry → Outcome E (Option (List SsTableEntry))
vec_loop zero buf offset res = ok none
vec_loop (suc fuel) buf offset res = if leb (length buf) offset then ok (some res) else do
  len_bytes ← slice buf offset (offset + 4)
  let record_len = from_le len_bytes
  record_bytes ← slice buf (offset + 4) (offset + 4 + record_len)
  entry ← from_bytes record_bytes
  vec_loop fuel buf (offset + 4 + record_len) (res ++ entry ∷ [])

abbrev pub or_panic : {E : Type 0} {A : Type 0} → Option A → Outcome E A
or_panic none = panic
or_panic (some a) = ok a

unfoldable pub vec_from_bytes : {E : Type 0} → List ℕ → Outcome E (List SsTableEntry)
vec_from_bytes buf = do res ← vec_loop (length buf + 1) buf 0 []; or_panic res

-- The loop of deque_from_bytes, which leaves out an entry that is cut off.
unfoldable pub deque_loop :
    {E : Type 0} → ℕ → List ℕ → ℕ → List SsTableEntry → Outcome E (Option (List SsTableEntry))
deque_loop zero bytes offset res = ok none
deque_loop (suc fuel) bytes offset res =
    if leb (length bytes) (offset + 4) then ok (some res) else do
      len_bytes ← slice bytes offset (offset + 4)
      let entry_size = from_le len_bytes
      if ltb (length bytes) (offset + 4 + entry_size) then ok (some res) else do
        entry_bytes ← slice bytes (offset + 4) (offset + 4 + entry_size)
        entry ← from_bytes entry_bytes
        deque_loop fuel bytes (offset + 4 + entry_size) (res ++ entry ∷ [])

unfoldable pub deque_from_bytes : {E : Type 0} → List ℕ → Outcome E (List SsTableEntry)
deque_from_bytes bytes = do res ← deque_loop (length bytes + 1) bytes 0 []; or_panic res
