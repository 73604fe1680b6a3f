-- ===== src/Wal/Parse.antt =====
-- `Segment::parse_validate_wal_entries` of src/storage_engine/memtable/wal/segment.rs.
use rkvs.Base.{
  ℕ, zero, suc, ◌+◌, ◌-◌, List, [], ◌∷◌, ◌++◌, not, ◌||◌, Option, none, some, length, ltb, ◌==◌,
  if◌then◌else◌, Outcome, ok, err, panic, map_err, slice, from_le, Text, IoError, ◌>>=◌,
}
use rkvs.Wal.Entry.{WalEntry, from_bytes, header_size}

pub data RecoveryError : Type 0 where
  io : IoError → RecoveryError
  corrupted : Text → ℕ → RecoveryError

pub record PartialWalEntry : Type 0 where
  pub segment_file_path : Text
  pub offset : ℕ
  pub bytes : List ℕ

abbrev pub ParseResult : Type 0
ParseResult = Outcome RecoveryError (Option PartialWalEntry)

-- The entries pushed so far and the result; `none` means that the fuel ran out.
abbrev pub Parsed : Type 0
Parsed = Option (List WalEntry × ParseResult)

-- A step of the loop that may leave the function by an error or a panic.
abbrev pub attempt : {A : Type 0} → List WalEntry → Outcome RecoveryError A → (A → Parsed) → Parsed
attempt entries (ok a) next = next a
attempt entries (err e) next = some (entries, err e)
attempt entries panic next = some (entries, panic)

module _ (checksum : List ℕ → ℕ) (file_path : Text) (bytes : List ℕ) where
  -- what follows the loop
  unfoldable pub finish : ℕ → ℕ → ParseResult
  finish offset record_offset =
      if (offset == length bytes) || ltb (length bytes) (offset + header_size) then ok none else do
        part ← slice bytes offset (offset + header_size)
        ok (some (record { bytes = part; offset = record_offset; segment_file_path = file_path }))

  unfoldable pub parse_loop : ℕ → ℕ → ℕ → List WalEntry → Parsed
  unfolding finish
  parse_loop zero offset record_offset entries = none
  parse_loop (suc fuel) offset record_offset entries =
      if ltb (length bytes) (header_size + offset)
      then some (entries, finish offset record_offset)
      else attempt entries (slice bytes offset (offset + 4)) λ len_bytes.
        let record_len = from_le len_bytes in
        if ltb record_len (header_size - 4)
        then some (entries, err (corrupted file_path offset))
        else if ltb (length bytes) (offset + 4 + record_len)
        then some (entries, finish offset offset)
        else attempt entries (slice bytes (offset + 4) (offset + 8)) λ sum_bytes.
          attempt entries (slice bytes (offset + 8) (offset + 8 + record_len - 4)) λ body.
            if not (from_le sum_bytes == checksum body)
            then some (entries, err (corrupted file_path offset))
            else attempt entries (map_err (λ _. corrupted file_path offset) (from_bytes body))
                λ entry.
                  parse_loop fuel (offset + 8 + (record_len - 4)) offset (entries ++ entry ∷ [])

  -- A record takes 13 bytes at least, so a round for each byte is more than enough.
  unfoldable pub parse_validate_wal_entries : Parsed
  unfolding parse_loop
  parse_validate_wal_entries = parse_loop (length bytes + 1) 0 0 []
