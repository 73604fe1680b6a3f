-- ===== src/Wal/ParseTotal.antt =====
-- The loop of `parse_validate_wal_entries` ends on every input.
use rkvs.Base.{ℕ, zero, suc, ◌+◌, ◌<◌, ◌≢◌, arith, List, [], none, length, Text}
use rkvs.Wal.Entry.{WalEntry}
use rkvs.Wal.Parse.{parse_loop, parse_validate_wal_entries}

module _ (checksum : List ℕ → ℕ) (path : Text) (bytes : List ℕ) where
  parse_loop-ne-none :
      (fuel offset record_offset : ℕ) (entries : List WalEntry)
      → 0 < fuel
      → length bytes < fuel + offset
      → parse_loop checksum path bytes fuel offset record_offset entries ≢ none
  unfolding parse_loop
  parse_loop-ne-none zero o ro entries hf h = absurd (omega arith)
  parse_loop-ne-none (suc fuel) o ro entries hf h = grind (arith, parse_loop-ne-none fuel)

  -- Whatever bytes a segment holds, the parser returns: the rounds that it is given are enough.
  pub parse_validate_wal_entries-ne-none : parse_validate_wal_entries checksum path bytes ≢ none
  unfolding parse_validate_wal_entries
  parse_validate_wal_entries-ne-none =
      parse_loop-ne-none (length bytes + 1) 0 0 [] (omega arith) (omega arith)
