-- ===== src/Wal/ParseLaws.antt =====
-- The parser of a segment ends on every input, and reads back the entries that stand there.
use rkvs.Base.{
  ℕ, suc, ◌+◌, ◌-◌, ◌<◌, ◌≤◌, ◌^◌, ◌≡◌, refl, ap, ◌∙◌, arith, List, [], ◌∷◌, ◌++◌, append-nil,
  append_assoc, none, some, length, ok, le_bytes, from_le-le_bytes, lengths, slice_mid, All, Text,
  le→not-ltb, lt→ltb, ltb, ◌||◌, ==_iff, ◌==◌, false, length-append_bytes, length-le_bytes,
}
use native.Mathlib.Nat.{zero-add, add-zero}
use rkvs.Wal.Entry.{WalEntry, header_size, buffer_len}
use rkvs.Wal.EntryLaws.{
  op_byte, value_layout, IsLoggable, body, layout, length-body, from_bytes-body,
  buffer_len-value_layout,
}
use rkvs.Wal.Parse.{parse_loop, parse_validate_wal_entries}

module _ (checksum : List ℕ → ℕ) where
  abbrev pub log_of : List WalEntry → List ℕ
  log_of [] = []
  log_of (e ∷ es) = layout checksum e ++ log_of es

  pub length-layout :
      (e : WalEntry) → length (layout checksum e) ≡ buffer_len (length e.key) e.value
  length-layout e = omega (lengths, length-body e)

pub length-log_of :
    (checksum : List ℕ → ℕ) (es : List WalEntry) → length es ≤ length (log_of checksum es)
length-log_of checksum [] = omega arith
length-log_of checksum (e ∷ es) = omega (
  arith,
  length-append_bytes (layout checksum e) (log_of checksum es),
  length-layout checksum e,
  buffer_len-value_layout (length e.key) e.value,
  length-log_of checksum es,
)

-- The 13 bytes of an entry that stay together, without the length in front, and the others.
abbrev pub header_rest : (List ℕ → ℕ) → WalEntry → List ℕ
header_rest checksum e =
    le_bytes 4 (checksum (body e)) ++ (op_byte e.operation_type ∷ le_bytes 4 (length e.key))

abbrev pub header : (List ℕ → ℕ) → WalEntry → List ℕ
header checksum e = le_bytes 4 (buffer_len (length e.key) e.value - 4) ++ header_rest checksum e

abbrev pub rest_of : WalEntry → List ℕ
rest_of e = e.key ++ (value_layout e.value ++ le_bytes 8 e.sequence_number)

pub header-rest_of :
    (checksum : List ℕ → ℕ) (e : WalEntry) → header checksum e ++ rest_of e ≡ layout checksum e
header-rest_of checksum e = simp append_assoc

suc_left : (m n : ℕ) → suc m + n ≡ suc (m + n)
suc_left m n = omega arith

module _ (checksum : List ℕ → ℕ) (fits : (bs : List ℕ) → checksum bs < 2 ^ 32) (path : Text) where
  -- One round of the loop, on an entry that the log can hold.
  parse_loop-layout :
      (pre suf bytes : List ℕ) (e : WalEntry) (fuel offset record_offset : ℕ)
      (entries : List WalEntry)
      → bytes ≡ pre ++ (layout checksum e ++ suf)
      → offset ≡ length pre
      → IsLoggable e
      → parse_loop checksum path bytes (suc fuel) offset record_offset entries
        ≡ parse_loop checksum path bytes fuel
            (offset + length (layout checksum e))
            offset
            (entries ++ e ∷ [])
  unfolding parse_loop
  parse_loop-layout pre suf bytes e fuel o ro entries h ho l = rw (
    le→not-ltb (length bytes) (13 + o) (omega (arith, total, n_ge)),
    slice_mid bytes pre len (sum ++ (body e ++ suf)) o (o + 4) (h ∙ simp append_assoc) ho
        (omega lengths),
    from_le-le_bytes 4 (n - 4) (omega (arith, l.size)),
    le→not-ltb (n - 4) 9 (omega (arith, n_ge)),
    le→not-ltb (length bytes) (o + 4 + (n - 4)) (omega (arith, total, n_ge)),
    slice_mid bytes (pre ++ len) sum (body e ++ suf) (o + 4) (o + 8) (h ∙ simp append_assoc)
        (omega lengths) (omega lengths),
    slice_mid bytes (pre ++ (len ++ sum)) (body e) suf (o + 8) (o + 8 + (n - 4) - 4)
        (h ∙ simp append_assoc) (omega lengths) (omega (arith, length-body e, n_ge)),
    from_le-le_bytes 4 (checksum (body e)) (fits (body e)),
    (==_iff (checksum (body e)) (checksum (body e))).1 refl,
    from_bytes-body e l,
    step,
  )
    where
      n : ℕ
      n = buffer_len (length e.key) e.value

      len : List ℕ
      len = le_bytes 4 (n - 4)

      sum : List ℕ
      sum = le_bytes 4 (checksum (body e))

      n_ge : 21 ≤ n
      n_ge = omega (arith, buffer_len-value_layout (length e.key) e.value)

      total : length bytes ≡ o + n + length suf
      total = omega (
        arith,
        ap (λ l. length l) h,
        length-append_bytes pre (layout checksum e ++ suf),
        length-append_bytes (layout checksum e) suf,
        length-layout checksum e,
      )

      step : o + 8 + (n - 4 - 4) ≡ o + length (layout checksum e)
      step = omega (arith, length-layout checksum e, n_ge)

  -- The rounds over the entries in front of whatever follows them.
  parse_loop-log_of :
      (es : List WalEntry) (pre suf bytes : List ℕ) (fuel offset record_offset : ℕ)
      (entries : List WalEntry)
      → bytes ≡ pre ++ (log_of checksum es ++ suf)
      → offset ≡ length pre
      → All IsLoggable es
      → (record_offset' : ℕ) × (parse_loop checksum path bytes
            (length es + fuel)
            offset
            record_offset
            entries
          ≡ parse_loop checksum path bytes fuel
              (offset + length (log_of checksum es))
              record_offset'
              (entries ++ es))
  parse_loop-log_of [] pre suf bytes fuel o ro entries h ho ls =
      (ro, rw (append-nil, zero-add, add-zero))
  parse_loop-log_of (e ∷ es) pre suf bytes fuel o ro entries h ho (l, ls) =
      let (ro', rest) =
        parse_loop-log_of es (pre ++ layout checksum e) suf bytes fuel
          (o + length (layout checksum e)) o (entries ++ e ∷ []) (h ∙ simp append_assoc)
          (omega (arith, ho, length-append_bytes pre (layout checksum e))) ls in
      (
        ro',
        rw (
          suc_left (length es) fuel,
          parse_loop-layout pre (log_of checksum es ++ suf) bytes e (length es + fuel) o ro entries
              (h ∙ simp append_assoc) ho l,
          rest,
          offset_eq,
          append_assoc entries (e ∷ []) es,
        ),
      )
    where
      offset_eq :
          o + length (layout checksum e) + length (log_of checksum es)
          ≡ o + length (log_of checksum (e ∷ es))
      offset_eq = omega (arith, length-append_bytes (layout checksum e) (log_of checksum es))

  -- Behind the last entry: nothing, or padding that is too short for a header.
  finish_end :
      (bytes : List ℕ) (fuel offset record_offset : ℕ) (entries : List WalEntry)
      → length bytes < header_size + offset
      → parse_loop checksum path bytes (suc fuel) offset record_offset entries
        ≡ some (entries, ok none)
  unfolding parse_loop
  finish_end bytes fuel o ro entries h = ground arith

  -- Or a header that announces more bytes than the segment has.
  finish_partial :
      (bytes pre front back : List ℕ) (n fuel offset record_offset : ℕ) (entries : List WalEntry)
      → bytes ≡ pre ++ ((le_bytes 4 n ++ front) ++ back)
      → offset ≡ length pre
      → n < 2 ^ 32
      → length front ≡ 9
      → 9 + length back < n
      → parse_loop checksum path bytes (suc fuel) offset record_offset entries
        ≡ some (
          entries,
          ok (
              some (record {
                segment_file_path = path;
                offset = offset;
                bytes = le_bytes 4 n ++ front;
              })),
        )
  unfolding parse_loop
  finish_partial bytes pre front back n fuel o ro entries h ho hn hf hb = rw (
    le→not-ltb (length bytes) (13 + o) (omega (arith, total)),
    slice_mid bytes pre (le_bytes 4 n) (front ++ back) o (o + 4) (h ∙ simp append_assoc) ho
        (omega lengths),
    from_le-le_bytes 4 n hn,
    le→not-ltb n 9 (omega arith),
    lt→ltb (length bytes) (o + 4 + n) (omega (arith, total)),
    not_end,
    slice_mid bytes pre (le_bytes 4 n ++ front) back o (o + 13) h ho (omega lengths),
  )
    where
      total : length bytes ≡ o + 13 + length back
      total = omega (
        arith,
        ap (λ l. length l) h,
        length-append_bytes pre ((le_bytes 4 n ++ front) ++ back),
        length-append_bytes (le_bytes 4 n ++ front) back,
        length-append_bytes (le_bytes 4 n) front,
        length-le_bytes 4 n,
      )

      not_end : ((o == length bytes) || ltb (length bytes) (o + 13)) ≡ false
      not_end = ground (arith, total)

  -- A segment of whole entries, with less than a header of padding behind them, is read back whole.
  pub parse-log_of :
      (es : List WalEntry) (padding : List ℕ)
      → All IsLoggable es
      → length padding < header_size
      → parse_validate_wal_entries checksum path (log_of checksum es ++ padding)
        ≡ some (es, ok none)
  unfolding parse_validate_wal_entries
  parse-log_of es padding ls hp =
      let bytes = log_of checksum es ++ padding in
      let (ro, rounds) =
        parse_loop-log_of es [] padding bytes (suc (length bytes - length es)) 0 0 [] refl refl
          ls in
      rw (
        fuel_eq,
        rounds,
        finish_end bytes (length bytes - length es) (0 + length (log_of checksum es)) ro es
            (omega lengths),
      )
    where
      fuel_eq :
          length (log_of checksum es ++ padding) + 1
          ≡ length es + suc (length (log_of checksum es ++ padding) - length es)
      fuel_eq = omega (lengths, length-log_of checksum es)

  -- Where the header of one more entry ends the segment, and zeros fill it up, the parser returns
  -- the whole entries, and the header with its offset.
  pub parse-split :
      (es : List WalEntry) (e : WalEntry) (zeros : List ℕ)
      → All IsLoggable es
      → IsLoggable e
      → length zeros < length (rest_of e)
      → parse_validate_wal_entries checksum path
          (log_of checksum es ++ (header checksum e ++ zeros))
        ≡ some (
          es,
          ok (
              some (record {
                segment_file_path = path;
                offset = length (log_of checksum es);
                bytes = header checksum e;
              })),
        )
  unfolding parse_validate_wal_entries
  parse-split es e zeros ls l hz =
      let tail = header checksum e ++ zeros in
      let bytes = log_of checksum es ++ tail in
      let (ro, rounds) =
        parse_loop-log_of es [] tail bytes (suc (length bytes - length es)) 0 0 [] refl refl ls in
      rw (
        fuel_eq,
        rounds,
        zero-add,
        finish_partial bytes (log_of checksum es) (header_rest checksum e) zeros
            (buffer_len (length e.key) e.value - 4) (length bytes - length es)
            (length (log_of checksum es)) ro es refl refl (omega (arith, l.size)) (omega lengths)
            (omega (lengths, sizes)),
      )
    where
      fuel_eq :
          length (log_of checksum es ++ (header checksum e ++ zeros)) + 1
          ≡ length es
            + suc (length (log_of checksum es ++ (header checksum e ++ zeros)) - length es)
      fuel_eq = omega (
        arith,
        length-append_bytes (log_of checksum es) (header checksum e ++ zeros),
        length-log_of checksum es,
      )

      sizes : length (rest_of e) + 13 ≡ buffer_len (length e.key) e.value
      sizes = omega (lengths, buffer_len-value_layout (length e.key) e.value)
