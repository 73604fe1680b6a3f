-- ===== src/SsTable/Segment/ReadLaws.antt =====
-- What the reads of a segment return on a file whose reads are complete.
use rkvs.Base.{
  ℕ, suc, ◌+◌, ◌-◌, ◌≤◌, ◌≡◌, refl, sym, ap, ap₂, ◌∙◌, arith, lengths, List, [], ◌∷◌, ◌++◌,
  append-nil, append_assoc, Option, some, length, take, drop, take_left, drop_left, All, le→leb,
  zeroed, length-zeroed, copy_next, le_bytes, from_le-le_bytes, Outcome, ok, ◌==◌, IoError, ◌<◌,
  false, lt→not-leb,
}
use rkvs.SsTable.Entry.{SsTableEntry, len}
use rkvs.SsTable.EntryLaws.{
  IsStorable, layout, length-layout, from_bytes-layout, block, vec_from_bytes-block,
}
use rkvs.SsTable.Segment.{fill_loop, fill, read_table_entries, read_table_entry}
use rkvs.SsTable.Segment.File.{File, Holds}

-- what stands at a place of a list
pub take-drop_mid :
    (pre xs suf : List ℕ) (a n : ℕ)
    → a ≡ length pre
    → n ≡ length xs
    → take n (drop a (pre ++ (xs ++ suf))) ≡ xs
take-drop_mid pre xs suf a n ha hn =
    ap (take n) (drop_left a pre (xs ++ suf) ha) ∙ take_left n xs suf hn

module _ (file : File) (contents : List ℕ) (holds : Holds file contents) where
  pub read_at_mid :
      (pre xs suf : List ℕ) (a n : ℕ)
      → contents ≡ pre ++ (xs ++ suf)
      → a ≡ length pre
      → n ≡ length xs
      → file.read_at a n ≡ ok xs
  read_at_mid pre xs suf a n e ha hn =
      holds.read_at_lem a n
      ∙ ap ok (ap (λ c. take n (drop a c)) e ∙ take-drop_mid pre xs suf a n ha hn)

  fill_last :
      (fuel : ℕ) (buf : List ℕ) (buf_offset bytes_read a : ℕ)
      → length buf ≤ bytes_read
      → fill_loop file.read_at (suc fuel) buf buf_offset bytes_read a ≡ ok (some (buf, a))
  unfolding fill_loop
  fill_last fuel buf o r a h = rw (le→leb (length buf) r h) refl

  fill_first :
      (pre xs suf : List ℕ) (fuel a n : ℕ)
      → contents ≡ pre ++ (xs ++ suf)
      → a ≡ length pre
      → n ≡ length xs
      → 0 < n
      → fill_loop file.read_at (suc fuel) (zeroed n) 0 0 a
        ≡ fill_loop file.read_at fuel xs (0 + (0 + length xs)) (0 + length xs) (a + (0 + length xs))
  unfolding fill_loop
  fill_first pre xs suf fuel a n e ha hn pos =
      let zero_off : n - 0 ≡ n = omega arith in
      let some_read : (length xs == 0) ≡ false = ground (arith, pos, hn) in
      rw
        (
          lt→not-leb (length (zeroed n)) 0 (omega (lengths, pos)),
          le→leb 0 (length (zeroed n)) (omega arith),
          length-zeroed n,
          zero_off,
          read_at_mid pre xs suf a n e ha hn,
          copy_next {E = IoError} [] xs 0 0 (0 + length xs) n refl (omega arith) refl refl,
          append-nil,
          some_read,
        )
        refl

  fill_rounds :
      (pre xs suf : List ℕ) (fuel a n : ℕ)
      → contents ≡ pre ++ (xs ++ suf)
      → a ≡ length pre
      → n ≡ length xs
      → fill_loop file.read_at (suc (suc fuel)) (zeroed n) 0 0 a ≡ ok (some (xs, a + n))
  fill_rounds pre [] suf fuel a n e ha hn =
      let none_left : n ≡ 0 = hn in
      let empty : ◌≡◌ {A = Outcome IoError (Option (List ℕ × ℕ))} (ok (some (zeroed n, a)))
          (ok (some ([], a + n))) =
        ap₂ (λ k m. ok (some (zeroed k, m))) none_left (omega arith) in
      fill_last (suc fuel) (zeroed n) 0 0 a (omega (lengths, hn)) ∙ empty
  fill_rounds pre (x ∷ xs) suf fuel a n e ha hn =
      let here : a + (0 + length (x ∷ xs)) ≡ a + n = omega arith in
      fill_first pre (x ∷ xs) suf (suc fuel) a n e ha hn (omega arith)
      ∙ (fill_last fuel (x ∷ xs) (0 + (0 + length (x ∷ xs))) (0 + length (x ∷ xs))
            (a + (0 + length (x ∷ xs))) (omega arith)
          ∙ ap (λ m. ok (some (x ∷ xs, m))) here)

  pub fill_mid :
      (pre xs suf : List ℕ) (a n : ℕ)
      → contents ≡ pre ++ (xs ++ suf)
      → a ≡ length pre
      → n ≡ length xs
      → fill file.read_at n a ≡ ok (xs, a + n)
  unfolding fill
  fill_mid pre xs suf a n e ha hn =
      let two : n + 2 ≡ suc (suc n) = omega arith in rw (two, fill_rounds pre xs suf n a n e ha hn)

  -- A range of the data block is read entry by entry.
  pub read_table_entries-block :
      (pre suf : List ℕ) (es : List SsTableEntry) (start end : ℕ)
      → contents ≡ pre ++ (block es ++ suf)
      → start ≡ length pre
      → end ≡ start + length (block es)
      → All IsStorable es
      → read_table_entries file.read_at start end ≡ ok es
  unfolding read_table_entries
  read_table_entries-block pre suf es start end e hs he hes = rw (
    le→leb start end (omega arith),
    fill_mid pre (block es) suf start (end - start) e hs (omega arith),
    vec_from_bytes-block {E = IoError} es hes,
  )

  -- An entry of the data block is read at the offset of its length.
  pub read_table_entry-layout :
      (pre suf : List ℕ) (x : SsTableEntry) (offset : ℕ)
      → contents ≡ pre ++ (le_bytes 4 (len (length x.key) x.value) ++ (layout x ++ suf))
      → offset ≡ length pre
      → IsStorable x
      → read_table_entry file.read_at offset ≡ ok x
  unfolding read_table_entry
  read_table_entry-layout pre suf x offset e ho hx =
      let n = len (length x.key) x.value in
      rw (
        fill_mid pre (le_bytes 4 n) (layout x ++ suf) offset 4 e ho (omega lengths),
        from_le-le_bytes 4 n (omega (arith, hx.size)),
        fill_mid (pre ++ le_bytes 4 n) (layout x) suf (offset + 4) n
            (e ∙ sym (append_assoc pre (le_bytes 4 n) (layout x ++ suf))) (omega lengths)
            (sym (length-layout x)),
        from_bytes-layout {E = IoError} x hx,
      )
