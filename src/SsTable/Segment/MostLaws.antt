-- ===== src/SsTable/Segment/MostLaws.antt =====
-- `read_at_most` on a file whose reads may be short or fail.
use mathlib.Core.Path.{subst}
use rkvs.Base.{
  ℕ, zero, suc, ◌+◌, ◌-◌, ◌<◌, ◌≤◌, ◌≡◌, refl, sym, ap, ◌∙◌, arith, lengths, List, [], ◌∷◌, ◌++◌,
  append_assoc, append-nil, false, inl, inr, ◌>>=◌, unwrap, copy_to, if◌then◌else◌, Option, none,
  some, err, panic, length, take, take_left, drop, length-take, All, All-right, le→leb, lt→not-leb,
  Outcome, ok, IoError, length-append_bytes, zeroed, copy_next, ◌==◌,
}
use rkvs.SsTable.Entry.{SsTableEntry, deque_from_bytes}
use rkvs.SsTable.EntryLaws.{IsStorable, block}
use rkvs.SsTable.Segment.{Segment}
use rkvs.SsTable.Segment.File.{File, ReadAt, ReadsSome, MayRead, ReadFailed}
use rkvs.SsTable.Segment.Divided.{block-append}
use rkvs.SsTable.Segment.ReadLaws.{take-drop_mid}
use rkvs.SsTable.Segment.Stores.{Stores}
use rkvs.SsTable.Segment.ReadBuf.{smaller, read_at_most, most_loop}
use rkvs.SsTable.Segment.Fitting.{fitting, deque_from_bytes-fitting}

take-drop : (n : ℕ) (xs : List ℕ) → take n xs ++ drop n xs ≡ xs
take-drop zero xs = refl
take-drop (suc n) [] = refl
take-drop (suc n) (x ∷ xs) = ap (λ l. x ∷ l) (take-drop n xs)

take_all : (n : ℕ) (xs : List ℕ) → n ≡ length xs → take n xs ≡ xs
take_all n xs e = ap (take n) (sym (append-nil xs)) ∙ take_left n xs [] e

-- what the loop comes to: these bytes, or the error of a read
abbrev Fills : File → List ℕ → Outcome IoError (Option (List ℕ × ℕ)) → Type 0
Fills file bytes (ok none) = ⊥
Fills file bytes (ok (some (buf, total))) = (buf ≡ bytes) × (total ≡ length bytes)
Fills file bytes (err e) = ReadFailed file e
Fills file bytes panic = ⊥

-- the end of a round, behind the read
abbrev after_read : ReadAt → ℕ → List ℕ → ℕ → ℕ → List ℕ → Outcome IoError (Option (List ℕ × ℕ))
after_read file fuel buf total a bytes = do
  buf ← copy_to buf total (total + length bytes) bytes
  let rest = most_loop file fuel buf (total + length bytes) (a + length bytes)
  if length bytes == 0 then ok (some (buf, total)) else rest

module _ (file : File) (contents : List ℕ) (reads : MayRead file contents) where
  -- a round that reads some of the bytes that are left
  next_round :
      (xs got more : List ℕ) (fuel n a : ℕ)
      → n ≡ length got + length more
      → 0 < length got
      → after_read file.read_at fuel (xs ++ zeroed n) (length xs) a got
        ≡ most_loop file.read_at fuel
            ((xs ++ got) ++ zeroed (length more))
            (length xs + length got)
            (a + length got)
  next_round xs got more fuel n a hn pos =
      let some_read : (length got == 0) ≡ false = ground (arith, pos) in
      rw
        (
          copy_next {E = IoError} xs got (length more) (length xs) (length xs + length got) n refl
              hn refl refl,
          some_read,
        )
        refl

  most_loop-Fills :
      (pre xs ys suf : List ℕ) (fuel total a n : ℕ)
      → contents ≡ (pre ++ xs) ++ (ys ++ suf)
      → total ≡ length xs
      → a ≡ length (pre ++ xs)
      → n ≡ length ys
      → length ys < fuel
      → Fills file (xs ++ ys) (most_loop file.read_at fuel (xs ++ zeroed n) total a)
  unfolding most_loop
  most_loop-Fills pre xs ys suf zero total a n e ht ha hn hf = absurd (omega arith)
  most_loop-Fills pre xs [] suf (suc fuel) total a n e ht ha hn hf =
      rw (le→leb (length (xs ++ zeroed n)) total (omega (lengths, ht, hn)))
        (ap (λ m. xs ++ zeroed m) hn, omega (lengths, ht))
  most_loop-Fills pre xs (y ∷ ys) suf (suc fuel) total a n e ht ha hn hf =
      let left : length (xs ++ zeroed n) - total ≡ n = omega (lengths, ht) in
      rw (lt→not-leb (length (xs ++ zeroed n)) total (omega (lengths, ht, hn)), left)
        (by_read (file.read_at a n)
          (subst (λ b. ReadsSome b (file.read_at a n))
            (ap (λ c. take n (drop a c)) e ∙ take-drop_mid (pre ++ xs) (y ∷ ys) suf a n ha hn)
            (reads a n))
          refl
          (λ got more split shorter.
            most_loop-Fills pre (xs ++ got) more suf fuel (length xs + length got) (a + length got)
              (length more) (e ∙ (ap (λ l. (pre ++ xs) ++ (l ++ suf)) split ∙ simp append_assoc))
              (omega lengths) (omega (lengths, ha)) refl shorter))
    where
      by_read :
          (r : Outcome IoError (List ℕ))
          → ReadsSome (y ∷ ys) r
          → file.read_at a n ≡ r
          → ((got more : List ℕ)
              → y ∷ ys ≡ got ++ more
              → length more < fuel
              → Fills file ((xs ++ got) ++ more) (
                  most_loop file.read_at fuel
                    ((xs ++ got) ++ zeroed (length more))
                    (length xs + length got)
                    (a + length got)))
          → Fills file
              (xs ++ y ∷ ys)
              (r >>= λ bytes. after_read file.read_at fuel (xs ++ zeroed n) total a bytes)
      by_read (ok got) (more, split, inr none_left) h next = absurd cc
      by_read (ok got) (more, split, inl pos) h next =
          let size : n ≡ length got + length more =
            hn ∙ (ap (λ l. length l) split ∙ length-append_bytes got more) in
          let shorter : length more < fuel = omega (arith, hf, pos, size, hn) in
          subst
            (λ t. Fills file (xs ++ y ∷ ys) (after_read file.read_at fuel (xs ++ zeroed n) t a got))
            (sym ht)
            (rw (next_round xs got more fuel n a size pos) (
              subst
                (λ l. Fills file l (
                  most_loop file.read_at fuel ((xs ++ got) ++ zeroed (length more))
                    (length xs + length got) (a + length got)))
                (append_assoc xs got more ∙ ap (λ l. xs ++ l) (sym split))
                (next got more split shorter)))
      by_read (err x) h k next = (a, n, k)
      by_read panic h k next = h

pub smaller_le : (a b : ℕ) → smaller a b ≤ a
smaller_le a b = ground arith

pub smaller_le_right : (a b : ℕ) → smaller a b ≤ b
smaller_le_right a b = ground arith

-- what read_at_most comes to: these entries, or the error of a read
abbrev pub ReadsEntries : File → List SsTableEntry → Outcome IoError (List SsTableEntry) → Type 0
ReadsEntries file es (ok read) = read ≡ es
ReadsEntries file es (err e) = ReadFailed file e
ReadsEntries file es panic = ⊥

-- Entries are read from the start of one on, as many as lie whole within the bytes to read. There
-- is something behind the block.
pub read_at_most-fitting :
    (s : Segment) (es : List SsTableEntry) (st : Stores s es) (before after : List SsTableEntry)
    (offset max_bytes : ℕ)
    → MayRead st.open_file st.contents
    → es ≡ before ++ after
    → offset ≡ length (block before)
    → 0 < length st.rest
    → ReadsEntries st.open_file
        (fitting (smaller (length (block after) + 1) max_bytes) after)
        (read_at_most s offset max_bytes)
unfolding read_at_most
read_at_most-fitting s es st before after offset max_bytes reads e ho hr =
    let n = smaller (length (block after) + 1) max_bytes in
    let whole : block es ≡ block before ++ block after = ap block e ∙ block-append before after in
    let end : s.data_block_end - offset + 1 ≡ length (block after) + 1 = omega (
      arith,
      st.end_eq,
      ap (λ l. length l) whole,
      length-append_bytes (block before) (block after),
    ) in
    let bytes = take n (block after ++ st.rest) in
    let place : st.contents ≡ block before ++ (bytes ++ drop n (block after ++ st.rest)) =
      st.block_eq
      ∙ (ap (λ l. l ++ st.rest) whole
          ∙ (append_assoc (block before) (block after) st.rest
              ∙ ap (λ l. block before ++ l) (sym (take-drop n (block after ++ st.rest))))) in
    let enough : n ≤ length (block after ++ st.rest) =
      omega (lengths, smaller_le (length (block after) + 1) max_bytes, hr) in
    let size : n ≡ length bytes = omega (arith, length-take n (block after ++ st.rest), enough) in
    let end_eq : n ≡ smaller (s.data_block_end - offset + 1) max_bytes =
      ap (λ m. smaller m max_bytes) (sym end) in
    rw
      (
        le→leb offset s.data_block_end (
            omega (
              arith,
              ho,
              st.end_eq,
              ap (λ l. length l) whole,
              length-append_bytes (block before) (block after),
            )),
        end,
        st.file_eq,
      )
      (by_loop bytes
        (deque_from_bytes-fitting {E = IoError} after st.rest n
          (smaller_le (length (block after) + 1) max_bytes) enough
          (All-right _ before after (subst (λ l. All IsStorable l) e st.storable)))
        (most_loop st.open_file.read_at (n + 1) (zeroed n) 0 offset)
        (most_loop-Fills st.open_file st.contents reads (block before) [] bytes
          (drop n (block after ++ st.rest)) (n + 1) 0 offset n
          (place
            ∙ ap (λ l. l ++ (bytes ++ drop n (block after ++ st.rest)))
                (sym (append-nil (block before))))
          refl (ho ∙ ap (λ l. length l) (sym (append-nil (block before)))) size
          (omega (arith, size))))
  where
    by_loop :
        (bytes : List ℕ)
        → deque_from_bytes {E = IoError} bytes
          ≡ ok (fitting (smaller (length (block after) + 1) max_bytes) after)
        → (r : Outcome IoError (Option (List ℕ × ℕ))) → Fills st.open_file bytes r
        → ReadsEntries st.open_file
            (fitting (smaller (length (block after) + 1) max_bytes) after)
            (r >>= λ res. unwrap res >>= λ (buf, total). deque_from_bytes (take total buf))
    by_loop bytes parsed (ok none) h = absurd h
    by_loop bytes parsed (ok (some (buf, total))) (same, all) =
        rw (ap (λ b. take total b) same ∙ take_all total bytes all, parsed) refl
    by_loop bytes parsed (err x) h = h
    by_loop bytes parsed panic h = h
