-- ===== src/SsTable/Segment/Fitting.antt =====
-- The entries that lie whole within the first bytes of a block: what `deque_from_bytes` reads from
-- them.
use rkvs.Base.{
  ℕ, zero, suc, ◌+◌, ◌-◌, ◌<◌, ◌≤◌, ◌≡◌, refl, ap, ◌∙◌, arith, lengths, List, [], ◌∷◌, ◌++◌,
  append_assoc, append-nil, false, Bool-cases, inl, inr, some, length, take, length-take, All, leb,
  leb→le, le→leb, lt→not-leb, lt→ltb, le→not-ltb, if◌then◌else◌, ok, le_bytes, from_le-le_bytes,
  slice_mid, length-append_bytes,
}
use rkvs.SsTable.Entry.{SsTableEntry, len, deque_loop, deque_from_bytes}
use rkvs.SsTable.EntryLaws.{IsStorable, layout, length-layout, from_bytes-layout, block}
use rkvs.SsTable.Segment.ReadBuf.{stored_len}

take_past : (xs ys : List ℕ) (n m : ℕ) → n ≡ length xs + m → take n (xs ++ ys) ≡ xs ++ take m ys
take_past [] ys n m e = ap (λ i. take i ys) (e ∙ omega arith)
take_past (x ∷ xs) ys zero m e = absurd (omega arith)
take_past (x ∷ xs) ys (suc n) m e = ap (λ l. x ∷ l) (take_past xs ys n m (omega arith))

length-take_le : (n : ℕ) (xs : List ℕ) → length (take n xs) ≤ n
length-take_le zero xs = omega arith
length-take_le (suc n) [] = omega arith
length-take_le (suc n) (x ∷ xs) = omega (arith, length-take_le n xs)

-- The entries that lie whole within so many bytes of the block.
abbrev pub fitting : ℕ → List SsTableEntry → List SsTableEntry
fitting n [] = []
fitting n (e ∷ es) = if leb (stored_len e) n then e ∷ fitting (n - stored_len e) es else []

above : (a b : ℕ) → leb a b ≡ false → b < a
above a b h = ground arith

-- an entry that is cut off
deque_loop-cut :
    {E : Type 0} (e : SsTableEntry) (es : List SsTableEntry) (rest pre buf : List ℕ)
    (m fuel offset : ℕ) (res : List SsTableEntry)
    → buf ≡ pre ++ take m (block (e ∷ es) ++ rest)
    → offset ≡ length pre
    → m < stored_len e
    → IsStorable e
    → deque_loop {E = E} (suc fuel) buf offset res ≡ ok (some res)
unfolding deque_loop
deque_loop-cut {E = E} e es rest pre buf m fuel offset res eq ho cut h =
    elim (Bool-cases (leb (length buf) (offset + 4))) [
      | inl end ↦ rw end refl
      | inr more ↦
          let n = len (length e.key) e.value in
          let short : length buf ≤ offset + m = omega (
            lengths,
            ap (λ l. length l) eq,
            length-take_le m (block (e ∷ es) ++ rest),
            length-append_bytes pre (take m (block (e ∷ es) ++ rest)),
          ) in
          let four : 4 < m = not_short (length buf) offset m more short in
          let place : buf ≡ pre ++ (le_bytes 4 n ++ take (m - 4) (layout e ++ (block es ++ rest))) =
            eq
            ∙ ap (λ l. pre ++ l)
                (ap (take m) (simp append_assoc)
                  ∙ take_past (le_bytes 4 n) (layout e ++ (block es ++ rest)) m (m - 4)
                      (omega lengths)) in
          rw
            (
              more,
              slice_mid {E = E} buf pre (le_bytes 4 n)
                  (take (m - 4) (layout e ++ (block es ++ rest))) offset (offset + 4) place ho
                  (omega lengths),
              from_le-le_bytes 4 n (omega (arith, h.size)),
              lt→ltb (length buf) (offset + 4 + n) (omega (arith, short, cut)),
            )
            refl
    ]
  where
    not_short : (l o m : ℕ) → leb l (o + 4) ≡ false → l ≤ o + m → 4 < m
    not_short l o m h k = ground arith

deque_loop-fitting :
    {E : Type 0} (es : List SsTableEntry) (rest pre buf : List ℕ) (m fuel offset : ℕ)
    (res : List SsTableEntry)
    → buf ≡ pre ++ take m (block es ++ rest)
    → offset ≡ length pre
    → m ≤ length (block es) + 1
    → m < fuel
    → All IsStorable es
    → deque_loop {E = E} fuel buf offset res ≡ ok (some (res ++ fitting m es))
unfolding deque_loop
deque_loop-fitting es rest pre buf m zero offset res eq ho hm hf h = absurd (omega arith)
deque_loop-fitting [] rest pre buf m (suc fuel) offset res eq ho hm hf h = rw (
  le→leb (length buf) (offset + 4) (
      omega (
        arith,
        ho,
        hm,
        ap (λ l. length l) eq,
        length-append_bytes pre (take m rest),
        length-take_le m rest,
      )),
  append-nil,
)
deque_loop-fitting {E = E} (e ∷ es) rest pre buf m (suc fuel) offset res eq ho hm hf (h, hs) =
    elim (Bool-cases (leb (stored_len e) m)) [
      | inr cut ↦
          rw (cut, append-nil)
            (deque_loop-cut {E = E} e es rest pre buf m fuel offset res eq ho
              (above (stored_len e) m cut) h)
      | inl fits ↦
          let n = len (length e.key) e.value in
          let left = m - stored_len e in
          let within = leb→le (stored_len e) m fits in
          let place : buf ≡ pre ++ (le_bytes 4 n ++ (layout e ++ take left (block es ++ rest))) =
            eq
            ∙ ap (λ l. pre ++ l)
                (ap (take m) (simp append_assoc)
                  ∙ (take_past (le_bytes 4 n ++ layout e) (block es ++ rest) m left
                        (omega (lengths, length-layout e, within))
                      ∙ simp append_assoc)) in
          let size = ap (λ l. length l) place in
          rw
            (
              fits,
              lt→not-leb (length buf) (offset + 4) (omega (lengths, size)),
              slice_mid {E = E} buf pre (le_bytes 4 n) (layout e ++ take left (block es ++ rest))
                  offset (offset + 4) place ho (omega lengths),
              from_le-le_bytes 4 n (omega (arith, h.size)),
              le→not-ltb (length buf) (offset + 4 + n) (omega (lengths, size, length-layout e)),
              slice_mid {E = E} buf (pre ++ le_bytes 4 n) (layout e) (take left (block es ++ rest))
                  (offset + 4) (offset + 4 + n) (place ∙ simp append_assoc) (omega lengths)
                  (omega (arith, length-layout e)),
              from_bytes-layout {E = E} e h,
            )
            (deque_loop-fitting {E = E} es rest ((pre ++ le_bytes 4 n) ++ layout e) buf left fuel
                (offset + 4 + n) (res ++ e ∷ []) (place ∙ simp append_assoc)
                (omega (lengths, length-layout e))
                (omega (
                  lengths,
                  hm,
                  length-layout e,
                  length-append_bytes (le_bytes 4 n) (layout e ++ block es),
                  length-append_bytes (layout e) (block es),
                ))
                (omega arith) hs
              ∙ ap (λ l. ok (some l)) (append_assoc res (e ∷ []) (fitting left es)))
    ]

-- The buffer of bytes from the start of an entry holds the entries that lie whole within it.
pub deque_from_bytes-fitting :
    {E : Type 0} (es : List SsTableEntry) (rest : List ℕ) (n : ℕ)
    → n ≤ length (block es) + 1
    → n ≤ length (block es ++ rest)
    → All IsStorable es
    → deque_from_bytes {E = E} (take n (block es ++ rest)) ≡ ok (fitting n es)
unfolding deque_from_bytes
deque_from_bytes-fitting {E = E} es rest n h k hs = rw (
    deque_loop-fitting {E = E} es rest [] (take n (block es ++ rest)) n
      (length (take n (block es ++ rest)) + 1) 0 [] refl refl h
      (omega (arith, length-take n (block es ++ rest))) hs)
