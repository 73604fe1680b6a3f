-- ===== src/Wal/AppendLaws.antt =====
-- The log grows: what `Wal::append` keeps up about the active segment.
use rkvs.Base.{
  ℕ, zero, suc, ◌+◌, ◌-◌, ◌*◌, ◌%◌, ◌^◌, ◌<◌, ◌≤◌, ◌≡◌, refl, sym, ap, ◌∙◌, inl, inr, arith, List,
  [], ◌∷◌, ◌++◌, false, length, leb, take, drop, ok, slice, slice_mid, length-take, length-drop,
  append-nil, IoError, leb→le, Bool-cases,
}
use mathlib.Core.Path.{subst}
use native.Mathlib.Nat.{mul-le-mul_right}
use rkvs.Base.Io.{◌>>◌, Safe, Safe->>=, Safe_map}
use rkvs.Wal.Entry.{WalEntry, header_size}
use rkvs.Wal.EntryLaws.{OpFits, to_bytes-layout, layout}
use rkvs.Wal.Segment
use rkvs.Wal.Segment.{FileSystem, State, on_disk, next_lsn}
use rkvs.Wal.SegmentLaws.{FileSystemLaws, IsPlaced, At, Started}
use rkvs.Wal.SegmentLaws
use rkvs.Wal.Append.{
  rotate, append_whole, append_split, append_next, append_by_space, append_bytes, append,
  next_sequence_number,
}

module _ (fs : FileSystem) (laws : FileSystemLaws fs) (size : ℕ) (size_pos : 0 < size)
    (size_u32 : size < 2 ^ 32) where
  not-leb→lt : (d c : ℕ) → leb d c ≡ false → suc c ≤ d
  not-leb→lt d c h = ground arith

  next_start : (c d m : ℕ) → c * size + size ≤ m → m < d * size + size → c * size + size ≤ d * size
  next_start c d m h k = elim (Bool-cases (leb d c)) [
    | inl small ↦ absurd (omega (arith, h, k, mul-le-mul_right size (leb→le d c small)))
    | inr large ↦ omega (arith, mul-le-mul_right size (not-leb→lt d c large))
  ]

  abbrev Grown : ℕ → State fs → Type 0
  Grown next s = IsPlaced fs size s × (next ≤ next_sequence_number fs size s)

  grown_at :
      (number n next : ℕ) (s : State fs)
      → At fs size (number * size) n s
      → n ≤ size
      → next ≤ number * size + n
      → Grown next s
  grown_at number n next s h hn hl = (
    record {
      number = number;
      starts = h.base_eq;
      max_size = h.max_eq;
      fits = omega (arith, h.size_eq, hn);
    },
    omega (arith, h.base_eq, h.size_eq, hl),
  )

  -- what follows a rotation: bytes that end behind `next`
  append_started :
      (c next low : ℕ) (buf : List ℕ) (s : State fs)
      → c * size + size ≤ next
      → low ≤ c * size + size + length buf
      → length buf ≤ size
      → Started fs size next s
      → Safe (λ _ s'. Grown low s') (Segment.append fs buf s)
  append_started c next low buf s hc hl hb st =
      Safe_map (λ _ s'. At fs size (st.number * size) (0 + length buf) s') (λ _ s'. Grown low s')
        (Segment.append fs buf s)
        (λ _ s' h.
          grown_at st.number (0 + length buf) low s' h (omega arith)
            (omega (arith, hl, next_start c st.number next hc st.high)))
        (SegmentLaws.append_safe fs laws size size_pos size_u32 (st.number * size) 0 buf s
          (omega arith) st.at)

  take-drop : (n : ℕ) (xs : List ℕ) → xs ≡ take n xs ++ drop n xs
  take-drop zero xs = refl
  take-drop (suc n) [] = refl
  take-drop (suc n) (x ∷ xs) = ap (λ ys. x ∷ ys) (take-drop n xs)

  slice_head :
      {E : Type 0} (buf : List ℕ) (n : ℕ) → n ≤ length buf → slice {E = E} buf 0 n ≡ ok (take n buf)
  slice_head buf n h =
      slice_mid buf [] (take n buf) (drop n buf) 0 n (take-drop n buf) refl
        (omega (arith, length-take n buf))

  slice_tail :
      {E : Type 0} (buf : List ℕ) (n : ℕ)
      → n ≤ length buf
      → slice {E = E} buf n (length buf) ≡ ok (drop n buf)
  slice_tail buf n h =
      slice_mid buf (take n buf) (drop n buf) [] n (length buf)
        (take-drop n buf ∙ ap (λ ys. take n buf ++ ys) (sym (append-nil (drop n buf))))
        (omega (arith, length-take n buf)) (omega (arith, length-drop n buf))

  -- `append`, by the three ways it writes the bytes of an entry
  module _ (k c n : ℕ) (buf : List ℕ) (divides : k * size ≡ 2 ^ 32) (fits : length buf ≤ size)
      (fullness : n ≤ size) (bounded : c * size + n + length buf < 2 ^ 64) where
    abbrev low : ℕ
    low = c * size + n + length buf

    whole :
        (s : State fs)
        → At fs size (c * size) n s
        → length buf ≤ size - n
        → Safe (λ _ s'. Grown low s') (append_whole fs size buf s)
    unfolding append_whole
    whole s here h =
        Safe_map (λ _ s'. At fs size (c * size) (n + length buf) s') (λ _ s'. Grown low s')
          (Segment.append fs buf s)
          (λ _ s' h'.
            grown_at c (n + length buf) low s' h' (omega (arith, h, fullness)) (omega arith))
          (SegmentLaws.append_safe fs laws size size_pos size_u32 (c * size) n buf s
            (omega (arith, h, fullness)) here)

    next_full : size - n < length buf → c * size + size ≤ low
    next_full h = omega (arith, h, fullness)

    rotated :
        (tail : List ℕ) (m : ℕ) (s1 : State fs)
        → c * size + size ≤ low
        → low ≤ c * size + size + length tail
        → length tail ≤ size
        → m ≤ size
        → At fs size (c * size) m s1
        → Safe
            (λ _ s'. Grown low s')
            ((Segment.pad fs >> (rotate fs size low >> Segment.append fs tail)) s1)
    rotated tail m s1 full up ht hm h1 =
        Safe->>= (λ _ s'. At fs size (c * size) size s') (λ _ s'. Grown low s') (Segment.pad fs)
          (λ _. rotate fs size low >> Segment.append fs tail) s1
          (SegmentLaws.pad_safe fs laws size size_pos size_u32 (c * size) m s1 hm h1)
          (λ _ s2 h2.
            Safe->>= (λ _ s'. Started fs size low s') (λ _ s'. Grown low s') (rotate fs size low)
              (λ _. Segment.append fs tail) s2
              (SegmentLaws.rotate_safe fs laws size size_pos size_u32 k low s2 divides bounded)
              (λ _ s3 h3. append_started c low low tail s3 full up ht h3))

    next :
        (s : State fs)
        → At fs size (c * size) n s
        → size - n < length buf
        → Safe (λ _ s'. Grown low s') (append_next fs size low buf s)
    unfolding append_next
    next s here h = rotated buf n s (next_full h) (omega (arith, fullness)) fits fullness here

    split :
        (s : State fs)
        → At fs size (c * size) n s
        → size - n < length buf
        → header_size ≤ size - n
        → Safe (λ _ s'. Grown low s') (append_split fs size low buf s)
    unfolding append_split
    split s here h hh =
        let head = take header_size buf in
        let tail = drop header_size buf in
        let head_len : length head ≡ header_size =
          omega (arith, length-take header_size buf, h, hh) in
        let tail_len : length tail + header_size ≡ length buf =
          omega (arith, length-drop header_size buf, h, hh) in
        rw
          (
            slice_head {E = IoError} buf header_size (omega (arith, h, hh)),
            slice_tail {E = IoError} buf header_size (omega (arith, h, hh)),
          )
          (Safe->>= (λ _ s'. At fs size (c * size) (n + length head) s') (λ _ s'. Grown low s')
            (Segment.append fs head)
            (λ _. Segment.pad fs >> (rotate fs size low >> Segment.append fs tail)) s
            (SegmentLaws.append_safe fs laws size size_pos size_u32 (c * size) n head s
              (omega (arith, head_len, fullness, hh)) here)
            (λ _ s1 h1.
              rotated tail (n + length head) s1 (next_full h)
                (omega (arith, tail_len, fullness, hh)) (omega (arith, tail_len, fits))
                (omega (arith, head_len, fullness, hh)) h1))

    by_space :
        (m : ℕ) (s' : State fs)
        → m ≡ size - n
        → At fs size (c * size) n s'
        → Safe (λ _ s''. Grown low s'') (append_by_space fs size low buf (length buf) m s')
    unfolding append_by_space
    by_space m s' hm h = elim (Bool-cases (leb (length buf) m)) [
      | inl room ↦ rw (room) (whole s' h (omega (arith, hm, leb→le (length buf) m room)))
      | inr full ↦
          let over : size - n < length buf = omega (arith, hm, not-leb→lt (length buf) m full) in
          elim (Bool-cases (leb header_size m)) [
            | inl header ↦
                rw (full, header) (split s' h over (omega (arith, hm, leb→le header_size m header)))
            | inr shut ↦ rw (full, shut) (next s' h over)
          ]
    ]

  append_bytes-IsPlaced :
      (k : ℕ) (buf : List ℕ) (s : State fs) (placed : IsPlaced fs size s)
      → k * size ≡ 2 ^ 32
      → length buf ≤ size
      → next_sequence_number fs size s + length buf < 2 ^ 64
      → Safe
          (λ _ s'.
            IsPlaced fs size s'
            × (next_sequence_number fs size s + length buf ≤ next_sequence_number fs size s'))
          (append_bytes fs size (next_sequence_number fs size s) buf s)
  unfolding append_bytes
  append_bytes-IsPlaced k buf s placed divides fits bounded =
      let small : length buf % 2 ^ 32 ≡ length buf = omega (arith, fits, size_u32) in
      let n = s.active_segment.file_size in
      let c = placed.number in
      let here : At fs size (c * size) n s = record {
        base_eq = placed.starts;
        size_eq = refl;
        max_eq = placed.max_size;
      } in
      let start : c * size ≡ s.active_segment.base_lsn = sym placed.starts in
      rw small (
        Safe->>= (λ m s'. (m ≡ size - n) × At fs size (c * size) n s')
          (λ _ s'. Grown (s.active_segment.base_lsn + n + length buf) s')
          (Segment.remaining_space fs)
          (append_by_space fs size (s.active_segment.base_lsn + n + length buf) buf (length buf)) s
          (SegmentLaws.free_safe fs laws size size_pos size_u32 (c * size) n s placed.fits here)
          (λ m s' (hm, h'). rw placed.starts (
            by_space k c n buf divides fits placed.fits (omega (arith, start, bounded)) m s' hm
              h')))

  pub append-IsPlaced :
      (checksum : List ℕ → ℕ) (k : ℕ) (e : WalEntry) (s : State fs)
      → IsPlaced fs size s
      → k * size ≡ 2 ^ 32
      → 0 < length e.key
      → OpFits e.operation_type e.value
      → e.sequence_number ≡ next_sequence_number fs size s
      → length (layout checksum e) ≤ size
      → e.sequence_number + length (layout checksum e) < 2 ^ 64
      → Safe
          (λ _ s'.
            IsPlaced fs size s'
            × (e.sequence_number + length (layout checksum e) ≤ next_sequence_number fs size s'))
          (append fs size checksum e s)
  unfolding append
  append-IsPlaced checksum k e s placed divides hk ho hn fits bounded =
      let bytes = layout checksum e in
      rw (to_bytes-layout checksum {E = IoError} e hk ho) (
        subst
          (λ n.
            Safe
              (λ _ s'. IsPlaced fs size s' × (n + length bytes ≤ next_sequence_number fs size s'))
              (append_bytes fs size n bytes s))
          (sym hn)
          (append_bytes-IsPlaced k bytes s placed divides fits (omega (arith, hn, bounded))))
