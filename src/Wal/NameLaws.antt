-- ===== src/Wal/NameLaws.antt =====
-- The names of the segments of the log tell their order.
use native.Mathlib.Nat.{mul-le-mul_right, mod-lt, div-add-mod}
use rkvs.Base.{
  ℕ, suc, ◌+◌, ◌*◌, ◌/◌, ◌%◌, ◌^◌, ◌<◌, ◌≤◌, ◌≡◌, refl, sym, ap, ◌∙◌, arith, lengths, ◌++◌,
  append_assoc, true, false, inl, inr, Bool-cases, ok, slice_mid, Text, text_lt, ltb, ltb→lt,
  lt→ltb, fixed, length-fixed, from_hex-fixed, text_lt-prefix, text_lt-append, text_lt-fixed,
}
use rkvs.Wal.Filename.{determine_segment_filename, extension, base_lsn, final_entry_after}
use rkvs.Wal.FilenameLaws.{name_layout, determine-name_layout, base_lsn-name_layout, multiple}

-- The name of the segment that starts at this multiple of the size.
pub record IsNamed (size number : ℕ) (path : Text) : Type 0 where
  pub log : ℕ
  pub segment_no : ℕ
  pub path_eq : path ≡ name_layout log segment_no
  pub log_small : log < 2 ^ 32
  pub no_small : segment_no < 2 ^ 32
  pub inside : segment_no * size < 2 ^ 32
  pub start : log * 2 ^ 32 + segment_no * size ≡ number * size

pub IsNamed-base_lsn :
    {E : Type 0} (size number : ℕ) (path : Text)
    → IsNamed size number path
    → base_lsn {E = E} path size ≡ ok (number * size)
IsNamed-base_lsn size number path n =
    rw (n.path_eq)
      (base_lsn-name_layout n.log n.segment_no size n.log_small n.no_small ∙ ap ok n.start)

-- a segment with a byte in it is not in front of the first sequence number
pub IsNamed-final_entry_after :
    {E : Type 0} (size number : ℕ) (path : Text) (file_size : ℕ)
    → IsNamed size number path
    → 0 < file_size
    → final_entry_after {E = E} path file_size 0 ≡ ok true
unfolding final_entry_after
IsNamed-final_entry_after size number path file_size n h =
    let zeros = fixed 8 0 in
    let log = fixed 8 n.log in
    let no = fixed 8 n.segment_no in
    let name = name_layout n.log n.segment_no in
    let positive : 0 < file_size * (n.segment_no + 1) = grind arith in
    rw
      (
        n.path_eq,
        slice_mid name (zeros ++ log) no extension 16 24 (simp append_assoc)
            (omega (lengths, length-fixed 8 0, length-fixed 8 n.log))
            (omega (arith, length-fixed 8 n.segment_no)),
        from_hex-fixed 7 n.segment_no n.no_small,
        slice_mid name zeros log (no ++ extension) 8 16 (simp append_assoc)
            (omega (arith, length-fixed 8 0)) (omega (arith, length-fixed 8 n.log)),
        from_hex-fixed 7 n.log n.log_small,
        lt→ltb 0 (n.log * 2 ^ 32 + file_size * (n.segment_no + 1)) (omega (arith, positive)),
      )
      refl

name_layout_eq :
    (log n : ℕ) → name_layout log n ≡ fixed 8 0 ++ (fixed 8 log ++ (fixed 8 n ++ extension))
name_layout_eq log n = simp append_assoc

layout_lt :
    (log n log' n' size : ℕ)
    → n < 2 ^ 32
    → n' < 2 ^ 32
    → log' < 2 ^ 32
    → n * size < 2 ^ 32
    → n' * size < 2 ^ 32
    → log * 2 ^ 32 + n * size < log' * 2 ^ 32 + n' * size
    → text_lt (name_layout log n) (name_layout log' n') ≡ true
layout_lt log n log' n' size small small' log_small inside inside' h =
    let Order : Type 0 = text_lt (name_layout log n) (name_layout log' n') ≡ true in
    let rest = fixed 8 n ++ extension in
    let rest' = fixed 8 n' ++ extension in
    rw
      (
        name_layout_eq log n,
        name_layout_eq log' n',
        text_lt-prefix (fixed 8 0) (fixed 8 log ++ rest) (fixed 8 log' ++ rest'),
      )
      (elim (Bool-cases (ltb log log')) [
        | inl less ↦
            text_lt-append (fixed 8 log) (fixed 8 log') rest rest'
              (length-fixed 8 log ∙ sym (length-fixed 8 log'))
              (text_lt-fixed 8 log log' (ltb→lt log log' less) log_small)
        | inr not ↦
            let same : log ≡ log' = ground (arith, inside, inside', h) in
            rw (same, text_lt-prefix (fixed 8 log') rest rest')
              (text_lt-append (fixed 8 n) (fixed 8 n') extension extension
                (length-fixed 8 n ∙ sym (length-fixed 8 n'))
                (text_lt-fixed 8 n n' (below (omega (arith, same, h))) small'))
      ])
  where
    not_less : ltb n n' ≡ false → n' ≤ n
    not_less h = ground arith

    below : n * size < n' * size → n < n'
    below h = elim (Bool-cases (ltb n n')) [
      | inl less ↦ ltb→lt n n' less
      | inr not ↦ absurd (omega (arith, h, mul-le-mul_right size (not_less not)))
    ]

next_le : (m n : ℕ) → m < n → suc m ≤ n
next_le m n h = h

-- The segment that starts first has the name that comes first.
pub IsNamed-text_lt :
    (size m n : ℕ) (a b : Text)
    → 0 < size
    → IsNamed size m a
    → IsNamed size n b
    → m < n
    → text_lt a b ≡ true
IsNamed-text_lt size m n a b size_pos x y h =
    let less : m * size < n * size =
      omega (arith, size_pos, mul-le-mul_right size (next_le m n h)) in
    rw (x.path_eq, y.path_eq)
      (layout_lt x.log x.segment_no y.log y.segment_no size x.no_small y.no_small y.log_small
        x.inside y.inside (omega (arith, less, x.start, y.start)))

-- The name that determine_segment_filename makes.
pub determine_segment_filename-IsNamed :
    {E : Type 0} (seq size k : ℕ)
    → seq < 2 ^ 64
    → 0 < size
    → k * size ≡ 2 ^ 32
    → (name : Text) × (number : ℕ) × (determine_segment_filename {E = E} 0 seq size ≡ ok name)
      × IsNamed size number name
      × (number * size ≤ seq)
      × (seq < number * size + size)
determine_segment_filename-IsNamed {E = E} seq size k h hs hk =
    let log = seq / 2 ^ 32 in
    let no = seq % 2 ^ 32 / size in
    let start = no * size in
    let same : log * 2 ^ 32 + start ≡ (log * k + no) * size =
      ap (λ x. log * x + start) (sym hk) ∙ multiple log k no size in
    (
      name_layout log no,
      log * k + no,
      determine-name_layout seq size h,
      record {
        log = log;
        segment_no = no;
        path_eq = refl;
        log_small = omega arith;
        no_small = grind arith;
        inside = omega (arith, div-add-mod (seq % 2 ^ 32) size);
        start = same;
      },
      omega (arith, same, div-add-mod (seq % 2 ^ 32) size),
      omega (arith, same, div-add-mod (seq % 2 ^ 32) size, mod-lt (seq % 2 ^ 32) hs),
    )
