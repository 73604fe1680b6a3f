-- ===== src/Wal/FilenameLaws.antt =====
-- The name of a segment tells where it starts.
use rkvs.Base.{
  ℕ, ◌+◌, ◌*◌, ◌/◌, ◌%◌, ◌^◌, ◌<◌, ◌≤◌, ◌≡◌, refl, sym, ap, ◌∙◌, arith, [], ◌∷◌, ◌++◌, append_assoc,
  append-nil, some, length, ok, slice, slice_mid, Text, fixed, length-fixed, pad-to_hex,
  from_hex-fixed, lengths,
}
use native.Mathlib.Nat.{div-add-mod, mod-lt}
use rkvs.Wal.Filename.{determine_segment_filename, extension, before_last_dot, file_stem, base_lsn}

-- The name, digit by digit.
abbrev pub stem_layout : ℕ → ℕ → Text
stem_layout log number = fixed 8 0 ++ (fixed 8 log ++ fixed 8 number)

abbrev pub name_layout : ℕ → ℕ → Text
name_layout log number = stem_layout log number ++ extension

fixed_high : {E : Type 0} (n : ℕ) → slice {E = E} (fixed 16 n) 0 8 ≡ ok (fixed 8 (n / 2 ^ 32))
unfolding fixed slice
fixed_high n =
    let e : n / 16 / 16 / 16 / 16 / 16 / 16 / 16 / 16 ≡ n / 2 ^ 32 = omega arith in
    ap (λ m. ok (fixed 8 m)) e

fixed_low : {E : Type 0} (n : ℕ) → slice {E = E} (fixed 16 n) 8 16 ≡ ok (fixed 8 n)
unfolding fixed slice
fixed_low n = refl

before_last_dot-extension : (s : Text) → before_last_dot (s ++ extension) ≡ some s
unfolding before_last_dot
before_last_dot-extension [] = refl
before_last_dot-extension (c ∷ s) = rw (before_last_dot-extension s)

pub stem_length : (log number : ℕ) → length (stem_layout log number) ≡ 24
stem_length log number =
    omega (lengths, length-fixed 8 0, length-fixed 8 log, length-fixed 8 number)

file_stem-extension : (s : Text) → 0 < length s → file_stem (s ++ extension) ≡ s
unfolding file_stem
file_stem-extension [] h = absurd (omega arith)
file_stem-extension (c ∷ cs) h = rw (before_last_dot-extension (c ∷ cs), file_stem)

file_stem-name_layout :
    (log number : ℕ) → file_stem (name_layout log number) ≡ stem_layout log number
file_stem-name_layout log number =
    file_stem-extension (stem_layout log number) (omega (arith, stem_length log number))

-- The name is three numbers of 8 digits each.
pub determine-name_layout :
    {E : Type 0} (seq size : ℕ)
    → seq < 2 ^ 64
    → determine_segment_filename {E = E} 0 seq size
      ≡ ok (name_layout (seq / 2 ^ 32) (seq % 2 ^ 32 / size))
unfolding determine_segment_filename
determine-name_layout seq size h =
    let number = seq % 2 ^ 32 / size in
    let small : number < 2 ^ 32 = grind arith in
    rw (
      pad-to_hex 7 0 (omega arith) (omega arith),
      pad-to_hex 15 seq (omega arith) (omega arith),
      pad-to_hex 15 number (omega arith) (omega arith),
      fixed_high seq,
      length-fixed 16 number,
      fixed_low number,
    )

pub base_lsn-name_layout :
    {E : Type 0} (log number size : ℕ)
    → log < 2 ^ 32
    → number < 2 ^ 32
    → base_lsn {E = E} (name_layout log number) size ≡ ok (log * 2 ^ 32 + number * size)
unfolding base_lsn
base_lsn-name_layout log number size hl hn =
    let zeros = fixed 8 0 in
    let stem = stem_layout log number in
    rw (
      file_stem-name_layout log number,
      stem_length log number,
      slice_mid stem zeros (fixed 8 log) (fixed 8 number) 8 16 refl
          (omega (arith, length-fixed 8 0)) (omega (arith, length-fixed 8 log)),
      from_hex-fixed 7 log hl,
      slice_mid stem (zeros ++ fixed 8 log) (fixed 8 number) [] 16 24
          (simp (append_assoc, append-nil)) (omega (lengths, length-fixed 8 0, length-fixed 8 log))
          (omega (arith, length-fixed 8 number)),
      from_hex-fixed 7 number hn,
    )

-- A segment that is named for a sequence number contains it: it starts at or below the number, and
-- the number lies less than a segment's size above the start.
pub base_lsn-determine_segment_filename :
    {E : Type 0} (seq size : ℕ)
    → seq < 2 ^ 64
    → 0 < size
    → (name : Text) × (base : ℕ) × (determine_segment_filename {E = E} 0 seq size ≡ ok name)
      × (base_lsn {E = E} name size ≡ ok base)
      × (base ≤ seq)
      × (seq < base + size)
base_lsn-determine_segment_filename seq size h hs =
    let log = seq / 2 ^ 32 in
    let number = seq % 2 ^ 32 / size in
    let start = number * size in
    (
      name_layout log number,
      log * 2 ^ 32 + number * size,
      determine-name_layout seq size h,
      base_lsn-name_layout log number size (omega arith) (grind arith),
      omega (arith, div-add-mod (seq % 2 ^ 32) size),
      omega (arith, div-add-mod (seq % 2 ^ 32) size, mod-lt (seq % 2 ^ 32) hs),
    )

pub multiple : (a k n s : ℕ) → a * (k * s) + n * s ≡ (a * k + n) * s
multiple a k n s = ground arith

-- Where the segment size divides 2 ^ 32, the segments start at its multiples.
pub base_lsn-multiple :
    {E : Type 0} (seq size k : ℕ)
    → seq < 2 ^ 64
    → 0 < size
    → k * size ≡ 2 ^ 32
    → (name : Text) × (number : ℕ) × (determine_segment_filename {E = E} 0 seq size ≡ ok name)
      × (base_lsn {E = E} name size ≡ ok (number * size))
      × (number * size ≤ seq)
      × (seq < number * size + size)
base_lsn-multiple {E = E} seq size k h hs hk =
    let log = seq / 2 ^ 32 in
    let number = seq % 2 ^ 32 / size in
    let start = number * size in
    let same : log * 2 ^ 32 + start ≡ (log * k + number) * size =
      ap (λ x. log * x + start) (sym hk) ∙ multiple log k number size in
    (
      name_layout log number,
      log * k + number,
      determine-name_layout seq size h,
      base_lsn-name_layout {E = E} log number size (omega arith) (grind arith) ∙ ap ok same,
      omega (arith, same, div-add-mod (seq % 2 ^ 32) size),
      omega (arith, same, div-add-mod (seq % 2 ^ 32) size, mod-lt (seq % 2 ^ 32) hs),
    )
