-- ===== src/SsTable/Filename.antt =====
-- The names of the segments of a table, src/storage_engine/sstable/level/segment.rs: 8 hex digits
-- each for the level and for the segment, and ".sst".
use rkvs.Base.{
  ℕ, ◌^◌, ◌<◌, ◌≡◌, refl, arith, [], ◌∷◌, ◌++◌, Outcome, ok, ◌>>=◌, unwrap, slice, slice_mid,
  to_hex, pad, from_hex, Text, fixed, length-fixed, pad-to_hex, from_hex-fixed,
}

abbrev pub extension : Text
extension = b'.' ∷ b's' ∷ b's' ∷ b't' ∷ []

unfoldable pub determine_segment_filename : {E : Type 0} → ℕ → ℕ → Outcome E Text
determine_segment_filename level_number segment_number = do
  level_hex ← pad 8 (to_hex level_number)
  segment_hex ← pad 8 (to_hex segment_number)
  ok (level_hex ++ (segment_hex ++ extension))

unfoldable pub level_and_segment_number_from_filename : {E : Type 0} → Text → Outcome E (ℕ × ℕ)
level_and_segment_number_from_filename filename = do
  level_hex ← slice filename 0 8
  level_number ← unwrap (from_hex level_hex)
  segment_hex ← slice filename 8 16
  segment_number ← unwrap (from_hex segment_hex)
  ok (level_number, segment_number)

-- A segment whose numbers are below 2 ^ 32 is given a name, without a panic, and the numbers are
-- read back from it.
pub numbers-determine_segment_filename :
    {E F : Type 0} (level_number segment_number : ℕ)
    → level_number < 2 ^ 32
    → segment_number < 2 ^ 32
    → (name : Text) × (determine_segment_filename {E = E} level_number segment_number ≡ ok name)
      × (level_and_segment_number_from_filename {E = F} name ≡ ok (level_number, segment_number))
unfolding determine_segment_filename level_and_segment_number_from_filename
numbers-determine_segment_filename {E = E} {F = F} l s hl hs =
    let name = fixed 8 l ++ (fixed 8 s ++ extension) in
    (
      name,
      rw
          (
            pad-to_hex {E = E} 7 l (omega arith) (omega arith),
            pad-to_hex {E = E} 7 s (omega arith) (omega arith),
          )
          refl,
      rw
          (
            slice_mid {E = F} name [] (fixed 8 l) (fixed 8 s ++ extension) 0 8 refl refl
                (omega (arith, length-fixed 8 l)),
            from_hex-fixed 7 l hl,
            slice_mid {E = F} name (fixed 8 l) (fixed 8 s) extension 8 16 refl
                (omega (arith, length-fixed 8 l)) (omega (arith, length-fixed 8 s)),
            from_hex-fixed 7 s hs,
          )
          refl,
    )
