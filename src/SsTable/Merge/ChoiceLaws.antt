-- ===== src/SsTable/Merge/ChoiceLaws.antt =====
-- `segments_to_merge` ends, and brings the level down to its target size where it returns.
use rkvs.Base.{
  ℕ, suc, ◌+◌, ◌-◌, ◌<◌, ◌≤◌, ◌≡◌, refl, ap, ◌∙◌, arith, false, le→leb, List, [], ◌∷◌, Option, none,
  some, lt→ltb, leb, Outcome, ok, err, panic, ◌==◌, All, length, IoError,
}
use rkvs.SsTable.Segment.{Segment}
use rkvs.SsTable.Level.{total_size, highest_from, highest_segment_number}
use rkvs.SsTable.Merge.Choice.{
  Choosing, take_if_current, choose_round, next_round, choose_loop, segments_to_merge,
}

-- The numbers of the segments go strictly down, so that none is there twice, and stay above a
-- bound.
abbrev pub Falls : List Segment → ℕ → Type 0
Falls [] n = Unit
Falls (s ∷ segments) n = (n < s.number) × All (λ t. t.number < s.number) segments × Falls segments n

module _ (P : Segment → Type 0) (level : List Segment) (target_size : ℕ) where
  -- What is chosen, the size of what is left, and the number that is to be chosen next.
  pub record IsChoice (c : Choosing) : Type 0 where
    pub all : All P c.chosen
    pub falls : Falls c.chosen c.curr_segment_number
    pub size_eq : c.size + total_size c.chosen ≡ total_size level

  -- What the loops come to: no error, and a panic only where the level is too large.
  abbrev pub Chooses : Option (Outcome IoError (List Segment)) → Type 0
  Chooses none = ⊥
  Chooses (some (ok chosen)) =
      All P chosen
      × Falls chosen 0
      × (total_size level ≤ total_size chosen + target_size)
      × (total_size chosen ≤ total_size level)
  Chooses (some (err e)) = ⊥
  Chooses (some panic) = target_size < total_size level

  -- what a round over `k` segments comes to
  abbrev Lowers : ℕ → ℕ → Outcome IoError Choosing → Type 0
  Lowers start k (ok c) = IsChoice c × (c.curr_segment_number + k ≡ start)
  Lowers start k (err e) = ⊥
  Lowers start k panic = Unit

-- Segments that are numbered in their order, from a number on.
abbrev pub IsNumbered : ℕ → List Segment → Type 0
IsNumbered n [] = Unit
IsNumbered n (s ∷ segments) = (s.number ≡ n) × IsNumbered (n + 1) segments

highest_from-IsNumbered :
    (n res : ℕ) (segments : List Segment)
    → IsNumbered n segments
    → n ≡ res + 1
    → highest_from res segments + 1 ≡ n + length segments
unfolding highest_from
highest_from-IsNumbered n res [] h e = omega arith
highest_from-IsNumbered n res (s ∷ segments) (number, h) e =
    rw (lt→ltb res s.number (omega (arith, number, e)))
      (highest_from-IsNumbered (n + 1) s.number segments h (omega (arith, number)) ∙ omega arith)

-- A round over segments whose numbers are met by none of the numbers that it goes down through.
choose_round-IsNumbered :
    (n d : ℕ) (segments : List Segment) (c : Choosing)
    → IsNumbered n segments
    → n + c.curr_segment_number ≡ 1 + (d + d)
    → length segments ≤ c.curr_segment_number
    → choose_round segments c
      ≡ ok (record c { curr_segment_number = c.curr_segment_number - length segments })
unfolding choose_round take_if_current
choose_round-IsNumbered n d [] c h odd k =
    ap (λ m. ok (record c { curr_segment_number = m })) (omega arith)
choose_round-IsNumbered n d (s ∷ segments) c (number, h) odd k =
    let other : (s.number == c.curr_segment_number) ≡ false = ground (arith, number, odd) in
    let down : c.curr_segment_number - 1 - length segments
        ≡ c.curr_segment_number - length (s ∷ segments) =
      omega arith in
    rw (other, le→leb 1 c.curr_segment_number (omega (arith, k)))
      (choose_round-IsNumbered (n + 1) d segments
          (record c { curr_segment_number = c.curr_segment_number - 1 }) h (omega (arith, odd, k))
          (omega (arith, k))
        ∙ ap (λ m. ok (record c { curr_segment_number = m })) down)

-- a round that begins at the number 0
choose_round-zero :
    (s : Segment) (segments : List Segment) (c : Choosing)
    → s.number ≡ 1
    → c.curr_segment_number ≡ 0
    → choose_round (s ∷ segments) c ≡ panic
unfolding choose_round take_if_current
choose_round-zero s segments c number e =
    let other : (s.number == c.curr_segment_number) ≡ false = ground (arith, number, e) in
    let below : leb 1 c.curr_segment_number ≡ false = ground (arith, e) in rw (other, below) refl

one_round :
    (fuel : ℕ) (level : List Segment) (target_size : ℕ) (c : Choosing)
    (r : Outcome IoError Choosing)
    → target_size < c.size
    → choose_round level c ≡ r
    → choose_loop (suc fuel) level target_size c ≡ next_round (choose_loop fuel level target_size) r
unfolding choose_loop
one_round fuel level target_size c r large h =
    rw (choose_loop, lt→ltb target_size c.size large)
      (ap (next_round (choose_loop fuel level target_size)) h)

-- A level that holds an even number of segments, numbered from 1 on in their order, as the flushes
-- into a level 0 that has none number them, and that exceeds its target size, is never merged: no
-- segment is met at its number in the first round, since the number goes down for every segment,
-- and the choice panics in a subtraction below 0 in the second.
pub segments_to_merge-panics :
    (half : ℕ) (level : List Segment) (target_size : ℕ)
    → IsNumbered 1 level
    → length level ≡ half + half
    → target_size < total_size level
    → segments_to_merge level target_size ≡ some panic
unfolding segments_to_merge total_size highest_segment_number
segments_to_merge-panics half [] target_size numbered even large = absurd (omega (arith, large))
segments_to_merge-panics half (s ∷ segments) target_size (number, h) even large =
    let level = s ∷ segments in
    let high : highest_from 0 level ≡ length level =
      omega (arith, highest_from-IsNumbered 1 0 level (number, h) refl) in
    let c : Choosing = record {
      chosen = [];
      size = total_size level;
      curr_segment_number = highest_from 0 level;
    } in
    let c' : Choosing = record c { curr_segment_number = highest_from 0 level - length level } in
    let enough : highest_from 0 level + 2 ≡ suc (suc (highest_from 0 level)) = omega arith in
    ap (λ fuel. choose_loop fuel level target_size c) enough
    ∙ (one_round (suc (highest_from 0 level)) level target_size c (ok c') large (
          choose_round-IsNumbered 1 half level c (number, h) (omega (arith, high, even))
            (omega (arith, high)))
        ∙ one_round (highest_from 0 level) level target_size c' panic large
            (choose_round-zero s segments c' number (omega (arith, high))))
