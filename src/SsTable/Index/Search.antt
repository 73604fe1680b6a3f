-- ===== src/SsTable/Index/Search.antt =====
-- The binary search of `SegmentIndex::find`.
use rkvs.Base.{
  ℕ, zero, suc, ◌+◌, ◌-◌, ◌/◌, ◌<◌, ◌≤◌, ◌≡◌, refl, ◌∙◌, inl, inr, arith, List, [], ◌∷◌, Bool, true,
  false, some, length, get_elem?, ltb, if◌then◌else◌, Outcome, ok, Bool-cases, Text, text_lt,
  text_le, text_lt_total, text_lt_trans, ltb→lt,
}
use rkvs.SsTable.Index.{SegmentIndexEntry, search_loop, binary_search}

-- The keys of the index ascend.
pub record IsAscending (indices : List SegmentIndexEntry) : Type 0 where
  pub at :
      (i j : ℕ) (e f : SegmentIndexEntry)
      → i < j
      → get_elem? indices i ≡ some e
      → get_elem? indices j ≡ some f
      → text_lt e.key f.key ≡ true

-- Entry `i` is the last whose key is not above `key`.
pub record Locates (indices : List SegmentIndexEntry) (key : Text) (i : ℕ) : Type 0 where
  pub below : (e : SegmentIndexEntry) → get_elem? indices i ≡ some e → text_le e.key key ≡ true
  pub above :
      (j : ℕ) (e : SegmentIndexEntry)
      → i < j
      → get_elem? indices j ≡ some e
      → text_lt key e.key ≡ true

text_le-false : (a b : Text) → text_le a b ≡ false → text_lt b a ≡ true
unfolding text_le
text_le-false a b h = ground (arith, text_lt_total a b)

pub get_elem?-some :
    (indices : List SegmentIndexEntry) (i : ℕ)
    → i < length indices
    → (e : SegmentIndexEntry) × (get_elem? indices i ≡ some e)
get_elem?-some [] i h = absurd (omega arith)
get_elem?-some (x ∷ xs) zero h = (x, refl)
get_elem?-some (x ∷ xs) (suc i) h = get_elem?-some xs i (omega arith)

pub in_range :
    (indices : List SegmentIndexEntry) (i : ℕ) (e : SegmentIndexEntry)
    → get_elem? indices i ≡ some e
    → i < length indices
in_range [] i e h = cc
in_range (x ∷ xs) zero e h = omega arith
in_range (x ∷ xs) (suc i) e h = omega (arith, in_range xs i e h)

nonempty :
    (indices : List SegmentIndexEntry) (e : SegmentIndexEntry)
    → get_elem? indices 0 ≡ some e
    → 0 < length indices
nonempty indices e h = in_range indices 0 e h

meets : (l r : ℕ) → ltb l r ≡ false → l ≤ r → l ≡ r
meets l r h k = ground arith

module _ (indices : List SegmentIndexEntry) (key : Text) (sorted : IsAscending indices) where
  -- what the loop keeps: everything at `l` or before is not above the key, everything behind `r` is
  record Narrows (l r : ℕ) : Type 0 where
    lo : (e : SegmentIndexEntry) → get_elem? indices l ≡ some e → text_le e.key key ≡ true
    hi :
        (j : ℕ) (e : SegmentIndexEntry)
        → r < j
        → get_elem? indices j ≡ some e
        → text_lt key e.key ≡ true

  met :
      {E : Type 0} (l r : ℕ)
      → r < length indices
      → l ≡ r
      → Narrows l r
      → (i : ℕ) × (◌≡◌ {A = Outcome E ℕ} (ok l) (ok i))
        × (i < length indices)
        × Locates indices key i
  met l r hr e n = (
    l,
    refl,
    omega (arith, e, hr),
    record { below = n.lo; above = λ j f h g. n.hi j f (omega (arith, e, h)) g },
  )

  raised :
      (l r m : ℕ) (e : SegmentIndexEntry)
      → get_elem? indices m ≡ some e
      → text_le e.key key ≡ true
      → Narrows l r
      → Narrows m r
  raised l r m e he low n = record { lo = λ f hf. grind arith; hi = n.hi }

  behind :
      (m j : ℕ) (e f : SegmentIndexEntry)
      → get_elem? indices m ≡ some e
      → get_elem? indices j ≡ some f
      → text_lt key e.key ≡ true
      → m ≤ j
      → text_lt key f.key ≡ true
  behind m j e f he hf high hm = elim (Bool-cases (ltb m j)) [
    | inl less ↦ text_lt_trans key e.key f.key high (sorted.at m j e f (ltb→lt m j less) he hf)
    | inr same ↦ grind arith
  ]

  lowered :
      (l r m : ℕ) (e : SegmentIndexEntry)
      → get_elem? indices m ≡ some e
      → text_le e.key key ≡ false
      → 0 < m
      → Narrows l r
      → Narrows l (m - 1)
  lowered l r m e he high hm n = record {
    lo = n.lo;
    hi = λ j f hj hf. behind m j e f he hf (text_le-false e.key key high) (omega (arith, hj, hm));
  }

  chosen :
      {E : Type 0} (fuel l r m : ℕ) (low b : Bool)
      → b ≡ low
      → elim b as (λ _. Outcome E ℕ) [
        | true ↦ search_loop indices key fuel m r
        | false ↦ search_loop indices key fuel l (m - 1)
      ]
        ≡ (if low then search_loop indices key fuel m r else search_loop indices key fuel l (m - 1))
  chosen fuel l r m true true h = refl
  chosen fuel l r m false false h = refl
  chosen fuel l r m true false h = cc
  chosen fuel l r m false true h = cc

  -- one round, by what it finds in the middle
  round :
      {E : Type 0} (fuel l r : ℕ) (e : SegmentIndexEntry) (low : Bool)
      → ltb l r ≡ true
      → get_elem? indices ((l + r) / 2 + 1) ≡ some e
      → text_le e.key key ≡ low
      → search_loop {E = E} indices key (suc fuel) l r ≡ (
          if low
          then search_loop indices key fuel ((l + r) / 2 + 1) r
          else search_loop indices key fuel l ((l + r) / 2 + 1 - 1))
  unfolding search_loop
  round {E = E} fuel l r e low more he hlow =
      rw (more, he, search_loop)
        (chosen {E = E} fuel l r ((l + r) / 2 + 1) low (text_le e.key key) hlow)

  search_loop-Locates :
      {E : Type 0} (fuel l r : ℕ)
      → r < length indices
      → l ≤ r
      → r ≤ fuel + l
      → Narrows l r
      → (i : ℕ) × (search_loop {E = E} indices key fuel l r ≡ ok i)
        × (i < length indices)
        × Locates indices key i
  unfolding search_loop
  search_loop-Locates zero l r hr hl hf n = met l r hr (omega arith) n
  search_loop-Locates {E = E} (suc fuel) l r hr hl hf n = elim (Bool-cases (ltb l r)) [
    | inr done ↦ rw (done, search_loop) (met l r hr (meets l r done hl) n)
    | inl more ↦
        let m : ℕ = (l + r) / 2 + 1 in
        let (e, he) = get_elem?-some indices m (omega (arith, ltb→lt l r more)) in
        elim (Bool-cases (text_le e.key key)) [
          | inl low ↦
              let (i, eq, hi, found) =
                search_loop-Locates {E = E} fuel m r hr (omega (arith, ltb→lt l r more))
                  (omega (arith, ltb→lt l r more)) (raised l r m e he low n) in
              (i, round fuel l r e true more he low ∙ eq, hi, found)
          | inr high ↦
              let (i, eq, hi, found) =
                search_loop-Locates {E = E} fuel l (m - 1) (omega (arith, ltb→lt l r more))
                  (omega arith) (omega (arith, ltb→lt l r more))
                  (lowered l r m e he high (omega arith) n) in
              (i, round fuel l r e false more he high ∙ eq, hi, found)
        ]
  ]

  starts :
      (first : SegmentIndexEntry)
      → get_elem? indices 0 ≡ some first
      → text_le first.key key ≡ true
      → Narrows 0 (length indices - 1)
  starts first at_0 low = record {
    lo = λ e h. grind arith;
    hi = λ j e h g. absurd (omega (arith, h, in_range indices j e g));
  }

  -- The search over ascending keys finds the last entry that is not above the key, when the first
  -- one is not above it.
  pub binary_search-Locates :
      {E : Type 0} (first : SegmentIndexEntry)
      → get_elem? indices 0 ≡ some first
      → text_le first.key key ≡ true
      → (i : ℕ) × (e : SegmentIndexEntry) × (binary_search {E = E} indices key ≡ ok (e, i))
        × (get_elem? indices i ≡ some e)
        × Locates indices key i
  unfolding binary_search
  binary_search-Locates {E = E} first at_0 low =
      let (i, eq, hi, found) =
        search_loop-Locates {E = E} (length indices) 0 (length indices - 1)
          (omega (arith, nonempty indices first at_0)) (omega arith) (omega arith)
          (starts first at_0 low) in
      let (e, he) = get_elem?-some indices i hi in (i, e, rw (eq, he) refl, he, found)
