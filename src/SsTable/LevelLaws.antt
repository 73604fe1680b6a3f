-- ===== src/SsTable/LevelLaws.antt =====
-- Among the segments of level 0, which may hold the same key, a lookup takes the newest entry.
use rkvs.Base.{
  ℕ, ◌≤◌, ◌≡◌, refl, ◌∙◌, arith, ◌⊎◌, inl, inr, List, [], ◌∷◌, Bool, true, false, Option, none,
  some, ltb, ltb→lt, if◌then◌else◌, All, ok, Text,
}
use rkvs.SsTable.Entry.{SsTableEntry}
use rkvs.SsTable.Segment
use rkvs.SsTable.Segment.{Segment}
use rkvs.SsTable.Level.{newer, get_newest, overlapping_get}

-- If an entry was found, the result is one that is at least as new.
abbrev pub AtMost : Option SsTableEntry → Option SsTableEntry → Type 0
AtMost none r = Unit
AtMost (some e) none = ⊥
AtMost (some e) (some m) = e.sequence_number ≤ m.sequence_number

not-ltb→le : (a b : ℕ) → ltb a b ≡ false → b ≤ a
not-ltb→le a b h = ground arith

-- the choice between two entries, by the outcome of its test
chosen-AtMost :
    (c e : SsTableEntry) (r : Option SsTableEntry) (b : Bool)
    → ltb e.sequence_number c.sequence_number ≡ b
    → AtMost (if b then some c else some e) r
    → AtMost (some c) r × AtMost (some e) r
chosen-AtMost c e none true t h = absurd h
chosen-AtMost c e none false t h = absurd h
chosen-AtMost c e (some m) true t h =
    (h, omega (arith, h, ltb→lt e.sequence_number c.sequence_number t))
chosen-AtMost c e (some m) false t h =
    (omega (arith, h, not-ltb→le e.sequence_number c.sequence_number t), h)

chosen-cases :
    (c e : SsTableEntry) (b : Bool)
    → ((if b then some c else some e) ≡ some c) ⊎ ((if b then some c else some e) ≡ some e)
chosen-cases c e true = inl refl
chosen-cases c e false = inr refl

AtMost-refl : (r : Option SsTableEntry) → AtMost r r
AtMost-refl none = tt
AtMost-refl (some e) = omega arith

newer-AtMost : (a b r : Option SsTableEntry) → AtMost (newer a b) r → AtMost a r × AtMost b r
unfolding newer
newer-AtMost none none r h = (tt, tt)
newer-AtMost (some c) none r h = (h, tt)
newer-AtMost none (some e) r h = (tt, h)
newer-AtMost (some c) (some e) r h =
    chosen-AtMost c e r (ltb e.sequence_number c.sequence_number) refl h

newer-cases : (a b : Option SsTableEntry) → (newer a b ≡ a) ⊎ (newer a b ≡ b)
unfolding newer
newer-cases none none = inl refl
newer-cases (some c) none = inl refl
newer-cases none (some e) = inr refl
newer-cases (some c) (some e) = chosen-cases c e (ltb e.sequence_number c.sequence_number)

module _ (key : Text) (found : Segment → Option SsTableEntry) where
  -- The result is what one of the segments holds, or nothing.
  abbrev pub IsFound : Option SsTableEntry → List Segment → Type 0
  IsFound r [] = r ≡ none
  IsFound r (s ∷ segments) = (r ≡ found s) ⊎ IsFound r segments

  -- The result for these segments, when `curr` was found before.
  abbrev FoundFrom : Option SsTableEntry → Option SsTableEntry → List Segment → Type 0
  FoundFrom curr r [] = r ≡ curr
  FoundFrom curr r (s ∷ segments) = (r ≡ found s) ⊎ FoundFrom curr r segments

  FoundFrom-newer :
      (curr : Option SsTableEntry) (s : Segment) (r : Option SsTableEntry) (segments : List Segment)
      → FoundFrom (newer curr (found s)) r segments
      → (r ≡ found s) ⊎ FoundFrom curr r segments
  FoundFrom-newer curr s r [] h = elim (newer-cases curr (found s)) [
    | inl old ↦ inr (h ∙ old)
    | inr new ↦ inl (h ∙ new)
  ]
  FoundFrom-newer curr s r (x ∷ segments) (inl h) = inr (inl h)
  FoundFrom-newer curr s r (x ∷ segments) (inr h) = elim (FoundFrom-newer curr s r segments h) [
    | inl new ↦ inl new
    | inr rest ↦ inr (inr rest)
  ]

  IsFound-none :
      (r : Option SsTableEntry) (segments : List Segment)
      → FoundFrom none r segments
      → IsFound r segments
  IsFound-none r [] h = h
  IsFound-none r (s ∷ segments) (inl h) = inl h
  IsFound-none r (s ∷ segments) (inr h) = inr (IsFound-none r segments h)

  get_newest-newest :
      (segments : List Segment) (curr : Option SsTableEntry)
      → All (λ s. Segment.get s key ≡ ok (found s)) segments
      → (r : Option SsTableEntry) × (get_newest segments key curr ≡ ok r)
        × AtMost curr r
        × All (λ s. AtMost (found s) r) segments
        × FoundFrom curr r segments
  unfolding get_newest
  get_newest-newest [] curr h = (curr, refl, AtMost-refl curr, tt, refl)
  get_newest-newest (s ∷ segments) curr (h, hs) =
      let (r, e, cr, all, from) = get_newest-newest segments (newer curr (found s)) hs in
      let (old, new) = newer-AtMost curr (found s) r cr in
      (r, rw h e, old, (new, all), FoundFrom-newer curr s r segments from)

  -- Where every segment of level 0 can be looked up, the lookup in the level returns what one of
  -- them holds for the key, or nothing, and it is at least as new as what any other of them holds.
  pub overlapping_get-newest :
      (segments : List Segment)
      → All (λ s. Segment.get s key ≡ ok (found s)) segments
      → (r : Option SsTableEntry) × (overlapping_get segments key ≡ ok r)
        × All (λ s. AtMost (found s) r) segments
        × IsFound r segments
  unfolding overlapping_get
  overlapping_get-newest segments h =
      let (r, e, cr, all, from) = get_newest-newest segments none h in
      (r, e, all, IsFound-none r segments from)
