-- ===== src/SsTable/Ordered.antt =====
-- Entries in the order of their keys: the lookup of a key among them.
use rkvs.Base.{
  ◌≡◌, refl, sym, ◌∙◌, List, [], ◌∷◌, ◌++◌, true, false, Option, none, some, All, Bool-cases, inl,
  inr, if◌then◌else◌, Text, text_eq, text_lt, text_eq→eq, text_lt_irrefl, text_lt_trans, text_lt→ne,
  All-left, All_middle,
}
use rkvs.SsTable.Entry.{SsTableEntry}
use rkvs.SsTable.Segment.{scan}

-- The first entry of a key.
abbrev pub lookup_entry : Text → List SsTableEntry → Option SsTableEntry
lookup_entry key [] = none
lookup_entry key (e ∷ es) = if text_eq e.key key then some e else lookup_entry key es

abbrev pub AllBelow : Text → List SsTableEntry → Type 0
AllBelow key es = All (λ (e : SsTableEntry). text_lt e.key key ≡ true) es

abbrev pub AllAbove : Text → List SsTableEntry → Type 0
AllAbove key es = All (λ (e : SsTableEntry). text_lt key e.key ≡ true) es

-- The keys ascend strictly.
abbrev pub Ascends : List SsTableEntry → Type 0
Ascends [] = Unit
Ascends (e ∷ es) = AllAbove e.key es × Ascends es

pub gt-not_eq : (a b : Text) → text_lt b a ≡ true → text_eq a b ≡ false
gt-not_eq a b h = elim (Bool-cases (text_eq a b)) [
  | inl same ↦ absurd (text_lt_irrefl_at a b (text_eq→eq a b same) h)
  | inr differs ↦ differs
]
  where
    text_lt_irrefl_at : (a b : Text) → a ≡ b → text_lt b a ≡ true → ⊥
    text_lt_irrefl_at a b e h = cc (text_lt_irrefl b)

pub lookup_entry-AllBelow :
    (key : Text) (es : List SsTableEntry) → AllBelow key es → lookup_entry key es ≡ none
lookup_entry-AllBelow key [] h = refl
lookup_entry-AllBelow key (e ∷ es) (h, hs) =
    rw (text_lt→ne e.key key h) (lookup_entry-AllBelow key es hs)

pub lookup_entry-AllAbove :
    (key : Text) (es : List SsTableEntry) → AllAbove key es → lookup_entry key es ≡ none
lookup_entry-AllAbove key [] h = refl
lookup_entry-AllAbove key (e ∷ es) (h, hs) =
    rw (gt-not_eq e.key key h) (lookup_entry-AllAbove key es hs)

pub AllAbove-trans :
    (a b : Text) (es : List SsTableEntry) → text_lt a b ≡ true → AllAbove b es → AllAbove a es
AllAbove-trans a b [] h k = tt
AllAbove-trans a b (e ∷ es) h (k, ks) = (text_lt_trans a b e.key h k, AllAbove-trans a b es h ks)

pub AllBelow-trans :
    (a b : Text) (es : List SsTableEntry) → text_lt a b ≡ true → AllBelow a es → AllBelow b es
AllBelow-trans a b [] h k = tt
AllBelow-trans a b (e ∷ es) h (k, ks) = (text_lt_trans e.key a b k h, AllBelow-trans a b es h ks)

-- `scan` stops at the first larger key, and misses nothing on ascending keys.
pub scan-Ascends :
    (key : Text) (es : List SsTableEntry) → Ascends es → scan key es ≡ lookup_entry key es
unfolding scan
scan-Ascends key [] h = refl
scan-Ascends key (e ∷ es) (above, h) = elim (Bool-cases (text_eq e.key key)) [
  | inl same ↦ rw (same) refl
  | inr differs ↦ elim (Bool-cases (text_lt key e.key)) [
    | inl larger ↦
        rw (differs, larger)
          (sym (lookup_entry-AllAbove key es (AllAbove-trans key e.key es larger above)))
    | inr smaller ↦ rw (differs, smaller) (scan-Ascends key es h)
  ]
]

-- where one part of a list does not have the key, the other decides
pub lookup_entry-skip_left :
    (key : Text) (xs ys : List SsTableEntry)
    → lookup_entry key xs ≡ none
    → lookup_entry key (xs ++ ys) ≡ lookup_entry key ys
lookup_entry-skip_left key [] ys h = refl
lookup_entry-skip_left key (x ∷ xs) ys h = elim (Bool-cases (text_eq x.key key)) [
  | inl same ↦ absurd (some_not_none x (sym (rw same) ∙ h))
  | inr differs ↦ rw differs (lookup_entry-skip_left key xs ys (sym (rw differs) ∙ h))
]
  where
    some_not_none : (e : SsTableEntry) → ◌≡◌ {A = Option SsTableEntry} (some e) none → ⊥
    some_not_none e h = cc

pub lookup_entry-skip_right :
    (key : Text) (xs ys : List SsTableEntry)
    → lookup_entry key ys ≡ none
    → lookup_entry key (xs ++ ys) ≡ lookup_entry key xs
lookup_entry-skip_right key [] ys h = h
lookup_entry-skip_right key (x ∷ xs) ys h = rw (lookup_entry-skip_right key xs ys h)

-- Ascending keys of a list that is divided: each part ascends, and the first is below the second.
pub Ascends-left : (xs ys : List SsTableEntry) → Ascends (xs ++ ys) → Ascends xs
Ascends-left [] ys h = tt
Ascends-left (x ∷ xs) ys (above, h) = (All-left _ xs ys above, Ascends-left xs ys h)

pub Ascends-right : (xs ys : List SsTableEntry) → Ascends (xs ++ ys) → Ascends ys
Ascends-right [] ys h = h
Ascends-right (x ∷ xs) ys (above, h) = Ascends-right xs ys h

pub AllBelow-Ascends :
    (xs : List SsTableEntry) (y : SsTableEntry) (ys : List SsTableEntry)
    → Ascends (xs ++ y ∷ ys)
    → AllBelow y.key xs
AllBelow-Ascends [] y ys h = tt
AllBelow-Ascends (x ∷ xs) y ys (above, h) = (All_middle _ xs y ys above, AllBelow-Ascends xs y ys h)
