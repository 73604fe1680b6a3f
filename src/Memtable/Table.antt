-- ===== src/Memtable/Table.antt =====
-- The `HashMap` of src/storage_engine/memtable.rs: a key occurs once.
use mathlib.Core.Path.{subst}
use rkvs.Base.{
  ℕ, ◌≡◌, refl, List, [], ◌∷◌, false, Option, none, some, if◌then◌else◌, Text, text_eq,
  text_eq_refl, text_eq→eq, Bool-cases, inl, inr,
}

pub record MemTableValue : Type 0 where
  pub value : Option Text
  pub sequence_number : ℕ

abbrev pub Table : Type 0
Table = List (Text × MemTableValue)

-- HashMap::get
unfoldable pub lookup : Text → Table → Option MemTableValue
lookup key [] = none
lookup key ((k, v) ∷ t) = let rest = lookup key t in if text_eq key k then some v else rest

-- the table after HashMap::insert
unfoldable pub insert : Text → MemTableValue → Table → Table
insert key value [] = (key, value) ∷ []
insert key value ((k, v) ∷ t) =
    let rest = insert key value t in if text_eq key k then (k, value) ∷ t else (k, v) ∷ rest

pub lookup-insert :
    (key : Text) (value : MemTableValue) (t : Table) → lookup key (insert key value t) ≡ some value
unfolding lookup insert
lookup-insert key value [] = rw (text_eq_refl key) refl
lookup-insert key value ((k, v) ∷ t) = elim (Bool-cases (text_eq key k)) [
  | inl same ↦ rw (same, same) refl
  | inr other ↦ rw (other, other) (lookup-insert key value t)
]

pub lookup-insert_other :
    (key other : Text) (value : MemTableValue) (t : Table)
    → text_eq other key ≡ false
    → lookup other (insert key value t) ≡ lookup other t
unfolding lookup insert
lookup-insert_other key other value [] h = rw h refl
lookup-insert_other key other value ((k, v) ∷ t) h = elim (Bool-cases (text_eq key k)) [
  | inl same ↦
      let apart : text_eq other k ≡ false =
        subst (λ x. text_eq other x ≡ false) (text_eq→eq key k same) h in
      rw (same, apart) refl
  | inr differs ↦ rw (differs, lookup-insert_other key other value t h) refl
]
