-- ===== src/SsTable/Writer/SortLaws.antt =====
-- The keys of a table in their order: `sort` keeps the keys, and the entries that are written in
-- this order have the table's values.
use rkvs.Base.{
  ◌≡◌, refl, ap, ◌∙◌, List, [], ◌∷◌, Bool, true, false, Option, none, some, All, Bool-cases, inl,
  inr, if◌then◌else◌, Text, text_eq, text_lt, text_eq_refl, text_eq→eq, text_lt_trans,
  text_lt_total,
}
use rkvs.SsTable.Entry.{SsTableEntry}
use rkvs.SsTable.Ordered.{Ascends, AllAbove, lookup_entry}
use rkvs.SsTable.Writer.Flush.{keys, insert_key, sort, from}
use rkvs.Memtable.Table.{Table, MemTableValue, lookup, insert}

abbrev pub Above : Text → List Text → Type 0
Above k ks = All (λ (x : Text). text_lt k x ≡ true) ks

abbrev pub AscendsKeys : List Text → Type 0
AscendsKeys [] = Unit
AscendsKeys (k ∷ ks) = Above k ks × AscendsKeys ks

-- No key stands twice.
abbrev pub DistinctKeys : List Text → Type 0
DistinctKeys [] = Unit
DistinctKeys (k ∷ ks) = All (λ (x : Text). text_eq k x ≡ false) ks × DistinctKeys ks

Above-trans : (a b : Text) (ks : List Text) → text_lt a b ≡ true → Above b ks → Above a ks
Above-trans a b [] h hs = tt
Above-trans a b (k ∷ ks) h (hk, hs) = (text_lt_trans a b k h hk, Above-trans a b ks h hs)

Above-insert_key :
    (a k : Text) (ks : List Text) → text_lt a k ≡ true → Above a ks → Above a (insert_key k ks)
unfolding insert_key
Above-insert_key a k [] h hs = (h, tt)
Above-insert_key a k (x ∷ ks) h (hx, hs) = elim (Bool-cases (text_lt k x)) [
  | inl less ↦ rw less (h, (hx, hs))
  | inr not ↦ rw not (hx, Above-insert_key a k ks h hs)
]

insert_key-AscendsKeys :
    (k : Text) (ks : List Text)
    → All (λ (x : Text). text_eq k x ≡ false) ks
    → AscendsKeys ks
    → AscendsKeys (insert_key k ks)
unfolding insert_key
insert_key-AscendsKeys k [] d h = (tt, tt)
insert_key-AscendsKeys k (x ∷ ks) (dx, d) (above, h) = elim (Bool-cases (text_lt k x)) [
  | inl less ↦ rw less ((less, Above-trans k x ks less above), (above, h))
  | inr not ↦
      rw not
        (Above-insert_key x k ks (text_lt_total k x not dx) above, insert_key-AscendsKeys k ks d h)
]

-- a property of all keys that are inserted, and of all that are sorted
All-insert_key :
    (P : Text → Type 0) (k : Text) (ks : List Text) → P k → All P ks → All P (insert_key k ks)
unfolding insert_key
All-insert_key P k [] h hs = (h, tt)
All-insert_key P k (x ∷ ks) h (hx, hs) = elim (Bool-cases (text_lt k x)) [
  | inl less ↦ rw less (h, (hx, hs))
  | inr not ↦ rw not (hx, All-insert_key P k ks h hs)
]

pub All-sort : (P : Text → Type 0) (ks : List Text) → All P ks → All P (sort ks)
unfolding sort
All-sort P [] h = tt
All-sort P (k ∷ ks) (h, hs) = All-insert_key P k (sort ks) h (All-sort P ks hs)

-- Distinct keys are sorted in ascending order.
pub sort-AscendsKeys : (ks : List Text) → DistinctKeys ks → AscendsKeys (sort ks)
unfolding sort
sort-AscendsKeys [] h = tt
sort-AscendsKeys (k ∷ ks) (d, h) =
    insert_key-AscendsKeys k (sort ks) (All-sort (λ x. text_eq k x ≡ false) ks d)
      (sort-AscendsKeys ks h)

has : Text → List Text → Bool
has key [] = false
has key (k ∷ ks) = if text_eq k key then true else has key ks

has-insert_key : (key k : Text) (ks : List Text) → has key (insert_key k ks) ≡ has key (k ∷ ks)
unfolding insert_key has
has-insert_key key k [] = refl
has-insert_key key k (x ∷ ks) = elim (Bool-cases (text_lt k x)) [
  | inl less ↦ rw less refl
  | inr not ↦ rw (not, has-insert_key key k ks) (swap (text_eq x key) (text_eq k key) (has key ks))
]
  where
    swap :
        (a b c : Bool)
        → (if a then true else (if b then true else c))
          ≡ (if b then true else (if a then true else c))
    swap true true c = refl
    swap true false c = refl
    swap false b c = refl

has-sort : (key : Text) (ks : List Text) → has key (sort ks) ≡ has key ks
unfolding sort has
has-sort key [] = refl
has-sort key (k ∷ ks) = has-insert_key key k (sort ks) ∙ rw (has-sort key ks) refl

-- the value of a key, and the entry that is written for it
abbrev value_or : Option MemTableValue → MemTableValue
value_or none = record { value = none; sequence_number = 0 }
value_or (some v) = v

abbrev pub entry_at : Table → Text → SsTableEntry
entry_at t k = from k (value_or (lookup k t))

abbrev pub entries : Table → List Text → List SsTableEntry
entries t [] = []
entries t (k ∷ ks) = entry_at t k ∷ entries t ks

-- the entry of what a table has for a key
abbrev pub entry_of : Text → Option MemTableValue → Option SsTableEntry
entry_of key none = none
entry_of key (some v) = some (from key v)

abbrev pub IsIn : Table → Text → Type 0
IsIn t k = (v : MemTableValue) × (lookup k t ≡ some v)

lookup_entry-entries :
    (t : Table) (key : Text) (ks : List Text)
    → lookup_entry key (entries t ks) ≡ (if has key ks then some (entry_at t key) else none)
unfolding has
lookup_entry-entries t key [] = refl
lookup_entry-entries t key (k ∷ ks) = elim (Bool-cases (text_eq k key)) [
  | inl same ↦ rw (same) (ap (λ k. some (entry_at t k)) (text_eq→eq k key same))
  | inr differs ↦ rw (differs, lookup_entry-entries t key ks) refl
]

text_eq_sym : (a b : Text) → text_eq a b ≡ text_eq b a
unfolding text_eq
text_eq_sym a b = elim (Bool-cases (text_eq a b)) [
  | inl same ↦ cc (text_eq→eq a b same)
  | inr differs ↦ elim (Bool-cases (text_eq b a)) [
    | inl same ↦ cc (text_eq→eq b a same)
    | inr other ↦ cc
  ]
]

has-keys :
    (key : Text) (t : Table)
    → (if has key (keys t) then some (entry_at t key) else none) ≡ entry_of key (lookup key t)
unfolding has lookup
has-keys key [] = refl
has-keys key ((k, v) ∷ t) = elim (Bool-cases (text_eq key k)) [
  | inl same ↦ rw (text_eq_sym k key, same) refl
  | inr differs ↦ rw (text_eq_sym k key, differs) (has-keys key t)
]

IsIn-next :
    (t : Table) (k : Text) (v : MemTableValue) (ks : List Text)
    → All (IsIn t) ks
    → All (IsIn ((k, v) ∷ t)) ks
unfolding lookup
IsIn-next t k v [] h = tt
IsIn-next t k v (x ∷ ks) ((w, h), hs) = (
  elim (Bool-cases (text_eq x k)) [
    | inl same ↦ (v, rw same refl)
    | inr differs ↦ (w, rw differs h)
  ],
  IsIn-next t k v ks hs,
)

pub keys-IsIn : (t : Table) → All (IsIn t) (keys t)
unfolding lookup
keys-IsIn [] = tt
keys-IsIn ((k, v) ∷ t) = ((v, rw (text_eq_refl k) refl), IsIn-next t k v (keys t) (keys-IsIn t))

AllAbove-entries : (t : Table) (k : Text) (ks : List Text) → Above k ks → AllAbove k (entries t ks)
AllAbove-entries t k [] h = tt
AllAbove-entries t k (x ∷ ks) (h, hs) = (h, AllAbove-entries t k ks hs)

pub Ascends-entries : (t : Table) (ks : List Text) → AscendsKeys ks → Ascends (entries t ks)
Ascends-entries t [] h = tt
Ascends-entries t (k ∷ ks) (above, h) = (AllAbove-entries t k ks above, Ascends-entries t ks h)

-- The entries that are written for a table are those of its keys.
pub lookup_entry-sort :
    (t : Table) (key : Text)
    → lookup_entry key (entries t (sort (keys t))) ≡ entry_of key (lookup key t)
lookup_entry-sort t key =
    lookup_entry-entries t key (sort (keys t))
    ∙ (ap (λ b. if b then some (entry_at t key) else none) (has-sort key (keys t)) ∙ has-keys key t)

differs-insert :
    (k key : Text) (v : MemTableValue) (t : Table)
    → text_eq k key ≡ false
    → All (λ (x : Text). text_eq k x ≡ false) (keys t)
    → All (λ (x : Text). text_eq k x ≡ false) (keys (insert key v t))
unfolding insert
differs-insert k key v [] h hs = (h, tt)
differs-insert k key v ((x, w) ∷ t) h (hx, hs) = elim (Bool-cases (text_eq key x)) [
  | inl same ↦ rw same (hx, hs)
  | inr other ↦ rw other (hx, differs-insert k key v t h hs)
]

-- The keys of a table stay distinct when one is inserted.
pub insert-DistinctKeys :
    (key : Text) (v : MemTableValue) (t : Table)
    → DistinctKeys (keys t)
    → DistinctKeys (keys (insert key v t))
unfolding insert
insert-DistinctKeys key v [] h = (tt, tt)
insert-DistinctKeys key v ((x, w) ∷ t) (d, h) = elim (Bool-cases (text_eq key x)) [
  | inl same ↦ rw same (d, h)
  | inr other ↦
      rw other
        (differs-insert x key v t (text_eq_sym x key ∙ other) d, insert-DistinctKeys key v t h)
]
