-- ===== src/Memtable/Listing.antt =====
-- The sorted listing of a directory does not depend on the order in which it is read.
use mathlib.Core.List.{Permᴰ}
use rkvs.Base.{
  ◌≡◌, refl, sym, ◌∙◌, List, [], ◌∷◌, true, Bool-cases, inl, inr, Text, text_eq, text_lt,
  text_eq→eq, text_lt_trans, text_lt_total, text_lt_asymm,
}
use rkvs.SsTable.Writer.Flush.{insert_key, sort}
use rkvs.SsTable.Writer.SortLaws.{Above, AscendsKeys}

insert_key-lt :
    (a b : Text) (l : List Text)
    → text_lt a b ≡ true
    → insert_key a (insert_key b l) ≡ insert_key b (insert_key a l)
unfolding insert_key
insert_key-lt a b [] h = rw (h, text_lt_asymm a b h) refl
insert_key-lt a b (x ∷ l) h = elim (Bool-cases (text_lt b x)) [
  | inl before ↦ rw (before, h, text_lt_trans a b x h before, text_lt_asymm a b h, before) refl
  | inr behind ↦ elim (Bool-cases (text_lt a x)) [
    | inl between ↦ rw (behind, between, text_lt_asymm a b h, behind) refl
    | inr beyond ↦ rw (behind, beyond, behind, insert_key-lt a b l h) refl
  ]
]

insert_key_comm :
    (a b : Text) (l : List Text) → insert_key a (insert_key b l) ≡ insert_key b (insert_key a l)
insert_key_comm a b l = elim (Bool-cases (text_lt a b)) [
  | inl less ↦ insert_key-lt a b l less
  | inr not ↦ elim (Bool-cases (text_eq a b)) [
    | inl same ↦ rw (text_eq→eq a b same) refl
    | inr differs ↦ sym (insert_key-lt b a l (text_lt_total a b not differs))
  ]
]

sort-permuted : {xs ys : List Text} → Permᴰ xs ys → sort xs ≡ sort ys
unfolding sort
sort-permuted Permᴰ.nil = refl
sort-permuted (Permᴰ.cons e d) = rw (e, sort-permuted d) refl
sort-permuted (Permᴰ.swap {a = a} {b = b} {l = l} e f) =
    rw (sym e, sym f) (insert_key_comm a b (sort l))
sort-permuted (Permᴰ.trans d e) = sort-permuted d ∙ sort-permuted e

insert_key-Above : (k : Text) (l : List Text) → Above k l → insert_key k l ≡ k ∷ l
unfolding insert_key
insert_key-Above k [] h = refl
insert_key-Above k (x ∷ l) (h, hs) = rw h refl

pub sort-ascending : (l : List Text) → AscendsKeys l → sort l ≡ l
unfolding sort
sort-ascending [] h = refl
sort-ascending (k ∷ l) (above, h) = rw (sort-ascending l h) (insert_key-Above k l above)

-- names in any order, sorted
pub sort-listed :
    (names paths : List Text) → Permᴰ names paths → AscendsKeys paths → sort names ≡ paths
sort-listed names paths p h = sort-permuted p ∙ sort-ascending paths h
