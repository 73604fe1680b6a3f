-- ===== src/Base/Buffer.antt =====
-- Byte buffers under Rust's range indexing, which panics when a range is out of bounds.
use Prim.Native.Nat.{ℕ, zero, suc, ◌+◌, ◌-◌}
use mathlib.Core.Path.{◌≡◌, refl, sym, ap, ◌∙◌}
use mathlib.Core.Bool.{◌&&◌}
use mathlib.Core.List.{List, [], ◌∷◌, ◌++◌, append_assoc}
use mathlib.Core.Option.{some}
use native.Mathlib.Omega.{arith}
use rkvs.Base.Tests.{leb, ◌==◌, if◌then◌else◌}
use rkvs.Base.Lists.{
  length, take, drop, replicate, get_elem?, length-append, take_left, drop_left, replicate-append,
  length-replicate,
}
use rkvs.Base.Bytes.{length-le_bytes, length-be_bytes}
use rkvs.Base.Results.{Outcome, ok, panic, unwrap}

-- Vec::new() followed by resize(n, 0)
abbrev pub zeroed : ℕ → List ℕ
zeroed n = replicate n 0

-- &buf[a..b]
unfoldable pub slice : {E : Type 0} → List ℕ → ℕ → ℕ → Outcome E (List ℕ)
slice buf a b = if leb a b && leb b (length buf) then ok (take (b - a) (drop a buf)) else panic

-- buf[i]
unfoldable pub index : {E : Type 0} → List ℕ → ℕ → Outcome E ℕ
index buf i = unwrap (get_elem? buf i)

-- buf[a..b].copy_from_slice(xs), which also wants the lengths to be equal
unfoldable pub copy_to : {E : Type 0} → List ℕ → ℕ → ℕ → List ℕ → Outcome E (List ℕ)
copy_to buf a b xs =
    if leb a b && (leb b (length buf) && (b - a == length xs))
    then ok (take a buf ++ (xs ++ drop b buf))
    else panic

-- What stands at a known place of a buffer is what a slice there returns.
pub slice_mid :
    {E : Type 0} (buf pre xs suf : List ℕ) (a b : ℕ)
    → buf ≡ pre ++ (xs ++ suf)
    → a ≡ length pre
    → b ≡ a + length xs
    → slice {E = E} buf a b ≡ ok xs
unfolding slice
slice_mid buf pre xs suf a b e ha hb =
    rw (e, drop_left a pre (xs ++ suf) ha, take_left (b - a) xs suf (omega arith))
      (ground (arith, length-append pre (xs ++ suf), length-append xs suf))

get_elem?_mid :
    (pre : List ℕ) (x : ℕ) (suf : List ℕ) (i : ℕ)
    → i ≡ length pre
    → get_elem? (pre ++ (x ∷ suf)) i ≡ some x
get_elem?_mid [] x suf zero e = refl
get_elem?_mid [] x suf (suc i) e = absurd (omega arith)
get_elem?_mid (p ∷ pre) x suf zero e = absurd (omega arith)
get_elem?_mid (p ∷ pre) x suf (suc i) e = get_elem?_mid pre x suf i (omega arith)

pub index_mid :
    {E : Type 0} (buf pre : List ℕ) (x : ℕ) (suf : List ℕ) (i : ℕ)
    → buf ≡ pre ++ (x ∷ suf)
    → i ≡ length pre
    → index {E = E} buf i ≡ ok x
unfolding index
index_mid buf pre x suf i e hi = rw (e, get_elem?_mid pre x suf i hi)

-- A copy over `old` puts `xs` in its place.
pub copy_mid :
    {E : Type 0} (pre old suf xs : List ℕ) {buf : List ℕ} (a b : ℕ)
    → buf ≡ pre ++ (old ++ suf)
    → a ≡ length pre
    → b ≡ a + length xs
    → length old ≡ length xs
    → copy_to {E = E} buf a b xs ≡ ok (pre ++ (xs ++ suf))
unfolding copy_to
copy_mid pre old suf xs a b e ha hb hl =
    rw (e, take_left a pre (old ++ suf) ha, cut)
      (ground (arith, length-append pre (old ++ suf), length-append old suf))
  where
    cut : drop b (pre ++ (old ++ suf)) ≡ suf
    cut =
        ap (drop b) (sym (append_assoc pre old suf))
        ∙ drop_left b (pre ++ old) suf (omega (arith, length-append pre old))

-- The next part of a buffer that is filled from the left.
pub copy_next :
    {E : Type 0} (pre xs : List ℕ) (m : ℕ) {buf : List ℕ} (a b n : ℕ)
    → buf ≡ pre ++ zeroed n
    → n ≡ length xs + m
    → a ≡ length pre
    → b ≡ a + length xs
    → copy_to {E = E} buf a b xs ≡ ok ((pre ++ xs) ++ zeroed m)
copy_next pre xs m {buf} a b n e hn ha hb =
    rw (append_assoc pre xs (zeroed m))
      (copy_mid pre (zeroed (length xs)) (zeroed m) xs a b split ha hb (length-replicate _ 0))
  where
    split : buf ≡ pre ++ (zeroed (length xs) ++ zeroed m)
    split = e ∙ ap (λ l. pre ++ l) (ap zeroed hn ∙ sym (replicate-append (length xs) m 0))

-- `length-append` at bytes, in the form that a rule set takes
pub length-append_bytes : (xs ys : List ℕ) → length (xs ++ ys) ≡ length xs + length ys
length-append_bytes xs ys = length-append xs ys

pub length-zeroed : (n : ℕ) → length (zeroed n) ≡ n
length-zeroed n = length-replicate n 0

-- `omega lengths` compares the sizes of the parts of a buffer.
pub ruleset lengths = (arith, length-append_bytes, length-le_bytes, length-be_bytes, length-zeroed)
