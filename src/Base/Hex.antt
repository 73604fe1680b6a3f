-- ===== src/Base/Hex.antt =====
-- Numbers in hexadecimal, as `format!("{:x}", n)` writes and `u64::from_str_radix(s, 16)` reads
-- them.
use Prim.Native.Nat.{ℕ, zero, suc, ◌+◌, ◌-◌, ◌*◌, ◌/◌, ◌%◌, ◌^◌, ◌<◌}
use mathlib.Core.Path.{◌≡◌, refl, ap, ◌∙◌, sym}
use mathlib.Core.Logic.{inl, inr}
use mathlib.Core.Bool.{false, ◌&&◌}
use mathlib.Core.List.{List, [], ◌∷◌, ◌++◌, append_assoc, append-nil}
use mathlib.Core.Option.{Option, none, some}
use native.Mathlib.Omega.{arith}
use native.Mathlib.Nat.{pow-suc}
use rkvs.Base.Tests.{
  ltb, leb, ◌==◌, if◌then◌else◌, lt→ltb, le→leb, ltb→lt, Bool-cases, Option-cases,
}
use rkvs.Base.Lists.{length, replicate, length-append}
use rkvs.Base.Results.{Outcome, ok, panic}

abbrev pub hex_digit : ℕ → ℕ
hex_digit d = if ltb d 10 then 48 + d else 87 + d

-- The digits of `n`, with none in front that could be left out; a u64 has 16 at most.
unfoldable pub hex_digits : ℕ → ℕ → List ℕ
hex_digits zero n = []
hex_digits (suc fuel) n =
    let more = hex_digits fuel (n / 16) in
    if ltb n 16 then hex_digit n ∷ [] else more ++ hex_digit (n % 16) ∷ []

unfoldable pub to_hex : ℕ → List ℕ
to_hex n = hex_digits 16 n

-- Zeros are put in front up to the width `w`; `w - s.len()` is a usize.
unfoldable pub pad : {E : Type 0} → ℕ → List ℕ → Outcome E (List ℕ)
pad w s = if leb (length s) w then ok (replicate (w - length s) 48 ++ s) else panic

unfoldable pub digit_value : ℕ → Option ℕ
digit_value c =
    if leb 48 c && leb c 57
    then some (c - 48)
    else if leb 97 c && leb c 102
    then some (c - 87)
    else if leb 65 c && leb c 70
    then some (c - 55)
    else none

unfoldable pub read_digits : ℕ → List ℕ → Option ℕ
read_digits acc [] = some acc
read_digits acc (c ∷ cs) = elim (digit_value c) [
  | none ↦ none
  | some d ↦ read_digits (acc * 16 + d) cs
]

-- A plus sign may stand in front; no digit at all is an error.
unfoldable pub from_hex : List ℕ → Option ℕ
unfolding read_digits
from_hex [] = none
from_hex (c ∷ []) = read_digits 0 (c ∷ [])
from_hex (c ∷ d ∷ cs) = if c == b'+' then read_digits 0 (d ∷ cs) else read_digits 0 (c ∷ d ∷ cs)

-- The `w` lowest digits of `n`, zeros in front included.
unfoldable pub fixed : ℕ → ℕ → List ℕ
fixed zero n = []
fixed (suc w) n = fixed w (n / 16) ++ hex_digit (n % 16) ∷ []

pub length-fixed : (w n : ℕ) → length (fixed w n) ≡ w
unfolding fixed
length-fixed zero n = refl
length-fixed (suc w) n =
    omega
      (arith, length-append (fixed w (n / 16)) (hex_digit (n % 16) ∷ []), length-fixed w (n / 16))

zeros_snoc : (w : ℕ) → ◌++◌ {A = ℕ} (replicate w 48) (48 ∷ []) ≡ 48 ∷ replicate w 48
zeros_snoc zero = refl
zeros_snoc (suc w) = ap (λ l. 48 ∷ l) (zeros_snoc w)

fixed_zero : (w : ℕ) → fixed w 0 ≡ replicate w 48
unfolding fixed
fixed_zero zero = refl
fixed_zero (suc w) = rw (fixed_zero w) (zeros_snoc w)

-- The digits of `n` are the last of the fixed ones, and zeros are the others.
abbrev Pads : ℕ → ℕ → List ℕ → Type 0
Pads w n digits = (k : ℕ) × (k + length digits ≡ w) × (replicate k 48 ++ digits ≡ fixed w n)

Pads-one : (w n : ℕ) → n < 16 → Pads (suc w) n (hex_digit n ∷ [])
unfolding fixed
Pads-one w n h = (w, omega arith, rw (quotient, fixed_zero w, remainder))
  where
    quotient : n / 16 ≡ 0
    quotient = omega arith

    remainder : n % 16 ≡ n
    remainder = omega arith

Pads-more :
    (w n : ℕ) (digits : List ℕ)
    → Pads (suc w) (n / 16) digits
    → Pads (suc (suc w)) n (digits ++ hex_digit (n % 16) ∷ [])
unfolding fixed
Pads-more w n digits (k, e, same) = (
  k,
  omega (arith, length-append digits (hex_digit (n % 16) ∷ [])),
  sym (append_assoc (replicate k 48) digits (hex_digit (n % 16) ∷ []))
      ∙ ap (λ l. l ++ hex_digit (n % 16) ∷ []) same,
)

hex_digits-Pads :
    (w fuel n : ℕ) → n < 16 ^ suc w → n < 16 ^ fuel → Pads (suc w) n (hex_digits fuel n)
unfolding hex_digits
hex_digits-Pads w zero n h hf =
    let small : n ≡ 0 = omega arith in
    (suc w, omega arith, rw (small, append-nil) (sym (fixed_zero (suc w))))
hex_digits-Pads zero (suc f) n h hf = rw (lt→ltb n 16 (omega arith)) (Pads-one zero n (omega arith))
hex_digits-Pads (suc w) (suc f) n h hf = elim (Bool-cases (ltb n 16)) [
  | inl small ↦ rw small (Pads-one (suc w) n (ltb→lt n 16 small))
  | inr large ↦ rw large (
      Pads-more w n (hex_digits f (n / 16)) (
        hex_digits-Pads w f (n / 16) (omega (arith, pow-suc 16 (suc w)))
          (omega (arith, pow-suc 16 f))))
]

pad-Pads :
    {E : Type 0} (w n : ℕ) (digits : List ℕ)
    → Pads w n digits
    → pad {E = E} w digits ≡ ok (fixed w n)
unfolding pad
pad-Pads w n digits (k, e, same) =
    let gap : w - length digits ≡ k = omega arith in
    rw (le→leb (length digits) w (omega arith), gap, same)

-- What `format!` and the padding come to: the number in exactly `w` digits.
pub pad-to_hex :
    {E : Type 0} (w n : ℕ)
    → n < 16 ^ suc w
    → n < 16 ^ 16
    → pad {E = E} (suc w) (to_hex n) ≡ ok (fixed (suc w) n)
unfolding to_hex
pad-to_hex w n h hf = pad-Pads (suc w) n (hex_digits 16 n) (hex_digits-Pads w 16 n h hf)

digit_value-hex_digit : (d : ℕ) → d < 16 → digit_value (hex_digit d) ≡ some d
unfolding digit_value
digit_value-hex_digit d h = ground arith

read_digits-append :
    (acc : ℕ) (xs : List ℕ) (d : ℕ) (a : ℕ)
    → read_digits acc xs ≡ some a
    → d < 16
    → read_digits acc (xs ++ hex_digit d ∷ []) ≡ some (a * 16 + d)
unfolding read_digits
read_digits-append acc [] d a h hd = ground (arith, digit_value-hex_digit d)
read_digits-append acc (c ∷ xs) d a h hd = elim (Option-cases (digit_value c)) [
  | inl e ↦ ground (arith, e, h)
  | inr (v, e) ↦ ground (arith, e, h, read_digits-append (acc * 16 + v) xs d a)
]

read_digits-fixed : (w n : ℕ) → n < 16 ^ w → read_digits 0 (fixed w n) ≡ some n
unfolding read_digits fixed
read_digits-fixed zero n h = ap some (omega arith)
read_digits-fixed (suc w) n h =
    let ih = read_digits-fixed w (n / 16) (omega (arith, pow-suc 16 w)) in
    read_digits-append 0 (fixed w (n / 16)) (n % 16) (n / 16) ih (omega arith)
    ∙ ap some (omega arith)

not_plus : (d : ℕ) → d < 16 → (hex_digit d == b'+') ≡ false
not_plus d h = ground arith

abbrev NoPlus : List ℕ → Type 0
NoPlus [] = Unit
NoPlus (c ∷ cs) = ((c == b'+') ≡ false) × NoPlus cs

NoPlus-snoc : (cs : List ℕ) (c : ℕ) → NoPlus cs → (c == b'+') ≡ false → NoPlus (cs ++ c ∷ [])
NoPlus-snoc [] c h k = (k, tt)
NoPlus-snoc (x ∷ cs) c (h, hs) k = (h, NoPlus-snoc cs c hs k)

NoPlus-fixed : (w n : ℕ) → NoPlus (fixed w n)
unfolding fixed
NoPlus-fixed zero n = tt
NoPlus-fixed (suc w) n =
    NoPlus-snoc (fixed w (n / 16)) _ (NoPlus-fixed w (n / 16)) (not_plus (n % 16) (omega arith))

from_hex-read_digits : (cs : List ℕ) → NoPlus cs → 0 < length cs → from_hex cs ≡ read_digits 0 cs
unfolding from_hex
from_hex-read_digits [] h k = absurd (omega arith)
from_hex-read_digits (c ∷ []) h k = refl
from_hex-read_digits (c ∷ d ∷ cs) (h, hs) k = rw h

-- The digits are read back.
pub from_hex-fixed : (w n : ℕ) → n < 16 ^ suc w → from_hex (fixed (suc w) n) ≡ some n
from_hex-fixed w n h =
    from_hex-read_digits (fixed (suc w) n) (NoPlus-fixed (suc w) n)
      (omega (arith, length-fixed (suc w) n))
    ∙ read_digits-fixed (suc w) n h
