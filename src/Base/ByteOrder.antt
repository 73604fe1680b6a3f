-- ===== src/Base/ByteOrder.antt =====
-- The order of `String`s and of numbers in hexadecimal digits agree.
use Prim.Native.Nat.{ℕ, zero, suc, ◌/◌, ◌%◌, ◌^◌, ◌<◌}
use mathlib.Core.Path.{◌≡◌, refl, ◌∙◌, sym}
use mathlib.Core.Logic.{inl, inr}
use mathlib.Core.Bool.{true}
use mathlib.Core.List.{[], ◌∷◌, ◌++◌}
use native.Mathlib.Omega.{arith}
use native.Mathlib.Nat.{pow-suc}
use rkvs.Base.Tests.{ltb, ltb→lt, Bool-cases}
use rkvs.Base.Lists.{length}
use rkvs.Base.Strings.{Text, text_lt}
use rkvs.Base.Hex.{hex_digit, fixed, length-fixed}

-- behind the same bytes
pub text_lt-prefix : (xs as' bs : Text) → text_lt (xs ++ as') (xs ++ bs) ≡ text_lt as' bs
unfolding text_lt
text_lt-prefix [] as' bs = refl
text_lt-prefix (x ∷ xs) as' bs = ground (arith, text_lt-prefix xs as' bs)

-- in front of other bytes
pub text_lt-append :
    (xs ys as' bs : Text)
    → length xs ≡ length ys
    → text_lt xs ys ≡ true
    → text_lt (xs ++ as') (ys ++ bs) ≡ true
unfolding text_lt
text_lt-append [] [] as' bs e h = cc
text_lt-append [] (y ∷ ys) as' bs e h = absurd (omega arith)
text_lt-append (x ∷ xs) [] as' bs e h = absurd (omega arith)
text_lt-append (x ∷ xs) (y ∷ ys) as' bs e h =
    ground (arith, text_lt-append xs ys as' bs (omega arith))

hex_digit_lt : (m n : ℕ) → m < n → n < 16 → text_lt (hex_digit m ∷ []) (hex_digit n ∷ []) ≡ true
unfolding text_lt
hex_digit_lt m n h k = ground arith

-- The digits of a smaller number come first.
pub text_lt-fixed : (w m n : ℕ) → m < n → n < 16 ^ w → text_lt (fixed w m) (fixed w n) ≡ true
unfolding fixed
text_lt-fixed zero m n h k = absurd (omega arith)
text_lt-fixed (suc w) m n h k = elim (Bool-cases (ltb (m / 16) (n / 16))) [
  | inl less ↦
      text_lt-append (fixed w (m / 16)) (fixed w (n / 16)) (hex_digit (m % 16) ∷ [])
        (hex_digit (n % 16) ∷ []) (length-fixed w (m / 16) ∙ sym (length-fixed w (n / 16)))
        (text_lt-fixed w (m / 16) (n / 16) (ltb→lt (m / 16) (n / 16) less)
          (omega (arith, pow-suc 16 w)))
  | inr not ↦
      let same : m / 16 ≡ n / 16 = ground arith in
      rw same (
        text_lt-prefix (fixed w (n / 16)) (hex_digit (m % 16) ∷ []) (hex_digit (n % 16) ∷ [])
        ∙ hex_digit_lt (m % 16) (n % 16) (omega (arith, same)) (omega arith))
]
