-- ===== src/Base/Strings.antt =====
-- Rust's `String`: a vector of bytes that is valid UTF-8, compared byte by byte.
use Prim.Native.Nat.{ℕ, zero, suc}
use mathlib.Core.Path.{◌≡◌}
use mathlib.Core.Bool.{Bool, true, false, ◌&&◌, ◌||◌}
use mathlib.Core.List.{List, [], ◌∷◌}
use mathlib.Core.Option.{Option, none, some}
use rkvs.Base.Tests.{ltb, leb, ◌==◌, if◌then◌else◌}
use rkvs.Base.Results.{Outcome, ok, err, unwrap}

-- The bytes of a `String`. That they are valid UTF-8 is said by `IsUtf8` where it matters.
abbrev pub Text : Type 0
Text = List ℕ

-- A leading byte: how many bytes must follow, and the range of the first of them.
abbrev lead : ℕ → Option (ℕ × ℕ × ℕ)
lead b =
    if ltb b 0x80
    then some (0, 0x80, 0xbf)
    else if ltb b 0xc2
    then none
    else if ltb b 0xe0
    then some (1, 0x80, 0xbf)
    else if b == 0xe0
    then some (2, 0xa0, 0xbf)
    else if b == 0xed
    then some (2, 0x80, 0x9f)
    else if ltb b 0xf0
    then some (2, 0x80, 0xbf)
    else if b == 0xf0
    then some (3, 0x90, 0xbf)
    else if ltb b 0xf4
    then some (3, 0x80, 0xbf)
    else if b == 0xf4
    then some (3, 0x80, 0x8f)
    else none

-- `need` bytes of the current character are still to come, the next between `lo` and `hi`.
utf8_from : ℕ → ℕ → ℕ → List ℕ → Bool
utf8_from zero lo hi [] = true
utf8_from (suc need) lo hi [] = false
utf8_from zero lo hi (b ∷ bs) = elim (lead b) [
  | none ↦ false
  | some (need, lo', hi') ↦ utf8_from need lo' hi' bs
]
utf8_from (suc need) lo hi (b ∷ bs) = elim (leb lo b && leb b hi) [
  | true ↦ utf8_from need 0x80 0xbf bs
  | false ↦ false
]

-- std::str::from_utf8(bs).is_ok()
unfoldable pub is_utf8 : List ℕ → Bool
unfolding utf8_from
is_utf8 bs = utf8_from 0 0x80 0xbf bs

abbrev pub IsUtf8 : Text → Type 0
IsUtf8 s = is_utf8 s ≡ true

-- String::from_utf8(bs).map_err(|_| e)
unfoldable pub from_utf8 : {E : Type 0} → List ℕ → E → Outcome E Text
from_utf8 bs e = if is_utf8 bs then ok bs else err e

-- String::from_utf8(bs).unwrap()
unfoldable pub from_utf8_unwrap : {E : Type 0} → List ℕ → Outcome E Text
from_utf8_unwrap bs = unwrap (if is_utf8 bs then some bs else none)

pub from_utf8-IsUtf8 : {E : Type 0} (bs : List ℕ) (e : E) → IsUtf8 bs → from_utf8 bs e ≡ ok bs
unfolding from_utf8
from_utf8-IsUtf8 bs e h = rw h

pub from_utf8_unwrap-IsUtf8 :
    {E : Type 0} (bs : List ℕ) → IsUtf8 bs → from_utf8_unwrap {E = E} bs ≡ ok bs
unfolding from_utf8_unwrap
from_utf8_unwrap-IsUtf8 bs h = rw h

-- a == b
unfoldable pub text_eq : Text → Text → Bool
text_eq [] [] = true
text_eq [] (b ∷ bs) = false
text_eq (a ∷ as') [] = false
text_eq (a ∷ as') (b ∷ bs) = (a == b) && text_eq as' bs

-- a < b
unfoldable pub text_lt : Text → Text → Bool
text_lt [] [] = false
text_lt [] (b ∷ bs) = true
text_lt (a ∷ as') [] = false
text_lt (a ∷ as') (b ∷ bs) = ltb a b || ((a == b) && text_lt as' bs)

-- a <= b
unfoldable pub text_le : Text → Text → Bool
unfolding text_lt text_eq
text_le a b = text_lt a b || text_eq a b
