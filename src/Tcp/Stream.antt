-- ===== src/Tcp/Stream.antt =====
-- The read half of a socket: the bytes that are still to come before the end of the stream.
-- An action returns its outcome and what is left to read.
pub mod Laws
use rkvs.Base.{
  ℕ, ◌≡◌, refl, List, ◌++◌, length, take, drop, leb, if◌then◌else◌, Outcome, ok, err, panic,
  from_be, IoError, unexpected_eof,
}

abbrev pub Recv {ℓ} : Type 0 → Type ℓ → Type ℓ
Recv E A = List ℕ → Outcome E A × List ℕ

abbrev pub continue {ℓ κ} :
    {E : Type 0} {A : Type ℓ} {B : Type κ} → Outcome E A → (A → Recv E B) → Recv E B
continue (ok a) f s = f a s
continue (err e) f s = (err e, s)
continue panic f s = (panic, s)

infixl 5 ◌>>=◌
abbrev pub ◌>>=◌ {ℓ κ} :
    {E : Type 0} {A : Type ℓ} {B : Type κ} → Recv E A → (A → Recv E B) → Recv E B
◌>>=◌ m f s = continue (m s).0 f (m s).1

abbrev pub lift {ℓ} : {E : Type 0} {A : Type ℓ} → Outcome E A → Recv E A
lift r s = (r, s)

-- AsyncReadExt::read_exact into a buffer of `n` bytes
unfoldable pub read_exact : {E : Type 0} → (IoError → E) → ℕ → Recv E (List ℕ)
read_exact from n s =
    if leb n (length s) then (ok (take n s), drop n s) else (err (from unexpected_eof), List.[])

-- AsyncReadExt::read_u32
unfoldable pub read_u32 : {E : Type 0} → (IoError → E) → Recv E ℕ
unfolding read_exact from_be
read_u32 from = do bytes ← read_exact from 4; lift (ok (from_be bytes))
