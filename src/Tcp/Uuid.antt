-- ===== src/Tcp/Uuid.antt =====
-- The crate `uuid`, as far as src/tcp uses it, and what its documentation says of it.
use rkvs.Base.{ℕ, ◌≡◌, refl, [], List, ◌∷◌, length}

pub record UuidCrate : Type 1 where
  pub Uuid : Type 0
  pub from_bytes : List ℕ → Uuid
  pub as_bytes : Uuid → List ℕ
  pub to_bytes_le : Uuid → List ℕ
  pub nil : Uuid

-- The mixed-endian form: the fields of 4, 2 and 2 bytes are turned round, the last 8 bytes are not.
abbrev pub swap_fields : List ℕ → List ℕ
swap_fields (a ∷ b ∷ c ∷ d ∷ e ∷ f ∷ g ∷ h ∷ node) = d ∷ c ∷ b ∷ a ∷ f ∷ e ∷ h ∷ g ∷ node
swap_fields bytes = bytes

pub length-swap_fields : (bs : List ℕ) → length (swap_fields bs) ≡ length bs
length-swap_fields [] = refl
length-swap_fields (a ∷ []) = refl
length-swap_fields (a ∷ b ∷ []) = refl
length-swap_fields (a ∷ b ∷ c ∷ []) = refl
length-swap_fields (a ∷ b ∷ c ∷ d ∷ []) = refl
length-swap_fields (a ∷ b ∷ c ∷ d ∷ e ∷ []) = refl
length-swap_fields (a ∷ b ∷ c ∷ d ∷ e ∷ f ∷ []) = refl
length-swap_fields (a ∷ b ∷ c ∷ d ∷ e ∷ f ∷ g ∷ []) = refl
length-swap_fields (a ∷ b ∷ c ∷ d ∷ e ∷ f ∷ g ∷ h ∷ node) = refl

pub record UuidLaws (c : UuidCrate) : Type 0 where
  pub length-as_bytes : (u : c.Uuid) → length (c.as_bytes u) ≡ 16
  pub from_bytes-as_bytes : (u : c.Uuid) → c.from_bytes (c.as_bytes u) ≡ u
  pub as_bytes-from_bytes : (bs : List ℕ) → length bs ≡ 16 → c.as_bytes (c.from_bytes bs) ≡ bs
  pub to_bytes_le_lem : (u : c.Uuid) → c.to_bytes_le u ≡ swap_fields (c.as_bytes u)
