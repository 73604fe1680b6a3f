-- ===== src/Base/Io.antt =====
-- Actions that change a state and may fail or panic: what they come to, with the state they leave,
-- and the rule by which a property of all their good ends is proved step by step.
use rkvs.Base.Results.{Outcome, ok, err, panic}

abbrev pub Io : Type 0 → Type 0 → Type 0 → Type 0
Io S E A = S → Outcome E A × S

abbrev pub continue : {S E A B : Type 0} → Outcome E A → (A → Io S E B) → Io S E B
continue (ok a) f s = f a s
continue (err e) f s = (err e, s)
continue panic f s = (panic, s)

infixl 5 ◌>>=◌
abbrev pub ◌>>=◌ : {S E A B : Type 0} → Io S E A → (A → Io S E B) → Io S E B
◌>>=◌ m f s = continue (m s).0 f (m s).1

infixl 5 ◌>>◌
abbrev pub ◌>>◌ : {S E B : Type 0} → Io S E (Unit {0}) → Io S E B → Io S E B
m >> k = m >>= λ _. k

abbrev pub pure : {S E A : Type 0} → Outcome E A → Io S E A
pure r s = (r, s)

abbrev pub get : {S E : Type 0} → Io S E S
get s = (ok s, s)

abbrev pub modify : {S E : Type 0} → (S → S) → Io S E (Unit {0})
modify f s = (ok tt, f s)

-- No panic, and the property of the value and the state at a good end.
abbrev pub Safe : {S E A : Type 0} → (A → S → Type 0) → Outcome E A × S → Type 0
Safe Q (ok a, s) = Q a s
Safe Q (err e, s) = Unit
Safe Q (panic, s) = ⊥

Safe-continue :
    {S E A B : Type 0} (Q : A → S → Type 0) (R : B → S → Type 0) (r : Outcome E A) (s : S)
    (f : A → Io S E B)
    → Safe Q (r, s)
    → ((a : A) (s' : S) → Q a s' → Safe R (f a s'))
    → Safe R (continue r f s)
Safe-continue Q R (ok a) s f h k = k a s h
Safe-continue Q R (err e) s f h k = tt
Safe-continue Q R panic s f h k = h

pub Safe->>= :
    {S E A B : Type 0} (Q : A → S → Type 0) (R : B → S → Type 0) (m : Io S E A) (f : A → Io S E B)
    (s : S)
    → Safe Q (m s)
    → ((a : A) (s' : S) → Q a s' → Safe R (f a s'))
    → Safe R ((m >>= f) s)
Safe->>= Q R m f s h k = Safe-continue Q R (m s).0 (m s).1 f h k

pub Safe_map :
    {S E A : Type 0} (Q R : A → S → Type 0) (r : Outcome E A × S)
    → ((a : A) (s : S) → Q a s → R a s)
    → Safe Q r
    → Safe R r
Safe_map Q R (ok a, s) k h = k a s h
Safe_map Q R (err e, s) k h = tt
Safe_map Q R (panic, s) k h = h

-- No panic, an error only of a kind, and the property of the value and the state at a good end.
abbrev pub Ends : {S E A : Type 0} → (E → Type 0) → (A → S → Type 0) → Outcome E A × S → Type 0
Ends P Q (ok a, s) = Q a s
Ends P Q (err e, s) = P e
Ends P Q (panic, s) = ⊥

Ends-continue :
    {S E A B : Type 0} (P : E → Type 0) (Q : A → S → Type 0) (R : B → S → Type 0) (r : Outcome E A)
    (s : S) (f : A → Io S E B)
    → Ends P Q (r, s)
    → ((a : A) (s' : S) → Q a s' → Ends P R (f a s'))
    → Ends P R (continue r f s)
Ends-continue P Q R (ok a) s f h k = k a s h
Ends-continue P Q R (err e) s f h k = h
Ends-continue P Q R panic s f h k = h

pub Ends->>= :
    {S E A B : Type 0} (P : E → Type 0) (Q : A → S → Type 0) (R : B → S → Type 0) (m : Io S E A)
    (f : A → Io S E B) (s : S)
    → Ends P Q (m s)
    → ((a : A) (s' : S) → Q a s' → Ends P R (f a s'))
    → Ends P R ((m >>= f) s)
Ends->>= P Q R m f s h k = Ends-continue P Q R (m s).0 (m s).1 f h k

pub Ends-errors :
    {S E A : Type 0} (P R : E → Type 0) (Q : A → S → Type 0) (r : Outcome E A × S)
    → ((e : E) → P e → R e)
    → Ends P Q r
    → Ends R Q r
Ends-errors P R Q (ok a, s) k h = h
Ends-errors P R Q (err e, s) k h = k e h
Ends-errors P R Q (panic, s) k h = h

pub Ends-map :
    {S E A : Type 0} (P : E → Type 0) (Q R : A → S → Type 0) (r : Outcome E A × S)
    → ((a : A) (s : S) → Q a s → R a s)
    → Ends P Q r
    → Ends P R r
Ends-map P Q R (ok a, s) k h = k a s h
Ends-map P Q R (err e, s) k h = h
Ends-map P Q R (panic, s) k h = h
