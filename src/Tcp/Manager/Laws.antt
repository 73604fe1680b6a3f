-- ===== src/Tcp/Manager/Laws.antt =====
-- The connection manager awaits every task that it has been told of.
use rkvs.Base.{
  ℕ, suc, ◌+◌, ◌<◌, ◌≤◌, ◌≡◌, refl, arith, List, [], ◌∷◌, Bool, true, false, Option, none, some,
  if◌then◌else◌, ◌==◌, All, Bool-cases, inl, inr,
}
use rkvs.Tcp.Manager.{
  ConnectionHandle, ConnectionData, start_signal, completion_signal, insert, remove, values, run,
}

-- how often a task is in a list
abbrev pub count : ConnectionHandle → List ConnectionHandle → ℕ
count x [] = 0
count x (h ∷ hs) = (if x == h then 1 else 0) + count x hs

-- the tasks whose start is received before a cancellation
abbrev pub started : List (ConnectionData × Bool) → List ConnectionHandle
started [] = []
started ((msg, true) ∷ messages) = []
started ((completion_signal id, false) ∷ messages) = started messages
started ((start_signal id handle, false) ∷ messages) = handle ∷ started messages

-- The ids of the connections go up, from a number on.
abbrev pub Numbered : ℕ → List (ConnectionData × Bool) → Type 0
Numbered n [] = Unit
Numbered n ((msg, true) ∷ messages) = Unit
Numbered n ((completion_signal id, false) ∷ messages) = Numbered n messages
Numbered n ((start_signal id handle, false) ∷ messages) = (n ≤ id) × Numbered (suc id) messages

abbrev Below : ℕ → List (ℕ × ConnectionHandle) → Type 0
Below n handles = All (λ (p : ℕ × ConnectionHandle). p.0 < n) handles

Below-suc :
    (n id : ℕ) (handles : List (ℕ × ConnectionHandle))
    → n ≤ id
    → Below n handles
    → Below (suc id) handles
Below-suc n id [] h hs = tt
Below-suc n id ((i, x) ∷ handles) h (k, hs) = (omega arith, Below-suc n id handles h hs)

Below-insert :
    (n id : ℕ) (handle : ConnectionHandle) (handles : List (ℕ × ConnectionHandle))
    → n ≤ id
    → Below n handles
    → Below (suc id) (insert id handle handles)
unfolding insert
Below-insert n id handle [] h hs = (omega arith, tt)
Below-insert n id handle ((i, x) ∷ handles) h (k, hs) = elim (Bool-cases (i == id)) [
  | inl same ↦ rw same (omega arith, Below-suc n id handles h hs)
  | inr other ↦ rw other (omega arith, Below-insert n id handle handles h hs)
]

count-insert :
    (x n id : ℕ) (handle : ConnectionHandle) (handles : List (ℕ × ConnectionHandle))
    → n ≤ id
    → Below n handles
    → count x (values (insert id handle handles)) ≡ count x (handle ∷ values handles)
unfolding insert
count-insert x n id handle [] h hs = refl
count-insert x n id handle ((i, y) ∷ handles) h (k, hs) =
    let differs : (i == id) ≡ false = ground arith in
    rw (differs, count-insert x n id handle handles h hs) (omega arith)

-- what is removed, and what is left
Removed :
    ℕ
    → (x : ℕ) → List (ℕ × ConnectionHandle)
    → Option (ConnectionHandle × List (ℕ × ConnectionHandle))
    → Type 0
Removed n x handles none = Unit
Removed n x handles (some (h, left)) =
    (count x (values handles) ≡ count x (h ∷ values left)) × Below n left

remove-Removed :
    (n x id : ℕ) (handles : List (ℕ × ConnectionHandle))
    → Below n handles
    → Removed n x handles (remove id handles)
unfolding remove Removed
remove-Removed n x id [] hs = tt
remove-Removed n x id ((i, y) ∷ handles) (k, hs) = elim (Bool-cases (i == id)) [
  | inl same ↦ rw same (refl, hs)
  | inr other ↦ rw other (kept (remove id handles) (remove-Removed n x id handles hs))
]
  where
    kept :
        (r : Option (ConnectionHandle × List (ℕ × ConnectionHandle)))
        → Removed n x handles r
        → Removed n x
            ((i, y) ∷ handles)
            (elim r [ none ↦ none | some (g, left) ↦ some (g, (i, y) ∷ left) ])
    kept none h = tt
    kept (some (g, left)) (e, b) = (omega (arith, e), (k, b))

-- `run` awaits every task exactly as often as it was started before a cancellation, or held before;
-- the ids of the connections go up, from above those that are held.
pub run-started :
    (messages : List (ConnectionData × Bool)) (handles : List (ℕ × ConnectionHandle)) (n : ℕ)
    (x : ConnectionHandle)
    → Numbered n messages
    → All (λ (p : ℕ × ConnectionHandle). p.0 < n) handles
    → count x (run messages handles) ≡ count x (values handles) + count x (started messages)
unfolding run Removed
run-started [] handles n x h b = omega arith
run-started ((msg, true) ∷ messages) handles n x h b = omega arith
run-started ((completion_signal id, false) ∷ messages) handles n x h b =
    by_removed (remove id handles) (remove-Removed n x id handles b)
      (run-started messages handles n x h b) (λ left. run-started messages left n x h)
  where
    by_removed :
        (r : Option (ConnectionHandle × List (ℕ × ConnectionHandle)))
        → Removed n x handles r
        → count x (run messages handles) ≡ count x (values handles) + count x (started messages)
        → ((left : List (ℕ × ConnectionHandle))
            → Below n left
            → count x (run messages left) ≡ count x (values left) + count x (started messages))
        → count x (elim r [ none ↦ run messages handles | some (h, left) ↦ h ∷ run messages left ])
          ≡ count x (values handles) + count x (started messages)
    by_removed none q same next = same
    by_removed (some (g, left)) (e, q) same next = omega (arith, e, next left q)
run-started ((start_signal id handle, false) ∷ messages) handles n x (h, hs) b = omega (
  arith,
  run-started messages (insert id handle handles) (suc id) x hs
      (Below-insert n id handle handles h b),
  count-insert x n id handle handles h b,
)
