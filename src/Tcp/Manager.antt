-- ===== src/Tcp/Manager.antt =====
-- `ConnectionManager` of src/tcp/connection_manager.rs.
pub mod Laws
pub mod Examples
use rkvs.Base.{ℕ, List, [], ◌∷◌, Bool, true, false, Option, none, some, if◌then◌else◌, ◌==◌}

-- The handle of a task, by the number of the task.
abbrev pub ConnectionHandle : Type 0
ConnectionHandle = ℕ

pub data ConnectionData : Type 0 where
  start_signal : ℕ → ConnectionHandle → ConnectionData
  completion_signal : ℕ → ConnectionData

-- HashMap::insert, which drops the handle that was there, and HashMap::remove
unfoldable pub insert :
    ℕ → ConnectionHandle → List (ℕ × ConnectionHandle) → List (ℕ × ConnectionHandle)
insert id handle [] = (id, handle) ∷ []
insert id handle ((i, h) ∷ handles) =
    let rest = insert id handle handles in if i == id then (id, handle) ∷ handles else (i, h) ∷ rest

unfoldable pub remove :
    ℕ → List (ℕ × ConnectionHandle) → Option (ConnectionHandle × List (ℕ × ConnectionHandle))
remove id [] = none
remove id ((i, h) ∷ handles) =
    let rest = remove id handles in
    if i == id
    then some (h, handles)
    else elim rest [ none ↦ none | some (g, left) ↦ some (g, (i, h) ∷ left) ]

-- the handles that are left, which are awaited at the end
abbrev pub values : List (ℕ × ConnectionHandle) → List ConnectionHandle
values [] = []
values ((i, h) ∷ handles) = h ∷ values handles

-- ConnectionManager::run, on the messages in the order of their receipt, each with whether the
-- token is cancelled when it is received; the channel is closed behind the last one. The result is
-- the tasks that are awaited, in their order.
unfoldable pub run :
    List (ConnectionData × Bool) → List (ℕ × ConnectionHandle) → List ConnectionHandle
unfolding insert remove
run [] handles = values handles
run ((msg, true) ∷ messages) handles = values handles
run ((completion_signal id, false) ∷ messages) handles = elim (remove id handles) [
  | none ↦ run messages handles
  | some (h, left) ↦ h ∷ run messages left
]
run ((start_signal id handle, false) ∷ messages) handles = run messages (insert id handle handles)
