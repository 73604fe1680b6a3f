-- ===== src/Tcp/Server.antt =====
-- `Server::run` of src/lib.rs, on what happens in each round of its loop.
use rkvs.Base.{ℕ, ◌+◌, ◌≡◌, refl, List, [], ◌∷◌, Bool, true, false, Option, none, some, IoError}
use rkvs.Tcp.Manager.{ConnectionData, start_signal, completion_signal}

-- whether the token is cancelled at the start of a round, and what listener.accept comes to
abbrev pub Round : Type 0
Round = Bool × Option IoError

-- Why the loop ends, or that it still waits for a connection.
pub data Ending : Type 0 where
  cancelled : Ending
  failed : IoError → Ending
  waiting : Ending

-- Server::run: the start signals that are sent to the connection manager, a task having the number
-- of its connection. The next connection has the number `last_conn_id`.
unfoldable pub run : ℕ → List Round → List ConnectionData × Ending
run last_conn_id [] = ([], waiting)
run last_conn_id ((true, result) ∷ rounds) = ([], cancelled)
run last_conn_id ((false, some e) ∷ rounds) = ([], failed e)
run last_conn_id ((false, none) ∷ rounds) =
    let (signals, ending) = run (last_conn_id + 1) rounds in
    (start_signal last_conn_id last_conn_id ∷ signals, ending)

-- start signals that are numbered from a number on
abbrev pub NumberedFrom : ℕ → List ConnectionData → Type 0
NumberedFrom n [] = Unit
NumberedFrom n (start_signal id handle ∷ signals) =
    (id ≡ n) × (handle ≡ n) × NumberedFrom (n + 1) signals
NumberedFrom n (completion_signal id ∷ signals) = ⊥

-- The connections that the server accepts are numbered one after the other, so that no two of them
-- have the same number with the connection manager.
run-NumberedFrom :
    (last_conn_id : ℕ) (rounds : List Round) → NumberedFrom last_conn_id (run last_conn_id rounds).0
unfolding run
run-NumberedFrom n [] = tt
run-NumberedFrom n ((true, result) ∷ rounds) = tt
run-NumberedFrom n ((false, some e) ∷ rounds) = tt
run-NumberedFrom n ((false, none) ∷ rounds) = (refl, refl, run-NumberedFrom (n + 1) rounds)
