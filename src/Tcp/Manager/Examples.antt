-- ===== src/Tcp/Manager/Examples.antt =====
-- Two connections, one of which is done before the other is started, and a cancellation.
use rkvs.Base.{◌+◌, ◌≡◌, arith, List, [], ◌∷◌, Bool, true, false}
use rkvs.Tcp.Manager.{ConnectionData, start_signal, completion_signal, values, run}
use rkvs.Tcp.Manager.Laws.{count, started, run-started}

abbrev messages : List (ConnectionData × Bool)
messages =
    (start_signal 0 10, false)
    ∷ ((completion_signal 0, false)
        ∷ ((start_signal 1 11, false) ∷ ((start_signal 2 12, true) ∷ [])))

run-started_example :
    count 11 (run messages []) ≡ count 11 (values []) + count 11 (started messages)
run-started_example = run-started messages [] 0 11 (omega arith, (omega arith, tt)) tt
