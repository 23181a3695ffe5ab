-- ===== src/Connections/Tests.antt =====
-- Clients that come and go.
use grafux_orchestrator.Prelude.{ℕ, ◌≡◌, refl, Bool, [], ◌=ℕ◌}
use grafux_orchestrator.Connections.{Connections, connect, send_to_execution, connection_count}
use grafux_orchestrator.Connections.Hygiene.{IsTidy, nobody, came, sent, Reached-IsTidy}

abbrev two : Connections
two = connect "e" 2 (connect "e" 1 [])

-- The first client has gone without a word.
abbrev alive : ℕ → Bool
alive ws = ws =ℕ 2

one_left : connection_count "e" (send_to_execution alive "e" two) ≡ 1
unfolding connection_count send_to_execution connect
one_left = refl

Reached-IsTidy_example : IsTidy (send_to_execution alive "e" two)
Reached-IsTidy_example =
    Reached-IsTidy (send_to_execution alive "e" two)
      (sent alive "e" two (came "e" 2 (connect "e" 1 []) (came "e" 1 [] nobody)))
