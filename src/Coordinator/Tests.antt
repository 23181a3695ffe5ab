-- ===== src/Coordinator/Tests.antt =====
-- Two sub-tasks, one of them for an agent that there is not.
use grafux_orchestrator.Prelude.{◌≡◌, refl, true, false, some, [], ◌∷◌, map}
use grafux_orchestrator.Coordinator.{SubTask, Answer, output, is_known, outputs, report}
use grafux_orchestrator.Coordinator.Pairing.{outputs-own, outputs-shifted}

abbrev writer : SubTask
writer = record { agent_id = some "writer"; task = "write" }

abbrev ghost : SubTask
ghost = record { agent_id = some "ghost"; task = "haunt" }

abbrev echo : SubTask → Answer
echo t = output t.task

writer_known : is_known ("writer" ∷ []) writer ≡ true
unfolding is_known
writer_known = refl

ghost_unknown : is_known ("writer" ∷ []) ghost ≡ false
unfolding is_known
ghost_unknown = refl

outputs-own_example :
    outputs ("writer" ∷ []) echo (writer ∷ []) ≡ map (λ t. report t (echo t)) (writer ∷ [])
outputs-own_example = outputs-own ("writer" ∷ []) echo (writer ∷ []) (writer_known, tt)

outputs-shifted_example :
    outputs ("writer" ∷ []) echo (ghost ∷ writer ∷ []) ≡ report ghost (echo writer) ∷ []
outputs-shifted_example =
    outputs-shifted ("writer" ∷ []) echo ghost writer ghost_unknown writer_known
