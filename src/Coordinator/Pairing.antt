-- ===== src/Coordinator/Pairing.antt =====
-- Which result app/modules/agent/coordinator.py reports under which agent.
use grafux_orchestrator.Prelude.{String, ◌≡◌, refl, ap, true, false, List, [], ◌∷◌, All, map}
use grafux_orchestrator.Coordinator.{
  SubTask, Answer, is_known, started, report, outputs_of, outputs,
}

module _ (agents : List String) (run_agent : SubTask → Answer) where
  all_started :
      (ts : List SubTask) → All (λ t. is_known agents t ≡ true) ts → started agents ts ≡ ts
  unfolding started
  all_started [] h = refl
  all_started (t ∷ ts) h = rw (h.0, all_started ts h.1) refl

  own :
      (ts : List SubTask) → outputs_of ts (map run_agent ts) ≡ map (λ t. report t (run_agent t)) ts
  unfolding outputs_of
  own [] = refl
  own (t ∷ ts) = ap (λ rest. report t (run_agent t) ∷ rest) (own ts)

  -- If every sub-task names an agent that there is, each result is reported under the agent of its
  -- own sub-task, in the order of the sub-tasks.
  pub outputs-own :
      (sub_tasks : List SubTask)
      → All (λ t. is_known agents t ≡ true) sub_tasks
      → outputs agents run_agent sub_tasks ≡ map (λ t. report t (run_agent t)) sub_tasks
  unfolding outputs
  outputs-own sub_tasks h = rw (all_started sub_tasks h) (own sub_tasks)

  -- If the first of two sub-tasks names an agent that there is not, the result of the second one is
  -- reported under the name of the first, and nothing under its own.
  pub outputs-shifted :
      (unknown known : SubTask)
      → is_known agents unknown ≡ false
      → is_known agents known ≡ true
      → outputs agents run_agent (unknown ∷ known ∷ []) ≡ report unknown (run_agent known) ∷ []
  unfolding outputs started outputs_of
  outputs-shifted unknown known hu hk = rw (hu, hk) refl
