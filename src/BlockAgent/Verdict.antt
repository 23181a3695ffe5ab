-- ===== src/BlockAgent/Verdict.antt =====
-- How a run of the block agent ends: the rounds stop by themselves, and the state is a verdict.
use grafux_orchestrator.Prelude.{
  ℕ, zero, suc, ◌-◌, ◌≤◌, ◌<◌, String, ◌≡◌, ◌≢◌, refl, ◌∙◌, sym, ap, Bool, true, false, not, none,
  some, List, ◌∷◌, ◌==◌, arith, leb, if◌then◌else◌,
}
use grafux_orchestrator.Python.{Outcome, ok, raised, cancelled}
use grafux_orchestrator.BlockAgent.Policy.{AgentPolicy}
use grafux_orchestrator.BlockAgent.Data.{
  user, Agent, State, Interrupt, quiet, stop, detach, World, Event, interrupted, emitted, Session,
}
use grafux_orchestrator.Exec.{
  reads, whole_if, Exec, if_at, modify, skip, pure, continue, try_except, try_finally, ◌>>=◌, ◌>>◌,
}
use grafux_orchestrator.BlockAgent.Rules.{is_expensive, charge, settle}
use grafux_orchestrator.BlockAgent.Seam.{on_agent, perform, emit, step, report_state}
use grafux_orchestrator.BlockAgent.Dispatch.{attributed}
use grafux_orchestrator.BlockAgent.Loop.{
  say, opening, budget_exhausted, halt, give_up, wrap_up, round, rounds, loop, fail, close, leave,
  run,
}
use grafux_orchestrator.BlockAgent.Permission.{charge_same}
use grafux_orchestrator.BlockAgent.Induction.{Withstands, settle-Unmoved, use_step, draw, state_of}
use grafux_orchestrator.BlockAgent.Induction.Rounds.{consult_at, budget_left}

-- At least `k` steps are used up, under the policy `p`.
record HasSpent {W : Type 0} (p : AgentPolicy) (k : ℕ) (s : Session W) : Type 0 where
  policy : s.agent.policy ≡ p
  spent : k ≤ s.agent.steps_used

module _ {W : Type 0} (world : World W) (p : AgentPolicy) (k : ℕ) where
  HasSpent-Withstands : Withstands world (HasSpent p k)
  HasSpent-Withstands = record {
    write = λ f s same h. ground arith;
    spend = λ s live left h. ground arith;
    consult = λ messages declarations w s live left h.
        let u = settle-Unmoved (world.interrupt w) (use_step s.agent) in ground arith;
    wait = λ event w s q h. let u = settle-Unmoved (world.interrupt w) s.agent in ground arith;
    tell_step = λ kind line tool w s live h.
        let u = settle-Unmoved (world.interrupt w) (draw s.agent) in ground arith;
    tell_state = λ w s live h. let u = settle-Unmoved (world.interrupt w) s.agent in ground arith;
    carry = λ call action w s allowed mapped h.
        let expensive = is_expensive s.agent call (some (attributed s.agent action)) in
        let u = settle-Unmoved (world.interrupt w) (charge call expensive s.agent) in
        let same = charge_same s.agent call expensive in
        record {
          policy = u.policy ∙ same.0 ∙ h.policy;
          spent = omega (arith, u.steps_used, same.1, h.spent);
        };
  }

above : (m n : ℕ) → leb m n ≡ false → n < m
above m n h = ground arith

module _ {S A : Type 0} where
  then_true : (m : Exec S A) (s : S) → ((m >> pure true) s).0 ≢ ok false
  unfolding ◌>>=◌ reads
  then_true m s = go (m s).0 (m s).1
    where
      go : (r : Outcome A) (t : S) → (continue r (λ (_ : A). pure true) t).0 ≢ ok false
      go (ok a) t e = cc
      go (raised x) t e = cc
      go cancelled t e = cc

module _ {W : Type 0} (world : World W) (system : String) (declarations : List String) where
  -- A round that does not return has used up a step that was left.
  record GoesOn (s t : Session W) : Type 0 where
    policy : t.agent.policy ≡ s.agent.policy
    left : s.agent.steps_used < s.agent.policy.max_steps
    spent : suc s.agent.steps_used ≤ t.agent.steps_used

  round-GoesOn :
      (s : Session W)
      → (round world system declarations s).0 ≡ ok false
      → GoesOn s (round world system declarations s).1
  unfolding round halt give_up reads modify
  round-GoesOn s =
      let now = world.monotonic s.world in
      let Q = λ (r : Outcome Bool × Session W). r.0 ≡ ok false → GoesOn s r.1 in
      whole_if Q _ _ s s.agent.stopping
        (λ _ h. absurd (then_true (step world "note" "Stopped at your request." none) _ h))
        (λ live.
          whole_if Q _ _ s (not (budget_exhausted s.agent now == ""))
            (λ _ h. absurd (then_true (wrap_up world _ system) s h))
            (λ left h.
              let open_step = budget_left s.agent now left in
              let spent =
                consult_at world (HasSpent-Withstands world s.agent.policy (suc s.agent.steps_used))
                  system declarations s (record { policy = refl; spent = omega arith })
                  (λ messages w.
                    let u = settle-Unmoved (world.interrupt w) (use_step s.agent) in
                    ground arith) in
              record { policy = spent.policy; left = above _ _ open_step; spent = spent.spent }))

  next_round :
      (r : Outcome Bool) (t : Session W) (more : Exec (Session W) Bool)
      → (r ≡ ok false → (more t).0 ≢ ok false)
      → (continue r (λ done. if done then pure true else more) t).0 ≢ ok false
  unfolding reads continue
  next_round (ok true) t more h e = cc
  next_round (ok false) t more h e = h refl e
  next_round (raised x) t more h e = cc
  next_round cancelled t more h e = cc

  rounds_return :
      (fuel : ℕ) (s : Session W)
      → s.agent.policy.max_steps - s.agent.steps_used < fuel
      → (rounds world fuel system declarations s).0 ≢ ok false
  unfolding rounds ◌>>=◌
  rounds_return zero s enough = absurd (omega (arith, enough))
  rounds_return (suc fuel) s enough =
      let m = round world system declarations in
      next_round (m s).0 (m s).1 (rounds world fuel system declarations) (λ again.
        let h = round-GoesOn s again in
        let max_steps = ap (λ (q : AgentPolicy). q.max_steps) h.policy in
        rounds_return fuel (m s).1 (omega (arith, enough, h.left, h.spent, max_steps)))

module _ {W : Type 0} (world : World W) where
  -- The unbounded loop of the agent always ends by itself, whatever the model answers: with one
  -- round more than the policy has steps, a round returns, or raises, or is cancelled, before the
  -- rounds run out.
  pub loop-returns : (s : Session W) → (loop world s).0 ≢ ok false
  unfolding loop reads ◌>>=◌ continue
  loop-returns s = rounds_return world _ _ (suc s.agent.policy.max_steps) s (omega arith)

-- What the client is told last is how the agent stands, unless the client is gone.
pub data IsTold {W : Type 0} (s : Session W) : Type 0 where
  gone : s.agent.detached ≡ true → IsTold s
  told :
      (i : Interrupt) (before : List Event)
      → s.trace ≡ interrupted i ∷ emitted (state_of s.agent) ∷ before
      → IsTold s

-- The agent has come to rest.
pub record IsOver {W : Type 0} (s : Session W) : Type 0 where
  pub rest : s.agent.state ≢ State.running
  pub told : IsTold s

at_rest : (s : State) → elim s [ State.running ↦ State.stopped | other ↦ other ] ≢ State.running
at_rest State.idle e = cc
at_rest State.running e = cc
at_rest State.finished e = cc
at_rest State.stopped e = cc
at_rest State.error e = cc

settle-state_of : (i : Interrupt) (a : Agent) → state_of (settle i a) ≡ state_of a
unfolding settle
settle-state_of quiet a = refl
settle-state_of stop a = refl
settle-state_of detach a = refl

module _ {W : Type 0} (world : World W) where
  report_state-IsOver :
      (s : Session W) → s.agent.state ≢ State.running → IsOver (report_state world s).1
  unfolding report_state reads emit perform ◌>>=◌ continue
  report_state-IsOver s rest =
      if_at IsOver s.agent.detached skip _ s (λ cut. record { rest = rest; told = gone cut })
        (λ live.
          let i = world.interrupt (world.emit (state_of s.agent) s.world).1 in
          let u = settle-Unmoved i s.agent in
          record {
            rest = λ e. rest (sym u.state ∙ e);
            told =
                told i s.trace
                  (ap (λ m. interrupted i ∷ emitted m ∷ s.trace) (sym (settle-state_of i s.agent)));
          })

  close-IsOver : (s : Session W) → IsOver (close world s).1
  unfolding close modify ◌>>=◌ continue
  close-IsOver s = report_state-IsOver (on_agent (leave world) s) (at_rest s.agent.state)

  guarded-IsOver :
      (m : Exec (Session W) (Unit {0})) (s : Session W) → IsOver (try_finally m (close world) s).1
  unfolding try_finally
  guarded-IsOver m s = close-IsOver (m s).1

  -- A run is opened with the clock's reading and the state `running`.
  abbrev pub opened : Session W → Session W
  opened s =
      on_agent (λ a. record a { started_at = world.monotonic s.world; state = State.running }) s

  after_ok :
      (r : Outcome (Unit {0})) (f : Unit {0} → Exec (Session W) (Unit {0})) (t : Session W)
      → r ≡ ok tt
      → IsOver (f tt t).1
      → IsOver (continue r f t).1
  unfolding continue
  after_ok (ok tt) f t e h = h
  after_ok (raised x) f t e h = absurd cc
  after_ok cancelled f t e h = absurd cc

  -- If the first report of a run goes through, then, however the run ends, by a verdict, a stop, a
  -- spent budget, an exception or a cancellation, the agent is no longer `running`, and the last
  -- thing it did was to tell the client its final state, unless it has been detached.
  pub run-IsOver :
      (instruction : String) (s : Session W)
      → (report_state world (opened s)).0 ≡ ok tt
      → IsOver (run world instruction s).1
  unfolding run reads modify ◌>>=◌ continue
  run-IsOver instruction s heard =
      let t = (report_state world (opened s)).1 in
      after_ok (report_state world (opened s)).0 _ t heard (
        guarded-IsOver (try_except (loop world >>= λ done. skip) (fail world))
          (on_agent (λ a. say (user (opening world a instruction)) a) t))
