-- ===== src/Workflow/Nodes/Answers.antt =====
-- What `mcp_node` of app/modules/workflow/engine.py answers to the tool calls of the model.
use grafux_orchestrator.Prelude.{
  Option, String, ◌≡◌, ◌≢◌, refl, sym, ap, ◌∙◌, false, some, List, [], ◌∷◌, ◌++◌, ◌<>◌,
}
use grafux_orchestrator.Python.{
  Value, text, Fields, end, field, to_str, Outcome, ok, raised, cancelled,
}
use grafux_orchestrator.Exec.{Exec, reads, pure, gets, try_except, continue, ◌>>=◌, ◌>>◌}
use grafux_orchestrator.Exec.Outcomes.{Returns, Returns-bind}
use grafux_orchestrator.Workflow.{
  Call, Message, system, human, ai, tool, State, or_else, nothing, last_calls,
}
use grafux_orchestrator.Workflow.Nodes.{
  Services, report_error, keep_result, record_attempt, answer_attempt, invoke_call, invoke_calls,
  invoke_all, mcp_node, cancellable_node, check_cancelled,
}

-- The calls that the messages answer.
abbrev pub answers : List Message → List String
answers [] = []
answers (tool content id ∷ ms) = id ∷ answers ms
answers (m ∷ ms) = answers ms

-- The ids of the calls, all of which have one.
abbrev pub IsNamed : List Call → List String → Type 0
IsNamed [] [] = Unit
IsNamed (call ∷ calls) (id ∷ ids) = (call.id ≡ some (some id)) × IsNamed calls ids
IsNamed calls ids = ⊥

answers-append :
    (ms : List Message) (content id : String)
    → answers (ms ++ tool content id ∷ []) ≡ answers ms ++ id ∷ []
answers-append [] content id = refl
answers-append (tool c i ∷ ms) content id = ap (λ xs. i ∷ xs) (answers-append ms content id)
answers-append (system c ∷ ms) content id = answers-append ms content id
answers-append (human c ∷ ms) content id = answers-append ms content id
answers-append (ai c cs ∷ ms) content id = answers-append ms content id

pushed : (xs : List String) (x : String) (ys : List String) → (xs ++ x ∷ []) ++ ys ≡ xs ++ x ∷ ys
pushed [] x ys = refl
pushed (z ∷ xs) x ys = ap (λ zs. z ∷ zs) (pushed xs x ys)

nothing_more : (xs : List String) → xs ++ [] ≡ xs
nothing_more [] = refl
nothing_more (x ∷ xs) = ap (λ ws. x ∷ ws) (nothing_more xs)

module _ {W : Type 0} (services : Services W) where
  -- Events can be sent, and the tools are not cancelled. They may still fail.
  pub record IsReliable : Type 0 where
    pub sends :
        (id kind : String) (payload : Fields) (w : W) → (services.emit id kind payload w).0 ≡ ok tt
    pub runs :
        (name : String) (args : Value) (org : String) (w : W)
        → (services.invoke_tool name args org w).0 ≢ cancelled

module _ {W : Type 0} (services : Services W) (reliable : IsReliable services) (state : State) where
  -- One more call is answered.
  abbrev IsAnswered : String → List Message → List Message → Type 0
  IsAnswered id before after = answers after ≡ answers before ++ id ∷ []

  report_error-IsAnswered :
      (call : Call) (id : String) (ms : List Message) (exc : String) (w : W)
      → Returns (IsAnswered id ms) (report_error services state call id ms exc) w
  unfolding report_error ◌>>=◌ continue reads
  report_error-IsAnswered call id ms exc w = record {
    value = ms ++ tool ("MCP tool " <> (services.repr call.name <> (" failed: " <> exc))) id ∷ [];
    returned = rw (reliable.sends state.execution_id "mcp.error" _ w) refl;
    holds = answers-append ms _ id;
  }

  keep_result-IsAnswered :
      (call : Call) (id : String) (ms : List Message) (result : Value) (w : W)
      → Returns (IsAnswered id ms) (keep_result services state call id ms result) w
  unfolding keep_result try_except ◌>>=◌ continue reads
  keep_result-IsAnswered call id ms result w = record {
    value = ms ++ tool (to_str result) id ∷ [];
    returned = rw (reliable.sends state.execution_id "mcp.result" _ w) refl;
    holds = answers-append ms _ id;
  }

  record_attempt-IsAnswered :
      (call : Call) (id : String) (ms : List Message) (r : Outcome Value) (w : W)
      → r ≢ cancelled
      → Returns (IsAnswered id ms) (record_attempt services state call id ms r) w
  unfolding record_attempt
  record_attempt-IsAnswered call id ms (ok result) w h = keep_result-IsAnswered call id ms result w
  record_attempt-IsAnswered call id ms (raised exc) w h = report_error-IsAnswered call id ms exc w
  record_attempt-IsAnswered call id ms cancelled w h = absurd (h refl)

  attempted :
      (m : Exec W Value) (w : W) (r : Outcome Value)
      → (m w).0 ≡ r
      → r ≢ cancelled
      → (try_except (m >>= λ v. pure (ok v)) (λ exc. pure (raised exc)) w).0 ≡ ok r
  unfolding try_except ◌>>=◌ continue reads
  attempted m w (ok v) e h = rw e refl
  attempted m w (raised exc) e h = rw e refl
  attempted m w cancelled e h = absurd (h refl)

  attempt_invoke :
      (call : Call) (w : W)
      → Returns
          (λ r. r ≢ cancelled)
          (try_except
            (services.invoke_tool call.name call.args state.org_id >>= λ v. pure (ok v))
            (λ exc. pure (raised exc)))
          w
  attempt_invoke call w =
      let m = services.invoke_tool call.name call.args state.org_id in
      let runs = reliable.runs call.name call.args state.org_id w in
      record { value = (m w).0; returned = attempted m w (m w).0 refl runs; holds = runs }

  sent :
      (kind : String) (payload : Fields) (w : W)
      → Returns (λ _. Unit {0}) (services.emit state.execution_id kind payload) w
  sent kind payload w = record {
    value = tt;
    returned = reliable.sends state.execution_id kind payload w;
    holds = tt;
  }

  fresh_id : (w : W) → Returns (λ _. Unit {0}) (gets services.uuid4) w
  unfolding reads
  fresh_id w = record { value = services.uuid4 w; returned = refl; holds = tt }

  invoke_call-IsAnswered :
      (call : Call) (id : String) (ms : List Message) (w : W)
      → call.id ≡ some (some id)
      → Returns (IsAnswered id ms) (invoke_call services state call ms) w
  unfolding invoke_call answer_attempt
  invoke_call-IsAnswered call id ms w h =
      let attempt =
        try_except (services.invoke_tool call.name call.args state.org_id >>= λ v. pure (ok v))
          (λ exc. pure (raised exc)) in
      let settle = λ (given : Option String) (r : Outcome Value).
        answer_attempt services state call given ms r in
      let invoke = λ (fresh : String).
        services.emit state.execution_id "mcp.invocation"
          (field "tool_name" (text call.name) (field "input" call.args end))
        >> (attempt >>= settle (or_else call.id (some fresh))) in
      Returns-bind (λ _. Unit {0}) (gets services.uuid4) invoke w (fresh_id w)
        (λ fresh _.
          Returns-bind (λ _. Unit {0}) (services.emit state.execution_id "mcp.invocation" _) _ w
            (sent "mcp.invocation" _ w)
            (λ _ _.
              Returns-bind (λ r. r ≢ cancelled) attempt (settle (or_else call.id (some fresh))) _
                (attempt_invoke call _)
                (λ r hr. rw h (record_attempt-IsAnswered call id ms r _ hr))))

  invoke_calls-IsAnswered :
      (calls : List Call) (ids : List String) (ms : List Message) (w : W)
      → IsNamed calls ids
      → Returns
          (λ after. answers after ≡ answers ms ++ ids)
          (invoke_calls services state calls ms)
          w
  unfolding invoke_calls reads
  invoke_calls-IsAnswered [] [] ms w h = record {
    value = ms;
    returned = refl;
    holds = sym (nothing_more (answers ms));
  }
  invoke_calls-IsAnswered [] (id ∷ ids) ms w h = elim h [ ]
  invoke_calls-IsAnswered (call ∷ calls) [] ms w h = elim h [ ]
  invoke_calls-IsAnswered (call ∷ calls) (id ∷ ids) ms w h =
      Returns-bind (IsAnswered id ms) (invoke_call services state call ms)
        (invoke_calls services state calls) w (invoke_call-IsAnswered call id ms w h.0)
        (λ more one.
          let rest =
            invoke_calls-IsAnswered calls ids more (invoke_call services state call ms w).1 h.1 in
          record {
            value = rest.value;
            returned = rest.returned;
            holds = rest.holds ∙ ap (λ xs. xs ++ ids) one ∙ pushed (answers ms) id ids;
          })

  invoke_all-IsAnswered :
      (calls : List Call) (ids : List String) (w : W)
      → IsNamed calls ids
      → Returns (λ u. answers u.messages ≡ ids) (invoke_all services state calls) w
  unfolding invoke_all reads
  invoke_all-IsAnswered [] [] w h = record { value = nothing; returned = refl; holds = refl }
  invoke_all-IsAnswered [] (id ∷ ids) w h = elim h [ ]
  invoke_all-IsAnswered (call ∷ calls) ids w h =
      Returns-bind (λ ms. answers ms ≡ ids) (invoke_calls services state (call ∷ calls) []) _ w
        (invoke_calls-IsAnswered (call ∷ calls) ids [] w h)
        (λ ms same. record {
          value = record nothing { messages = ms };
          returned = refl;
          holds = same;
        })

  -- If events can be sent, no tool is cancelled, the cancel flag of the execution is not set when the
  -- node starts, and each tool call of the model has an id, the MCP node returns one tool message for
  -- each call, in the order of the calls and under their ids, whichever of the tools fail.
  pub mcp_node-answers :
      (ids : List String) (w : W)
      → (check_cancelled services state.execution_id w).0 ≡ ok false
      → IsNamed (last_calls state.messages) ids
      → Returns (λ u. answers u.messages ≡ ids) (mcp_node services state) w
  unfolding mcp_node cancellable_node
  mcp_node-answers ids w live named =
      Returns-bind (λ stop. stop ≡ false) (check_cancelled services state.execution_id) _ w
        (record { value = false; returned = live; holds = refl })
        (λ stop go_on. rw go_on (invoke_all-IsAnswered (last_calls state.messages) ids _ named))
