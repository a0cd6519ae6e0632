-- ===== src/Agent/Orchestrator/Steps/Outcome.antt =====
-- What the execution of a plan has done when it returns, and what it leaves when it raises.
use agent_operator.Errors.{
  Error, approval_required_error, validation_error, invalid_state_transition_error, out_of_fuel,
}
use agent_operator.Prelude.{
  ℕ, suc, ◌+◌, ◌≤◌, ◌<◌, ◌≡◌, ◌≢◌, refl, sym, ◌∙◌, ap, ◌⊎◌, inl, inr, String, true, not, ◌&&◌, some,
  List, [], ◌∷◌, ◌++◌, map, append_assoc, append-nil, arith, contains, length, lookup-insert_self,
  Result, ok, err, Action,
}
use agent_operator.Prelude.Triple.{
  Triple, Ends, Triple-pure, Triple-raise, Triple-if, Triple-seq, Triple-given, Triple-weaken,
  Triple-gets,
}
use agent_operator.State.{TaskState, waiting_for_approval}
use agent_operator.Store.{PlanStep, StepOutput, Session, commit, put_approval, state_of}
use agent_operator.Service.{ApprovalRequest, create_approval, transition_task}
use agent_operator.Service.Follows.{transition_task_exact}
use agent_operator.Agent.Recovery.{LimitSettings}
use agent_operator.Agent.Orchestrator.World.{
  Env, OrchestratorState, World, AgentResult, in_session, set_progress,
}
use agent_operator.Agent.Orchestrator.Steps.{
  run_step_with_recovery, request_approval, gate, execute_steps,
}
use agent_operator.Agent.Orchestrator.Steps.Retries.{
  IsStop, Holds, Triple-set_progress, Triple-check_limits, At, HasRun, attempt-once,
}

-- What the execution of some steps has done when it returns: each of them was invoked, once and in
-- order, all are reported as successes, and the counters tell how many they are.
abbrev pub onto : List PlanStep → List PlanStep → List PlanStep
onto [] xs = xs
onto (step ∷ steps) xs = onto steps (step ∷ xs)

abbrev pub success_of : PlanStep → StepOutput
success_of step = record { step = step.name; agent = step.agent; success = true }

pub record HasDone (limits : LimitSettings) (steps xs : List PlanStep) (p : OrchestratorState)
    (w : World) : Type 0 where
  pub plan : w.progress.plan ≡ p.plan
  pub invoked : w.invoked ≡ onto steps xs
  pub outputs : w.progress.step_outputs ≡ p.step_outputs ++ map success_of steps
  pub iterations : w.progress.iterations ≡ p.iterations + length steps
  pub tool_calls : w.progress.tool_call_count ≡ p.tool_call_count + length steps
  pub iteration_bound :
      p.iterations ≤ limits.max_iterations → w.progress.iterations ≤ limits.max_iterations
  pub tool_call_bound :
      p.tool_call_count ≤ limits.max_tool_calls → w.progress.tool_call_count ≤ limits.max_tool_calls

-- What an execution that raises leaves: a request for an approval has paused the task.
pub record IsExcused (id : ℕ) (e : Error) (w : World) : Type 0 where
  pub has_fuel : e ≢ out_of_fuel
  pub is_paused :
      e ≡ approval_required_error → state_of id w.session.now ≡ some waiting_for_approval

IsStop-IsExcused : (id : ℕ) (e : Error) (w : World) → IsStop e → IsExcused id e w
IsStop-IsExcused id e w s = record {
  has_fuel = λ h. ground (arith, s, h);
  is_paused = λ h. absurd (ground (arith, s, h));
}

-- What a transition of a task can raise.
abbrev pub IsRefusal : Error → Type 0
IsRefusal e = (e ≡ validation_error) ⊎ (e ≡ invalid_state_transition_error)

pub IsRefusal-IsExcused : (id : ℕ) (e : Error) (w : World) → IsRefusal e → IsExcused id e w
IsRefusal-IsExcused id e w s = record {
  has_fuel = λ h. ground (arith, s, h);
  is_paused = λ h. absurd (ground (arith, s, h));
}

abbrev pub IsIn : ℕ → TaskState → Session → Type 0
IsIn id state s = state_of id s.now ≡ some state

pub transition_task_lem :
    (P : Session → Type 0) (id : ℕ) (target : TaskState)
    → Triple P (transition_task id target) (λ _. IsIn id target) (λ e _. IsRefusal e)
transition_task_lem P id target = record {
  at = λ s h. elim (transition_task_exact id target s) [
    | inl (t, found, move, done, seen, saved) ↦
        rw (done, seen, lookup-insert_self id (record t { state = target }) s.now.tasks) refl
    | inr (inl missing, _) ↦ rw missing (inl refl)
    | inr (inr refused, _) ↦ rw refused (inr refl)
  ];
}

pub Triple-lifted :
    {A : Type 0} {P : Session → Type 0} {Q : A → Session → Type 0} {E : Error → Session → Type 0}
    (m : Action Session A)
    → Triple P m Q E
    → Triple (λ w. P w.session) (in_session m) (λ a w. Q a w.session) (λ e w. E e w.session)
unfolding in_session
Triple-lifted {A} {P} {Q} {E} m t = record {
  at = λ w h. Ends-lifted (m w.session).0 w (m w.session).1 (t.at w.session h);
}
  where
    Ends-lifted :
        (r : Result A) (w : World) (s : Session)
        → Ends Q E r s
        → Ends (λ a v. Q a v.session) (λ e v. E e v.session) r (record w { session = s })
    Ends-lifted (ok a) w s h = h
    Ends-lifted (err e) w s h = h

create_approval_lem :
    (id : ℕ) (request : ApprovalRequest)
    → Triple
        (λ _. Unit)
        (create_approval id request)
        (λ _. IsIn id waiting_for_approval)
        (λ e _. IsRefusal e)
unfolding create_approval put_approval commit
create_approval_lem id request = Triple-seq {R = λ _ _. Unit} (Triple-gets _ (λ _ _. tt)) λ key.
    Triple-seq {R = λ _ _. Unit} (record { at = λ s h. tt })
      λ _. Triple-seq (transition_task_lem (λ _. Unit) id waiting_for_approval) λ _.
        Triple-seq {R = λ _. IsIn id waiting_for_approval} (record { at = λ s h. h })
          λ _. Triple-pure key (λ s h. h)

module _ (env : Env) (id : ℕ) (approved : List String) where
  gate_lem :
      (step : PlanStep) (P : World → Type 0)
      → Triple P (gate env id approved step) (λ _. P) (IsExcused id)
  unfolding gate request_approval
  gate_lem step P =
      Triple-if (step.requires_approval && not (contains approved step.name)) _ _
        (λ _.
          Triple-seq
            (Triple-weaken _ (Triple-lifted _ (create_approval_lem id _)) (λ w h. tt) (λ _ w h. h)
              (λ e w h. IsRefusal-IsExcused id e w h))
            λ _. Triple-raise approval_required_error (λ w paused. record {
              has_fuel = λ h. absurd (ground (arith, h));
              is_paused = λ _. paused;
            }))
        (λ _. Triple-pure tt (λ w h. h))

  -- The state of the run after one step that was a success.
  report : ℕ → PlanStep → OrchestratorState → OrchestratorState
  report index step p = record p {
    step_index = index;
    tool_call_count = p.tool_call_count + 1;
    step_outputs = p.step_outputs ++ success_of step ∷ [];
    iterations = p.iterations + 1;
  }

  report_lem :
      {E : Error → World → Type 0} (index : ℕ) (step : PlanStep) (xs : List PlanStep)
      (p : OrchestratorState) (result : AgentResult)
      → Triple
          (HasRun env step xs (record p { step_index = index }) result)
          (set_progress (λ p. record p {
            step_outputs =
                p.step_outputs
                ++ record { step = step.name; agent = step.agent; success = result.success } ∷ [];
            iterations = p.iterations + 1;
          }))
          (λ _. Holds (At env (step ∷ xs) (report index step p)))
          E
  unfolding report set_progress
  report_lem index step xs p result = record {
    at = λ w (good, same, e, _). (same, rw (e, good) refl);
  }

  HasDone-next :
      (index : ℕ) (step : PlanStep) (steps xs : List PlanStep) (p : OrchestratorState) (w : World)
      → p.iterations < env.limits.max_iterations
      → p.tool_call_count < env.limits.max_tool_calls
      → HasDone env.limits steps (step ∷ xs) (report index step p) w
      → HasDone env.limits (step ∷ steps) xs p w
  unfolding report
  HasDone-next index step steps xs p w few below d = record {
    plan = d.plan;
    invoked = d.invoked;
    outputs = d.outputs ∙ append_assoc p.step_outputs (success_of step ∷ []) (map success_of steps);
    iterations = omega (arith, d.iterations);
    tool_calls = omega (arith, d.tool_calls);
    iteration_bound = λ _. d.iteration_bound (omega (arith, few));
    tool_call_bound = λ _. d.tool_call_bound (omega (arith, below));
  }

  -- When the execution returns, all steps were invoked with success within the limits; when it
  -- raises, a request for an approval has paused the task, and the fuel was enough.
  pub execute_steps_lem :
      (index : ℕ) (steps xs : List PlanStep) (p : OrchestratorState)
      → Triple
          (Holds (At env xs p))
          (execute_steps env id approved index steps)
          (λ _. HasDone env.limits steps xs p)
          (IsExcused id)
  unfolding execute_steps run_step_with_recovery report
  execute_steps_lem index [] xs p = Triple-pure tt (λ w (same, e). record {
    plan = ap (λ q. q.plan) e;
    invoked = same;
    outputs = ap (λ q. q.step_outputs) e ∙ sym (append-nil p.step_outputs);
    iterations = omega (arith, ap (λ q. q.iterations) e);
    tool_calls = omega (arith, ap (λ q. q.tool_call_count) e);
    iteration_bound = λ h. rw e h;
    tool_call_bound = λ h. rw e h;
  })
  execute_steps_lem index (step ∷ steps) xs p =
      let p1 = record p { step_index = index } in
      Triple-seq (Triple-set_progress (At env xs p) _ (λ w (same, e). (same, rw e refl))) λ _.
        Triple-seq (Triple-check_limits env (At env xs p1) (λ e w s h. IsStop-IsExcused id e w s))
          λ _. Triple-given _ λ v (h, few, _). Triple-seq (gate_lem step _) λ _.
            Triple-seq
              (Triple-weaken _ (attempt-once env _ id step 0 xs p1) (λ w q. q.0) (λ _ w q. q)
                (IsStop-IsExcused id))
              λ result. Triple-given _ λ w (_, _, _, below).
                Triple-seq (report_lem index step xs p result) λ _.
                  Triple-weaken _
                    (execute_steps_lem (suc index) steps (step ∷ xs) (report index step p))
                    (λ u q. q)
                    (λ _ u d.
                      HasDone-next index step steps xs p u (rw (← ap (λ q. q.iterations) h.1) few)
                        below d)
                    (λ e u q. q)

-- From any state, the execution of a plan either returns, and then it has invoked every step once
-- and in order, has reported each as a success, has counted them, and has kept the counters within
-- the limits on iterations and tool calls; or it raises, and then its fuel was enough and, if it
-- asks for an approval, its task waits for one.
pub execute_steps-Ends :
    (env : Env) (id : ℕ) (approved : List String) (steps : List PlanStep) (w : World)
    → let (r, w') = execute_steps env id approved 0 steps w in
      Ends (λ _. HasDone env.limits steps w.invoked w.progress) (IsExcused id) r w'
execute_steps-Ends env id approved steps w =
    (execute_steps_lem env id approved 0 steps w.invoked w.progress).at w (refl, refl)
