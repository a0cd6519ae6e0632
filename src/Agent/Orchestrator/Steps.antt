-- ===== src/Agent/Orchestrator/Steps.antt =====
-- The execution of the steps of a plan: `_check_limits`, `_invoke_subgraph`,
-- `_run_step_with_recovery`, `_request_approval` and `_execute_plan` of app/agents/orchestrator.py.
pub mod Quiet
pub mod Gate
pub mod Limits
pub mod Retries
pub mod Outcome
pub mod Moves
use agent_operator.Errors.{
  approval_required_error, timeout_error, cancellation_error, runtime_error, out_of_fuel,
}
use agent_operator.Prelude.{
  ℕ, zero, suc, ◌+◌, String, Bool, true, false, not, ◌&&◌, Option, none, some, List, [], ◌∷◌, ◌++◌,
  ltb, leb, if◌then◌else◌, contains, min, Action, pure, raise, gets, modify, raise_if, ◌>>=◌, ◌>>◌,
}
use agent_operator.Policy.{high}
use agent_operator.Store.{PlanStep, Plan, RunStatus, success}
use agent_operator.Service.{create_approval}
use agent_operator.Agent.Recovery.{
  ErrorValue, absent, text, RecoveryAction, retry, escalate, fail, decide,
}
use agent_operator.Agent.Orchestrator.World.{
  GraphReply, answers, raises, Env, OrchestratorState, World, AgentResult, in_session, set_progress,
  agent_key, start_agent_run, finish_agent_run,
}

abbrev pub result_of : GraphReply → AgentResult
result_of answers = record { success = true; error = none }
result_of (raises message) = record { success = false; error = some message }

abbrev pub status_of : GraphReply → RunStatus
status_of answers = success
status_of (raises message) = RunStatus.failed

-- The value under "error" of the observation: the result's error is a text or None.
abbrev pub error_value : Option String → ErrorValue
error_value none = absent
error_value (some message) = text message

-- What follows an invocation: a success is returned; on a failure the recovery agent has decided to
-- try again, to escalate, or to give up.
abbrev pub proceed :
    Bool → RecoveryAction → AgentResult → Action World AgentResult → Action World AgentResult
proceed true action result again = pure result
proceed false retry result again = again
proceed false escalate result again = raise approval_required_error
proceed false fail result again = raise runtime_error

module _ (env : Env) where
  -- `self._task_timeout or self.limits.max_execution_seconds`, where 0 is falsy.
  abbrev pub timeout_or_limit : Option ℕ → ℕ
  timeout_or_limit none = env.limits.max_execution_seconds
  timeout_or_limit (some zero) = env.limits.max_execution_seconds
  timeout_or_limit (some (suc n)) = suc n

  unfoldable pub effective_timeout : Option ℕ → ℕ
  effective_timeout timeout = min (timeout_or_limit timeout) env.limits.max_execution_seconds

  -- `_check_limits`: the clock is read once, and the four tests are made in turn.
  unfoldable pub check_limits : Action World (Unit {0})
  check_limits = do
    w ← gets (λ w. w)
    modify (λ w. record w { checks = suc w.checks })
    raise_if (env.is_cancelled w.checks) cancellation_error
    raise_if (ltb (effective_timeout w.task_timeout) (env.elapsed w.checks)) timeout_error
    raise_if (leb env.limits.max_iterations w.progress.iterations) timeout_error
    raise_if (leb env.limits.max_tool_calls w.progress.tool_call_count) timeout_error

  -- `graph.ainvoke`: the reply, and a note that the graph was invoked for the step.
  unfoldable pub invoke : PlanStep → Action World GraphReply
  invoke step = do
    w ← gets (λ w. w)
    modify (λ w. record w { invoked = step ∷ w.invoked; calls = suc w.calls })
    pure (env.reply w.calls step)

  -- `_invoke_subgraph`.
  unfoldable pub invoke_subgraph : ℕ → PlanStep → Action World AgentResult
  invoke_subgraph task_id step =
      if env.has_graph step.agent
      then (do
        run ← in_session (start_agent_run task_id (agent_key step.agent))
        reply ← invoke step
        in_session (finish_agent_run run (status_of reply))
        pure (result_of reply))
      else pure (record { success = false; error = some "No compiled graph for agent" })

  -- The loop of `_run_step_with_recovery`, on fuel. Its wait before a retry shows in the clock.
  unfoldable pub attempt : ℕ → ℕ → PlanStep → ℕ → Action World AgentResult
  attempt zero task_id step retry_count = raise out_of_fuel
  attempt (suc fuel) task_id step retry_count = do
    check_limits
    result ← invoke_subgraph task_id step
    set_progress (λ p. record p { tool_call_count = p.tool_call_count + 1 })
    proceed result.success (decide env.limits (error_value result.error) retry_count).action result
        (attempt fuel task_id step (retry_count + 1))

  -- Each round of the loop counts a tool call, and the limit on these ends it.
  unfoldable pub run_step_with_recovery : ℕ → PlanStep → Action World AgentResult
  run_step_with_recovery task_id step = attempt (suc env.limits.max_tool_calls) task_id step 0

  -- `_request_approval`.
  unfoldable pub request_approval : ℕ → PlanStep → Action World ℕ
  request_approval task_id step = in_session (
      create_approval task_id (record {
        action = step.name;
        target = agent_key step.agent;
        risk_level = high;
        reason = some step.description;
      }))

  -- The gate of `_execute_plan`: a step that needs an approval and has none pauses the task.
  unfoldable pub gate : ℕ → List String → PlanStep → Action World (Unit {0})
  gate task_id approved_actions step =
      if step.requires_approval && not (contains approved_actions step.name)
      then (do _ ← request_approval task_id step; raise approval_required_error)
      else pure tt

  -- The loop of `_execute_plan`, from step `index`.
  unfoldable pub execute_steps : ℕ → List String → ℕ → List PlanStep → Action World (Unit {0})
  execute_steps task_id approved_actions index [] = pure tt
  execute_steps task_id approved_actions index (step ∷ steps) = do
    set_progress (λ p. record p { step_index = index })
    check_limits
    gate task_id approved_actions step
    result ← run_step_with_recovery task_id step
    set_progress (λ p. record p {
      step_outputs =
          p.step_outputs
          ++ record { step = step.name; agent = step.agent; success = result.success } ∷ [];
      iterations = p.iterations + 1;
    })
    execute_steps task_id approved_actions (suc index) steps
