-- ===== src/Agent/Orchestrator/World.antt =====
-- app/agents/orchestrator.py: what an orchestrator is given, the state of a run, and the helpers.
--
-- What the orchestrator is given stands in `Env`: its limits, the compiled graphs, the clock, the
-- set of cancelled tasks, the planner's model and the browser. A reading of the clock is the number
-- of seconds since the start, rounded up: the code compares it to whole numbers alone.
use agent_operator.Prelude.{
  ℕ, String, Bool, true, false, Option, none, some, List, [], lookup, new_key, Result, ok, Action,
  pure, gets, ◌>>=◌, ◌>>◌,
}
use agent_operator.Store.{
  StepKind, research, browser, content, fact_check, social, verify, local_system, PlanStep, Plan,
  StepOutput, RunStatus, running, Session, put_run,
}
use agent_operator.Text.{Text}
use agent_operator.Agent.Recovery.{LimitSettings}
use agent_operator.Agent.Planner.{PlannerReply}

-- How a compiled graph ends: with messages, or with an exception whose text is given.
pub data GraphReply : Type 0 where
  answers : GraphReply
  raises : String → GraphReply

pub record Env : Type 0 where
  pub limits : LimitSettings
  -- `key in self.graphs`
  pub has_graph : StepKind → Bool
  -- The reply of the n-th invocation of a graph.
  pub reply : ℕ → PlanStep → GraphReply
  -- The clock, and whether the task is in `cancelled_tasks`, at the n-th check of the limits.
  pub elapsed : ℕ → ℕ
  pub is_cancelled : ℕ → Bool
  pub planner : Text → PlannerReply
  -- Whether a browser manager and its settings are given; what opening and closing a session does.
  pub has_browser : Bool
  pub browser_opens : Result ℕ
  pub browser_closes : Result (Unit {0})

pub record OrchestratorState : Type 0 where
  pub plan : Option Plan
  pub step_index : ℕ
  pub iterations : ℕ
  pub tool_call_count : ℕ
  pub step_outputs : List StepOutput

abbrev pub initial_progress : OrchestratorState
initial_progress = record {
  plan = none;
  step_index = 0;
  iterations = 0;
  tool_call_count = 0;
  step_outputs = [];
}

-- The session of the database, the state of the run, and what the run has done outside: the limit
-- checks and graph invocations so far, the steps that graphs were invoked for, and the browser
-- sessions that are open.
pub record World : Type 0 where
  pub session : Session
  pub progress : OrchestratorState
  pub task_timeout : Option ℕ
  pub checks : ℕ
  pub calls : ℕ
  pub invoked : List PlanStep
  pub browsers : List ℕ

pub record AgentResult : Type 0 where
  pub success : Bool
  pub error : Option String

unfoldable pub in_session : {A : Type 0} → Action Session A → Action World A
in_session m w = let (r, s') = m w.session in (r, record w { session = s' })

unfoldable pub set_progress : (OrchestratorState → OrchestratorState) → Action World (Unit {0})
set_progress f w = (ok tt, record w { progress = f w.progress })

-- `_AGENT_KEY`, which maps each name to itself.
abbrev pub agent_key : StepKind → String
agent_key research = "research"
agent_key browser = "browser"
agent_key content = "content"
agent_key fact_check = "fact_check"
agent_key social = "social"
agent_key verify = "verify"
agent_key local_system = "local_system"

abbrev pub is_browser : StepKind → Bool
is_browser browser = true
is_browser _ = false

-- `_start_agent_run`.
unfoldable pub start_agent_run : ℕ → String → Action Session ℕ
start_agent_run task_id agent_name = do
  id ← gets (λ s. new_key s.now.agent_runs)
  put_run id (record { task_id = task_id; agent_name = agent_name; status = running })
  pure id

-- `_finish_agent_run`, without the output and the error that it stores.
unfoldable pub finish_agent_run : ℕ → RunStatus → Action Session (Unit {0})
finish_agent_run id status = do
  row ← gets (λ s. lookup id s.now.agent_runs)
  elim row [ none ↦ pure tt | some run ↦ put_run id (record run { status = status }) ]
