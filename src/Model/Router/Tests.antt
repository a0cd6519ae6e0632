-- ===== src/Model/Router/Tests.antt =====
-- The route of the planner, and a simple task.
use agent_operator.Prelude.{◌≡◌, refl, true, false}
use agent_operator.Policy.{low}
use agent_operator.Model.Router.{
  RoutingCriteria, ModelRoutingSettings, complex, reasoning, select_class, route,
}

abbrev demo_settings : ModelRoutingSettings
demo_settings = record {
  default_provider = "litellm";
  fast_model = "small";
  tool_calling_model = "tools";
  reasoning_model = "thinking";
  strongest_model = "large";
}

-- What `PlannerAgent.decide` asks for.
abbrev planner_criteria : RoutingCriteria
planner_criteria = record {
  task_complexity = complex;
  requires_tools = false;
  requires_reasoning = true;
  latency_sensitive = false;
  context_length_estimate = 0;
  requires_current_information = false;
  risk_level = low;
  structured_output = false;
  ambiguous = true;
  conflicting_evidence = false;
  execution_steps_estimate = 1;
  estimated_cost_sensitivity = true;
}

planner_route : (route demo_settings planner_criteria).model_class ≡ reasoning
unfolding route select_class
planner_route = refl
