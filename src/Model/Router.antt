-- ===== src/Model/Router.antt =====
-- app/llm/router.py, with the criteria and the selection of app/llm/base.py.
pub mod Laws
mod Tests
use agent_operator.Prelude.{ℕ, String, Bool, true, false, ◌&&◌, ◌||◌, ltb, if◌then◌else◌}
use agent_operator.Policy.{RiskLevel, low, medium, high}

pub data ModelClass : Type 0 where
  fast tool_calling reasoning strongest : ModelClass

pub data TaskComplexity : Type 0 where
  simple moderate complex : TaskComplexity

pub record RoutingCriteria : Type 0 where
  pub task_complexity : TaskComplexity
  pub requires_tools : Bool
  pub requires_reasoning : Bool
  pub latency_sensitive : Bool
  pub context_length_estimate : ℕ
  pub requires_current_information : Bool
  pub risk_level : RiskLevel
  pub structured_output : Bool
  pub ambiguous : Bool
  pub conflicting_evidence : Bool
  pub execution_steps_estimate : ℕ
  pub estimated_cost_sensitivity : Bool

-- `ModelRoutingSettings` of app/config.py.
pub record ModelRoutingSettings : Type 0 where
  pub default_provider : String
  pub fast_model : String
  pub tool_calling_model : String
  pub reasoning_model : String
  pub strongest_model : String

pub record ModelSelection : Type 0 where
  pub model_class : ModelClass
  pub provider : String
  pub model_name : String

abbrev is_high : RiskLevel → Bool
is_high high = true
is_high _ = false

abbrev is_complex : TaskComplexity → Bool
is_complex complex = true
is_complex _ = false

-- `_select_class`, without the text of its reasoning.
unfoldable pub select_class : RoutingCriteria → ModelClass
select_class criteria =
    if is_high criteria.risk_level && (is_complex criteria.task_complexity || criteria.ambiguous)
    then strongest
    else if criteria.conflicting_evidence
    then reasoning
    else if is_complex criteria.task_complexity || criteria.ambiguous
    then reasoning
    else if criteria.requires_tools || ltb 1 criteria.execution_steps_estimate
    then tool_calling
    else fast

-- `_model_name_for`.
unfoldable pub model_name_for : ModelRoutingSettings → ModelClass → String
model_name_for settings fast = settings.fast_model
model_name_for settings tool_calling = settings.tool_calling_model
model_name_for settings reasoning = settings.reasoning_model
model_name_for settings strongest = settings.strongest_model

-- `route`.
unfoldable pub route : ModelRoutingSettings → RoutingCriteria → ModelSelection
route settings criteria =
    let model_class = select_class criteria in
    record {
      model_class = model_class;
      provider = settings.default_provider;
      model_name = model_name_for settings model_class;
    }
