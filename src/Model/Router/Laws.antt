-- ===== src/Model/Router/Laws.antt =====
-- When each class of models is chosen.
use agent_operator.Prelude.{◌≤◌, ◌≡◌, ◌↔◌, ◌⊎◌, true, false, arith}
use agent_operator.Policy.{high}
use agent_operator.Model.Router.{
  RoutingCriteria, complex, fast, strongest, ModelRoutingSettings, select_class, route,
}

module _ (settings : ModelRoutingSettings) (criteria : RoutingCriteria) where
  -- A hard task: complex or ambiguous.
  abbrev pub IsHard : Type 0
  IsHard = (criteria.task_complexity ≡ complex) ⊎ (criteria.ambiguous ≡ true)

  -- The strongest model is chosen exactly for hard tasks of high risk.
  pub route-eq-strongest_iff :
      ((route settings criteria).model_class ≡ strongest) ↔ ((criteria.risk_level ≡ high) × IsHard)
  unfolding route select_class
  route-eq-strongest_iff = ground arith

  -- The fast model is chosen exactly for tasks that are not hard, have no conflicting evidence,
  -- need no tools and take at most one step.
  pub route-eq-fast_iff : ((route settings criteria).model_class ≡ fast) ↔ (
      ¬ IsHard
      × (criteria.conflicting_evidence ≡ false)
      × (criteria.requires_tools ≡ false)
      × (criteria.execution_steps_estimate ≤ 1))
  unfolding route select_class
  route-eq-fast_iff = ground arith
