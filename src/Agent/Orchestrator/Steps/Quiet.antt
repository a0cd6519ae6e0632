-- ===== src/Agent/Orchestrator/Steps/Quiet.antt =====
-- The actions of a run that invoke no graph and open no browser.
use agent_operator.Prelude.{◌≡◌, refl, sym, ◌∙◌, ap, subst, List, Result, ok, err, Action}
use agent_operator.Prelude.Keeps.{IsPreorder, Keeps}
use agent_operator.Prelude.Triple.{Triple, Ends}
use agent_operator.Store.{PlanStep, Session}
use agent_operator.Agent.Orchestrator.World.{
  Env, World, OrchestratorState, in_session, set_progress,
}
use agent_operator.Agent.Orchestrator.Steps.{check_limits}
use agent_operator.Agent.Orchestrator.Steps.Limits.{check_limits_effect}

pub record Quiet (w w' : World) : Type 0 where
  pub invoked : w'.invoked ≡ w.invoked
  pub browsers : w'.browsers ≡ w.browsers

pub Quiet-preorder : IsPreorder Quiet
Quiet-preorder = record {
  same = λ w. record { invoked = refl; browsers = refl };
  step =
      λ u v w p q. record { invoked = q.invoked ∙ p.invoked; browsers = q.browsers ∙ p.browsers };
}

pub in_session-Quiet : {A : Type 0} (m : Action Session A) → Keeps Quiet (in_session m)
unfolding in_session
in_session-Quiet m = record { at = λ w. record { invoked = refl; browsers = refl } }

pub set_progress-Quiet : (f : OrchestratorState → OrchestratorState) → Keeps Quiet (set_progress f)
unfolding set_progress
set_progress-Quiet f = record { at = λ w. record { invoked = refl; browsers = refl } }

pub check_limits-Quiet : (env : Env) → Keeps Quiet (check_limits env)
check_limits-Quiet env = record {
  at = λ w. record {
    invoked = ap (λ v. v.invoked) (check_limits_effect env w);
    browsers = ap (λ v. v.browsers) (check_limits_effect env w);
  };
}

-- A fact about the invoked steps outlasts a quiet action.
module _ {A : Type 0} (P : List PlanStep → Type 0) where
  Ends-Quiet :
      (r : Result A) (w : World) → P w.invoked → Ends (λ _ v. P v.invoked) (λ _ v. P v.invoked) r w
  Ends-Quiet (ok a) w h = h
  Ends-Quiet (err e) w h = h

  pub Triple-Quiet :
      (m : Action World A)
      → Keeps Quiet m
      → Triple (λ w. P w.invoked) m (λ _ w. P w.invoked) (λ _ w. P w.invoked)
  Triple-Quiet m k = record {
    at = λ w h. Ends-Quiet (m w).0 (m w).1 (subst P (sym (k.at w).invoked) h);
  }
