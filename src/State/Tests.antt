-- ===== src/State/Tests.antt =====
-- Runs of the transition table, and the theorems about it at concrete states.
use agent_operator.Prelude.{◌≡◌, ◌↔◌, refl, true, false}
use agent_operator.State.{completed, executing, verifying, can_transition}
use agent_operator.State.Diagram.{◌⟶◌, can_transition_iff}

completed_stays : can_transition completed executing ≡ false
unfolding can_transition
completed_stays = refl

can_transition_iff_example : (can_transition executing verifying ≡ true) ↔ (executing ⟶ verifying)
can_transition_iff_example = can_transition_iff executing verifying
