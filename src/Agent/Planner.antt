-- ===== src/Agent/Planner.antt =====
-- app/agents/planner.py: the plan that `PlannerAgent.decide` returns. What the language model
-- replies is given.
use agent_operator.Errors.{Error, value_error}
use agent_operator.Prelude.{false, [], ◌∷◌, leb, length, if◌then◌else◌, Result, ok, err}
use agent_operator.Store.{Plan, research}
use agent_operator.Text.{Text, strip, is_empty}

-- The reply of the model under `with_structured_output(Plan)`.
pub data PlannerReply : Type 0 where
  structured : Plan → PlannerReply
  not_implemented : PlannerReply
  fails : Error → PlannerReply

-- The plan of one step for a model without structured output. `PlanStep` accepts descriptions of
-- up to 2000 characters.
unfoldable pub fallback_plan : Text → Result Plan
fallback_plan instruction =
    if leb (length instruction) 2000
    then ok (
        record {
          name = "research";
          agent = research;
          description = instruction;
          requires_approval = false;
        }
        ∷ [])
    else err value_error

abbrev plan_of_reply : Text → PlannerReply → Result Plan
plan_of_reply instruction (structured plan) = ok plan
plan_of_reply instruction not_implemented = fallback_plan instruction
plan_of_reply instruction (fails e) = err e

-- `decide`: an instruction of white space alone has the empty plan, and no model is asked.
unfoldable pub decide_plan : (Text → PlannerReply) → Text → Result Plan
unfolding fallback_plan
decide_plan reply text =
    let instruction = strip text in
    if is_empty instruction then ok [] else plan_of_reply instruction (reply instruction)
