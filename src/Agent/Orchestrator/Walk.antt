-- ===== src/Agent/Orchestrator/Walk.antt =====
-- `_HAPPY_PATH_ORDER` and `_walk_to` of app/agents/orchestrator.py.
pub mod Laws
use agent_operator.Prelude.{
  ℕ, suc, ◌-◌, Bool, true, false, Option, none, some, List, [], ◌∷◌, leb, if◌then◌else◌, take, drop,
  Action, pure, ◌>>=◌, ◌>>◌,
}
use mathlib.Core.Option
use agent_operator.State.{
  TaskState, created, validating, planning, researching, drafting, validating_result, executing,
  verifying, completed, same_state,
}
use agent_operator.Store.{Session}
use agent_operator.Service.{get_task, transition_task}

abbrev pub happy_path_order : List TaskState
happy_path_order =
    created ∷ validating ∷ planning ∷ researching ∷ drafting ∷ validating_result ∷ executing
    ∷ verifying ∷ completed ∷ []

-- `order.index(state)`; `none` stands for ValueError.
abbrev pub index : TaskState → List TaskState → Option ℕ
index state [] = none
index state (s ∷ order) = if same_state s state then some 0 else Option.map suc (index state order)

-- The states that `_walk_to` moves the task through, one by one.
unfoldable pub route : TaskState → TaskState → List TaskState
route current target =
    if same_state current target then [] else elim (index current happy_path_order) [
      | none ↦ target ∷ []
      | some i ↦ elim (index target happy_path_order) [
        | none ↦ target ∷ []
        | some j ↦ if leb j i then [] else take (j - i) (drop (suc i) happy_path_order)
      ]
    ]

unfoldable pub walk : ℕ → List TaskState → Action Session (Unit {0})
walk id [] = pure tt
walk id (state ∷ states) = do _ ← transition_task id state; walk id states

unfoldable pub walk_to : ℕ → TaskState → Action Session (Unit {0})
unfolding route walk
walk_to id target = do task ← get_task id; walk id (route task.state target)
