-- ===== src/State.antt =====
-- app/domain/state_machine.py: the states of a task, the transition table and its three queries.
pub mod Diagram
mod Tests
use agent_operator.Errors.{invalid_state_transition_error}
use agent_operator.Prelude.{
  List, [], ◌∷◌, ◌++◌, Bool, true, false, if◌then◌else◌, Result, ok, err, any,
}

pub data TaskState : Type 0 where
  created validating planning researching drafting validating_result waiting_for_approval executing
        verifying completed failed cancelled timed_out blocked :
      TaskState

-- Whether two states are the same one.
abbrev pub same_state : TaskState → TaskState → Bool
same_state created created = true
same_state validating validating = true
same_state planning planning = true
same_state researching researching = true
same_state drafting drafting = true
same_state validating_result validating_result = true
same_state waiting_for_approval waiting_for_approval = true
same_state executing executing = true
same_state verifying verifying = true
same_state completed completed = true
same_state failed failed = true
same_state cancelled cancelled = true
same_state timed_out timed_out = true
same_state blocked blocked = true
same_state _ _ = false

-- `target in states`.
abbrev is_in : TaskState → List TaskState → Bool
is_in s states = any (same_state s) states

abbrev pub terminal_states : List TaskState
terminal_states = completed ∷ failed ∷ cancelled ∷ timed_out ∷ []

abbrev pub cancellable_states : List TaskState
cancellable_states =
    created ∷ validating ∷ planning ∷ researching ∷ drafting ∷ validating_result
    ∷ waiting_for_approval ∷ executing ∷ verifying ∷ blocked ∷ []

abbrev pub happy_path : TaskState → List TaskState
happy_path created = validating ∷ cancelled ∷ []
happy_path validating = planning ∷ []
happy_path planning = researching ∷ drafting ∷ []
happy_path researching = drafting ∷ planning ∷ []
happy_path drafting = validating_result ∷ []
happy_path validating_result = waiting_for_approval ∷ executing ∷ drafting ∷ []
happy_path waiting_for_approval = executing ∷ cancelled ∷ []
happy_path executing = verifying ∷ waiting_for_approval ∷ []
happy_path verifying = completed ∷ executing ∷ []
happy_path completed = []
happy_path failed = []
happy_path cancelled = []
happy_path timed_out = []
happy_path blocked = []

abbrev pub escalation_targets : List TaskState
escalation_targets = failed ∷ timed_out ∷ blocked ∷ cancelled ∷ []

-- The entries of `ALLOWED_TRANSITIONS`.
abbrev pub allowed_transitions : TaskState → List TaskState
allowed_transitions state =
    if is_in state terminal_states then happy_path state else happy_path state ++ escalation_targets

unfoldable pub can_transition : TaskState → TaskState → Bool
can_transition current target =
    if is_in current terminal_states then false else is_in target (allowed_transitions current)

unfoldable pub transition : TaskState → TaskState → Result TaskState
unfolding can_transition
transition current target =
    if can_transition current target then ok target else err invalid_state_transition_error

unfoldable pub can_cancel : TaskState → Bool
can_cancel current = is_in current cancellable_states
