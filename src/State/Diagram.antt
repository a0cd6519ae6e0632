-- ===== src/State/Diagram.antt =====
-- The transition diagram of app/domain/state_machine.py as a relation, and what can be reached.
use agent_operator.Errors.{invalid_state_transition_error}
use agent_operator.Prelude.{
  ◌≡◌, ◌∙◌, refl, ◌↔◌, ◌⊎◌, inl, inr, Bool, true, false, arith, ok, err, Bool-cases,
}
use agent_operator.State.{
  TaskState, created, validating, planning, researching, drafting, validating_result,
  waiting_for_approval, executing, verifying, completed, failed, cancelled, timed_out, blocked,
  can_transition, transition, can_cancel,
}

pub data IsTerminal : TaskState → Type 0 where
  completed_end : IsTerminal completed
  failed_end : IsTerminal failed
  cancelled_end : IsTerminal cancelled
  timed_out_end : IsTerminal timed_out

-- The states of a task that is still under way.
pub data IsLive : TaskState → Type 0 where
  created_live : IsLive created
  validating_live : IsLive validating
  planning_live : IsLive planning
  researching_live : IsLive researching
  drafting_live : IsLive drafting
  validating_result_live : IsLive validating_result
  waiting_live : IsLive waiting_for_approval
  executing_live : IsLive executing
  verifying_live : IsLive verifying
  blocked_live : IsLive blocked

-- One move of a task: a step of the work, or an interruption of a task that is under way.
infix 40 ◌⟶◌ ◌⟶*◌
pub data ◌⟶◌ : TaskState → TaskState → Type 0 where
  validate : created ⟶ validating
  plan : validating ⟶ planning
  research : planning ⟶ researching
  draft_plan : planning ⟶ drafting
  draft : researching ⟶ drafting
  replan : researching ⟶ planning
  check : drafting ⟶ validating_result
  ask : validating_result ⟶ waiting_for_approval
  execute : validating_result ⟶ executing
  redraft : validating_result ⟶ drafting
  resume : waiting_for_approval ⟶ executing
  verify : executing ⟶ verifying
  pause : executing ⟶ waiting_for_approval
  finish : verifying ⟶ completed
  redo : verifying ⟶ executing
  fail : {s : TaskState} → IsLive s → s ⟶ failed
  time_out : {s : TaskState} → IsLive s → s ⟶ timed_out
  block : {s : TaskState} → IsLive s → s ⟶ blocked
  cancel : {s : TaskState} → IsLive s → s ⟶ cancelled

pub data ◌⟶*◌ : TaskState → TaskState → Type 0 where
  here : {s : TaskState} → s ⟶* s
  onward : {s t u : TaskState} → s ⟶ t → t ⟶* u → s ⟶* u

ruleset moves = (
  validate, plan, research, draft_plan, draft, replan, check, ask, execute, redraft, resume, verify,
  pause, finish, redo,
)

ruleset live_states = (
  created_live, validating_live, planning_live, researching_live, drafting_live,
  validating_result_live, waiting_live, executing_live, verifying_live, blocked_live,
)

can_transition-⟶ : (s t : TaskState) → can_transition s t ≡ true → s ⟶ t
unfolding can_transition
can_transition-⟶ s t h = grind (arith, moves, live_states, fail, time_out, block, cancel)

IsLive-escalates :
    {s : TaskState}
    → IsLive s
    → (can_transition s failed ≡ true)
      × (can_transition s timed_out ≡ true)
      × (can_transition s blocked ≡ true)
      × (can_transition s cancelled ≡ true)
unfolding can_transition
IsLive-escalates created_live = (refl, refl, refl, refl)
IsLive-escalates _ = (refl, refl, refl, refl)

⟶-can_transition : {s t : TaskState} → s ⟶ t → can_transition s t ≡ true
unfolding can_transition
⟶-can_transition (fail l) = (IsLive-escalates l).0
⟶-can_transition (time_out l) = (IsLive-escalates l).1
⟶-can_transition (block l) = (IsLive-escalates l).2
⟶-can_transition (cancel l) = (IsLive-escalates l).3
⟶-can_transition validate = refl
⟶-can_transition m = refl

-- The table allows exactly the moves of the diagram.
pub can_transition_iff : (s t : TaskState) → (can_transition s t ≡ true) ↔ (s ⟶ t)
can_transition_iff s t = (can_transition-⟶ s t, ⟶-can_transition)

-- `transition` returns the target on a move of the diagram, and raises
-- InvalidStateTransitionError on any other pair.
pub transition_exact :
    (s t : TaskState)
    → ((s ⟶ t) × (transition s t ≡ ok t))
      ⊎ (¬ (s ⟶ t) × (transition s t ≡ err invalid_state_transition_error))
unfolding transition
transition_exact s t = elim (Bool-cases (can_transition s t)) [
  | inl allowed ↦ inl (can_transition-⟶ s t allowed, rw allowed)
  | inr refused ↦ inr ((λ m. cc (⟶-can_transition m)), rw refused)
]

-- A task can be cancelled exactly from the states that the table lets move to CANCELLED: the set
-- of cancellable states and the transition table agree.
pub can_cancel-eq-can_transition : (s : TaskState) → can_cancel s ≡ can_transition s cancelled
unfolding can_cancel can_transition
can_cancel-eq-can_transition s = ground arith

stays : {s t : TaskState} → IsTerminal s → ¬ (s ⟶ t)
unfolding can_transition
stays completed_end m = cc (⟶-can_transition m)
stays failed_end m = cc (⟶-can_transition m)
stays cancelled_end m = cc (⟶-can_transition m)
stays timed_out_end m = cc (⟶-can_transition m)

-- From a terminal state no sequence of transitions leads anywhere else.
pub IsTerminal-absorbs : {s t : TaskState} → IsTerminal s → s ⟶* t → t ≡ s
IsTerminal-absorbs e here = refl
IsTerminal-absorbs e (onward m r) = absurd (stays e m)

-- The states from which the work can still be finished.
abbrev pub is_hopeful : TaskState → Bool
is_hopeful failed = false
is_hopeful cancelled = false
is_hopeful timed_out = false
is_hopeful blocked = false
is_hopeful _ = true

⟶-is_hopeful : {s t : TaskState} → s ⟶ t → is_hopeful t ≡ true → is_hopeful s ≡ true
⟶-is_hopeful (fail l) h = cc
⟶-is_hopeful (time_out l) h = cc
⟶-is_hopeful (block l) h = cc
⟶-is_hopeful (cancel l) h = cc
⟶-is_hopeful validate h = refl
⟶-is_hopeful m h = refl

⟶*-is_hopeful : {s t : TaskState} → s ⟶* t → is_hopeful t ≡ true → is_hopeful s ≡ true
⟶*-is_hopeful here h = h
⟶*-is_hopeful (onward m r) h = ⟶-is_hopeful m (⟶*-is_hopeful r h)

is_hopeful-⟶* : (s : TaskState) → is_hopeful s ≡ true → s ⟶* completed
is_hopeful-⟶* created h = search (here, onward, moves) depth 10
is_hopeful-⟶* validating h = search (here, onward, moves) depth 9
is_hopeful-⟶* planning h = search (here, onward, moves) depth 9
is_hopeful-⟶* researching h = search (here, onward, moves) depth 9
is_hopeful-⟶* drafting h = search (here, onward, moves) depth 9
is_hopeful-⟶* validating_result h = search (here, onward, moves) depth 9
is_hopeful-⟶* waiting_for_approval h = search (here, onward, moves) depth 9
is_hopeful-⟶* executing h = search (here, onward, moves)
is_hopeful-⟶* verifying h = search (here, onward, moves)
is_hopeful-⟶* completed h = here
is_hopeful-⟶* failed h = cc
is_hopeful-⟶* cancelled h = cc
is_hopeful-⟶* timed_out h = cc
is_hopeful-⟶* blocked h = cc

-- A task can still be completed exactly if it has not failed, been cancelled, timed out or been
-- blocked: a blocked task can only be ended.
pub completable_iff : (s : TaskState) → (s ⟶* completed) ↔ (is_hopeful s ≡ true)
completable_iff s = ((λ r. ⟶*-is_hopeful r refl), is_hopeful-⟶* s)

pub IsLive-or_IsTerminal : (s : TaskState) → IsLive s ⊎ IsTerminal s
IsLive-or_IsTerminal completed = inr completed_end
IsLive-or_IsTerminal failed = inr failed_end
IsLive-or_IsTerminal cancelled = inr cancelled_end
IsLive-or_IsTerminal timed_out = inr timed_out_end
IsLive-or_IsTerminal s = inl (search live_states)

pub IsLive-can_cancel : {s : TaskState} → IsLive s → can_cancel s ≡ true
IsLive-can_cancel {s} l = can_cancel-eq-can_transition s ∙ (IsLive-escalates l).3

pub IsTerminal-can_cancel : {s : TaskState} → IsTerminal s → can_cancel s ≡ false
unfolding can_cancel
IsTerminal-can_cancel completed_end = refl
IsTerminal-can_cancel _ = refl

pub IsLive-transition :
    {s : TaskState}
    → IsLive s
    → (transition s failed ≡ ok failed)
      × (transition s timed_out ≡ ok timed_out)
      × (transition s cancelled ≡ ok cancelled)
unfolding transition
IsLive-transition l = let (f, t, b, c) = IsLive-escalates l in (rw f, rw t, rw c)
