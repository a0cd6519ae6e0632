-- ===== src/Agent/Orchestrator/Walk/Laws.antt =====
-- The walk through the task states follows the diagram.
use agent_operator.Prelude.{
  ℕ, ◌≡◌, refl, Bool, true, false, some, List, [], ◌∷◌, arith, leb, if◌then◌else◌, lookup,
  lookup-insert_self, ok, or_raise, ◌>>=◌,
}
use agent_operator.Prelude.Keeps.{Keeps, Keeps-bind, keeps_rules}
use agent_operator.State.{
  TaskState, created, validating, planning, researching, drafting, validating_result,
  waiting_for_approval, executing, verifying, completed, failed, cancelled, timed_out, blocked,
  can_transition, transition,
}
use agent_operator.Store.{Task, Session, commit, put_task}
use agent_operator.Service.{get_task, transition_task}
use agent_operator.Service.Follows.{
  Follows, Follows-preorder, get_task-Follows, transition_task-Follows,
}
use agent_operator.Agent.Orchestrator.Walk.{route, walk, walk_to}

walk-Follows : (id : ℕ) (states : List TaskState) → Keeps Follows (walk id states)
unfolding walk
walk-Follows id [] = search (keeps_rules, Follows-preorder)
walk-Follows id (state ∷ states) =
    Keeps-bind Follows-preorder (transition_task id state) (λ _. walk id states)
      (transition_task-Follows id state) (λ _. walk-Follows id states)

pub walk_to-Follows : (id : ℕ) (target : TaskState) → Keeps Follows (walk_to id target)
unfolding walk_to
walk_to-Follows id target = search (keeps_rules, Follows-preorder, get_task-Follows, walk-Follows)

-- Each state of the list is allowed after the one before it.
abbrev pub IsChain : TaskState → List TaskState → Type 0
IsChain s [] = Unit
IsChain s (t ∷ states) = (can_transition s t ≡ true) × IsChain t states

abbrev pub last_of : TaskState → List TaskState → TaskState
last_of s [] = s
last_of s (t ∷ states) = last_of t states

-- A chain is walked to its end.
pub walk_lem :
    (id : ℕ) (states : List TaskState) (t : Task) (s : Session)
    → lookup id s.now.tasks ≡ some t
    → IsChain t.state states
    → let (r, s') = walk id states s in
      (r ≡ ok tt) × (lookup id s'.now.tasks ≡ some (record t { state = last_of t.state states }))
unfolding walk transition_task get_task transition put_task commit ◌>>=◌
walk_lem id [] t s found chain = (refl, found)
walk_lem id (state ∷ states) t s found (allowed, chain) =
    rw (found, or_raise)
      (rw allowed (
        walk_lem id states (record t { state = state }) _
          (lookup-insert_self id (record t { state = state }) s.now.tasks) chain))

-- The states that the happy path orders.
abbrev pub is_ordered : TaskState → Bool
is_ordered waiting_for_approval = false
is_ordered failed = false
is_ordered cancelled = false
is_ordered timed_out = false
is_ordered blocked = false
is_ordered _ = true

abbrev position : TaskState → ℕ
position created = 0
position validating = 1
position planning = 2
position researching = 3
position drafting = 4
position validating_result = 5
position executing = 6
position verifying = 7
position completed = 8
position _ = 9

abbrev pub further : TaskState → TaskState → TaskState
further s t = if leb (position t) (position s) then s else t

IsChain-to :
    (s t : TaskState)
    → is_ordered s ≡ true
    → is_ordered t ≡ true
    → IsChain s (route s t) × (last_of s (route s t) ≡ further s t)
unfolding route can_transition
IsChain-to created validating h k = ((refl, tt), refl)
IsChain-to s t h k = ground arith

-- Between two states of the happy path, `_walk_to` makes only allowed transitions and raises
-- nothing; it ends in the target, or leaves a task alone that is already past it.
pub walk_to_forward :
    (id : ℕ) (target : TaskState) (t : Task) (s : Session)
    → lookup id s.now.tasks ≡ some t
    → is_ordered t.state ≡ true
    → is_ordered target ≡ true
    → let (r, s') = walk_to id target s in
      (r ≡ ok tt) × (lookup id s'.now.tasks ≡ some (record t { state = further t.state target }))
unfolding walk_to get_task ◌>>=◌
walk_to_forward id target t s found h k =
    let (chain, end) = IsChain-to t.state target h k in
    rw (found, or_raise) (rw (← end) (walk_lem id (route t.state target) t s found chain))
