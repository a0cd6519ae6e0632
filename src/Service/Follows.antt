-- ===== src/Service/Follows.antt =====
-- Every operation of the two services moves tasks only along the diagram of
-- app/domain/state_machine.py.
use agent_operator.Errors.{validation_error, invalid_state_transition_error}
use agent_operator.Prelude.{
  ℕ, ◌≡◌, refl, ◌⊎◌, inl, inr, String, Option, none, some, arith, ◌==◌, ==_iff, Bool-cases,
  Option-cases, Table, lookup, insert, lookup-insert, new_key, lookup-new_key, ok, err, or_raise,
  ◌>>=◌,
}
use agent_operator.Prelude.Keeps.{IsPreorder, Keeps, keeps_rules}
use agent_operator.State.{TaskState}
use agent_operator.State.Diagram.{◌⟶◌, ◌⟶*◌, here, onward, transition_exact}
use agent_operator.Store.{
  Task, Approval, AgentRun, Session, commit, put_task, put_approval, put_run,
}
use agent_operator.Text.{Text}
use agent_operator.Service.{
  ApprovalRequest, ApprovalDecision, get_task, transition_task, cancel_task, create_approval,
  get_approval, get_pending_for_task, decide, decide_approval, create_task,
}

pub ⟶*-trans : {s t u : TaskState} → s ⟶* t → t ⟶* u → s ⟶* u
⟶*-trans here r = r
⟶*-trans (onward m q) r = onward m (⟶*-trans q r)

-- The row that was `t` is still there, in a state that `t` can reach.
abbrev pub HasMoved : Task → Option Task → Type 0
HasMoved t row = (t' : Task) × (row ≡ some t') × (t.state ⟶* t'.state)

-- No task is lost, and each stands where the diagram can lead it.
pub record Evolves (before later : Table Task) : Type 0 where
  pub moved : (id : ℕ) (t : Task) → lookup id before ≡ some t → HasMoved t (lookup id later)

pub Evolves-refl : (a : Table Task) → Evolves a a
Evolves-refl a = record { moved = λ id t h. (t, h, here) }

pub Evolves-trans : {a b c : Table Task} → Evolves a b → Evolves b c → Evolves a c
Evolves-trans p q = record {
  moved = λ id t h.
      let (u, found, way) = p.moved id t h in
      let (v, found', way') = q.moved id u found in (v, found', ⟶*-trans way way');
}

-- The row of a task is written again, in a state that the old row can reach.
pub Evolves-insert :
    (a : Table Task) (id : ℕ) (t t' : Task)
    → lookup id a ≡ some t
    → t.state ⟶* t'.state
    → Evolves a (insert id t' a)
Evolves-insert a id t t' found way = record {
  moved = λ j u h. elim (Bool-cases (j == id)) [
    | inl same ↦
        let same_row : u ≡ t = ground (arith, ==_iff j id) in
        (t', rw lookup-insert (rw same), rw same_row way)
    | inr other ↦ (u, rw lookup-insert (rw other h), here)
  ];
}

-- A new row is written.
pub Evolves-insert_new :
    (a : Table Task) (id : ℕ) (t' : Task) → lookup id a ≡ none → Evolves a (insert id t' a)
Evolves-insert_new a id t' fresh = record {
  moved = λ j u h. elim (Bool-cases (j == id)) [
    | inl same ↦ absurd (ground (arith, ==_iff j id))
    | inr other ↦ (u, rw lookup-insert (rw other h), here)
  ];
}

-- What the session sees evolves, and so does what is committed, from any rows that both come from.
pub record Follows (s s' : Session) : Type 0 where
  pub seen : Evolves s.now.tasks s'.now.tasks
  pub committed :
      (a : Table Task) → Evolves a s.now.tasks → Evolves a s.saved.tasks → Evolves a s'.saved.tasks

-- The rows of the tasks are left alone, and nothing is committed.
pub Follows-same_tasks :
    (s s' : Session) → s'.now.tasks ≡ s.now.tasks → s'.saved ≡ s.saved → Follows s s'
Follows-same_tasks s s' e f = record {
  seen = rw e (Evolves-refl s.now.tasks);
  committed = λ a p q. rw f q;
}

pub Follows-preorder : IsPreorder Follows
Follows-preorder = record {
  same = λ s. Follows-same_tasks s s refl refl;
  step = λ s t u p q. record {
    seen = Evolves-trans p.seen q.seen;
    committed = λ a n c. q.committed a (Evolves-trans n p.seen) (p.committed a n c);
  };
}

pub Follows-put_task :
    (s : Session) (id : ℕ) (t t' : Task)
    → lookup id s.now.tasks ≡ some t
    → t.state ⟶* t'.state
    → Follows s (put_task id t' s).1
unfolding put_task
Follows-put_task s id t t' found way = record {
  seen = Evolves-insert s.now.tasks id t t' found way;
  committed = λ a n c. c;
}

pub commit-Follows : Keeps Follows commit
unfolding commit
commit-Follows = record {
  at = λ s. record { seen = Evolves-refl s.now.tasks; committed = λ a n c. n };
}

pub put_approval-Follows : (id : ℕ) (row : Approval) → Keeps Follows (put_approval id row)
unfolding put_approval
put_approval-Follows id row = record { at = λ s. Follows-same_tasks s _ refl refl }

pub put_run-Follows : (id : ℕ) (row : AgentRun) → Keeps Follows (put_run id row)
unfolding put_run
put_run-Follows id row = record { at = λ s. Follows-same_tasks s _ refl refl }

-- What `transition_task` does: it moves the task along the diagram and commits, or raises and
-- leaves the session as it was.
pub transition_task_exact :
    (id : ℕ) (target : TaskState) (s : Session)
    → let (r, s') = transition_task id target s in
      ((t : Task) × (lookup id s.now.tasks ≡ some t)
        × (t.state ⟶ target)
        × (r ≡ ok (record t { state = target }))
        × (s'.now ≡ record s.now { tasks = insert id (record t { state = target }) s.now.tasks })
        × (s'.saved ≡ s'.now))
      ⊎ (((r ≡ err validation_error) ⊎ (r ≡ err invalid_state_transition_error)) × (s' ≡ s))
unfolding transition_task get_task ◌>>=◌ put_task commit
transition_task_exact id target s = elim (Option-cases (lookup id s.now.tasks)) [
  | inl missing ↦ inr (inl (rw missing), rw missing)
  | inr (t, found) ↦ elim (transition_exact t.state target) [
    | inl (move, done) ↦ inl (
      t,
      found,
      move,
      rw (found, or_raise) (rw done),
      rw (found, or_raise) (rw done),
      rw (found, or_raise) (rw done),
    )
    | inr (no_move, refused) ↦
        inr (inr (rw (found, or_raise) (rw refused)), rw (found, or_raise) (rw refused))
  ]
]

pub transition_task-Follows :
    (id : ℕ) (target : TaskState) → Keeps Follows (transition_task id target)
transition_task-Follows id target = record {
  at = λ s. elim (transition_task_exact id target s) [
    | inl (t, found, move, _, seen, saved) ↦
        let e =
          Evolves-insert s.now.tasks id t (record t { state = target }) found (onward move here) in
        record { seen = rw seen e; committed = λ a n c. rw saved (rw seen (Evolves-trans n e)) }
    | inr (_, same) ↦ rw same (Follows-preorder.same s)
  ];
}

ruleset follow_rules = (
  keeps_rules, Follows-preorder, commit-Follows, put_approval-Follows, put_run-Follows,
  transition_task-Follows,
)

pub get_task-Follows : (id : ℕ) → Keeps Follows (get_task id)
unfolding get_task
get_task-Follows id = search follow_rules

pub cancel_task-Follows : (id : ℕ) → Keeps Follows (cancel_task id)
unfolding cancel_task
cancel_task-Follows id = search (follow_rules, get_task-Follows)

pub create_approval-Follows :
    (id : ℕ) (request : ApprovalRequest) → Keeps Follows (create_approval id request)
unfolding create_approval
create_approval-Follows id request = search follow_rules depth 12

pub decide-Follows : (id : ℕ) (decision : ApprovalDecision) → Keeps Follows (decide id decision)
unfolding decide get_approval
decide-Follows id decision = search follow_rules depth 12

pub decide_approval-Follows :
    (id : ℕ) (decision : ApprovalDecision) → Keeps Follows (decide_approval id decision)
unfolding decide_approval get_pending_for_task
decide_approval-Follows id decision = search (follow_rules, decide-Follows)

pub create_task-Follows :
    (instruction : Text) (user_id : Option String) → Keeps Follows (create_task instruction user_id)
unfolding create_task put_task commit ◌>>=◌
create_task-Follows instruction user_id = record {
  at = λ s.
      let e = Evolves-insert_new s.now.tasks (new_key s.now.tasks) _ (lookup-new_key s.now.tasks) in
      record { seen = e; committed = λ a n c. Evolves-trans n e };
}
