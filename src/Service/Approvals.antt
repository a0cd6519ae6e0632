-- ===== src/Service/Approvals.antt =====
-- What deciding an approval does to the approval and to its task.
use agent_operator.Errors.{Error, validation_error, invalid_state_transition_error}
use agent_operator.Prelude.{
  ℕ, ◌≡◌, refl, ◌⊎◌, inl, inr, some, Option-cases, if◌then◌else◌, lookup, insert,
  lookup-insert_self, ok, err, or_raise, ◌>>=◌,
}
use agent_operator.State.{TaskState, executing, cancelled}
use agent_operator.Store.{
  Approval, ApprovalStatus, rejected, Session, commit, put_approval, state_of,
}
use agent_operator.Service.{ApprovalDecision, get_approval, decide}
use agent_operator.Service.Follows.{transition_task_exact}

abbrev pub verdict : ApprovalDecision → ApprovalStatus
verdict d = if d.approved then ApprovalStatus.approved else rejected

abbrev pub destination : ApprovalDecision → TaskState
destination d = if d.approved then executing else cancelled

-- The row of an approval after the decision, and its task.
pub record IsDecided (id : ℕ) (d : ApprovalDecision) (row : Approval) (s' : Session) : Type 0 where
  pub status : row.status ≡ verdict d
  pub decided_by : row.decided_by ≡ d.decided_by
  pub stored : lookup id s'.now.approvals ≡ some row
  pub task_state : state_of row.task_id s'.now ≡ some (destination d)
  pub committed : s'.saved ≡ s'.now

-- Deciding an approval either records the decision, moves the task to EXECUTING or CANCELLED along
-- the diagram and commits both, or raises and commits nothing.
pub decide_exact :
    (id : ℕ) (d : ApprovalDecision) (s : Session)
    → let (r, s') = decide id d s in
      ((row : Approval) × (r ≡ ok row) × IsDecided id d row s')
      ⊎ ((e : Error) × (r ≡ err e) × (s'.saved ≡ s.saved))
unfolding decide get_approval ◌>>=◌ put_approval commit
decide_exact id d s = elim (Option-cases (lookup id s.now.approvals)) [
  | inl missing ↦ inr (validation_error, rw (missing, or_raise), rw (missing, or_raise))
  | inr (approval, found) ↦
      let row : Approval = record approval { status = verdict d; decided_by = d.decided_by } in
      let s₁ : Session = record s {
        now = record s.now { approvals = insert id row s.now.approvals };
      } in
      rw (found, or_raise)
        (elim (transition_task_exact row.task_id (destination d) s₁) [
          | inl (t, there, move, result, seen, saved) ↦ inl (
            row,
            rw result,
            record {
              status = refl;
              decided_by = refl;
              stored = rw result (rw seen (lookup-insert_self id row s.now.approvals));
              task_state = rw result (rw seen (rw lookup-insert_self));
              committed = rw result;
            },
          )
          | inr (inl failed, same) ↦ inr (validation_error, rw failed, rw failed (rw same))
          | inr (inr failed, same) ↦
              inr (invalid_state_transition_error, rw failed, rw failed (rw same))
        ])
]
