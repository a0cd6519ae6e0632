-- ===== src/Service/Cancel.antt =====
-- What cancelling a task does.
use agent_operator.Errors.{cancellation_error}
use agent_operator.Prelude.{
  ℕ, ◌≡◌, ◌⊎◌, inl, inr, some, lookup, lookup-insert_self, ok, err, or_raise, ◌>>=◌,
}
use agent_operator.State.{cancelled}
use agent_operator.State.Diagram.{
  IsLive, IsTerminal, IsLive-or_IsTerminal, IsLive-can_cancel, IsTerminal-can_cancel,
  IsLive-transition,
}
use agent_operator.Store.{Task, Session, commit, put_task, state_of}
use agent_operator.Service.{get_task, transition_task, cancel_task}

-- A task that exists is cancelled, and that is committed, exactly if it is still under way; from a
-- terminal state CancellationError is raised and nothing changes.
pub cancel_task_exact :
    (id : ℕ) (t : Task) (s : Session)
    → lookup id s.now.tasks ≡ some t
    → let (r, s') = cancel_task id s in
      (IsLive t.state
        × (r ≡ ok (record t { state = cancelled }))
        × (state_of id s'.saved ≡ some cancelled))
      ⊎ (IsTerminal t.state × (r ≡ err cancellation_error) × (s' ≡ s))
unfolding cancel_task transition_task get_task put_task commit ◌>>=◌
cancel_task_exact id t s found = elim (IsLive-or_IsTerminal t.state) [
  | inl live ↦
      let moves = (IsLive-transition live).2 in
      inl (
        live,
        rw (found, or_raise) (rw (IsLive-can_cancel live) (rw (found, or_raise) (rw moves))),
        rw (found, or_raise)
            (rw (IsLive-can_cancel live) (rw (found, or_raise) (rw moves (rw lookup-insert_self)))),
      )
  | inr over ↦ inr (
    over,
    rw (found, or_raise) (rw (IsTerminal-can_cancel over)),
    rw (found, or_raise) (rw (IsTerminal-can_cancel over)),
  )
]
