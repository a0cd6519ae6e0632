-- ===== src/Tools/Executor/Calls.antt =====
-- Every way in which a call of the engine ends.
use agent_operator.Errors.{Error, validation_error, rate_limit_error, tool_error}
use agent_operator.Prelude.{
  ℕ, ◌≤◌, ◌≡◌, refl, ◌∙◌, ap, ◌⊎◌, inl, inr, Bool-cases, arith, String, Bool, true, false, Option,
  none, length, some, [], ◌∷◌, str_eq, Table, lookup, insert, new_key, lookup-insert_self, Result,
  ok, err, ◌>>=◌,
}
use agent_operator.Policy.RateLimit.{acquire}
use agent_operator.Tools.{BaseTool, ToolRegistry, get}
use agent_operator.Tools.Executor.{
  CallStatus, success, failed, ToolCall, ExecutionContext, Engine, ToolExecutionResult, finished,
  enforce_permissions, Retry, start_tool_call, acquire_token, execute_tool, execute,
}
use agent_operator.Tools.Executor.Outcome.{
  IsRetry, times, Attempts, IsExecuted, IsLogged, execute_tool-IsExecuted,
}

Result-cases : {A : Type 0} (r : Result A) → ((a : A) × (r ≡ ok a)) ⊎ ((e : Error) × (r ≡ err e))
Result-cases (ok a) = inl (a, refl)
Result-cases (err e) = inr (e, refl)

get_error :
    (registry : ToolRegistry) (name : String) (e : Error)
    → get registry name ≡ err e
    → e ≡ validation_error
unfolding get
get_error [] name e h = ground (arith, h)
get_error ((key, tool) ∷ tools) name e h = elim (Bool-cases (str_eq key name)) [
  | inl same ↦ absurd (ground (arith, same, h))
  | inr other ↦ get_error tools name e (ground (arith, other, h))
]

lookup-finished :
    (id : ℕ) (status : CallStatus) (call : ToolCall) (rows : Table ToolCall)
    → lookup id (finished (some id) status (insert id call rows))
      ≡ some (record call { status = status })
unfolding finished
lookup-finished id status call rows =
    rw (lookup-insert_self id call rows, finished)
      (lookup-insert_self id (record call { status = status }) (insert id call rows))

module _ (retry : Retry) (registry : ToolRegistry) (has_session : Bool) (name : String)
    (ctx : ExecutionContext) (now : ℕ) (s : Engine) where
  -- A call that ends before its tool is executed. Only the rate limiter may have changed: a token
  -- is asked for after the permissions are checked, and no row is written.
  pub data IsRefused : Result ToolExecutionResult → Engine → Type 0 where
    unknown : get registry name ≡ err validation_error → IsRefused (err validation_error) s
    forbidden :
        (tool : BaseTool) (e : Error)
        → get registry name ≡ ok tool
        → enforce_permissions tool ctx ≡ err e
        → IsRefused (err e) s
    limited :
        (tool : BaseTool)
        → get registry name ≡ ok tool
        → enforce_permissions tool ctx ≡ ok tt
        → (acquire name now s.rate_limiter).0 ≡ false
        → IsRefused
            (err rate_limit_error)
            (record s { rate_limiter = (acquire name now s.rate_limiter).1 })

  -- A call whose tool was executed, with its permissions and a token: once at least and three times
  -- at most, each but the last with an exception that is retried. It returns what the last of them
  -- returned, or, where that raised, raises ToolError, and its row, if it has one, tells which.
  pub record HasCalled (r : Result ToolExecutionResult) (s' : Engine) : Type 0 where
    pub tool : BaseTool
    pub found : get registry name ≡ ok tool
    pub permitted : enforce_permissions tool ctx ≡ ok tt
    pub allowed : (acquire name now s.rate_limiter).0 ≡ true
    pub tries : ℕ
    pub once : 1 ≤ tries
    pub bound : tries ≤ 3
    pub executed : s'.executed ≡ times tries tool.name s.executed
    pub rate_limiter : s'.rate_limiter ≡ (acquire name now s.rate_limiter).1
    pub row : Option ℕ
    pub answer : Result String
    pub attempts : Attempts tool 3 (length s.executed) tries answer
    pub outcome :
        ((output : String) × (answer ≡ ok output)
          × (r ≡ ok (record { tool_call_id = row; output = output }))
          × IsLogged has_session ctx tool success s.tool_calls row s'.tool_calls)
        ⊎ ((e : Error) × (answer ≡ err e)
            × (r ≡ err tool_error)
            × IsLogged has_session ctx tool failed s.tool_calls row s'.tool_calls)

  -- What `_start_tool_call` leaves.
  record HasStarted (tool : BaseTool) (m : Engine) (r : Result (Option ℕ)) (s' : Engine)
      : Type 0 where
    row : Option ℕ
    result : r ≡ ok row
    executed : s'.executed ≡ m.executed
    rate_limiter : s'.rate_limiter ≡ m.rate_limiter
    logged :
        (status : CallStatus)
        → IsLogged has_session ctx tool status m.tool_calls row (finished row status s'.tool_calls)

  start_lem :
      (tool : BaseTool) (run : Option ℕ) (m : Engine)
      → ctx.agent_run_id ≡ run
      → let (r, s') = start_tool_call retry registry has_session tool run m in
        HasStarted tool m r s'
  unfolding start_tool_call ◌>>=◌ finished
  start_lem tool none m e = record {
    row = none;
    result = refl;
    executed = refl;
    rate_limiter = refl;
    logged = λ status. inr (inl e, refl, refl);
  }
  start_lem tool (some run_id) m e = elim (Bool-cases has_session) [
    | inr without ↦ rw without (record {
      row = none;
      result = refl;
      executed = refl;
      rate_limiter = refl;
      logged = λ status. inr (inr refl, refl, refl);
    })
    | inl with_one ↦ rw with_one (record {
      row = some (new_key m.tool_calls);
      result = refl;
      executed = refl;
      rate_limiter = refl;
      logged = λ status. inl (run_id, e, refl, refl, lookup-finished _ status _ m.tool_calls);
    })
  ]

  module _ (law : IsRetry retry) where
    called :
        (tool : BaseTool) (m : Engine) (r : Result (Option ℕ)) (m' : Engine)
        → (h : HasStarted tool m r m')
        → let (r', s') = ((λ _. (r, m')) >>= execute_tool retry registry has_session tool) m in
          IsExecuted tool h.row m' r' s'
    unfolding ◌>>=◌
    called tool m r m' h =
        rw h.result (execute_tool-IsExecuted retry law registry has_session tool h.row m')

    made :
        (tool : BaseTool) (m' s' : Engine) (r : Result ToolExecutionResult)
        (start : Result (Option ℕ))
        → get registry name ≡ ok tool
        → enforce_permissions tool ctx ≡ ok tt
        → (acquire name now s.rate_limiter).0 ≡ true
        → (h : HasStarted tool
            (record s { rate_limiter = (acquire name now s.rate_limiter).1 })
            start
            m')
        → IsExecuted tool h.row m' r s'
        → HasCalled r s'
    made tool m' s' r start found permitted allowed h x = record {
      tool = tool;
      found = found;
      permitted = permitted;
      allowed = allowed;
      tries = x.tries;
      once = x.once;
      bound = x.bound;
      executed = x.executed ∙ ap (times x.tries tool.name) h.executed;
      rate_limiter = x.rate_limiter ∙ h.rate_limiter;
      row = h.row;
      answer = x.answer;
      attempts = rw (← h.executed) x.attempts;
      outcome = elim (x.outcome) [
        | inl (output, answered, result, rows) ↦
            inl (output, answered, result, rw rows (h.logged success))
        | inr (e, answered, result, rows) ↦ inr (e, answered, result, rw rows (h.logged failed))
      ];
    }

    -- With a retry decorator that behaves as tenacity documents, a call is refused for an unknown tool,
    -- its permissions or its rate limit, in this order, and then no tool is executed and no row
    -- written; or its tool is executed once at least and three times at most, each time but the last
    -- with a RateLimitError, a ModelError or a ToolError. Where the last execution of the call returns,
    -- the call returns its output; where it raises, which is no such error unless it is the third, the
    -- call raises ToolError; and its row, if the engine logs, tells which.
    pub execute_exact :
        let (r, s') = execute retry registry has_session name ctx now s in
        IsRefused r s' ⊎ HasCalled r s'
    unfolding execute acquire_token ◌>>=◌
    execute_exact = elim (Result-cases (get registry name)) [
      | inr (e, missing) ↦
          let unknown_tool : get registry name ≡ err validation_error =
            rw (← get_error registry name e missing) missing in
          inl (rw unknown_tool (unknown unknown_tool))
      | inl (tool, found) ↦ elim (Result-cases (enforce_permissions tool ctx)) [
        | inr (e, denied) ↦ inl (rw found (rw denied (forbidden tool e found denied)))
        | inl (_, granted) ↦ elim (Bool-cases (acquire name now s.rate_limiter).0) [
          | inr short ↦ inl (rw found (rw granted (rw short (limited tool found granted short))))
          | inl allowed ↦
              let m : Engine = record s { rate_limiter = (acquire name now s.rate_limiter).1 } in
              let h = start_lem tool ctx.agent_run_id m refl in
              inr (
                rw found (
                  rw granted
                    (rw allowed (made tool _ _ _ _ found granted allowed h (called tool m _ _ h)))))
        ]
      ]
    ]
