-- ===== src/Agent/Orchestrator/Steps/Retries.antt =====
-- The loop around one step, and what the execution of a whole plan has done when it returns.
use agent_operator.Errors.{Error, timeout_error, cancellation_error, runtime_error}
use agent_operator.Prelude.{
  ℕ, suc, ◌+◌, ◌<◌, ◌≡◌, refl, ap, ◌⊎◌, inl, inr, String, Bool, true, false, Option, none, some,
  List, ◌∷◌, arith, Option-cases, lookup, ok, Action, ◌>>=◌,
}
use agent_operator.Prelude.Triple.{
  Ends, Triple, Triple-pure, Triple-raise, Triple-if, Triple-seq, Triple-given, Triple-weaken,
}
use agent_operator.Store.{PlanStep, RunStatus, Session, put_run}
use agent_operator.Agent.Recovery.{
  LimitSettings, RecoveryAction, fail, retry, escalate, classify, decide,
}
use agent_operator.Agent.Orchestrator.World.{
  Env, OrchestratorState, World, AgentResult, in_session, set_progress, start_agent_run,
  finish_agent_run,
}
use agent_operator.Agent.Orchestrator.Steps.{
  error_value, proceed, check_limits, invoke, invoke_subgraph, attempt, run_step_with_recovery,
}
use agent_operator.Agent.Orchestrator.Steps.Limits.{check_limits_effect, check_limits_exact}

-- What a step's loop can raise.
abbrev pub IsStop : Error → Type 0
IsStop e = (e ≡ cancellation_error) ⊎ (e ≡ timeout_error) ⊎ (e ≡ runtime_error)

-- The recovery agent is given the text of a failure, or nothing, and gives up on either.
decide-fail :
    (limits : LimitSettings) (error : Option String) (n : ℕ)
    → (decide limits (error_value error) n).action ≡ fail
unfolding decide classify
decide-fail limits none n = refl
decide-fail limits (some s) n = refl

-- An assertion on what a run has done so far.
abbrev pub Assertion : Type 1
Assertion = List PlanStep → OrchestratorState → Type 0

abbrev pub Holds : Assertion → World → Type 0
Holds P w = P w.invoked w.progress

-- An action of the session that returns leaves it true.
pub Triple-in_session :
    {A : Type 0} {E : Error → World → Type 0} (P : Assertion) (m : Action Session A)
    → ((s : Session) → (a : A) × ((m s).0 ≡ ok a))
    → Triple (Holds P) (in_session m) (λ _. Holds P) E
unfolding in_session
Triple-in_session P m total = record { at = λ w h. let (a, e) = total w.session in rw e h }

start_agent_run_total :
    (id : ℕ) (name : String) (s : Session) → (run : ℕ) × ((start_agent_run id name s).0 ≡ ok run)
unfolding start_agent_run put_run ◌>>=◌
start_agent_run_total id name s = (_, refl)

finish_agent_run_total :
    (id : ℕ) (status : RunStatus) (s : Session)
    → (u : Unit {0}) × ((finish_agent_run id status s).0 ≡ ok u)
unfolding finish_agent_run put_run ◌>>=◌
finish_agent_run_total id status s = elim (Option-cases (lookup id s.now.agent_runs)) [
  | inl missing ↦ (tt, rw missing refl)
  | inr (row, found) ↦ (tt, rw found refl)
]

pub Triple-set_progress :
    {Q : Unit {0} → World → Type 0} {E : Error → World → Type 0} (P : Assertion)
    (f : OrchestratorState → OrchestratorState)
    → ((w : World) → Holds P w → Q tt (record w { progress = f w.progress }))
    → Triple (Holds P) (set_progress f) Q E
unfolding set_progress
Triple-set_progress P f h = record { at = h }

module _ (env : Env) where
  -- A check that passes found the counters below their limits.
  pub Triple-check_limits :
      {E : Error → World → Type 0} (P : Assertion)
      → ((e : Error) (w : World) → IsStop e → Holds P w → E e w)
      → Triple
          (Holds P)
          (check_limits env)
          (λ _ w.
            Holds P w
            × (w.progress.iterations < env.limits.max_iterations)
            × (w.progress.tool_call_count < env.limits.max_tool_calls))
          E
  Triple-check_limits P x = record {
    at = λ w h. rw (check_limits_effect env w) (elim (check_limits_exact env w) [
      | inl (done, within) ↦ rw done (h, within.iterations, within.tool_calls)
      | inr (inl (gone, _)) ↦ rw gone (x _ _ (inl refl) h)
      | inr (inr (late, _, _)) ↦ rw late (x _ _ (inr (inl refl)) h)
    ]);
  }

  -- What a run has invoked so far, newest first, and its state.
  abbrev pub At : List PlanStep → OrchestratorState → Assertion
  At xs p ys q = (ys ≡ xs) × (q ≡ p)

  -- With a graph that answers, the step was added to the invoked ones.
  abbrev HasInvoked : PlanStep → List PlanStep → OrchestratorState → AgentResult → Assertion
  HasInvoked step xs p result ys q = (result.success ≡ true → ys ≡ step ∷ xs) × (q ≡ p)

  invoke_lem :
      {E : Error → World → Type 0} (step : PlanStep) (xs : List PlanStep) (p : OrchestratorState)
      → Triple (Holds (At xs p)) (invoke env step) (λ _. Holds (At (step ∷ xs) p)) E
  unfolding invoke ◌>>=◌
  invoke_lem step xs p = record { at = λ w (same, e). (ap (λ ys. step ∷ ys) same, e) }

  invoke_subgraph_lem :
      {E : Error → World → Type 0} (id : ℕ) (step : PlanStep) (xs : List PlanStep)
      (p : OrchestratorState)
      → Triple
          (Holds (At xs p))
          (invoke_subgraph env id step)
          (λ r. Holds (HasInvoked step xs p r))
          E
  unfolding invoke_subgraph
  invoke_subgraph_lem id step xs p =
      Triple-if (env.has_graph step.agent) _ _
        (λ _. Triple-seq (Triple-in_session (At xs p) _ (start_agent_run_total id _)) λ run.
          Triple-seq (invoke_lem step xs p) λ reply.
            Triple-seq (Triple-in_session (At (step ∷ xs) p) _ (finish_agent_run_total run _))
              λ _. Triple-pure _ (λ w (same, e). ((λ _. same), e)))
        (λ _. Triple-pure _ (λ w (same, e). ((λ c. absurd (ground (arith, c))), e)))

  abbrev pub count_call : OrchestratorState → OrchestratorState
  count_call p = record p { tool_call_count = p.tool_call_count + 1 }

  -- A loop that returns has invoked the step once, and was below the limits before that.
  abbrev pub HasRun : PlanStep → List PlanStep → OrchestratorState → AgentResult → World → Type 0
  HasRun step xs p result w =
      (result.success ≡ true)
      × (w.invoked ≡ step ∷ xs)
      × (w.progress ≡ count_call p)
      × (p.tool_call_count < env.limits.max_tool_calls)

  proceed_lem :
      (good : Bool) (action : RecoveryAction) (result : AgentResult)
      (again : Action World AgentResult) (step : PlanStep) (xs : List PlanStep)
      (p : OrchestratorState)
      → result.success ≡ good
      → action ≡ fail
      → p.tool_call_count < env.limits.max_tool_calls
      → Triple
          (Holds (HasInvoked step xs (count_call p) result))
          (proceed good action result again)
          (HasRun step xs p)
          (λ e w. IsStop e)
  proceed_lem true action result again step xs p good last below =
      Triple-pure result (λ w (same, e). (good, same good, e, below))
  proceed_lem false fail result again step xs p bad last below =
      Triple-raise runtime_error (λ w h. inr (inr refl))
  proceed_lem false retry result again step xs p bad last below = absurd (ground (arith, last))
  proceed_lem false escalate result again step xs p bad last below = absurd (ground (arith, last))

  -- A step is run by one invocation of its graph, which must answer: no failure is ever retried,
  -- and the loop ends within one round.
  pub attempt-once :
      (fuel id : ℕ) (step : PlanStep) (n : ℕ) (xs : List PlanStep) (p : OrchestratorState)
      → Triple
          (Holds (At xs p))
          (attempt env (suc fuel) id step n)
          (HasRun step xs p)
          (λ e w. IsStop e)
  unfolding attempt
  attempt-once fuel id step n xs p = Triple-seq (Triple-check_limits (At xs p) (λ e w s h. s)) λ _.
      Triple-given _ λ v (h, few, below).
        Triple-seq
          (Triple-weaken _ (invoke_subgraph_lem id step xs p) (λ w q. q.0) (λ _ w q. q)
            (λ e w (s : IsStop e). s))
          λ result.
            Triple-seq
              (Triple-set_progress (HasInvoked step xs p result) _
                (λ w (same, e). (same, ap count_call e)))
              λ _.
                proceed_lem result.success _ result _ step xs p refl
                  (decide-fail env.limits result.error n)
                  (rw (← ap (λ q. q.tool_call_count) h.1) below)

-- A step that returns was a success of the one invocation of its graph, made below the limit on
-- tool calls and counted; otherwise CancellationError, the operator's TimeoutError or RuntimeError
-- is raised. No failure is ever retried or handed to a human.
pub run_step_with_recovery-once :
    (env : Env) (id : ℕ) (step : PlanStep) (w : World)
    → let (r, w') = run_step_with_recovery env id step w in
      Ends (HasRun env step w.invoked w.progress) (λ e _. IsStop e) r w'
unfolding run_step_with_recovery
run_step_with_recovery-once env id step w =
    (attempt-once env env.limits.max_tool_calls id step 0 w.invoked w.progress).at w (refl, refl)
