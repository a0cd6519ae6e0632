-- ===== src/Agent/Orchestrator/Run/Outcome.antt =====
-- How a run of the orchestrator ends.
use agent_operator.Errors.{Error, approval_required_error, out_of_fuel}
use agent_operator.Prelude.{
  ℕ, ◌≡◌, ◌≢◌, refl, inl, ◌&&◌, Option, none, some, List, [], String, any, arith, lift, gets,
  modify, Action, Result, ok, err,
}
use agent_operator.Prelude.Triple.{
  Triple, Ends, Triple-pure, Triple-if, Triple-seq, Triple-given, Triple-weaken, Triple-catch,
  Triple-finally,
}
use agent_operator.State.{executing, verifying, completed}
use agent_operator.Store.{Plan, Session}
use agent_operator.Agent.Orchestrator.World.{
  Env, World, OrchestratorState, initial_progress, in_session, is_browser,
}
use agent_operator.Agent.Orchestrator.Steps.Retries.{Assertion, Holds, At, Triple-set_progress}
use agent_operator.Agent.Orchestrator.Steps.Outcome.{
  HasDone, IsExcused, IsRefusal, IsRefusal-IsExcused, IsIn, execute_steps_lem,
}
use agent_operator.Agent.Orchestrator.Run.{
  persist_result, open_browser, close_browser, work, body, run,
}
use agent_operator.Agent.Orchestrator.Run.Endings.{
  walk_to_lem, walk_to_completed, IsFinished, IsEnded, start, persist_result_lem, handle_error_lem,
}

-- An action of the session leaves alone what a run knows besides the session.
pub framed :
    {A : Type 0} {P : Session → Type 0} {Q : A → Session → Type 0} {E : Error → Session → Type 0}
    (F : World → Type 0) (m : Action Session A)
    → ((w : World) (s : Session) → F w → F (record w { session = s }))
    → Triple P m Q E
    → Triple
        (λ w. F w × P w.session)
        (in_session m)
        (λ a w. F w × Q a w.session)
        (λ e w. E e w.session)
unfolding in_session
framed {A} {P} {Q} {E} F m keep t = record {
  at = λ w (f, h). go (m w.session).0 w (m w.session).1 f (t.at w.session h);
}
  where
    go :
        (r : Result A) (w : World) (s : Session)
        → F w
        → Ends Q E r s
        → Ends (λ a v. F v × Q a v.session) (λ e v. E e v.session) r (record w { session = s })
    go (ok a) w s f h = (keep w s f, h)
    go (err e) w s f h = h

-- The exceptions of the browser are its own: none of them asks for an approval.
pub record HasBrowserErrors (env : Env) : Type 0 where
  pub opening :
      (e : Error) → env.browser_opens ≡ err e → (e ≢ approval_required_error) × (e ≢ out_of_fuel)
  pub closing :
      (e : Error) → env.browser_closes ≡ err e → (e ≢ approval_required_error) × (e ≢ out_of_fuel)

module _ (env : Env) (id : ℕ) where
  refused :
      (F : World → Type 0) (P : Session → Type 0) (m : Action Session (Unit {0}))
      (Q : Unit {0} → Session → Type 0)
      → ((w : World) (s : Session) → F w → F (record w { session = s }))
      → Triple P m Q (λ e _. IsRefusal e)
      → Triple (λ w. F w × P w.session) (in_session m) (λ a w. F w × Q a w.session) (IsExcused id)
  refused F P m Q keep t =
      Triple-weaken _ (framed F m keep t) (λ w h. h) (λ _ w h. h) (IsRefusal-IsExcused id)

  Started : Plan → World → Type 0
  Started plan = Holds (At env [] (start plan))

  Done : Plan → World → Type 0
  Done plan = HasDone env.limits plan [] (start plan)

  Done-keeps :
      (plan : Plan) (w : World) (s : Session) → Done plan w → Done plan (record w { session = s })
  unfolding Done
  Done-keeps plan w s d = record {
    plan = d.plan;
    invoked = d.invoked;
    outputs = d.outputs;
    iterations = d.iterations;
    tool_calls = d.tool_calls;
    iteration_bound = d.iteration_bound;
    tool_call_bound = d.tool_call_bound;
  }

  finish :
      (plan : Plan) (progress : OrchestratorState)
      → Triple
          (λ w. (progress ≡ w.progress) × Done plan w × IsIn id completed w.session)
          (in_session (persist_result id progress))
          (λ _. IsFinished id)
          (IsExcused id)
  unfolding Done
  finish plan progress = Triple-given _ λ v (now, d, _).
      Triple-weaken _
        (refused (Done plan) (IsIn id completed) _ _ (Done-keeps plan) (
          persist_result_lem id plan progress (rw now (omega (arith, d.iterations)))
            (rw now (omega (arith, d.tool_calls))) (rw now d.outputs)))
        (λ w h. (h.1, h.2))
        (λ _ w (e, row). record {
          plan = plan;
          known = e.plan;
          invoked = e.invoked;
          reported = row;
        })
        (λ e w h. h)

  work_lem :
      (approved : List String) (plan : Plan)
      → Triple (Started plan) (work env id approved plan) (λ _. IsFinished id) (IsExcused id)
  unfolding work gets Started Done
  work_lem approved plan =
      Triple-seq
        (Triple-weaken _
          (refused (Started plan) (λ _. Unit) _ _ (λ w s h. h) (walk_to_lem _ id executing))
          (λ w h. (h, tt)) (λ _ w h. h) (λ e w h. h))
        λ _.
          Triple-seq
            (Triple-weaken _ (execute_steps_lem env id approved 0 plan [] (start plan)) (λ w h. h.0)
              (λ _ w h. (h, tt)) (λ e w h. h))
            λ _.
              Triple-seq
                (refused (Done plan) (λ _. Unit) _ _ (Done-keeps plan) (walk_to_lem _ id verifying))
                λ _.
                  Triple-seq (refused (Done plan) _ _ _ (Done-keeps plan) (walk_to_completed _ id))
                    λ _.
                      Triple-seq
                        {R = λ p w. (p ≡ w.progress) × Done plan w × IsIn id completed w.session}
                        (record { at = λ w (d, h). (refl, d, h) }) (finish plan)

  module _ (browser : HasBrowserErrors env) where
    browser_error :
        (e : Error) (w : World)
        → (e ≢ approval_required_error) × (e ≢ out_of_fuel)
        → IsExcused id e w
    browser_error e w (no_request, fuel) = record {
      has_fuel = fuel;
      is_paused = λ h. absurd (no_request h);
    }

    opened : (F : World → Type 0) → Triple F (lift env.browser_opens) (λ _. F) (IsExcused id)
    unfolding lift
    opened F = record { at = λ w h. go env.browser_opens browser.opening w h }
      where
        go :
            (r : Result ℕ)
            → ((e : Error) → r ≡ err e → (e ≢ approval_required_error) × (e ≢ out_of_fuel))
            → (w : World) → F w
            → Ends (λ _. F) (IsExcused id) r w
        go (ok b) x w h = h
        go (err e) x w h = browser_error e w (x e refl)

    closed : (F : World → Type 0) → Triple F (lift env.browser_closes) (λ _. F) (IsExcused id)
    unfolding lift
    closed F = record { at = λ w h. go env.browser_closes browser.closing w h }
      where
        go :
            (r : Result (Unit {0}))
            → ((e : Error) → r ≡ err e → (e ≢ approval_required_error) × (e ≢ out_of_fuel))
            → (w : World) → F w
            → Ends (λ _. F) (IsExcused id) r w
        go (ok b) x w h = h
        go (err e) x w h = browser_error e w (x e refl)

    open_browser_lem :
        (plan : Plan)
        → Triple (Started plan) (open_browser env plan) (λ _. Started plan) (IsExcused id)
    unfolding open_browser modify Started
    open_browser_lem plan =
        Triple-if (env.has_browser && any (λ step. is_browser step.agent) plan) _ _
          (λ _. Triple-seq (opened (Started plan)) λ b.
            Triple-seq {R = λ _. Started plan} (record { at = λ w h. h })
              λ _. Triple-pure (some b) (λ w h. h))
          (λ _. Triple-pure none (λ w h. h))

    -- What a run leaves outlasts the closing of its browser.
    Left : Result (Unit {0}) → World → Type 0
    Left = Ends (λ _. IsFinished id) (IsExcused id)

    Left-keeps :
        (r : Result (Unit {0})) (w : World) (bs : List ℕ)
        → Left r w
        → Left r (record w { browsers = bs })
    unfolding Left
    Left-keeps (ok _) w bs f = record {
      plan = f.plan;
      known = f.known;
      invoked = f.invoked;
      reported = f.reported;
    }
    Left-keeps (err e) w bs x = record { has_fuel = x.has_fuel; is_paused = x.is_paused }

    close_browser_lem :
        (b : Option ℕ) (r : Result (Unit {0}))
        → Triple (Left r) (close_browser env b) (λ _. Left r) (IsExcused id)
    unfolding close_browser modify
    close_browser_lem none r = Triple-pure tt (λ w h. h)
    close_browser_lem (some b) r =
        Triple-seq (closed (Left r)) λ _. record { at = λ w h. Left-keeps r w [] h }

    body_lem :
        (approved : List String) (plan : Plan)
        → Triple (Started plan) (body env id approved plan) (λ _. IsFinished id) (IsExcused id)
    unfolding body Left
    body_lem approved plan =
        Triple-seq (open_browser_lem plan)
          λ b. Triple-finally _ _ (work_lem approved plan) (close_browser_lem b)

    kept :
        {A : Type 0} (P : Assertion) (m : Action Session A)
        → Triple (Holds P) (in_session m) (λ _. Holds P) (λ _ _. Unit)
    unfolding in_session
    kept {A} P m = record { at = λ w h. go (m w.session).0 _ h }
      where
        go : (r : Result A) (w : World) → Holds P w → Ends (λ _. Holds P) (λ _ _. Unit) r w
        go (ok a) w h = h
        go (err e) w h = tt

    run_lem : Triple (λ w. w.invoked ≡ []) (run env id) (λ _. IsEnded id) (λ _ _. Unit)
    unfolding run gets modify Started
    run_lem = Triple-seq (kept (λ xs _. xs ≡ []) _) λ first.
        Triple-seq {R = λ _. Holds (At env [] initial_progress)} (record { at = λ w h. (h, refl) })
          λ _. Triple-seq (kept (At env [] initial_progress) _) λ task.
            Triple-seq (kept (At env [] initial_progress) _) λ plan.
              Triple-seq {R = λ _. Started plan}
                (Triple-set_progress (At env [] initial_progress) _
                  (λ w (same, e). (same, rw e refl)))
                λ _.
                  Triple-seq {R = λ _. Started plan} (record { at = λ w h. h })
                    λ approved.
                      Triple-catch _ _
                        (Triple-weaken _ (body_lem approved plan) (λ w h. h) (λ _ w h. inl h)
                          (λ e w h. h))
                        (handle_error_lem id)

-- If the browser's own exceptions never ask for an approval and nothing was invoked before, then a
-- run that returns has left its task completed, with every step of the plan invoked once, in
-- order, and reported as a success; or waiting for an approval, timed out, or failed.
pub run-IsEnded :
    (env : Env) (id : ℕ) (w : World)
    → HasBrowserErrors env
    → w.invoked ≡ []
    → (run env id w).0 ≡ ok tt
    → IsEnded id (run env id w).1
run-IsEnded env id w browser none_yet returned =
    rw returned at ((run_lem env id browser).at w none_yet)
