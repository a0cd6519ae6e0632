-- ===== src/Lib.antt =====
-- Verification of agent-operator: the life of a task, from the request that creates it to the state
-- in which the orchestrator leaves it.
--
-- A client creates a task through the routes of app/api/routes, which call the two services of
-- app/services over one database session for each request. A task has a state, and the table of
-- app/domain/state_machine.py says how it may change. The orchestrator of
-- app/agents/orchestrator.py plans a task, walks it through its states, runs each step of the plan
-- by a compiled graph within limits, asks for an approval where a step needs one, and leaves the
-- task completed, waiting, timed out or failed. The recovery agent decides what follows a failure.
--
-- Which file models what:
-- - Errors: app/errors.py, with the other exceptions that the code raises.
-- - Prelude: the shared helpers. Prelude/Monad has coroutines as actions on a state that return or
--   raise; Prelude/Keeps and Prelude/Triple reason about them, by a preorder on states and by Hoare
--   triples. Prelude/Lists has `Table`, a database table by primary key.
-- - Text, Text/Laws: Python's `str` as a list of code points.
-- - State: app/domain/state_machine.py; State/Diagram the same diagram as a relation.
-- - Policy: app/policies/risk.py and approval.py; Policy/RateLimit: app/policies/rate_limit.py, with
--   tokens counted in sixtieths and time in whole seconds.
-- - Store: the rows of app/db/models and a session, which sees its own writes and commits them.
-- - Service: app/services/task_service.py and approval_service.py (`create_task`, `get_task`,
--   `transition_task`, `cancel_task`; `create_approval`, `get_approval`, `get_pending_for_task`,
--   `decide`); Service/Api: the handlers of app/api/routes/tasks.py and approvals.py.
-- - Agent/Recovery: `_classify` and `decide` of app/agents/recovery_agent.py; Agent/Planner:
--   `PlannerAgent.decide`.
-- - Tools: app/tools/registry.py and base.py; Tools/Executor: app/tools/executor.py.
-- - Social: `publish` of app/social/x_adapter.py and linkedin_adapter.py; Social/Publish:
--   app/tools/builtin/social_publish.py; Social/Verify: app/tools/builtin/social_verify.py, with
--   `verify` of the two adapters; Social/Routes: app/api/routes/social.py.
-- - Model/Router: app/llm/router.py; Model/Usage: app/llm/usage.py.
-- - Agent/Orchestrator/World: the helpers of the orchestrator and what it is given; Walk: `_walk_to`;
--   Steps: `_check_limits`, `_invoke_subgraph`, `_run_step_with_recovery`, `_request_approval` and
--   `_execute_plan`; Run: `_plan_for`, `_approved_actions_for`, the browser session, `_persist_result`,
--   `_persist_error` and `run`.
-- - Worker: app/workers/task_worker.py; Worker/Runs: what `_run_task` does to a task.
-- - Content: `_split_into_sentences` and `_build_raw_posts` of app/tools/builtin/content.py;
--   Content/Drafts its other parts, Content/Validation: app/content/validators.py, Content/Tone:
--   app/content/tone_safety.py, and Content/Routes: app/api/routes/content.py.
-- - Files: `_guard_path` of app/tools/builtin/filesystem.py; Files/Host: the part of `pathlib` and
--   `shutil` that it uses; Files/Operations: the `execute` methods of its seven tools.
-- - Research: app/schemas/research.py and app/research/evidence.py; Research/Classification and
--   Ranking: app/research/classification.py; Research/CrossCheck: `cross_check`, and
--   Research/Pipeline the rest of app/research/pipeline.py.
-- - Browser: app/schemas/browser.py and app/browser/selectors.py; Browser/Session: `BrowserSession`
--   of app/browser/session.py; Browser/Manager: `BrowserSessionManager`, Browser/Toolkit: the tools of
--   app/tools/builtin/browser_toolkit.py, Browser/Toolkit/Directory the view of their users.
-- - FactCheck: app/tools/builtin/fact_check.py; Web: app/tools/builtin/fetch.py; Web/Search:
--   app/tools/builtin/search.py and langsearch.py; Shell: app/tools/builtin/shell.py; Audit: app/services/audit_service.py.
--
-- Fuel: the loop of `_run_step_with_recovery` runs on `max_tool_calls + 1` rounds, since each round
-- counts a tool call and the limit on these ends the loop. The digits of a number are written on as
-- much fuel as the number, which has no more digits than that, or is 0.
--
-- Parameters: tenacity's retry decorator, with its documented behaviour as a hypothesis; the replies
-- of the platforms and SHA-256; the fields of `Env`: the compiled graphs, the language model, the
-- clock, the set of cancelled tasks and the browser; Playwright, as the record `Driver`; the paths and
-- codecs of the platform, as `Platform`; and, for research, the search and fetch tools, the language
-- model, lower case and the words of a text; for content, the language model, `json.loads` and the
-- word characters of `re`; and for the other tools `urlparse`, the resolver, httpx, the exceptions of
-- the last two that are caught, the search services, subprocesses, and what the patterns of the audit
-- find. A column `String(128)` of a post is that of PostgreSQL. A database row has a number as its key
-- in place of a UUID, and a table keeps the order of insertion in place of `created_at`. The freshness
-- of all sources is taken at one time.
--
-- Not modelled: a process that ends within a call, logging, the messages of exceptions, the output of a graph, HTTP and its response
-- models, LangGraph and the command line.
pub mod Errors
pub mod Prelude
pub mod Text
pub mod Store
pub mod State
pub mod Policy
pub mod Service
pub mod Agent
pub mod Tools
pub mod Worker
pub mod Browser
pub mod FactCheck
pub mod Web
pub mod Shell
pub mod Audit
pub mod Research
pub mod Files
pub mod Content
pub mod Social
pub mod Model
