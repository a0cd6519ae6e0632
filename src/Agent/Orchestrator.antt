-- ===== src/Agent/Orchestrator.antt =====
-- app/agents/orchestrator.py: `Orchestrator.run` and every method that it calls. World.antt has what
-- an orchestrator is given and the state of a run, Walk.antt the walk through the task states,
-- Steps.antt the execution of the steps of a plan, and Run.antt the whole run.
pub mod World
pub mod Walk
pub mod Steps
pub mod Run
