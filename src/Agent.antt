-- ===== src/Agent.antt =====
-- app/agents/: the types that agents exchange.
pub mod Recovery
pub mod Planner
pub mod Orchestrator
