-- ===== src/Model.antt =====
-- app/llm: which language model is asked, and how many tokens it used.
pub mod Router
pub mod Usage
