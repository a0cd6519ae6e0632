-- ===== src/Tools.antt =====
-- app/tools/registry.py and the permissions of app/tools/base.py: the tools that can be called.
pub mod Executor
pub mod Laws
use agent_operator.Errors.{validation_error, tool_error}
use agent_operator.Prelude.{
  ℕ, String, str_eq, Bool, true, false, ◌||◌, List, [], ◌∷◌, if◌then◌else◌, Result, ok, err,
}
use agent_operator.Policy.{RiskLevel}

pub record ToolPermissions : Type 0 where
  pub risk_level : RiskLevel
  pub requires_approval : Bool
  pub requires_authentication : Bool
  pub supports_idempotency : Bool

-- A tool. Its `execute` is given by what it returns, or raises, at the n-th execution of a tool.
pub record BaseTool : Type 0 where
  pub name : String
  pub permissions : ToolPermissions
  pub execute : ℕ → Result String

-- `BaseTool.__call__`: an exception of any other class becomes a ToolError.
unfoldable pub call : BaseTool → ℕ → Result String
call tool n = elim (tool.execute n) [ ok output ↦ ok output | err e ↦ err tool_error ]

-- The dictionary `_tools`, in the order of insertion.
abbrev pub ToolRegistry : Type 0
ToolRegistry = List (String × BaseTool)

-- `self._tools[name] = tool`.
unfoldable pub put_tool : String → BaseTool → ToolRegistry → ToolRegistry
put_tool name tool [] = (name, tool) ∷ []
put_tool name tool ((key, other) ∷ tools) =
    if str_eq key name then (name, tool) ∷ tools else (key, other) ∷ put_tool name tool tools

-- `register`.
unfoldable pub register : BaseTool → ToolRegistry → ToolRegistry
register tool registry = put_tool tool.name tool registry

-- `get`.
unfoldable pub get : ToolRegistry → String → Result BaseTool
get [] name = err validation_error
get ((key, tool) ∷ tools) name = if str_eq key name then ok tool else get tools name

-- `__contains__`.
unfoldable pub is_registered : ToolRegistry → String → Bool
is_registered [] name = false
is_registered ((key, tool) ∷ tools) name = str_eq key name || is_registered tools name
