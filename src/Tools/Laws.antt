-- ===== src/Tools/Laws.antt =====
-- Looking up a registered tool.
use agent_operator.Errors.{validation_error}
use agent_operator.Prelude.{
  ◌≡◌, refl, inl, inr, Bool-cases, String, str_eq, eq_iff, [], ◌∷◌, arith, if◌then◌else◌, ok, err,
}
use agent_operator.Tools.{BaseTool, ToolRegistry, put_tool, register, get, is_registered}

get-put_tool :
    (key : String) (tool : BaseTool) (registry : ToolRegistry) (name : String)
    → get (put_tool key tool registry) name
      ≡ (if str_eq key name then ok tool else get registry name)
unfolding get put_tool
get-put_tool key tool [] name = refl
get-put_tool key tool ((k, other) ∷ tools) name = elim (Bool-cases (str_eq k key)) [
  | inl same ↦ ground (arith, same, eq_iff k key, eq_iff k name, eq_iff key name)
  | inr other_key ↦ ground (
    arith,
    other_key,
    get-put_tool key tool tools name,
    eq_iff k key,
    eq_iff k name,
    eq_iff key name,
  )
]

-- After a tool is registered, its name finds it, in place of a tool that had the name before, and
-- every other name finds what it found.
pub get-register :
    (tool : BaseTool) (registry : ToolRegistry) (name : String)
    → get (register tool registry) name
      ≡ (if str_eq tool.name name then ok tool else get registry name)
unfolding register
get-register tool registry name = get-put_tool tool.name tool registry name

-- `in` tells whether `get` succeeds; otherwise it raises ValidationError.
pub is_registered_exact :
    (registry : ToolRegistry) (name : String)
    → (if is_registered registry name
        then ((tool : BaseTool) × (get registry name ≡ ok tool))
        else (get registry name ≡ err validation_error))
unfolding get is_registered
is_registered_exact [] name = refl
is_registered_exact ((key, tool) ∷ tools) name = elim (Bool-cases (str_eq key name)) [
  | inl same ↦ rw same (tool, refl)
  | inr other ↦ rw other (is_registered_exact tools name)
]
