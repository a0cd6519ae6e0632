-- ===== src/Tools/Executor/Permissions.antt =====
-- Which calls the permissions of a tool let pass.
use agent_operator.Errors.{authentication_error, approval_required_error}
use agent_operator.Prelude.{
  ◌≡◌, ◌⊎◌, inl, inr, Bool-cases, true, false, not, ◌&&◌, ◌||◌, arith, contains, ok, err,
}
use agent_operator.Policy.{high, requires_approval}
use agent_operator.Tools.{BaseTool}
use agent_operator.Tools.Executor.{ExecutionContext, enforce_permissions}

module _ (tool : BaseTool) (ctx : ExecutionContext) where
  -- A principal is there if the tool asks for one.
  abbrev pub IsAuthenticated : Type 0
  IsAuthenticated = (tool.permissions.requires_authentication ≡ false) ⊎ (ctx.authenticated ≡ true)

  -- The tool needs an approval: it says so, or its risk is high.
  abbrev pub NeedsApproval : Type 0
  NeedsApproval = (tool.permissions.requires_approval ≡ true) ⊎ (tool.permissions.risk_level ≡ high)

  abbrev pub IsApproved : Type 0
  IsApproved = contains ctx.approved_actions tool.name ≡ true

  -- A call passes exactly if its principal is authenticated where the tool asks for that, and the
  -- tool's name is approved where the tool says so or is of high risk. The lack of a principal is
  -- reported first.
  pub enforce_permissions_exact :
      ((enforce_permissions tool ctx ≡ ok tt) × IsAuthenticated × (NeedsApproval → IsApproved))
      ⊎ ((enforce_permissions tool ctx ≡ err authentication_error) × ¬ IsAuthenticated)
      ⊎ ((enforce_permissions tool ctx ≡ err approval_required_error)
          × IsAuthenticated
          × NeedsApproval
          × ¬ IsApproved)
  unfolding enforce_permissions requires_approval
  enforce_permissions_exact =
      elim (Bool-cases (tool.permissions.requires_authentication && not ctx.authenticated)) [
        | inl nobody ↦ inr (inl (ground arith, ground arith))
        | inr somebody ↦
            elim (Bool-cases (
              tool.permissions.requires_approval
              || requires_approval tool.permissions.risk_level)) [
                | inl needed ↦ elim (Bool-cases (contains ctx.approved_actions tool.name)) [
                  | inl given ↦ inl (ground arith, ground arith, λ _. given)
                  | inr missing ↦ inr (inr (ground arith, ground arith, ground arith, (λ h. cc)))
                ]
                | inr free ↦ inl (ground arith, ground arith, (λ n. absurd (ground (arith, n))))
              ]
      ]
