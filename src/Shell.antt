-- ===== src/Shell.antt =====
-- app/tools/builtin/shell.py: the blocked patterns, and a command with its deadline. The subprocess is
-- a parameter.
use agent_operator.Errors.{tool_error}
use agent_operator.Prelude.{
  ℕ, Bool, false, Option, none, some, List, [], ◌∷◌, ◌==◌, any, Action, pure, raise, raise_if,
  ◌>>=◌, ◌>>◌,
}
use agent_operator.Browser.{ℤ, pos, negsuc}
use agent_operator.Text.{Text, codes, includes}

-- `_BLOCKED_PATTERNS`.
abbrev pub blocked_patterns : List Text
blocked_patterns =
    codes "rm -rf /"
    ∷ codes "sudo"
    ∷ codes ":(){ :|:& };:"
    ∷ codes "dd if="
    ∷ codes "mkfs"
    ∷ codes "> /dev/"
    ∷ codes "chmod 777 /"
    ∷ codes "chown root"
    ∷ []

pub record ShellRunInput : Type 0 where
  pub command : Text
  pub working_dir : Option Text
  pub timeout_ms : ℕ

pub record ShellRunOutput : Type 0 where
  pub stdout : Text
  pub stderr : Text
  pub exit_code : ℤ
  pub success : Bool

-- What a process that ends leaves: its output, decoded, and its exit code.
pub record Ended : Type 0 where
  pub stdout : Text
  pub stderr : Text
  pub exit_code : ℤ

-- The subprocesses of asyncio: one is started, ends in time or does not, and can be killed.
pub record Processes (W : Type 0) : Type 0 where
  pub spawn : Text → Option Text → Action W ℕ
  pub communicate_within : ℕ → ℕ → Action W (Option Ended)
  pub kill : ℕ → Action W (Unit {0})
  pub communicate : ℕ → Action W Ended

abbrev pub is_zero : ℤ → Bool
is_zero (pos n) = n == 0
is_zero (negsuc n) = false

unfoldable pub is_blocked_command : Text → Bool
is_blocked_command command = any (λ pattern. includes pattern command) blocked_patterns

module _ {W : Type 0} (processes : Processes W) where
  abbrev pub shell_output : ℕ → Option Ended → Action W ShellRunOutput
  shell_output process none = do
    processes.kill process
    processes.communicate process
    raise tool_error
  shell_output process (some ended) = pure (record {
    stdout = ended.stdout;
    stderr = ended.stderr;
    exit_code = ended.exit_code;
    success = is_zero ended.exit_code;
  })

  -- `execute`.
  unfoldable pub run_shell : ShellRunInput → Action W ShellRunOutput
  run_shell tool_input = do
    raise_if (is_blocked_command tool_input.command) tool_error
    process ← processes.spawn tool_input.command tool_input.working_dir
    ended ← processes.communicate_within process tool_input.timeout_ms
    shell_output process ended
