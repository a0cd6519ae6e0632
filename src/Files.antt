-- ===== src/Files.antt =====
-- app/tools/builtin/filesystem.py: the guard on paths. A resolved path is the list of its parts, the
-- last one first.
pub mod Host
pub mod Operations
pub mod Replace
pub mod Guarded
pub mod Written
pub mod Contents
mod Tests
use agent_operator.Errors.{tool_error}
use agent_operator.Prelude.{
  Bool, true, false, ◌&&◌, ◌||◌, List, [], ◌∷◌, ◌++◌, Result, ok, err, if◌then◌else◌,
}
use agent_operator.Text.{Text, codes, text_eq, starts_with, includes}

abbrev pub FilePath : Type 0
FilePath = List Text

unfoldable pub path_eq : FilePath → FilePath → Bool
path_eq [] [] = true
path_eq [] (d ∷ q) = false
path_eq (c ∷ p) [] = false
path_eq (c ∷ p) (d ∷ q) = text_eq c d && path_eq p q

-- `path.name`, which is empty for the root.
unfoldable pub path_name : FilePath → Text
path_name [] = []
path_name (part ∷ parent) = part

abbrev pub slash : Text
slash = codes "/"

-- `str(path)` below the root.
unfoldable pub path_below : FilePath → Text
path_below [] = []
path_below (part ∷ parent) = path_below parent ++ (slash ++ part)

unfoldable pub path_str : FilePath → Text
path_str [] = slash
path_str (part ∷ parent) = path_below (part ∷ parent)

-- `_BLOCKED_PATH_FRAGMENTS`.
unfoldable pub blocked_path_fragments : List Text
blocked_path_fragments =
    codes ".git/config"
    ∷ codes ".git\\config"
    ∷ codes "/etc/passwd"
    ∷ codes "/etc/shadow"
    ∷ codes "/etc/sudoers"
    ∷ codes "C:\\Windows\\System32"
    ∷ codes "/proc/"
    ∷ codes "/sys/"
    ∷ []

unfoldable pub has_fragment : List Text → Text → Bool
has_fragment [] s = false
has_fragment (fragment ∷ fragments) s = includes fragment s || has_fragment fragments s

unfoldable pub is_credential_name : Text → Bool
is_credential_name name = text_eq name (codes ".env") || starts_with (codes ".env.") name

-- Whether `_guard_path` refuses a path.
unfoldable pub is_blocked : FilePath → Bool
is_blocked path =
    is_credential_name (path_name path) || has_fragment blocked_path_fragments (path_str path)

-- `_guard_path`.
unfoldable pub guard_path : FilePath → Result (Unit {0})
guard_path path =
    if is_credential_name (path_name path)
    then err tool_error
    else (if has_fragment blocked_path_fragments (path_str path) then err tool_error else ok tt)
