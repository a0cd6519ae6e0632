-- ===== src/Files/Host.antt =====
-- The part of `pathlib` and `shutil` that app/tools/builtin/filesystem.py uses, over a POSIX file
-- system in which the process may write everywhere.
pub mod Laws
use mathlib.Core.Option
use agent_operator.Errors.{Error, os_error, permission_error, value_error}
use agent_operator.Prelude.{
  ℕ, Bool, true, false, not, ◌&&◌, ◌||◌, Option, none, some, List, [], ◌∷◌, ◌++◌, ◌==◌, is_some,
  Result, ok, err, Action, pure, raise, gets, modify, raise_if, lift, ◌>>=◌, ◌>>◌, if◌then◌else◌,
}
use agent_operator.Text.{Text}
use agent_operator.Files.{FilePath, path_eq}

abbrev pub Bytes : Type 0
Bytes = List ℕ

-- A file has its bytes, and says whether the process may read it.
pub data Node : Type 0 where
  folder : Node
  file : Bytes → Bool → Node

pub record FileSystem : Type 0 where
  pub nodes : List (FilePath × Node)

unfoldable pub find : FilePath → List (FilePath × Node) → Option Node
find p [] = none
find p ((q, n) ∷ rows) = if path_eq q p then some n else find p rows

unfoldable pub put : FilePath → Node → List (FilePath × Node) → List (FilePath × Node)
put p n [] = (p, n) ∷ []
put p n ((q, m) ∷ rows) = if path_eq q p then (p, n) ∷ rows else (q, m) ∷ put p n rows

-- Whether `q` is `p` or lies below it.
unfoldable pub is_within : FilePath → FilePath → Bool
is_within p [] = path_eq p []
is_within p (part ∷ q) = path_eq p (part ∷ q) || is_within p q

unfoldable pub drop_if : (FilePath → Bool) → List (FilePath × Node) → List (FilePath × Node)
drop_if test [] = []
drop_if test ((q, n) ∷ rows) =
    let rest = drop_if test rows in if test q then rest else (q, n) ∷ rest

-- Whether `q` stands in the folder `p`.
unfoldable pub is_child : FilePath → FilePath → Bool
is_child p [] = false
is_child p (part ∷ q) = path_eq p q

unfoldable pub children : FilePath → List (FilePath × Node) → List (FilePath × Node)
children p [] = []
children p ((q, n) ∷ rows) =
    let rest = children p rows in if is_child p q then (q, n) ∷ rest else rest

abbrev pub node_at : FilePath → FileSystem → Option Node
node_at p fs = find p fs.nodes

abbrev pub is_folder : Option Node → Bool
is_folder (some folder) = true
is_folder _ = false

abbrev pub is_no_children : List (FilePath × Node) → Bool
is_no_children [] = true
is_no_children (_ ∷ _) = false

unfoldable pub put_node : FilePath → Node → Action FileSystem (Unit {0})
put_node p n = modify (λ fs. record fs { nodes = put p n fs.nodes })

unfoldable pub drop_nodes : (FilePath → Bool) → Action FileSystem (Unit {0})
drop_nodes test = modify (λ fs. record fs { nodes = drop_if test fs.nodes })

abbrev pub read_node : Option Node → Result Bytes
read_node none = err os_error
read_node (some folder) = err os_error
read_node (some (file bytes true)) = ok bytes
read_node (some (file bytes false)) = err permission_error

unfoldable pub read_bytes : FilePath → Action FileSystem Bytes
read_bytes p = do n ← gets (node_at p); lift (read_node n)

-- A written file keeps its permissions, and a new one may be read.
abbrev pub written : Bytes → Option Node → Result Node
written bytes none = ok (file bytes true)
written bytes (some folder) = err os_error
written bytes (some (file _ readable)) = ok (file bytes readable)

abbrev pub parent : FilePath → FilePath
parent [] = []
parent (part ∷ p) = p

unfoldable pub write_bytes : FilePath → Bytes → Action FileSystem (Unit {0})
write_bytes p bytes = do
  above ← gets (node_at (parent p))
  raise_if (not (is_folder above)) os_error
  old ← gets (node_at p)
  new ← lift (written bytes old)
  put_node p new

-- `Path.mkdir(parents=True, exist_ok=exist_ok)`: missing parents are made first, and may exist.
unfoldable pub mkdir : Bool → FilePath → Action FileSystem (Unit {0})
mkdir exist_ok [] = do old ← gets (node_at []); raise_if (not (exist_ok && is_folder old)) os_error
mkdir exist_ok (part ∷ p) = do
  old ← gets (node_at (part ∷ p))
  elim old [
    | some n ↦ raise_if (not (exist_ok && is_folder (some n))) os_error
    | none ↦ (do
      above ← gets (node_at p)
      elim above [
        | none ↦ (do mkdir true p; put_node (part ∷ p) folder)
        | some n ↦ (do raise_if (not (is_folder (some n))) os_error; put_node (part ∷ p) folder)
      ])
  ]

abbrev pub is_file : Option Node → Bool
is_file (some (file _ _)) = true
is_file _ = false

unfoldable pub unlink : FilePath → Action FileSystem (Unit {0})
unlink p = do n ← gets (node_at p); raise_if (not (is_file n)) os_error; drop_nodes (path_eq p)

unfoldable pub rmdir : FilePath → Action FileSystem (Unit {0})
rmdir p = do
  fs ← gets (λ fs. fs)
  raise_if (not (is_folder (node_at p fs) && is_no_children (children p fs.nodes))) os_error
  drop_nodes (path_eq p)

-- `shutil.rmtree`.
unfoldable pub rmtree : FilePath → Action FileSystem (Unit {0})
rmtree p = do n ← gets (node_at p); raise_if (not (is_folder n)) os_error; drop_nodes (is_within p)
