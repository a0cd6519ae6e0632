-- ===== src/Files/Operations.antt =====
-- app/tools/builtin/filesystem.py: the `execute` methods of the seven tools. How a path is resolved
-- and what an encoding does are the host's.
use agent_operator.Errors.{Error, tool_error, permission_error}
use agent_operator.Prelude.{
  ℕ, Bool, true, false, not, ◌&&◌, ◌||◌, some, List, [], ◌∷◌, ◌++◌, ◌==◌, ltb, drop, length,
  is_some, String, Result, Action, pure, raise, gets, raise_if, lift, catch, ◌>>=◌, ◌>>◌,
  if◌then◌else◌,
}
use agent_operator.Text.{Text, codes, is_empty, starts_with, includes}
use agent_operator.Files.{FilePath, path_name, guard_path}
use agent_operator.Files.Host.{
  Bytes, Node, folder, file, FileSystem, node_at, children, is_folder, read_bytes, write_bytes,
  mkdir, parent, unlink, rmdir, rmtree,
}

-- `Path(…).resolve()`, and the codecs by the name of their encoding.
pub record Platform : Type 0 where
  pub resolve : Text → FilePath
  pub encode : String → Text → Result Bytes
  pub decode : String → Bytes → Result Text

-- The line ends of a text that is read: `\r\n` and `\r` become `\n`.
unfoldable pub newlines : Bool → Text → Text
newlines after_return [] = []
newlines after_return (c ∷ s) =
    let rest = newlines (c == 13) s in
    if c == 13 then 10 ∷ rest else (if after_return && c == 10 then rest else c ∷ rest)

-- `content.replace(old_string, new_string, 1)`.
unfoldable pub replace_first : Text → Text → Text → Text
replace_first old new [] = if is_empty old then new else []
replace_first old new (c ∷ s) =
    if starts_with old (c ∷ s)
    then new ++ drop (length old) (c ∷ s)
    else c ∷ replace_first old new s

-- The order of names.
unfoldable pub text_leb : Text → Text → Bool
text_leb [] t = true
text_leb (c ∷ s) [] = false
text_leb (c ∷ s) (d ∷ t) = ltb c d || (c == d && text_leb s t)

pub data FileCall : Type 0 where
  file_read : Text → String → FileCall
  file_write : Text → Text → String → Bool → FileCall
  file_edit : Text → Text → Text → String → FileCall
  file_delete : Text → FileCall
  folder_create : Text → Bool → FileCall
  folder_list : Text → Bool → FileCall
  folder_delete : Text → Bool → FileCall

-- An entry of `folder_list`. Its modification time is left out.
pub record Entry : Type 0 where
  pub name : Text
  pub is_directory : Bool
  pub size_bytes : ℕ

pub data FileOutput : Type 0 where
  read_output : Text → ℕ → FilePath → FileOutput
  write_output : FilePath → ℕ → Bool → FileOutput
  edit_output : FilePath → FileOutput
  delete_output : FilePath → FileOutput
  create_output : FilePath → Bool → FileOutput
  list_output : FilePath → List Entry → FileOutput

unfoldable pub insert_entry : Entry → List Entry → List Entry
insert_entry e [] = e ∷ []
insert_entry e (f ∷ entries) =
    if text_leb e.name f.name then e ∷ f ∷ entries else f ∷ insert_entry e entries

abbrev pub node_size : Node → ℕ
node_size folder = 0
node_size (file bytes _) = length bytes

-- The loop of `folder_list` over the sorted children of a folder.
unfoldable pub list_entries : Bool → List (FilePath × Node) → List Entry
list_entries include_hidden [] = []
list_entries include_hidden ((p, n) ∷ rows) =
    let rest = list_entries include_hidden rows in
    if not include_hidden && starts_with (codes ".") (path_name p)
    then rest
    else insert_entry
        (record { name = path_name p; is_directory = is_folder (some n); size_bytes = node_size n })
        rest

module _ (host : Platform) where
  unfoldable pub read_text : FilePath → String → Action FileSystem Text
  read_text p encoding = do
    bytes ← read_bytes p
    content ← lift (host.decode encoding bytes)
    pure (newlines false content)

  -- `write_text` opens the file, which empties it, before it encodes the text.
  unfoldable pub write_text : FilePath → Text → String → Action FileSystem (Unit {0})
  write_text p content encoding = do
    write_bytes p []
    bytes ← lift (host.encode encoding content)
    write_bytes p bytes

  unfoldable pub raise_unless_exists : FilePath → Action FileSystem (Unit {0})
  raise_unless_exists p = do n ← gets (node_at p); raise_if (not (is_some n)) tool_error

  abbrev pub on_denied : {A : Type 0} → Error → Action FileSystem A
  on_denied permission_error = raise tool_error
  on_denied e = raise e

  unfoldable pub read_file : FilePath → String → Action FileSystem FileOutput
  read_file p encoding = do
    raise_unless_exists p
    content ← catch (read_text p encoding) on_denied
    bytes ← read_bytes p
    pure (read_output content (length bytes) p)

  unfoldable pub write_file : FilePath → Text → String → Bool → Action FileSystem FileOutput
  write_file p content encoding create_parents = do
    old ← gets (node_at p)
    (if create_parents then mkdir true (parent p) else pure tt)
    write_text p content encoding
    bytes ← lift (host.encode encoding content)
    pure (write_output p (length bytes) (not (is_some old)))

  unfoldable pub edit_file : FilePath → Text → Text → String → Action FileSystem FileOutput
  edit_file p old_string new_string encoding = do
    raise_unless_exists p
    content ← read_text p encoding
    raise_if (not (includes old_string content)) tool_error
    write_text p (replace_first old_string new_string content) encoding
    pure (edit_output p)

  unfoldable pub delete_file : FilePath → Action FileSystem FileOutput
  delete_file p = do raise_unless_exists p; unlink p; pure (delete_output p)

  unfoldable pub create_folder : FilePath → Bool → Action FileSystem FileOutput
  create_folder p exist_ok = do
    old ← gets (node_at p)
    mkdir exist_ok p
    pure (create_output p (not (is_some old)))

  unfoldable pub list_folder : FilePath → Bool → Action FileSystem FileOutput
  list_folder p include_hidden = do
    fs ← gets (λ fs. fs)
    raise_if (not (is_folder (node_at p fs))) tool_error
    pure (list_output p (list_entries include_hidden (children p fs.nodes)))

  unfoldable pub delete_folder : FilePath → Bool → Action FileSystem FileOutput
  delete_folder p recursive = do
    raise_unless_exists p
    (if recursive then rmtree p else rmdir p)
    pure (delete_output p)

  abbrev pub path_of : FileCall → FilePath
  path_of (file_read path _) = host.resolve path
  path_of (file_write path _ _ _) = host.resolve path
  path_of (file_edit path _ _ _) = host.resolve path
  path_of (file_delete path) = host.resolve path
  path_of (folder_create path _) = host.resolve path
  path_of (folder_list path _) = host.resolve path
  path_of (folder_delete path _) = host.resolve path

  -- What follows the guard in the `execute` methods.
  abbrev pub perform : FileCall → FilePath → Action FileSystem FileOutput
  perform (file_read _ encoding) p = read_file p encoding
  perform (file_write _ content encoding create_parents) p =
      write_file p content encoding create_parents
  perform (file_edit _ old_string new_string encoding) p =
      edit_file p old_string new_string encoding
  perform (file_delete _) p = delete_file p
  perform (folder_create _ exist_ok) p = create_folder p exist_ok
  perform (folder_list _ include_hidden) p = list_folder p include_hidden
  perform (folder_delete _ recursive) p = delete_folder p recursive

  -- Every `execute` resolves its path and guards it first.
  unfoldable pub execute_file : FileCall → Action FileSystem FileOutput
  execute_file call = do lift (guard_path (path_of call)); perform call (path_of call)

  -- Calls one after the other, whatever each of them does.
  unfoldable pub execute_files : List FileCall → FileSystem → FileSystem
  execute_files [] fs = fs
  execute_files (call ∷ calls) fs = execute_files calls (execute_file call fs).1
