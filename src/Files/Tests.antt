-- ===== src/Files/Tests.antt =====
-- The tools on a small file system with the folders / and /home, where the file /home/.env stands.
use agent_operator.Prelude.{◌≡◌, refl, inr, true, false, not, is_some, List, [], ◌∷◌, length, ok}
use agent_operator.Text.{codes, is_empty, starts_with, includes, text_eq}
use agent_operator.Files.{
  FilePath, path_eq, path_name, path_below, path_str, is_blocked, guard_path, has_fragment,
  is_credential_name, blocked_path_fragments,
}
use agent_operator.Files.Host.{folder, file, FileSystem, node_at, find, is_within}
use agent_operator.Files.Operations.{
  Platform, FileCall, file_read, file_write, file_edit, folder_delete, read_output, write_output,
  newlines, execute_file, execute_files,
}
use agent_operator.Files.Guarded.{Guards, execute_files-Guards}
use agent_operator.Files.Written.{Stands, IsWritten}
use agent_operator.Files.Contents.{Edited, file_edit_exact, file_read-file_write}

-- Every path is a name in /home, and every encoding is the identity.
abbrev home : Platform
home = record {
  resolve = λ name. name ∷ codes "home" ∷ [];
  encode = λ _ t. ok t;
  decode = λ _ t. ok t;
}

abbrev secrets : FilePath
secrets = codes ".env" ∷ codes "home" ∷ []

abbrev disk : FileSystem
disk = record {
  nodes =
      ([], folder)
      ∷ (codes "home" ∷ [], folder)
      ∷ (secrets, file (codes "K=1") true)
      ∷ (codes "a" ∷ codes "home" ∷ [], file (codes "one two") true)
      ∷ [];
}

abbrev calls : List FileCall
calls =
    file_write (codes ".env") (codes "K=2") "utf-8" true
    ∷ file_edit (codes "a") (codes "two") (codes "three") "utf-8"
    ∷ folder_delete (codes "b") true
    ∷ []

secrets_blocked : is_blocked secrets ≡ true
unfolding is_blocked is_credential_name path_name text_eq
secrets_blocked = refl

a_passes : guard_path (codes "a" ∷ codes "home" ∷ []) ≡ ok tt
unfolding guard_path is_credential_name path_name text_eq path_str path_below has_fragment
    blocked_path_fragments includes starts_with is_empty
a_passes = refl

a_Stands : Stands (codes "a" ∷ codes "home" ∷ []) (codes "one two") disk
unfolding find path_eq text_eq
a_Stands = record { content = refl; place = refl }

execute_files-Guards_example : Guards secrets disk (execute_files home calls disk)
unfolding is_within path_eq text_eq
execute_files-Guards_example =
    execute_files-Guards secrets home secrets_blocked calls disk (tt, (tt, (refl, tt)))

file_edit_exact_example :
    let (r, fs') =
      execute_file home (file_edit (codes "a") (codes "two") (codes "three") "utf-8") disk in
    Edited home
      (codes "a")
      (codes "two")
      (codes "three")
      "utf-8"
      (newlines false (codes "one two"))
      disk
      r
      fs'
file_edit_exact_example =
    file_edit_exact home (codes "a") (codes "two") (codes "three") "utf-8" (codes "one two")
      (codes "one two") disk a_passes a_Stands refl

file_read-file_write_example :
    let p = codes "a" ∷ codes "home" ∷ [] in
    let (r, t) = execute_file home (file_write (codes "a") (codes "x") "utf-8" true) disk in
    let (q, u) = execute_file home (file_read (codes "a") "utf-8") t in
    (r ≡ ok (write_output p (length (codes "x")) (not (is_some (node_at p disk)))))
    × (q ≡ ok (read_output (newlines false (codes "x")) (length (codes "x")) p))
    × IsWritten p (codes "x") disk t
    × (u ≡ t)
file_read-file_write_example =
    file_read-file_write home (codes "a") "utf-8" (codes "x") (codes "x") true disk a_passes
      (record { free = inr (codes "one two", a_Stands.content); place = a_Stands.place }) refl refl
