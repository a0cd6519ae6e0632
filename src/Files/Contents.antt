-- ===== src/Files/Contents.antt =====
-- What the tools write into a file and read from it.
use agent_operator.Errors.{Error, tool_error}
use agent_operator.Prelude.{
  ◌≡◌, refl, inl, inr, Bool, Bool-cases, Option-cases, arith, true, false, not, is_some, String, [],
  ◌∷◌, length, Result, ok, err, pure, catch, continue, ◌>>=◌, if◌then◌else◌,
}
use agent_operator.Text.{Text, includes}
use agent_operator.Files.{FilePath, guard_path}
use agent_operator.Files.Host.{Bytes, FileSystem, node_at, is_folder, read_bytes, mkdir, parent}
use agent_operator.Files.Written.{
  Stands, CanHold, Stands-CanHold, IsWritten, Saved, text_written, left_empty, write_text_lem,
  read_text_lem,
}
use agent_operator.Files.Replace.{IsReplaced, replace_first-IsReplaced}
use agent_operator.Files.Operations.{
  Platform, file_read, file_write, file_edit, FileOutput, read_output, write_output, edit_output,
  newlines, replace_first, write_text, raise_unless_exists, read_file, write_file, edit_file,
  execute_file,
}

module _ (host : Platform) (path old_string new_string : Text) (encoding : String) where
  abbrev Target : FilePath
  Target = host.resolve path

  -- How `file_edit` ends on a text: it is not in there, it is replaced, or the file is left empty
  -- since the encoding has no bytes for the new text.
  pub data Edited (content : Text) (fs : FileSystem) (r : Result FileOutput) (fs' : FileSystem)
      : Type 0 where
    refused :
        includes old_string content ≡ false
        → r ≡ err tool_error
        → fs' ≡ fs
        → Edited content fs r fs'
    replaced :
        (new : Text) (bytes : Bytes)
        → includes old_string content ≡ true
        → IsReplaced old_string new_string content new
        → host.encode encoding new ≡ ok bytes
        → r ≡ ok (edit_output (host.resolve path))
        → IsWritten (host.resolve path) bytes fs fs'
        → Edited content fs r fs'
    emptied :
        (new : Text) (e : Error)
        → includes old_string content ≡ true
        → IsReplaced old_string new_string content new
        → host.encode encoding new ≡ err e
        → r ≡ err e
        → IsWritten (host.resolve path) [] fs fs'
        → Edited content fs r fs'

  finish :
      (content new : Text) (fs : FileSystem) (r : Result (Unit {0})) (t : FileSystem)
      → includes old_string content ≡ true
      → IsReplaced old_string new_string content new
      → Saved Target host encoding new fs r t
      → let m = continue r (λ _. pure (edit_output Target)) t in Edited content fs m.0 m.1
  unfolding pure
  finish content new fs r t there same (text_written out encoded returned w) =
      rw returned (replaced new out there same encoded refl w)
  finish content new fs r t there same (left_empty e encoded returned w) =
      rw returned (emptied new e there same encoded refl w)

  -- An edit of a readable file at a path that is not blocked, whose bytes can be decoded: if the
  -- text, with its line ends made `\n`, does not contain the old string, ToolError is raised and
  -- nothing changes; otherwise the first occurrence is replaced, and either the file has the bytes
  -- of the new text, or the encoding raises an exception for it and the file is left empty. No
  -- other path changes.
  pub file_edit_exact :
      (bytes : Bytes) (raw : Text) (fs : FileSystem)
      → guard_path (host.resolve path) ≡ ok tt
      → Stands (host.resolve path) bytes fs
      → host.decode encoding bytes ≡ ok raw
      → let (r, fs') = execute_file host (file_edit path old_string new_string encoding) fs in
        Edited (newlines false raw) fs r fs'
  unfolding execute_file edit_file raise_unless_exists ◌>>=◌
  file_edit_exact bytes raw fs passed h decoded =
      let content = newlines false raw in
      let new = replace_first old_string new_string content in
      rw passed (
        rw h.content (
          rw (read_text_lem Target host encoding bytes raw fs h decoded)
            (elim (Bool-cases (includes old_string content)) [
              | inl there ↦ rw there (
                  finish content new fs _ _ there
                    (replace_first-IsReplaced old_string new_string content there)
                    (write_text_lem Target host encoding new fs (Stands-CanHold Target bytes fs h)))
              | inr missing ↦ rw missing (refused missing refl refl)
            ])))

mkdir-existing :
    (p : FilePath) (fs : FileSystem)
    → is_folder (node_at p fs) ≡ true
    → mkdir true p fs ≡ (ok tt, fs)
unfolding mkdir ◌>>=◌
mkdir-existing [] fs h = rw h refl
mkdir-existing (part ∷ p) fs h = elim (Option-cases (node_at (part ∷ p) fs)) [
  | inl missing ↦ absurd (ground (arith, missing, h))
  | inr (n, there) ↦ rw there (rw (rw there at h) refl)
]

module _ (host : Platform) (p : FilePath) (encoding : String) where
  write_text_ok :
      (content : Text) (bytes : Bytes) (fs : FileSystem)
      → CanHold p fs
      → host.encode encoding content ≡ ok bytes
      → let (r, t) = write_text host p content encoding fs in (r ≡ ok tt) × IsWritten p bytes fs t
  write_text_ok content bytes fs h encoded = elim (write_text_lem p host encoding content fs h) [
    | text_written out e returned w ↦ let same : out ≡ bytes = cc in (returned, rw (← same) w)
    | left_empty x e returned w ↦ absurd (ground (arith, e, encoded))
  ]

  write_file_lem :
      (content : Text) (bytes : Bytes) (create_parents : Bool) (fs : FileSystem)
      → CanHold p fs
      → host.encode encoding content ≡ ok bytes
      → let (r, t) = write_file host p content encoding create_parents fs in
        (r ≡ ok (write_output p (length bytes) (not (is_some (node_at p fs)))))
        × IsWritten p bytes fs t
  unfolding write_file ◌>>=◌
  write_file_lem content bytes create_parents fs h encoded =
      let (returned, w) = write_text_ok content bytes fs h encoded in
      rw (parents create_parents) (rw returned (rw encoded (refl, w)))
    where
      parents : (b : Bool) → (if b then mkdir true (parent p) else pure tt) fs ≡ (ok tt, fs)
      parents true = mkdir-existing (parent p) fs h.place
      parents false = refl

  read_file_lem :
      (bytes : Bytes) (raw : Text) (fs : FileSystem)
      → Stands p bytes fs
      → host.decode encoding bytes ≡ ok raw
      → read_file host p encoding fs ≡ (ok (read_output (newlines false raw) (length bytes) p), fs)
  unfolding read_file raise_unless_exists read_bytes catch ◌>>=◌
  read_file_lem bytes raw fs h decoded =
      rw h.content (rw (read_text_lem p host encoding bytes raw fs h decoded) (rw h.content refl))

module _ (host : Platform) (path : Text) (encoding : String) where
  -- At a path that is not blocked, in a folder, where nothing or a readable file stands: a text that
  -- the encoding can encode and decode again is written, the result has its size and whether the
  -- file is new, and reading the file gives the text with its line ends made `\n`. No other path
  -- changes.
  pub file_read-file_write :
      (content : Text) (bytes : Bytes) (create_parents : Bool) (fs : FileSystem)
      → guard_path (host.resolve path) ≡ ok tt
      → CanHold (host.resolve path) fs
      → host.encode encoding content ≡ ok bytes
      → host.decode encoding bytes ≡ ok content
      → let (r, t) = execute_file host (file_write path content encoding create_parents) fs in
        let (q, u) = execute_file host (file_read path encoding) t in
        (r
          ≡ ok (
              write_output
                (host.resolve path)
                (length bytes)
                (not (is_some (node_at (host.resolve path) fs)))))
        × (q ≡ ok (read_output (newlines false content) (length bytes) (host.resolve path)))
        × IsWritten (host.resolve path) bytes fs t
        × (u ≡ t)
  unfolding execute_file ◌>>=◌
  file_read-file_write content bytes create_parents fs passed h encoded decoded =
      let p = host.resolve path in
      let (returned, w) =
        write_file_lem host p encoding content bytes create_parents fs h encoded in
      rw passed (
        returned,
        rw (read_file_lem host p encoding bytes content _ w.stands decoded) refl,
        w,
        rw (read_file_lem host p encoding bytes content _ w.stands decoded) refl,
      )
