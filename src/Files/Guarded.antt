-- ===== src/Files/Guarded.antt =====
-- The tools leave alone what stands at a blocked path.
use agent_operator.Errors.{Error, permission_error}
use agent_operator.Prelude.{
  ◌≡◌, refl, ◌∙◌, inl, inr, Bool, Bool-cases, Option-cases, arith, true, false, none, some, String,
  List, [], ◌∷◌, All, Result, ok, err, Action, gets, modify, raise_if, continue, ◌>>=◌, ◌>>◌,
}
use agent_operator.Prelude.Keeps.{
  IsPreorder, Keeps, Keeps-bind, Keeps-continue, Keeps-gets, Keeps-raise_if, keeps_rules,
}
use agent_operator.Text.{Text}
use agent_operator.Files.{FilePath, path_eq, is_blocked, guard_path}
use agent_operator.Files.Host.{
  Bytes, Node, folder, FileSystem, node_at, is_file, is_within, put_node, drop_nodes, read_bytes,
  write_bytes, mkdir, unlink, rmdir, rmtree,
}
use agent_operator.Files.Host.Laws.{path_eq_iff, find-put, find-drop_if}
use agent_operator.Files.Operations.{
  Platform, FileCall, file_read, file_write, file_edit, file_delete, folder_create, folder_list,
  folder_delete, read_text, write_text, raise_unless_exists, on_denied, read_file, write_file,
  edit_file, delete_file, create_folder, list_folder, delete_folder, path_of, perform, execute_file,
  execute_files,
}

-- What stands at a path stays there, and where nothing stands no file comes to stand.
pub record Guards (g : FilePath) (fs fs' : FileSystem) : Type 0 where
  pub kept : (n : Node) → node_at g fs ≡ some n → node_at g fs' ≡ some n
  pub absent : node_at g fs ≡ none → is_file (node_at g fs') ≡ false

module _ (g : FilePath) where
  Guards-same : (fs fs' : FileSystem) → node_at g fs' ≡ node_at g fs → Guards g fs fs'
  Guards-same fs fs' e = record { kept = λ n h. e ∙ h; absent = λ h. rw (e ∙ h) refl }

  absent-step :
      (s t u : FileSystem)
      → Guards g s t
      → Guards g t u
      → node_at g s ≡ none
      → is_file (node_at g u) ≡ false
  absent-step s t u p q h = elim (Option-cases (node_at g t)) [
    | inl missing ↦ q.absent missing
    | inr (n, there) ↦ rw (q.kept n there) (rw there at (p.absent h))
  ]

  Guards-preorder : IsPreorder (Guards g)
  Guards-preorder = record {
    same = λ s. Guards-same s s refl;
    step =
        λ s t u p q. record { kept = λ n h. q.kept n (p.kept n h); absent = absent-step s t u p q };
  }

  put_node-Guards :
      (p : FilePath) (n : Node) → path_eq p g ≡ false → Keeps (Guards g) (put_node p n)
  unfolding put_node modify
  put_node-Guards p n h = record {
    at = λ fs. Guards-same fs _ (rw (find-put g p n fs.nodes) (rw h refl));
  }

  drop_nodes-Guards : (test : FilePath → Bool) → test g ≡ false → Keeps (Guards g) (drop_nodes test)
  unfolding drop_nodes modify
  drop_nodes-Guards test h = record { at = λ fs. Guards-same fs _ (find-drop_if g test fs.nodes h) }

  -- A folder that is made where nothing stood.
  put_folder-Guards :
      (p : FilePath) (s t : FileSystem)
      → node_at p s ≡ none
      → Guards g s t
      → Guards g s (put_node p folder t).1
  unfolding put_node modify
  put_folder-Guards p s t missing k = elim (Bool-cases (path_eq p g)) [
    | inl here ↦
        let same : p ≡ g = (path_eq_iff p g).0 here in
        record {
          kept = λ n h. absurd (ground (arith, h, rw same at missing));
          absent = λ h. rw (find-put g p folder t.nodes) (rw here refl);
        }
    | inr there ↦
        Guards-preorder.step s t _ k
          (Guards-same t _ (rw (find-put g p folder t.nodes) (rw there refl)))
  ]

  then_folder-Guards :
      (m : Action FileSystem (Unit {0})) (p : FilePath) (fs : FileSystem)
      → Keeps (Guards g) m
      → node_at p fs ≡ none
      → Guards g fs ((m >> put_node p folder) fs).1
  unfolding ◌>>=◌
  then_folder-Guards m p fs k missing = go (m fs).0 (m fs).1 (k.at fs)
    where
      go :
          (r : Result (Unit {0})) (t : FileSystem)
          → Guards g fs t
          → Guards g fs (continue r (λ _. put_node p folder) t).1
      go (ok _) t h = put_folder-Guards p fs t missing h
      go (err e) t h = h

  mkdir-Guards : (exist_ok : Bool) (p : FilePath) → Keeps (Guards g) (mkdir exist_ok p)
  unfolding mkdir ◌>>=◌
  mkdir-Guards exist_ok [] = search (keeps_rules, Guards-preorder)
  mkdir-Guards exist_ok (part ∷ p) = record {
    at = λ fs. elim (Option-cases (node_at (part ∷ p) fs)) [
      | inl missing ↦ rw missing (elim (Option-cases (node_at p fs)) [
        | inl no_parent ↦
            rw no_parent (then_folder-Guards _ (part ∷ p) fs (mkdir-Guards true p) missing)
        | inr (n, there) ↦
            rw there
              (then_folder-Guards _ (part ∷ p) fs (Keeps-raise_if Guards-preorder _ _) missing)
      ])
      | inr (n, there) ↦ rw there ((Keeps-raise_if Guards-preorder _ _).at fs)
    ];
  }

  ruleset guard_rules = (keeps_rules, Guards-preorder, mkdir-Guards)

  read_bytes-Guards : (p : FilePath) → Keeps (Guards g) (read_bytes p)
  unfolding read_bytes
  read_bytes-Guards p = search guard_rules

  raise_unless_exists-Guards :
      (host : Platform) (p : FilePath) → Keeps (Guards g) (raise_unless_exists host p)
  unfolding raise_unless_exists
  raise_unless_exists-Guards host p = search guard_rules

  checked_drop-Guards :
      {A : Type 0} (f : FileSystem → A) (b : A → Bool) (e : Error) (test : FilePath → Bool)
      → test g ≡ false
      → Keeps (Guards g) (gets f >>= λ n. raise_if (b n) e >> drop_nodes test)
  checked_drop-Guards f b e test h =
      Keeps-bind Guards-preorder _ _ (Keeps-gets Guards-preorder f) λ n.
        Keeps-bind Guards-preorder _ _ (Keeps-raise_if Guards-preorder (b n) e)
          λ _. drop_nodes-Guards test h

  module _ (p : FilePath) (other : path_eq p g ≡ false) where
    write_bytes-Guards : (bytes : Bytes) → Keeps (Guards g) (write_bytes p bytes)
    unfolding write_bytes
    write_bytes-Guards bytes = search (guard_rules, put_node-Guards) depth 12

    unlink-Guards : Keeps (Guards g) (unlink p)
    unfolding unlink
    unlink-Guards = checked_drop-Guards _ _ _ (path_eq p) other

    rmdir-Guards : Keeps (Guards g) (rmdir p)
    unfolding rmdir
    rmdir-Guards = checked_drop-Guards _ _ _ (path_eq p) other

  rmtree-Guards : (p : FilePath) → is_within p g ≡ false → Keeps (Guards g) (rmtree p)
  unfolding rmtree
  rmtree-Guards p outside = checked_drop-Guards _ _ _ (is_within p) outside

  module _ (host : Platform) where
    read_text-Guards :
        (p : FilePath) (encoding : String) → Keeps (Guards g) (read_text host p encoding)
    unfolding read_text
    read_text-Guards p encoding = search (guard_rules, read_bytes-Guards)

    on_denied-Guards : {A : Type 0} (e : Error) → Keeps (Guards g) (on_denied host {A = A} e)
    on_denied-Guards permission_error = search guard_rules
    on_denied-Guards e = search guard_rules

    -- A call that removes no folder with everything below it, or one that is elsewhere.
    abbrev pub Spares : FileCall → Type 0
    Spares (folder_delete path true) = is_within (host.resolve path) g ≡ false
    Spares _ = Unit

    module _ (p : FilePath) (other : path_eq p g ≡ false) where
      write_text-Guards :
          (content : Text) (encoding : String)
          → Keeps (Guards g) (write_text host p content encoding)
      unfolding write_text
      write_text-Guards content encoding = search (guard_rules, write_bytes-Guards) depth 12

      ruleset op_rules = (
        guard_rules, raise_unless_exists-Guards, read_text-Guards, read_bytes-Guards,
        on_denied-Guards, write_text-Guards,
      )

      read_file-Guards : (encoding : String) → Keeps (Guards g) (read_file host p encoding)
      unfolding read_file
      read_file-Guards encoding = search op_rules depth 12

      write_file-Guards :
          (content : Text) (encoding : String) (create_parents : Bool)
          → Keeps (Guards g) (write_file host p content encoding create_parents)
      unfolding write_file
      write_file-Guards content encoding create_parents = search op_rules depth 14

      edit_file-Guards :
          (old_string new_string : Text) (encoding : String)
          → Keeps (Guards g) (edit_file host p old_string new_string encoding)
      unfolding edit_file
      edit_file-Guards old_string new_string encoding = search op_rules depth 14

      delete_file-Guards : Keeps (Guards g) (delete_file host p)
      unfolding delete_file
      delete_file-Guards = search (op_rules, unlink-Guards) depth 12

      create_folder-Guards : (exist_ok : Bool) → Keeps (Guards g) (create_folder host p exist_ok)
      unfolding create_folder
      create_folder-Guards exist_ok = search op_rules depth 12

      list_folder-Guards :
          (include_hidden : Bool) → Keeps (Guards g) (list_folder host p include_hidden)
      unfolding list_folder
      list_folder-Guards include_hidden = search op_rules depth 12

      rmdir_folder-Guards : Keeps (Guards g) (delete_folder host p false)
      unfolding delete_folder
      rmdir_folder-Guards = search (op_rules, rmdir-Guards) depth 12

    rmtree_folder-Guards :
        (p : FilePath) → is_within p g ≡ false → Keeps (Guards g) (delete_folder host p true)
    unfolding delete_folder
    rmtree_folder-Guards p outside =
        search (guard_rules, raise_unless_exists-Guards, rmtree-Guards) depth 12

    perform-Guards :
        (call : FileCall)
        → path_eq (path_of host call) g ≡ false
        → Spares call
        → Keeps (Guards g) (perform host call (path_of host call))
    perform-Guards (file_read path encoding) other h = read_file-Guards _ other encoding
    perform-Guards (file_write path content encoding parents) other h =
        write_file-Guards _ other content encoding parents
    perform-Guards (file_edit path old_string new_string encoding) other h =
        edit_file-Guards _ other old_string new_string encoding
    perform-Guards (file_delete path) other h = delete_file-Guards _ other
    perform-Guards (folder_create path exist_ok) other h = create_folder-Guards _ other exist_ok
    perform-Guards (folder_list path hidden) other h = list_folder-Guards _ other hidden
    perform-Guards (folder_delete path true) other h = rmtree_folder-Guards _ h
    perform-Guards (folder_delete path false) other h = rmdir_folder-Guards _ other

    module _ (blocked : is_blocked g ≡ true) where
      guard_path-other : (p : FilePath) → guard_path p ≡ ok tt → path_eq p g ≡ false
      unfolding guard_path is_blocked
      guard_path-other p passed = elim (Bool-cases (path_eq p g)) [
        | inl same ↦
            let refused : guard_path g ≡ ok tt = rw (← (path_eq_iff p g).0 same) passed in
            absurd (ground (arith, blocked, refused))
        | inr other ↦ other
      ]

      execute_file-Guards :
          (call : FileCall) → Spares call → Keeps (Guards g) (execute_file host call)
      unfolding execute_file ◌>>=◌
      execute_file-Guards call h = record {
        at = λ fs.
            (Keeps-continue Guards-preorder (guard_path (path_of host call)) _
                (λ _ passed. perform-Guards call (guard_path-other _ passed) h)).at
              fs;
      }

    -- After any sequence of calls of the seven tools, none of which deletes recursively a folder that
    -- is a blocked path or lies above it: what stood at that path stands there unchanged, and where
    -- nothing stood no file has come to stand.
    pub execute_files-Guards :
        is_blocked g ≡ true
        → (calls : List FileCall) (fs : FileSystem) → All Spares calls
        → Guards g fs (execute_files host calls fs)
    unfolding execute_files
    execute_files-Guards blocked [] fs h = Guards-preorder.same fs
    execute_files-Guards blocked (call ∷ calls) fs h =
        Guards-preorder.step fs _ _ ((execute_file-Guards blocked call h.0).at fs)
          (execute_files-Guards blocked calls _ h.1)
