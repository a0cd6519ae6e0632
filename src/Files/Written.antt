-- ===== src/Files/Written.antt =====
-- Writing a text into a file, and reading one.
use agent_operator.Errors.{Error}
use agent_operator.Prelude.{
  ◌≡◌, ◌⊎◌, refl, ap, ◌∙◌, inl, inr, Bool-cases, arith, true, false, none, some, String, [], ◌∷◌,
  length, Result, ok, err, ◌>>=◌,
}
use agent_operator.Text.{Text}
use agent_operator.Files.{FilePath, path_eq}
use agent_operator.Files.Host.{
  Bytes, Node, file, FileSystem, node_at, is_folder, find, put, put_node, read_bytes, write_bytes,
  parent,
}
use agent_operator.Files.Host.Laws.{path_eq_iff, find-put}
use agent_operator.Files.Operations.{Platform, newlines, read_text, write_text}

-- A file that may be read, in a folder.
pub record Stands (p : FilePath) (bytes : Bytes) (fs : FileSystem) : Type 0 where
  pub content : node_at p fs ≡ some (file bytes true)
  pub place : is_folder (node_at (parent p) fs) ≡ true

-- A place for a file that may be read: it stands there, or nothing does.
pub record CanHold (p : FilePath) (fs : FileSystem) : Type 0 where
  pub free : (node_at p fs ≡ none) ⊎ ((old : Bytes) × (node_at p fs ≡ some (file old true)))
  pub place : is_folder (node_at (parent p) fs) ≡ true

pub Stands-CanHold :
    (p : FilePath) (bytes : Bytes) (fs : FileSystem) → Stands p bytes fs → CanHold p fs
Stands-CanHold p bytes fs h = record { free = inr (bytes, h.content); place = h.place }

-- The file has the bytes, and nothing else has changed.
pub record IsWritten (p : FilePath) (bytes : Bytes) (fs fs' : FileSystem) : Type 0 where
  pub stands : Stands p bytes fs'
  pub others : (q : FilePath) → path_eq p q ≡ false → node_at q fs' ≡ node_at q fs

pub parent_place :
    (p : FilePath) (n : Node) (fs : FileSystem)
    → CanHold p fs
    → find (parent p) (put p n fs.nodes) ≡ node_at (parent p) fs
parent_place [] n fs h = elim h.free [
  | inl missing ↦ absurd (ground (arith, missing, h.place))
  | inr (old, there) ↦ absurd (ground (arith, there, h.place))
]
parent_place (part ∷ q) n fs h = elim (Bool-cases (path_eq (part ∷ q) q)) [
  | inl same ↦ absurd (omega (arith, ap length ((path_eq_iff (part ∷ q) q).0 same)))
  | inr other ↦ rw (find-put q (part ∷ q) n fs.nodes) (rw other refl)
]

pub Result-cases :
    {A : Type 0} (r : Result A) → ((a : A) × (r ≡ ok a)) ⊎ ((e : Error) × (r ≡ err e))
Result-cases (ok a) = inl (a, refl)
Result-cases (err e) = inr (e, refl)

module _ (p : FilePath) where
  pub put-IsWritten :
      (bytes : Bytes) (fs : FileSystem)
      → CanHold p fs
      → IsWritten p bytes fs (record fs { nodes = put p (file bytes true) fs.nodes })
  put-IsWritten bytes fs h = record {
    stands = record {
      content = rw (find-put p p (file bytes true) fs.nodes) (rw ((path_eq_iff p p).1 refl) refl);
      place = rw (parent_place p (file bytes true) fs h) h.place;
    };
    others = λ q other. rw (find-put q p (file bytes true) fs.nodes) (rw other refl);
  }

  pub write_bytes_lem :
      (bytes : Bytes) (fs : FileSystem)
      → CanHold p fs
      → (fs' : FileSystem) × (write_bytes p bytes fs ≡ (ok tt, fs')) × IsWritten p bytes fs fs'
  unfolding write_bytes ◌>>=◌ put_node
  write_bytes_lem bytes fs h = elim h.free [
    | inl missing ↦ (_, rw (h.place, missing) refl, put-IsWritten bytes fs h)
    | inr (old, there) ↦ (_, rw (h.place, there) refl, put-IsWritten bytes fs h)
  ]

  pub IsWritten-trans :
      (b c : Bytes) (s t u : FileSystem) → IsWritten p b s t → IsWritten p c t u → IsWritten p c s u
  IsWritten-trans b c s t u v w = record {
    stands = w.stands;
    others = λ q other. w.others q other ∙ v.others q other;
  }

  module _ (host : Platform) (encoding : String) where
    -- A text that the encoding has no bytes for leaves the file empty.
    pub data Saved (content : Text) (fs : FileSystem) (r : Result (Unit {0})) (fs' : FileSystem)
        : Type 0 where
      text_written :
          (bytes : Bytes)
          → host.encode encoding content ≡ ok bytes
          → r ≡ ok tt
          → IsWritten p bytes fs fs'
          → Saved content fs r fs'
      left_empty :
          (e : Error)
          → host.encode encoding content ≡ err e
          → r ≡ err e
          → IsWritten p [] fs fs'
          → Saved content fs r fs'

    pub write_text_lem :
        (content : Text) (fs : FileSystem)
        → CanHold p fs
        → Saved content fs
            (write_text host p content encoding fs).0
            (write_text host p content encoding fs).1
    unfolding write_text ◌>>=◌
    write_text_lem content fs h =
        let (t, opened, v) = write_bytes_lem [] fs h in
        rw opened (elim (Result-cases (host.encode encoding content)) [
          | inl (bytes, e) ↦
              let (u, done, w) = write_bytes_lem bytes t (Stands-CanHold p [] t v.stands) in
              text_written bytes e (rw e (rw done refl))
                (rw e (rw done (IsWritten-trans [] bytes fs t u v w)))
          | inr (x, e) ↦ left_empty x e (rw e refl) (rw e v)
        ])

    pub read_text_lem :
        (bytes : Bytes) (raw : Text) (fs : FileSystem)
        → Stands p bytes fs
        → host.decode encoding bytes ≡ ok raw
        → read_text host p encoding fs ≡ (ok (newlines false raw), fs)
    unfolding read_text read_bytes ◌>>=◌
    read_text_lem bytes raw fs h decoded = rw h.content (rw decoded refl)
