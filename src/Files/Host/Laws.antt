-- ===== src/Files/Host/Laws.antt =====
-- What reading a file system gives after a write or a removal.
use agent_operator.Prelude.{
  ◌≡◌, ◌↔◌, refl, ap, ◌∙◌, inl, inr, Bool, Bool-cases, arith, true, false, some, List, [], ◌∷◌,
  if◌then◌else◌,
}
use agent_operator.Text.Laws.{text_eq_iff}
use agent_operator.Files.{FilePath, path_eq}
use agent_operator.Files.Host.{Node, find, put, drop_if}

pub path_eq_iff : (p q : FilePath) → (path_eq p q ≡ true) ↔ (p ≡ q)
unfolding path_eq
path_eq_iff [] [] = ground arith
path_eq_iff [] (d ∷ q) = ground arith
path_eq_iff (c ∷ p) [] = ground arith
path_eq_iff (c ∷ p) (d ∷ q) = ground (arith, text_eq_iff c d, path_eq_iff p q)

pub find-put :
    (p q : FilePath) (n : Node) (rows : List (FilePath × Node))
    → find p (put q n rows) ≡ (if path_eq q p then some n else find p rows)
unfolding find put
find-put p q n [] = refl
find-put p q n ((r, m) ∷ rows) =
    ground (arith, path_eq_iff q p, path_eq_iff r q, path_eq_iff r p, find-put p q n rows)

pub find-drop_if :
    (p : FilePath) (test : FilePath → Bool) (rows : List (FilePath × Node))
    → test p ≡ false
    → find p (drop_if test rows) ≡ find p rows
unfolding find drop_if
find-drop_if p test [] h = refl
find-drop_if p test ((r, m) ∷ rows) h = elim (Bool-cases (path_eq r p)) [
  | inl same ↦
      let stays : test r ≡ false = ap test ((path_eq_iff r p).0 same) ∙ h in
      ground (arith, same, stays, find-drop_if p test rows h)
  | inr other ↦ ground (arith, other, find-drop_if p test rows h)
]
