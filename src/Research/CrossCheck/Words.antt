-- ===== src/Research/CrossCheck/Words.antt =====
-- Two claims conflict whichever comes first.
use agent_operator.Prelude.{
  ◌+◌, ◌≡◌, refl, ap, ◌∙◌, arith, Bool-cases, inl, inr, true, false, List, [], ◌∷◌, if◌then◌else◌,
}
use agent_operator.Text.{Text, is_empty}
use agent_operator.Text.Laws.{text_eq_iff}
use agent_operator.Research.{Claim}
use agent_operator.Research.CrossCheck.{
  has_word, distinct, common, joint, overlaps, consistent, conflict,
}

abbrev IsDistinct : List Text → Type 0
IsDistinct [] = Unit
IsDistinct (w ∷ words) = (has_word w words ≡ false) × IsDistinct words

distinct-IsDistinct : (words : List Text) → IsDistinct (distinct words)
unfolding distinct
distinct-IsDistinct [] = tt
distinct-IsDistinct (w ∷ words) = ground (arith, distinct-IsDistinct words)

common-nil : (ta : List Text) → common ta [] ≡ 0
unfolding common has_word
common-nil [] = refl
common-nil (w ∷ ta) = omega (arith, common-nil ta)

common-cons :
    (ta : List Text) (w : Text) (tb : List Text)
    → IsDistinct ta
    → has_word w tb ≡ false
    → common ta (w ∷ tb) ≡ (if has_word w ta then 1 else 0) + common ta tb
unfolding common has_word
common-cons [] w tb d h = refl
common-cons (v ∷ ta) w tb d h =
    ground (arith, text_eq_iff w v, text_eq_iff v w, common-cons ta w tb d.1 h)

common_comm : (ta tb : List Text) → IsDistinct ta → IsDistinct tb → common ta tb ≡ common tb ta
unfolding common
common_comm ta [] d e = common-nil ta
common_comm ta (w ∷ tb) d e = omega (arith, common-cons ta w tb d e.0, common_comm ta tb d e.1)

joint_comm : (ta tb : List Text) → IsDistinct ta → IsDistinct tb → joint ta tb ≡ joint tb ta
unfolding joint
joint_comm ta tb d e = omega (arith, common_comm ta tb d e)

is_empty_nil : (t : Text) → is_empty t ≡ true → t ≡ []
unfolding is_empty
is_empty_nil [] h = refl
is_empty_nil (c ∷ t) h = cc

module _ (words : Text → List Text) where
  abbrev found : Text → List Text
  found a = distinct (words a)

  overlaps_comm : (a b : Text) → overlaps words a b ≡ overlaps words b a
  unfolding overlaps
  overlaps_comm a b =
      let da = distinct-IsDistinct (words a) in
      let db = distinct-IsDistinct (words b) in
      ground (arith, common_comm (found a) (found b) da db, joint_comm (found a) (found b) da db)

  consistent_comm : (a b : Text) → consistent words a b ≡ consistent words b a
  unfolding consistent
  consistent_comm a b =
      let da = distinct-IsDistinct (words a) in
      let db = distinct-IsDistinct (words b) in
      ground (arith, common_comm (found a) (found b) da db, joint_comm (found a) (found b) da db)

  pub conflict_comm : (a b : Claim) → conflict words a b ≡ conflict words b a
  unfolding conflict
  conflict_comm a b = ground (
    arith,
    overlaps_comm a.claim b.claim,
    consistent_comm a.evidence b.evidence,
    text_eq_iff a.source.url b.source.url,
    text_eq_iff b.source.url a.source.url,
  )

  consistent_wordless : (a b : Text) → words b ≡ [] → consistent words a b ≡ true
  unfolding consistent distinct
  consistent_wordless a b h = rw h (ground arith)

  -- Evidence without words conflicts with nothing.
  pub conflict_words :
      (a b : Claim) → words [] ≡ [] → conflict words a b ≡ true → is_empty b.evidence ≡ false
  unfolding conflict
  conflict_words a b none_found h = elim (Bool-cases (is_empty b.evidence)) [
    | inl empty ↦
        let wordless : words b.evidence ≡ [] =
          ap words (is_empty_nil b.evidence empty) ∙ none_found in
        absurd (ground (arith, h, consistent_wordless a.evidence b.evidence wordless))
    | inr full ↦ full
  ]
