-- ===== src/Research/CrossCheck.antt =====
-- `cross_check` of app/research/pipeline.py, with `_overlaps` and `_consistent`. The words of a text,
-- which `_WORD_RE` finds in its lowered form, are a parameter.
pub mod Words
pub mod Marks
pub mod Step
pub mod Laws
use agent_operator.Prelude.{
  ℕ, zero, suc, ◌+◌, ◌-◌, ◌*◌, Bool, true, false, not, ◌&&◌, ◌||◌, Option, none, some, List, [],
  ◌∷◌, ◌==◌, leb, length, get_elem?, set, if◌then◌else◌,
}
use agent_operator.Text.{Text, text_eq, is_empty}
use agent_operator.Research.{Claim, is_truthy}

-- Membership in a set of words.
unfoldable pub has_word : Text → List Text → Bool
has_word w [] = false
has_word w (v ∷ words) = if text_eq v w then true else has_word w words

-- `set(…)` of a list.
unfoldable pub distinct : List Text → List Text
distinct [] = []
distinct (w ∷ words) = let rest = distinct words in if has_word w rest then rest else w ∷ rest

-- `len(ta & tb)`.
unfoldable pub common : List Text → List Text → ℕ
common [] tb = 0
common (w ∷ ta) tb = (if has_word w tb then 1 else 0) + common ta tb

-- `len(ta | tb)`.
unfoldable pub joint : List Text → List Text → ℕ
joint ta tb = length ta + length tb - common ta tb

abbrev pub is_none : List Text → Bool
is_none [] = true
is_none (_ ∷ _) = false

-- `note` of a claim's evidence, unless it has some.
unfoldable pub contradict : Claim → Text → Claim
contradict c evidence =
    if is_truthy c.contradicting_evidence
    then c
    else record c { contradicting_evidence = some evidence }

module _ (words : Text → List Text) where
  -- `_overlaps`, whose threshold is 4 tenths.
  unfoldable pub overlaps : Text → Text → Bool
  overlaps a b =
      let ta = distinct (words a) in
      let tb = distinct (words b) in
      if is_none ta || is_none tb then false else leb (4 * joint ta tb) (10 * common ta tb)

  -- `_consistent`, whose threshold is 8 tenths.
  unfoldable pub consistent : Text → Text → Bool
  consistent a b =
      let ta = distinct (words a) in
      let tb = distinct (words b) in
      if is_none ta || is_none tb then true else leb (8 * joint ta tb) (10 * common ta tb)

  -- The tests on two claims that are not the same object.
  unfoldable pub conflict : Claim → Claim → Bool
  conflict a b =
      not (text_eq a.source.url b.source.url)
      && (overlaps a.claim b.claim && not (consistent a.evidence b.evidence))

  abbrev pub link_found : ℕ → ℕ → Option Claim → Option Claim → List Claim → List Claim
  link_found i j (some a) (some b) claims =
      if i == j
      then claims
      else (if conflict a b
          then set (set claims i (contradict a b.evidence)) j (contradict b a.evidence)
          else claims)
  link_found i j _ _ claims = claims

  -- The body of the two loops, at the i-th and the j-th claim.
  unfoldable pub link : ℕ → ℕ → List Claim → List Claim
  link i j claims = link_found i j (get_elem? claims i) (get_elem? claims j) claims

  -- The loop over `b`, from the j-th claim on, with the number of claims that are left.
  unfoldable pub link_all : ℕ → ℕ → ℕ → List Claim → List Claim
  link_all i j zero claims = claims
  link_all i j (suc left) claims = link_all i (suc j) left (link i j claims)

  -- The loop over `a`.
  unfoldable pub cross_check_from : ℕ → ℕ → List Claim → List Claim
  cross_check_from i zero claims = claims
  cross_check_from i (suc left) claims =
      cross_check_from (suc i) left (link_all i 0 (length claims) claims)

  -- `cross_check`.
  unfoldable pub cross_check : List Claim → List Claim
  cross_check claims = cross_check_from 0 (length claims) claims
