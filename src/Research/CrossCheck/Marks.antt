-- ===== src/Research/CrossCheck/Marks.antt =====
-- The evidence of the first claim that conflicts with a claim, and a claim that is marked with it.
use agent_operator.Prelude.{
  ℕ, zero, suc, ◌<◌, ◌≡◌, refl, sym, ◌∙◌, inl, inr, arith, Bool-cases, Option-cases, false, Option,
  none, some, List, [], ◌==◌, ==_iff, get_elem?, if◌then◌else◌,
}
use agent_operator.Text.{Text, is_empty}
use agent_operator.Research.{Claim, is_truthy}
use agent_operator.Research.CrossCheck.{contradict, conflict}
use agent_operator.Research.CrossCheck.Words.{conflict_comm, conflict_words}

-- A claim with the evidence of another, if there is one.
abbrev pub mark : Option Text → Claim → Claim
mark none c = c
mark (some t) c = contradict c t

contradict_twice :
    (c : Claim) (t u : Text) → is_empty t ≡ false → contradict (contradict c t) u ≡ contradict c t
unfolding contradict
contradict_twice c t u h = ground arith

contradict-evidence : (c : Claim) (t : Text) → (contradict c t).evidence ≡ c.evidence
unfolding contradict
contradict-evidence c t = ground arith

pub mark-evidence : (t : Option Text) (c : Claim) → (mark t c).evidence ≡ c.evidence
mark-evidence none c = refl
mark-evidence (some t) c = contradict-evidence c t

module _ (words : Text → List Text) where
  conflict-contradict :
      (c d : Claim) (t : Text) → conflict words (contradict c t) d ≡ conflict words c d
  unfolding contradict conflict
  conflict-contradict c d t = elim (Bool-cases (is_truthy c.contradicting_evidence)) [
    | inl has ↦ rw has refl
    | inr not_yet ↦ rw not_yet refl
  ]

  conflict-mark_first :
      (t : Option Text) (c d : Claim) → conflict words (mark t c) d ≡ conflict words c d
  conflict-mark_first none c d = refl
  conflict-mark_first (some t) c d = conflict-contradict c d t

  pub mark-conflict :
      (t u : Option Text) (c d : Claim) → conflict words (mark t c) (mark u d) ≡ conflict words c d
  mark-conflict t u c d =
      conflict-mark_first t c (mark u d)
      ∙ conflict_comm words c (mark u d)
      ∙ conflict-mark_first u d c
      ∙ conflict_comm words d c

  abbrev against_found : Option Claim → Option Claim → Option Text
  against_found (some c) (some d) = if conflict words c d then some d.evidence else none
  against_found _ _ = none

  -- What the l-th claim says against the k-th.
  unfoldable pub against : List Claim → ℕ → ℕ → Option Text
  against claims k l =
      if k == l then none else against_found (get_elem? claims k) (get_elem? claims l)

  abbrev or_then : Option Text → Option Text → Option Text
  or_then none b = b
  or_then (some t) b = some t

  -- What the first of the claims below the l-th says that says something against the k-th.
  unfoldable pub first_against : List Claim → ℕ → ℕ → Option Text
  first_against claims k zero = none
  first_against claims k (suc l) = or_then (first_against claims k l) (against claims k l)

  module _ (wordless : words [] ≡ []) (claims : List Claim) where
    abbrev Filled : Option Text → Type 0
    Filled none = Unit
    Filled (some t) = is_empty t ≡ false

    against-Filled : (k l : ℕ) → Filled (against claims k l)
    unfolding against
    against-Filled k l = elim (Bool-cases (k == l)) [
      | inl same ↦ rw same tt
      | inr other ↦ rw other (go (get_elem? claims k) (get_elem? claims l))
    ]
      where
        go : (x y : Option Claim) → Filled (against_found x y)
        go none y = tt
        go (some c) none = tt
        go (some c) (some d) = elim (Bool-cases (conflict words c d)) [
          | inl against_it ↦ rw against_it (conflict_words words c d wordless against_it)
          | inr for_it ↦ rw for_it tt
        ]

    first_against-Filled : (k l : ℕ) → Filled (first_against claims k l)
    unfolding first_against
    first_against-Filled k zero = tt
    first_against-Filled k (suc l) =
        go (first_against claims k l) (against claims k l) (first_against-Filled k l)
          (against-Filled k l)
      where
        go : (a b : Option Text) → Filled a → Filled b → Filled (or_then a b)
        go none b h i = i
        go (some t) b h i = h

    -- One more claim looked at.
    pub mark-suc :
        (k l : ℕ) (c : Claim)
        → mark (first_against claims k (suc l)) c
          ≡ mark (against claims k l) (mark (first_against claims k l) c)
    unfolding first_against
    mark-suc k l c = go (first_against claims k l) (against claims k l) (first_against-Filled k l)
      where
        go : (a b : Option Text) → Filled a → mark (or_then a b) c ≡ mark b (mark a c)
        go none b h = refl
        go (some t) none h = refl
        go (some t) (some u) h = sym (contradict_twice c t u h)

    first_against-eq-some :
        (k l n : ℕ) (t : Text)
        → l < n
        → against claims k l ≡ some t
        → (u : Text) × (first_against claims k n ≡ some u)
    unfolding first_against
    first_against-eq-some k l zero t h e = absurd (omega arith)
    first_against-eq-some k l (suc n) t h e = elim (Option-cases (first_against claims k n)) [
      | inl none_yet ↦ elim (Bool-cases (l == n)) [
        | inl last ↦ (t, rw none_yet (rw (← (==_iff l n).0 last) e))
        | inr before ↦
            let (u, f) = first_against-eq-some k l n t (ground (arith, before)) e in
            absurd (ground (arith, none_yet, f))
      ]
      | inr (u, f) ↦ (u, rw f refl)
    ]

    -- A claim looked at again.
    pub mark_again :
        (k l n : ℕ) (c : Claim)
        → l < n
        → mark (against claims k l) (mark (first_against claims k n) c)
          ≡ mark (first_against claims k n) c
    mark_again k l n c h = elim (Option-cases (against claims k l)) [
      | inl nothing ↦ rw nothing refl
      | inr (t, e) ↦
          let (u, f) = first_against-eq-some k l n t h e in
          rw e (rw f (contradict_twice c u t (rw f at (first_against-Filled k n))))
    ]
