-- ===== src/Research/CrossCheck/Step.antt =====
-- Where the two loops of `cross_check` stand, and what one step does to the claims.
use agent_operator.Prelude.{
  ℕ, suc, ◌<◌, max, ◌≡◌, ◌≢◌, ◌⊎◌, refl, sym, ◌∙◌, inl, inr, arith, Bool-cases, true, false, Option,
  some, List, [], ◌==◌, ltb, length, get_elem?, set, get_elem?-set_self, get_elem?-set_other,
  length-set, if◌then◌else◌,
}
use agent_operator.Text.{Text}
use agent_operator.Research.{Claim}
use agent_operator.Research.CrossCheck.{contradict, conflict, link}
use agent_operator.Research.CrossCheck.Words.{conflict_comm}
use agent_operator.Research.CrossCheck.Marks.{
  mark, against, first_against, mark-conflict, mark-evidence, mark-suc, mark_again,
}

module _ (words : Text → List Text) where
  module _ (wordless : words [] ≡ []) (claims : List Claim) where
    -- How many claims have been looked at for the k-th, when the loops stand at i and j.
    abbrev pub bound : ℕ → ℕ → ℕ → ℕ
    bound i j k =
        if ltb k i
        then length claims
        else (if k == i then max i j else (if ltb k j then suc i else i))

    -- The loops stand at i and j.
    pub record At (i j : ℕ) (now : List Claim) : Type 0 where
      pub size : length now ≡ length claims
      pub items :
          (k : ℕ) (c : Claim)
          → get_elem? claims k ≡ some c
          → get_elem? now k ≡ some (mark (first_against words claims k (bound i j k)) c)

    pub advance :
        (k l b b' : ℕ) (c : Claim)
        → ((b ≡ l) × (b' ≡ suc l)) ⊎ ((b' ≡ b) × (l < b))
        → mark (first_against words claims k b') c
          ≡ mark (against words claims k l) (mark (first_against words claims k b) c)
    advance k l b b' c (inl (e, e')) = rw e (rw e' (mark-suc words wordless claims k l c))
    advance k l b b' c (inr (e, h)) = rw e (sym (mark_again words wordless claims k l b c h))

    module _ (i j : ℕ) (now : List Claim) (t u : Option Text) (c d : Claim)
        (at_i : get_elem? now i ≡ some (mark t c)) (at_j : get_elem? now j ≡ some (mark u d))
        (is_c : get_elem? claims i ≡ some c) (is_d : get_elem? claims j ≡ some d) where
      link_lem : link words i j now ≡ (
          if i == j
          then now
          else (if conflict words c d
              then set
                  (set now i (contradict (mark t c) d.evidence))
                  j
                  (contradict (mark u d) c.evidence)
              else now))
      unfolding link
      link_lem = rw at_i (
          rw at_j (
            rw (mark-conflict words t u c d)
              (rw (mark-evidence t c) (rw (mark-evidence u d) refl))))

      both_set : List Claim
      both_set =
          set (set now i (contradict (mark t c) d.evidence)) j (contradict (mark u d) c.evidence)

      link_same : i == j ≡ true → link words i j now ≡ now
      link_same same = link_lem ∙ rw same refl

      link_apart : i == j ≡ false → conflict words c d ≡ false → link words i j now ≡ now
      link_apart other no_conflict = link_lem ∙ rw other (rw no_conflict refl)

      link_both : i == j ≡ false → conflict words c d ≡ true → link words i j now ≡ both_set
      unfolding both_set
      link_both other found = link_lem ∙ rw other (rw found refl)

      pub link_at_first :
          get_elem? (link words i j now) i ≡ some (mark (against words claims i j) (mark t c))
      unfolding against both_set
      link_at_first = elim (Bool-cases (i == j)) [
        | inl same ↦ rw (link_same same) (rw same at_i)
        | inr other ↦ elim (Bool-cases (conflict words c d)) [
          | inl found ↦ rw (link_both other found) (
              rw other (
                rw is_c (
                  rw is_d (
                    rw found (
                      get_elem?-set_other (set now i (contradict (mark t c) d.evidence)) j i _
                        (λ e. ground (arith, other, e))
                      ∙ get_elem?-set_self now i _ _ at_i)))))
          | inr apart ↦ rw (link_apart other apart) (rw other (rw is_c (rw is_d (rw apart at_i))))
        ]
      ]

      pub link_at_second :
          i == j ≡ false
          → get_elem? (link words i j now) j ≡ some (mark (against words claims j i) (mark u d))
      unfolding against both_set
      link_at_second other =
          let other' : j == i ≡ false = ground (arith, other) in
          elim (Bool-cases (conflict words c d)) [
            | inl found ↦
                let at_j' : get_elem? (set now i (contradict (mark t c) d.evidence)) j
                    ≡ some (mark u d) =
                  get_elem?-set_other now i j _ (λ e. ground (arith, other, e)) ∙ at_j in
                rw (link_both other found) (
                  rw other' (
                    rw is_d (
                      rw is_c (
                        rw (conflict_comm words d c)
                          (rw found (get_elem?-set_self _ j _ _ at_j'))))))
            | inr apart ↦
                rw (link_apart other apart)
                  (rw other' (rw is_d (rw is_c (rw (conflict_comm words d c) (rw apart at_j)))))
          ]

      pub link_elsewhere :
          (k : ℕ) → i ≢ k → j ≢ k → get_elem? (link words i j now) k ≡ get_elem? now k
      unfolding both_set
      link_elsewhere k other_i other_j = elim (Bool-cases (i == j)) [
        | inl same ↦ rw (link_same same) refl
        | inr other ↦ elim (Bool-cases (conflict words c d)) [
          | inl found ↦ rw (link_both other found) (
              get_elem?-set_other (set now i _) j k _ other_j
              ∙ get_elem?-set_other now i k _ other_i)
          | inr apart ↦ rw (link_apart other apart) refl
        ]
      ]

      pub length-link : length (link words i j now) ≡ length now
      unfolding both_set
      length-link = elim (Bool-cases (i == j)) [
        | inl same ↦ rw (link_same same) refl
        | inr other ↦ elim (Bool-cases (conflict words c d)) [
          | inl found ↦
              rw (link_both other found) (length-set (set now i _) j _ ∙ length-set now i _)
          | inr apart ↦ rw (link_apart other apart) refl
        ]
      ]

    pub bounds_first :
        (i j : ℕ)
        → ((bound i j i ≡ j) × (bound i (suc j) i ≡ suc j))
          ⊎ ((bound i (suc j) i ≡ bound i j i) × (j < bound i j i))
    bounds_first i j = elim (Bool-cases (ltb j i)) [
      | inl before ↦ inr (ground (arith, before), ground (arith, before))
      | inr behind ↦ inl (ground (arith, behind), ground (arith, behind))
    ]

    pub bounds_second :
        (i j : ℕ)
        → i < length claims
        → i == j ≡ false
        → ((bound i j j ≡ i) × (bound i (suc j) j ≡ suc i))
          ⊎ ((bound i (suc j) j ≡ bound i j j) × (i < bound i j j))
    bounds_second i j hi other = elim (Bool-cases (ltb j i)) [
      | inl before ↦ inr (ground (arith, before, hi), ground (arith, before, hi))
      | inr behind ↦ inl (ground (arith, behind, other), ground (arith, behind, other))
    ]

    pub bounds_elsewhere :
        (i j k : ℕ) → i == k ≡ false → j == k ≡ false → bound i (suc j) k ≡ bound i j k
    bounds_elsewhere i j k other_i other_j = ground (arith, other_i, other_j)
