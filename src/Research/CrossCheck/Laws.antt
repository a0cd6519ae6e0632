-- ===== src/Research/CrossCheck/Laws.antt =====
-- The two loops of `cross_check` give each claim the evidence of the first claim that conflicts.
use mathlib.Core.Option
use agent_operator.Prelude.{
  ℕ, zero, suc, ◌+◌, ◌<◌, ◌≡◌, refl, ap, subst, ◌∙◌, inl, inr, arith, Bool-cases, Option-cases,
  false, some, List, [], ◌==◌, ==_iff, length, get_elem?, get_elem?_bound, get_elem?_found,
}
use agent_operator.Text.{Text}
use agent_operator.Research.{Claim}
use agent_operator.Research.CrossCheck.{link, link_all, cross_check_from, cross_check}
use agent_operator.Research.CrossCheck.Marks.{mark, first_against}
use agent_operator.Research.CrossCheck.Step.{
  bound, At, advance, link_at_first, link_at_second, link_elsewhere, length-link, bounds_first,
  bounds_second, bounds_elsewhere,
}

module _ (words : Text → List Text) where
  module _ (wordless : words [] ≡ []) (claims : List Claim) where
    module _ (i j : ℕ) (now : List Claim) (hi : i < length claims) (hj : j < length claims)
        (h : At words wordless claims i j now) where
      Item : ℕ → Claim → Type 0
      Item k e =
          get_elem? (link words i j now) k
          ≡ some (mark (first_against words claims k (bound words wordless claims i (suc j) k)) e)

      Item-first : (e : Claim) → get_elem? claims i ≡ some e → Item i e
      unfolding Item
      Item-first e is_e =
          let (d, is_d) = get_elem?_found claims j hj in
          rw
            (advance words wordless claims i j (bound words wordless claims i j i)
              (bound words wordless claims i (suc j) i) e (bounds_first words wordless claims i j))
            (link_at_first words wordless claims i j now _ _ e d (h.items i e is_e)
              (h.items j d is_d) is_e is_d)

      Item-second : (e : Claim) → i == j ≡ false → get_elem? claims j ≡ some e → Item j e
      unfolding Item
      Item-second e other is_e =
          let (c, is_c) = get_elem?_found claims i hi in
          rw
            (advance words wordless claims j i (bound words wordless claims i j j)
              (bound words wordless claims i (suc j) j) e
              (bounds_second words wordless claims i j hi other))
            (link_at_second words wordless claims i j now _ _ c e (h.items i c is_c)
              (h.items j e is_e) is_c is_e other)

      Item-elsewhere :
          (k : ℕ) (e : Claim)
          → i == k ≡ false
          → j == k ≡ false
          → get_elem? claims k ≡ some e
          → Item k e
      unfolding Item
      Item-elsewhere k e other_i other_j is_e =
          let (c, is_c) = get_elem?_found claims i hi in
          let (d, is_d) = get_elem?_found claims j hj in
          rw (bounds_elsewhere words wordless claims i j k other_i other_j) (
            link_elsewhere words wordless claims i j now _ _ c d (h.items i c is_c)
              (h.items j d is_d) is_c is_d k (λ e. ground (arith, other_i, e))
              (λ e. ground (arith, other_j, e))
            ∙ h.items k e is_e)

      Item-at : (k : ℕ) (e : Claim) → get_elem? claims k ≡ some e → Item k e
      Item-at k e is_e = elim (Bool-cases (i == k)) [
        | inl first ↦
            let same : i ≡ k = (==_iff i k).0 first in
            subst (λ n. Item n e) same (Item-first e (ap (get_elem? claims) same ∙ is_e))
        | inr other ↦ elim (Bool-cases (j == k)) [
          | inl second ↦
              let same : j ≡ k = (==_iff j k).0 second in
              let apart : i == j ≡ false = ground (arith, other, same) in
              subst (λ n. Item n e) same (Item-second e apart (ap (get_elem? claims) same ∙ is_e))
          | inr elsewhere ↦ Item-elsewhere k e other elsewhere is_e
        ]
      ]

      link-At : At words wordless claims i (suc j) (link words i j now)
      unfolding Item
      link-At =
          let (c, is_c) = get_elem?_found claims i hi in
          let (d, is_d) = get_elem?_found claims j hj in
          record {
            size =
                length-link words wordless claims i j now _ _ c d (h.items i c is_c)
                  (h.items j d is_d) is_c is_d
                ∙ h.size;
            items = Item-at;
          }

    link_all-At :
        (i j left : ℕ) (now : List Claim)
        → i < length claims
        → j + left ≡ length claims
        → At words wordless claims i j now
        → At words wordless claims i (length claims) (link_all words i j left now)
    unfolding link_all
    link_all-At i j zero now hi e h =
        let done : j ≡ length claims = omega arith in
        subst (λ n. At words wordless claims i n now) done h
    link_all-At i j (suc left) now hi e h =
        link_all-At i (suc j) left _ hi (omega arith) (link-At i j now hi (omega arith) h)

    next-At :
        (i : ℕ) (now : List Claim)
        → i < length claims
        → At words wordless claims i (length claims) now
        → At words wordless claims (suc i) 0 now
    next-At i now hi h = record {
      size = h.size;
      items = λ k c e.
          let known = get_elem?_bound claims k c e in
          let same : bound words wordless claims (suc i) 0 k
              ≡ bound words wordless claims i (length claims) k =
            ground (arith, known, hi) in
          rw same (h.items k c e);
    }

    cross_check_from-At :
        (i left : ℕ) (now : List Claim)
        → i + left ≡ length claims
        → At words wordless claims i 0 now
        → At words wordless claims (length claims) 0 (cross_check_from words i left now)
    unfolding cross_check_from
    cross_check_from-At i zero now e h =
        let done : i ≡ length claims = omega arith in
        subst (λ n. At words wordless claims n 0 now) done h
    cross_check_from-At i (suc left) now e h = cross_check_from-At (suc i) left _ (omega arith) (
        next-At i _ (omega arith)
          (rw h.size (link_all-At i 0 (length claims) now (omega arith) (omega arith) h)))

  Option-map_found :
      (k : ℕ) (claims now : List Claim) (f : Claim → Claim)
      → length now ≡ length claims
      → ((c : Claim) → get_elem? claims k ≡ some c → get_elem? now k ≡ some (f c))
      → get_elem? now k ≡ Option.map f (get_elem? claims k)
  Option-map_found k claims now f size h = elim (Option-cases (get_elem? claims k)) [
    | inr (c, found) ↦ rw found (h c found)
    | inl missing ↦ rw missing (elim (Option-cases (get_elem? now k)) [
      | inl missing_too ↦ missing_too
      | inr (v, there) ↦
          let known : k < length claims = omega (arith, size, get_elem?_bound now k v there) in
          let (c, found) = get_elem?_found claims k known in absurd (ground (arith, missing, found))
    ])
  ]

  start-At : (wordless : words [] ≡ []) (claims : List Claim) → At words wordless claims 0 0 claims
  unfolding first_against
  start-At wordless claims = record {
    size = refl;
    items = λ k c e. let same : bound words wordless claims 0 0 k ≡ 0 = ground arith in rw same e;
  }

  -- If an empty text has no words, then `cross_check` gives the k-th claim the evidence of the first
  -- claim in the list that conflicts with it, unless it has contradicting evidence already or there
  -- is no such claim; nothing else of it changes.
  pub cross_check_exact :
      words [] ≡ []
      → (claims : List Claim) (k : ℕ)
      → get_elem? (cross_check words claims) k
        ≡ Option.map (mark (first_against words claims k (length claims))) (get_elem? claims k)
  unfolding cross_check
  cross_check_exact wordless claims k =
      let n = length claims in
      let now = cross_check_from words 0 n claims in
      let end =
        cross_check_from-At wordless claims 0 n claims (omega arith) (start-At wordless claims) in
      Option-map_found k claims now (mark (first_against words claims k n)) end.size λ c e.
        let known = get_elem?_bound claims k c e in
        let all : bound words wordless claims n 0 k ≡ n = ground (arith, known) in
        subst (λ b. get_elem? now k ≡ some (mark (first_against words claims k b) c)) all
          (end.items k c e)
