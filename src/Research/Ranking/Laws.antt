-- ===== src/Research/Ranking/Laws.antt =====
-- The ranking of the sources sorts them.
use mathlib.Core.List.Perm
use mathlib.Core.List.{Perm}
use agent_operator.Prelude.{
  ℕ, ◌-◌, ◌≤◌, ◌≡◌, refl, ap, ◌⊎◌, inl, inr, Bool-cases, arith, true, false, Option, none, some,
  List, [], ◌∷◌, All, In,
}
use agent_operator.Research.{
  SourceType, primary, official, secondary, community, unverified, Source,
}
use agent_operator.Research.Ranking.{
  rank, freshness_score, comes_before, insert_source, sort_by_confidence_and_freshness,
}

-- The kinds that are worse than a kind: primary, official, secondary, community, unverified is the
-- order of the documentation.
abbrev pub worse : SourceType → List SourceType
worse primary = official ∷ secondary ∷ community ∷ unverified ∷ []
worse official = secondary ∷ community ∷ unverified ∷ []
worse secondary = community ∷ unverified ∷ []
worse community = unverified ∷ []
worse unverified = []

rank_cases : (a b : SourceType) → rank a ≤ rank b → In b (worse a) ⊎ (a ≡ b)
unfolding rank
rank_cases primary primary h = inr refl
rank_cases primary official h = inl (inl refl)
rank_cases primary secondary h = inl (inr (inl refl))
rank_cases primary community h = inl (inr (inr (inl refl)))
rank_cases primary unverified h = inl (inr (inr (inr (inl refl))))
rank_cases official primary h = absurd (omega (arith, h))
rank_cases official official h = inr refl
rank_cases official secondary h = inl (inl refl)
rank_cases official community h = inl (inr (inl refl))
rank_cases official unverified h = inl (inr (inr (inl refl)))
rank_cases secondary primary h = absurd (omega (arith, h))
rank_cases secondary official h = absurd (omega (arith, h))
rank_cases secondary secondary h = inr refl
rank_cases secondary community h = inl (inl refl)
rank_cases secondary unverified h = inl (inr (inl refl))
rank_cases community primary h = absurd (omega (arith, h))
rank_cases community official h = absurd (omega (arith, h))
rank_cases community secondary h = absurd (omega (arith, h))
rank_cases community community h = inr refl
rank_cases community unverified h = inl (inl refl)
rank_cases unverified primary h = absurd (omega (arith, h))
rank_cases unverified official h = absurd (omega (arith, h))
rank_cases unverified secondary h = absurd (omega (arith, h))
rank_cases unverified community h = absurd (omega (arith, h))
rank_cases unverified unverified h = inr refl

module _ (decay : ℕ → ℕ) (now : ℕ) where
  -- No fresher than another publication date, by the decay of their ages. Without
  -- a date there is no freshness.
  abbrev pub IsNoFresher : Option ℕ → Option ℕ → Type 0
  IsNoFresher none q = Unit
  IsNoFresher (some p) none = decay (now - p) ≡ 0
  IsNoFresher (some p) (some q) = decay (now - p) ≤ decay (now - q)

  -- Of a better kind, or of the same kind and no fresher.
  abbrev pub IsAhead : Source → Source → Type 0
  IsAhead s t =
      In t.source_type (worse s.source_type)
      ⊎ ((s.source_type ≡ t.source_type) × IsNoFresher s.published_at t.published_at)

  -- Every source stands ahead of all that follow it.
  abbrev pub IsRanked : List Source → Type 0
  IsRanked [] = Unit
  IsRanked (s ∷ sources) = All (IsAhead s) sources × IsRanked sources

  freshness_score-IsNoFresher :
      (p q : Option ℕ) → freshness_score decay now p ≤ freshness_score decay now q → IsNoFresher p q
  unfolding freshness_score
  freshness_score-IsNoFresher none q h = tt
  freshness_score-IsNoFresher (some p) none h = omega (arith, h)
  freshness_score-IsNoFresher (some p) (some q) h = h

  comes_before-IsAhead : (s t : Source) → comes_before decay now s t ≡ true → IsAhead s t
  unfolding comes_before
  comes_before-IsAhead s t h = elim (rank_cases s.source_type t.source_type (ground (arith, h))) [
    | inl behind ↦ inl behind
    | inr same ↦
        let equal : rank s.source_type ≡ rank t.source_type = ap rank same in
        inr (
          same,
          freshness_score-IsNoFresher s.published_at t.published_at (ground (arith, h, equal)),
        )
  ]

  All-IsAhead :
      (s : Source) (sources : List Source)
      → All (λ t. comes_before decay now s t ≡ true) sources
      → All (IsAhead s) sources
  All-IsAhead s [] h = tt
  All-IsAhead s (t ∷ sources) h = (comes_before-IsAhead s t h.0, All-IsAhead s sources h.1)

  -- No source comes before one that stands in front of it.
  abbrev IsSorted : List Source → Type 0
  IsSorted [] = Unit
  IsSorted (s ∷ sources) = All (λ t. comes_before decay now s t ≡ true) sources × IsSorted sources

  IsSorted-IsRanked : (sources : List Source) → IsSorted sources → IsRanked sources
  IsSorted-IsRanked [] h = tt
  IsSorted-IsRanked (s ∷ sources) h = (All-IsAhead s sources h.0, IsSorted-IsRanked sources h.1)

  comes_before_total :
      (s t : Source) → comes_before decay now s t ≡ false → comes_before decay now t s ≡ true
  unfolding comes_before
  comes_before_total s t h = ground arith

  comes_before_trans :
      (s t u : Source)
      → comes_before decay now s t ≡ true
      → comes_before decay now t u ≡ true
      → comes_before decay now s u ≡ true
  unfolding comes_before
  comes_before_trans s t u h k = ground arith

  All-trans :
      (s t : Source) (sources : List Source)
      → comes_before decay now s t ≡ true
      → All (λ u. comes_before decay now t u ≡ true) sources
      → All (λ u. comes_before decay now s u ≡ true) sources
  All-trans s t [] h k = tt
  All-trans s t (u ∷ sources) h k = (comes_before_trans s t u h k.0, All-trans s t sources h k.1)

  All-insert_source :
      (t s : Source) (sources : List Source)
      → comes_before decay now t s ≡ true
      → All (λ u. comes_before decay now t u ≡ true) sources
      → All (λ u. comes_before decay now t u ≡ true) (insert_source decay now s sources)
  unfolding insert_source
  All-insert_source t s [] h k = (h, tt)
  All-insert_source t s (u ∷ sources) h k = elim (Bool-cases (comes_before decay now s u)) [
    | inl before ↦ rw before (h, k)
    | inr behind ↦ rw behind (k.0, All-insert_source t s sources h k.1)
  ]

  insert_source-IsSorted :
      (s : Source) (sources : List Source)
      → IsSorted sources
      → IsSorted (insert_source decay now s sources)
  unfolding insert_source
  insert_source-IsSorted s [] h = (tt, tt)
  insert_source-IsSorted s (t ∷ sources) h = elim (Bool-cases (comes_before decay now s t)) [
    | inl before ↦ rw before ((before, All-trans s t sources before h.0), h)
    | inr behind ↦ rw behind (
      All-insert_source t s sources (comes_before_total s t behind) h.0,
      insert_source-IsSorted s sources h.1,
    )
  ]

  insert_source-perm :
      (s : Source) (sources : List Source) → Perm (insert_source decay now s sources) (s ∷ sources)
  unfolding insert_source
  insert_source-perm s [] = Perm.refl (s ∷ [])
  insert_source-perm s (t ∷ sources) = elim (Bool-cases (comes_before decay now s t)) [
    | inl before ↦ rw before (Perm.refl (s ∷ t ∷ sources))
    | inr behind ↦
        rw behind (Perm.trans (Perm.cons t (insert_source-perm s sources)) (Perm.swap s t sources))
  ]

  sort_by_confidence_and_freshness-IsSorted :
      (sources : List Source) → IsSorted (sort_by_confidence_and_freshness decay now sources)
  unfolding sort_by_confidence_and_freshness
  sort_by_confidence_and_freshness-IsSorted [] = tt
  sort_by_confidence_and_freshness-IsSorted (s ∷ sources) =
      insert_source-IsSorted s _ (sort_by_confidence_and_freshness-IsSorted sources)

  sort_by_confidence_and_freshness-perm :
      (sources : List Source) → Perm (sort_by_confidence_and_freshness decay now sources) sources
  unfolding sort_by_confidence_and_freshness
  sort_by_confidence_and_freshness-perm [] = Perm.refl []
  sort_by_confidence_and_freshness-perm (s ∷ sources) =
      Perm.trans (insert_source-perm s (sort_by_confidence_and_freshness decay now sources))
        (Perm.cons s (sort_by_confidence_and_freshness-perm sources))

  -- The ranking has the same sources as often. Each one stands ahead of all that follow it: its kind is
  -- better, in the order primary, official, secondary, community, unverified, or the same, and then its
  -- freshness, which decays with its age and is 0 without a date, is at most theirs, so that the least
  -- fresh comes first.
  pub sort_by_confidence_and_freshness-IsRanked :
      (sources : List Source)
      → let ranked = sort_by_confidence_and_freshness decay now sources in
        IsRanked ranked × Perm ranked sources
  sort_by_confidence_and_freshness-IsRanked sources = (
    IsSorted-IsRanked _ (sort_by_confidence_and_freshness-IsSorted sources),
    sort_by_confidence_and_freshness-perm sources,
  )
