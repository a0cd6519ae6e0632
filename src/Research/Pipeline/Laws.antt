-- ===== src/Research/Pipeline/Laws.antt =====
-- What a run of the research pipeline reports.
use agent_operator.Errors.{Error}
use agent_operator.Prelude.{
  ℕ, zero, suc, ◌≤◌, ◌≡◌, refl, sym, ap, ◌∙◌, ◌⊎◌, inl, inr, arith, Bool-cases, Option-cases,
  Option, none, some, List, [], ◌∷◌, map, take, length, get_elem?, All, All-append, In, Action,
  Result, ok, err, ◌>>=◌,
}
use agent_operator.Prelude.Triple.{
  Triple, Ends, Triple-pure, Triple-given, Triple-seq, Triple-weaken, Triple-catch,
}
use agent_operator.Text.{Text, is_empty, strip}
use agent_operator.Content.{split, inside}
use agent_operator.Research.{Source, Claim, has_conflicting_evidence}
use agent_operator.Research.CrossCheck.{cross_check, contradict}
use agent_operator.Research.CrossCheck.Marks.{mark, first_against}
use agent_operator.Research.CrossCheck.Laws.{cross_check_exact}
use agent_operator.Research.Pipeline.{
  Setting, ResearchResult, verified_claims, disputed_claims, search_sources, chunk_text, claims_of,
  extract_claims_from_text, claims_of_chunks, page_claims, extract_evidence, extract_all,
  synthesize, run_on, run_research,
}

module _ {A : Type 0} (P : A → Type 0) where
  All-take : (n : ℕ) (xs : List A) → All P xs → All P (take n xs)
  All-take zero xs h = tt
  All-take (suc n) [] h = tt
  All-take (suc n) (x ∷ xs) h = (h.0, All-take n xs h.1)

  All-get_elem? : (xs : List A) (k : ℕ) (v : A) → All P xs → get_elem? xs k ≡ some v → P v
  All-get_elem? [] k v h e = cc
  All-get_elem? (x ∷ xs) zero v h e = let same : x ≡ v = cc in rw (← same) h.0
  All-get_elem? (x ∷ xs) (suc k) v h e = All-get_elem? xs k v h.1 e

  All-of_get_elem? : (xs : List A) → ((k : ℕ) (v : A) → get_elem? xs k ≡ some v → P v) → All P xs
  All-of_get_elem? [] h = tt
  All-of_get_elem? (x ∷ xs) h = (h 0 x refl, All-of_get_elem? xs (λ k. h (suc k)))

length-take : {A : Type 0} (n : ℕ) (xs : List A) → length (take n xs) ≤ n
length-take zero xs = omega arith
length-take (suc n) [] = omega arith
length-take (suc n) (x ∷ xs) = omega (arith, length-take n xs)

length-map : {A B : Type 0} (f : A → B) (xs : List A) → length (map f xs) ≡ length xs
length-map f [] = refl
length-map f (x ∷ xs) = ap suc (length-map f xs)

some_injective : {A : Type 0} {a b : A} → some a ≡ some b → a ≡ b
some_injective h = cc

mark-source : (t : Option Text) (c : Claim) → (mark t c).source ≡ c.source
unfolding contradict
mark-source none c = refl
mark-source (some t) c = ground arith

-- A claim of a source that was consulted.
abbrev pub Cites : List Text → Claim → Type 0
Cites urls c = In c.source.url urls

cross_check-Cites :
    (words : Text → List Text) (urls : List Text) (claims : List Claim)
    → words [] ≡ []
    → All (Cites urls) claims
    → All (Cites urls) (cross_check words claims)
cross_check-Cites words urls claims wordless h =
    All-of_get_elem? (Cites urls) (cross_check words claims) λ k v e.
      let exact = cross_check_exact words wordless claims k in
      elim (Option-cases (get_elem? claims k)) [
        | inl missing ↦ absurd (ground (arith, e, rw missing at exact))
        | inr (c, found) ↦
            let is_v : mark (first_against words claims k (length claims)) c ≡ v =
              some_injective (sym (rw found at exact) ∙ e) in
            rw (← is_v) (
              rw (mark-source (first_against words claims k (length claims)) c)
                (All-get_elem? (Cites urls) claims k c h found))
      ]

module _ {W : Type 0} (env : Setting W) (urls : List Text) (source : Source)
    (known : In source.url urls) where
  claims_of-Cites : (pieces : List Text) → All (Cites urls) (claims_of env source pieces)
  unfolding claims_of
  claims_of-Cites [] = tt
  claims_of-Cites (piece ∷ pieces) = ground (arith, claims_of-Cites pieces, known)

  claims_of_chunks-Cites :
      (chunks : List Text) → All (Cites urls) (claims_of_chunks env source chunks)
  unfolding claims_of_chunks extract_claims_from_text
  claims_of_chunks-Cites [] = tt
  claims_of_chunks-Cites (chunk ∷ chunks) =
      All-append (Cites urls) _ _
        (All-take (Cites urls) 10 _ (claims_of-Cites (split inside [] (strip chunk))))
        (claims_of_chunks-Cites chunks)

  page_claims-Cites : (page : Option Text) → All (Cites urls) (page_claims env source page)
  page_claims-Cites none = tt
  page_claims-Cites (some content) = elim (Bool-cases (is_empty (strip content))) [
    | inl nothing ↦ rw nothing tt
    | inr something ↦ rw something (claims_of_chunks-Cites (chunk_text env content))
  ]

module _ {W A : Type 0} where
  Ends-anything : (r : Result A) (w : W) → Ends {S = W} (λ _ _. Unit {0}) (λ _ _. Unit {0}) r w
  Ends-anything (ok a) w = tt
  Ends-anything (err e) w = tt

  anything : (m : Action W A) → Triple (λ _. Unit {0}) m (λ _ _. Unit {0}) (λ _ _. Unit {0})
  anything m = record { at = λ w _. Ends-anything (m w).0 (m w).1 }

-- No exception is raised.
abbrev Never : {W : Type 0} → Error → W → Type 0
Never _ _ = ⊥

module _ {W : Type 0} (env : Setting W) (urls : List Text) where
  extract_evidence-Cites :
      (source : Source)
      → In source.url urls
      → Triple
          (λ _. Unit)
          (extract_evidence env source)
          (λ claims _. All (Cites urls) claims)
          (λ _ _. Unit)
  unfolding extract_evidence
  extract_evidence-Cites source known =
      Triple-seq (anything _)
        λ page. Triple-pure _ (λ w _. page_claims-Cites env urls source known page)

  extract_all-Cites :
      (sources : List Source)
      → All (λ s. In s.url urls) sources
      → Triple (λ _. Unit) (extract_all env sources) (λ claims _. All (Cites urls) claims) Never
  unfolding extract_all
  extract_all-Cites [] h = Triple-pure [] (λ w _. tt)
  extract_all-Cites (source ∷ sources) h =
      Triple-seq
        (Triple-catch _ _ (extract_evidence-Cites source h.0) (λ e. Triple-pure [] (λ w _. tt)))
        λ claims. Triple-given _ λ w cited.
          Triple-seq
            (Triple-weaken _ (extract_all-Cites sources h.1) (λ v _. tt) (λ _ v h. h) (λ _ v h. h))
            λ rest. Triple-pure _ (λ v h. All-append (Cites urls) claims rest cited h)

urls_In : (sources : List Source) → All (λ s. In s.url (map (λ s. s.url) sources)) sources
urls_In [] = tt
urls_In (s ∷ sources) = (inl refl, later sources _ (urls_In sources))
  where
    later :
        (ss : List Source) (us : List Text)
        → All (λ t. In t.url us) ss
        → All (λ t. In t.url (s.url ∷ us)) ss
    later [] us h = tt
    later (t ∷ ss) us h = (inr h.0, later ss us h.1)

-- The texts, in order, of those claims whose contradicting evidence is a text that is not empty.
pub data AreConflicts : List Claim → List Text → Type 0 where
  nothing : AreConflicts [] []
  without :
      {c : Claim} {claims : List Claim} {texts : List Text}
      → (c.contradicting_evidence ≡ none) ⊎ (c.contradicting_evidence ≡ some [])
      → AreConflicts claims texts
      → AreConflicts (c ∷ claims) texts
  disputed :
      {c : Claim} {claims : List Claim} {texts : List Text}
      → (a : ℕ) (t : Text) → c.contradicting_evidence ≡ some (a ∷ t)
      → AreConflicts claims texts
      → AreConflicts (c ∷ claims) (c.claim ∷ texts)

evidence_cases :
    (evidence : Option Text)
    → ((evidence ≡ none) ⊎ (evidence ≡ some []))
      ⊎ ((a : ℕ) × (t : Text) × (evidence ≡ some (a ∷ t)))
evidence_cases none = inl (inl refl)
evidence_cases (some []) = inl (inr refl)
evidence_cases (some (a ∷ t)) = inr (a, t, refl)

disputed_claims-AreConflicts :
    (claims : List Claim) → AreConflicts claims (map (λ c. c.claim) (disputed_claims claims))
unfolding disputed_claims has_conflicting_evidence is_empty
disputed_claims-AreConflicts [] = nothing
disputed_claims-AreConflicts (c ∷ claims) =
    go (evidence_cases c.contradicting_evidence) (disputed_claims-AreConflicts claims)
  where
    go :
        ((c.contradicting_evidence ≡ none) ⊎ (c.contradicting_evidence ≡ some []))
          ⊎ ((a : ℕ) × (t : Text) × (c.contradicting_evidence ≡ some (a ∷ t)))
        → AreConflicts claims (map (λ c. c.claim) (disputed_claims claims))
        → AreConflicts (c ∷ claims) (map (λ c. c.claim) (disputed_claims (c ∷ claims)))
    go (inl (inl h)) rest = simp h (without (inl h) rest)
    go (inl (inr h)) rest = simp h (without (inr h) rest)
    go (inr (a, t, h)) rest = simp h (disputed a t h rest)

-- Every claim cites a source that was consulted, there are no more of these than the limit, and the
-- conflicts are the texts of the claims that have contradicting evidence.
pub record IsCited (limit : ℕ) (r : ResearchResult) : Type 0 where
  pub cited : All (Cites r.sources_consulted) r.claims
  pub bound : length r.sources_consulted ≤ limit
  pub conflicts : AreConflicts r.claims r.conflicts

module _ {W : Type 0} (env : Setting W) where
  -- The language model answers whatever it is asked.
  abbrev pub Answers : Type 0
  Answers = (v d : List Claim) (w : W) → (t : Text) × ((env.ainvoke v d w).0 ≡ ok t)

  synthesize-returns :
      Answers
      → (claims : List Claim) → Triple (λ _. Unit) (synthesize env claims) (λ _ _. Unit) Never
  unfolding synthesize
  synthesize-returns answers claims = record {
    at = λ w _. let (t, e) = answers (verified_claims claims) (disputed_claims claims) w in rw e tt;
  }

  run_on-IsCited :
      (question : Text) (sources : List Source)
      → env.words [] ≡ []
      → length sources ≤ env.max_sources
      → Answers
      → Triple (λ _. Unit) (run_on env question sources) (λ r _. IsCited env.max_sources r) Never
  unfolding disputed_claims
  run_on-IsCited question [] wordless h answers =
      Triple-pure _ (λ w _. record { cited = tt; bound = omega arith; conflicts = nothing })
  run_on-IsCited question (source ∷ sources) wordless h answers =
      let urls = map (λ s. s.url) (source ∷ sources) in
      Triple-seq (extract_all-Cites env urls (source ∷ sources) (urls_In (source ∷ sources)))
        λ found. Triple-given _ λ w cited.
          Triple-seq {R = λ _ _. Unit}
            (Triple-weaken _ (synthesize-returns answers _) (λ v _. tt) (λ _ v h. h) (λ _ v h. h))
            λ summary. Triple-pure _ (λ v _. record {
              cited = cross_check-Cites env.words urls found wordless cited;
              bound = omega (arith, h, length-map (λ s. s.url) sources);
              conflicts = disputed_claims-AreConflicts (cross_check env.words found);
            })

  search_sources_bound :
      (question : Text)
      → Triple
          (λ _. Unit)
          (search_sources env question)
          (λ sources _. length sources ≤ env.max_sources)
          (λ _ _. Unit)
  unfolding search_sources
  search_sources_bound question = Triple-seq (anything _) λ hits.
      Triple-seq (anything _) λ sources. Triple-pure _ (λ w _. length-take env.max_sources _)

  Ends-ok :
      {A : Type 0} (Q : A → W → Type 0) (r : Result A) (w : W)
      → Ends Q Never r w
      → (a : A) × (r ≡ ok a) × Q a w
  Ends-ok Q (ok a) w h = (a, refl, h)
  Ends-ok Q (err e) w h = absurd h

  -- If an empty text has no words and the language model always answers, then a run whose search
  -- returns returns too, whatever fails on a single source; every claim of its result cites a
  -- source that was consulted, no more sources than the limit were consulted, and the conflicts are
  -- the texts of the claims with contradicting evidence that is not empty, in order.
  pub run_research-IsCited :
      (question : Text) (sources : List Source) (w w' : W)
      → env.words [] ≡ []
      → Answers
      → search_sources env question w ≡ (ok sources, w')
      → (r : ResearchResult) × ((run_research env question w).0 ≡ ok r) × IsCited env.max_sources r
  unfolding run_research ◌>>=◌
  run_research-IsCited question sources w w' wordless answers found =
      let bound : length sources ≤ env.max_sources =
        rw found at ((search_sources_bound question).at w tt) in
      let ends = (run_on-IsCited question sources wordless bound answers).at w' tt in
      let (r, e, h) = Ends-ok (λ r _. IsCited env.max_sources r) _ _ ends in (r, rw found e, h)
