-- ===== src/Text/Laws.antt =====
-- What `includes` finds.
use agent_operator.Prelude.{◌≡◌, ◌↔◌, refl, inl, inr, true, [], ◌∷◌, ◌++◌, arith, Bool-cases}
use agent_operator.Text.{Text, text_eq, is_empty, starts_with, includes}

pub starts_with-append : (p s : Text) → starts_with p (p ++ s) ≡ true
unfolding starts_with
starts_with-append [] s = refl
starts_with-append (c ∷ p) s = ground (arith, starts_with-append p s)

pub starts_with_sound : (p s : Text) → starts_with p s ≡ true → (r : Text) × (s ≡ p ++ r)
unfolding starts_with
starts_with_sound [] s h = (s, refl)
starts_with_sound (c ∷ p) [] h = cc
starts_with_sound (c ∷ p) (d ∷ s) h =
    let (r, e) = starts_with_sound p s (ground arith) in (r, ground arith)

-- `part in s` holds exactly if `s` is some text, then `part`, then some text.
pub includes_sound :
    (part s : Text)
    → includes part s ≡ true
    → (before : Text) × (after : Text) × (s ≡ before ++ (part ++ after))
unfolding includes is_empty
includes_sound [] [] h = ([], [], refl)
includes_sound (p ∷ ps) [] h = cc
includes_sound part (c ∷ s) h = elim (Bool-cases (starts_with part (c ∷ s))) [
  | inl here ↦ let (r, e) = starts_with_sound part (c ∷ s) here in ([], r, e)
  | inr later ↦
      let (before, after, e) = includes_sound part s (ground arith) in
      (c ∷ before, after, ground arith)
]

pub includes_complete :
    (before part after : Text) → includes part (before ++ (part ++ after)) ≡ true
unfolding includes is_empty starts_with
includes_complete [] [] [] = refl
includes_complete [] [] (c ∷ s) = refl
includes_complete [] (p ∷ ps) after = ground (arith, starts_with-append (p ∷ ps) after)
includes_complete (c ∷ before) part after = ground (arith, includes_complete before part after)

pub text_eq_iff : (s t : Text) → (text_eq s t ≡ true) ↔ (s ≡ t)
unfolding text_eq
text_eq_iff [] [] = ground arith
text_eq_iff [] (d ∷ t) = ground arith
text_eq_iff (c ∷ s) [] = ground arith
text_eq_iff (c ∷ s) (d ∷ t) = ground (arith, text_eq_iff s t)
