-- ===== src/Files/Replace.antt =====
-- What `str.replace(old, new, 1)` does to a text that contains `old`.
use agent_operator.Prelude.{
  ◌≡◌, refl, sym, ap, ◌≤◌, inl, inr, Bool-cases, arith, true, false, [], ◌∷◌, ◌++◌, length, drop,
  append-nil,
}
use agent_operator.Text.{Text, is_empty, starts_with, includes}
use agent_operator.Text.Laws.{starts_with-append, starts_with_sound}
use agent_operator.Files.Operations.{replace_first}

-- The text is replaced where it stands first.
pub record IsReplaced (old new s t : Text) : Type 0 where
  pub before : Text
  pub after : Text
  pub found : s ≡ before ++ (old ++ after)
  pub replaced : t ≡ before ++ (new ++ after)
  pub first : (b a : Text) → s ≡ b ++ (old ++ a) → length before ≤ length b

drop-append : (xs ys : Text) → drop (length xs) (xs ++ ys) ≡ ys
drop-append [] ys = refl
drop-append (x ∷ xs) ys = drop-append xs ys

IsReplaced-end : (old new : Text) → is_empty old ≡ true → IsReplaced old new [] new
unfolding is_empty
IsReplaced-end [] new h = record {
  before = [];
  after = [];
  found = refl;
  replaced = sym (append-nil new);
  first = λ b a _. omega arith;
}
IsReplaced-end (c ∷ old) new h = absurd (ground (arith, h))

module _ (old new : Text) where
  IsReplaced-here :
      (s : Text) → starts_with old s ≡ true → IsReplaced old new s (new ++ drop (length old) s)
  IsReplaced-here s h =
      let (r, e) = starts_with_sound old s h in
      record {
        before = [];
        after = r;
        found = e;
        replaced = rw e (ap (λ t. new ++ t) (drop-append old r));
        first = λ b a _. omega arith;
      }

  IsReplaced-later :
      {s t : Text} (c : _)
      → starts_with old (c ∷ s) ≡ false
      → IsReplaced old new s t
      → IsReplaced old new (c ∷ s) (c ∷ t)
  IsReplaced-later {s} c h r = record {
    before = c ∷ r.before;
    after = r.after;
    found = ap (λ t. c ∷ t) r.found;
    replaced = ap (λ t. c ∷ t) r.replaced;
    first = later;
  }
    where
      later : (b a : Text) → c ∷ s ≡ b ++ (old ++ a) → length (c ∷ r.before) ≤ length b
      later [] a e = absurd (ground (arith, h, ap (starts_with old) e, starts_with-append old a))
      later (d ∷ b) a e =
          let tail : s ≡ b ++ (old ++ a) = ground (arith, e) in omega (arith, r.first b a tail)

  pub replace_first-IsReplaced :
      (s : Text) → includes old s ≡ true → IsReplaced old new s (replace_first old new s)
  unfolding replace_first includes starts_with
  replace_first-IsReplaced [] h = elim (Bool-cases (is_empty old)) [
    | inl none_left ↦ rw none_left (IsReplaced-end old new none_left)
    | inr some_left ↦ absurd (ground (arith, h, some_left))
  ]
  replace_first-IsReplaced (c ∷ s) h = elim (Bool-cases (starts_with old (c ∷ s))) [
    | inl here ↦ rw here (IsReplaced-here (c ∷ s) here)
    | inr later ↦
        rw later (IsReplaced-later c later (replace_first-IsReplaced s (ground (arith, h, later))))
  ]
