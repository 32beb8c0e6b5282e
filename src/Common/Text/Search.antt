-- ===== src/Common/Text/Search.antt =====
-- `contains` finds a part exactly where there is one.
use chain_ops.Common.{◌≡◌, refl, true, [], ◌∷◌, ◌++◌, arith, ap, inl, inr, Bool-cases}
use chain_ops.Common.Text.{Text, starts_with, contains}

-- The text has the part p somewhere.
abbrev pub Embeds : Text → Text → Type 0
Embeds s p = (before : Text) × (after : Text) × (s ≡ before ++ (p ++ after))

starts_with_sound : (p s : Text) → starts_with p s ≡ true → (after : Text) × (s ≡ p ++ after)
unfolding starts_with
starts_with_sound [] s h = (s, refl)
starts_with_sound (a ∷ p) [] h = cc
starts_with_sound (a ∷ p) (c ∷ s) h = elim (Bool-cases (starts_with p s)) [
  | inl rest ↦ let (after, e) = starts_with_sound p s rest in (after, ground (arith, e))
  | inr no_rest ↦ ground arith
]

starts_with_complete : (p after : Text) → starts_with p (p ++ after) ≡ true
unfolding starts_with
starts_with_complete [] after = refl
starts_with_complete (a ∷ p) after = ground (arith, starts_with_complete p after)

pub contains_sound : (s p : Text) → contains s p ≡ true → Embeds s p
unfolding contains
contains_sound [] p h = let (after, e) = starts_with_sound p [] h in ([], after, e)
contains_sound (c ∷ s) p h = elim (Bool-cases (starts_with p (c ∷ s))) [
  | inl here ↦ let (after, e) = starts_with_sound p (c ∷ s) here in ([], after, e)
  | inr not_here ↦
      let (before, after, e) = contains_sound s p (rw not_here at h) in
      (c ∷ before, after, ap (λ r. c ∷ r) e)
]

contains-append : (before p after : Text) → contains (before ++ (p ++ after)) p ≡ true
unfolding contains starts_with
contains-append [] [] [] = refl
contains-append [] [] (a ∷ after) = refl
contains-append [] (a ∷ p) after = ground (arith, starts_with_complete p after)
contains-append (b ∷ before) p after = ground (arith, contains-append before p after)

pub contains_complete : (s p : Text) → Embeds s p → contains s p ≡ true
contains_complete s p (before, after, e) = rw e (contains-append before p after)
