-- ===== src/Common/Trim.antt =====
-- What `strings.TrimSpace` leaves alone.
use mathlib.Core.Path.{◌≡◌, refl, ap, sym, ◌∙◌, subst}
use mathlib.Core.Bool.{Bool, true, false}
use mathlib.Core.List.{[], ◌∷◌, ◌++◌, reverse, reverse-reverse, reverse-append}
use mathlib.Core.Logic.{inl, inr}
use native.Mathlib.Omega.{arith}
use lightroom_sync.Common.Test.{if◌then◌else◌, Bool-cases}
use lightroom_sync.Common.Text.{Text, is_space, trim_left, trim_space}

-- The text starts with a character that is not white space, or has none.
abbrev pub starts_solid : Text → Bool
starts_solid [] = true
starts_solid (c ∷ s) = if is_space c then false else true

trim_left-starts_solid : (s : Text) → starts_solid (trim_left s) ≡ true
unfolding trim_left
trim_left-starts_solid [] = refl
trim_left-starts_solid (c ∷ s) = ground (arith, trim_left-starts_solid s)

pub trim_left-solid : (s : Text) → starts_solid s ≡ true → trim_left s ≡ s
unfolding trim_left
trim_left-solid [] h = refl
trim_left-solid (c ∷ s) h = ground (arith, h)

-- What is dropped stands in front.
trim_left-suffix : (s : Text) → (p : Text) × (s ≡ p ++ trim_left s)
unfolding trim_left
trim_left-suffix [] = ([], refl)
trim_left-suffix (c ∷ s) =
    let (p, e) = trim_left-suffix s in
    elim (Bool-cases (is_space c)) [
      | inl h ↦ (c ∷ p, rw h (ap (λ t. c ∷ t) e))
      | inr h ↦ ([], rw h refl)
    ]

starts_solid-append : (r q : Text) → starts_solid (r ++ q) ≡ true → starts_solid r ≡ true
starts_solid-append [] q h = refl
starts_solid-append (c ∷ r) q h = h

-- Trimming the end of a text that starts with a solid character leaves it so.
trimmed_end-starts_solid :
    (u : Text) → starts_solid u ≡ true → starts_solid (reverse (trim_left (reverse u))) ≡ true
trimmed_end-starts_solid u h =
    let (p, e) = trim_left-suffix (reverse u) in
    starts_solid-append (reverse (trim_left (reverse u))) (reverse p) (
      subst (λ t. starts_solid t ≡ true)
        (sym (reverse-reverse u) ∙ ap reverse e ∙ reverse-append p (trim_left (reverse u))) h)

-- A text with solid ends is left as it is.
pub trim_space-solid :
    (s : Text) → starts_solid s ≡ true → starts_solid (reverse s) ≡ true → trim_space s ≡ s
unfolding trim_space
trim_space-solid s h k =
    rw (trim_left-solid s h) (rw (trim_left-solid (reverse s) k) (reverse-reverse s))

-- Trimming twice is trimming once.
pub trim_space_idem : (s : Text) → trim_space (trim_space s) ≡ trim_space s
unfolding trim_space
trim_space_idem s =
    let u = trim_left s in
    trim_space-solid (reverse (trim_left (reverse u)))
      (trimmed_end-starts_solid u (trim_left-starts_solid s))
      (rw (reverse-reverse (trim_left (reverse u))) (trim_left-starts_solid (reverse u)))

-- What is trimmed of a text with a solid start stands behind.
pub trim_space-prefix : (s : Text) → starts_solid s ≡ true → (q : Text) × (trim_space s ++ q ≡ s)
unfolding trim_space
trim_space-prefix s h =
    let (p, e) = trim_left-suffix (reverse s) in
    (
      reverse p,
      rw (trim_left-solid s h)
          (sym (sym (reverse-reverse s) ∙ ap reverse e ∙ reverse-append p (trim_left (reverse s)))),
    )
