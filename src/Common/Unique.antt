-- ===== src/Common/Unique.antt =====
-- Lists of names without blanks and repetitions, as the program makes them in three places: each
-- name is trimmed, a blank one is skipped, and so is one that came before in any letter case.
use lightroom_sync.Common.Test.{Bool-cases, if◌then◌else◌}
use lightroom_sync.Common.Seq.{All}
use mathlib.Core.Path.{◌≡◌, sym, subst}
use mathlib.Core.Logic.{inl, inr}
use mathlib.Core.Bool.{Bool, true, false, ◌||◌}
use mathlib.Core.List.{List, [], ◌∷◌, map}
use native.Mathlib.Omega.{arith}
use lightroom_sync.Common.Text.{Text, text_eq, text_eq_refl, is_empty, trim_space, to_lower}
use lightroom_sync.Common.Sort.{All-map}

abbrev pub is_seen : Text → List Text → Bool
is_seen key [] = false
is_seen key (s ∷ seen) = text_eq s key || is_seen key seen

unfoldable pub unique_onto : List Text → List Text → List Text
unique_onto seen [] = []
unique_onto seen (item ∷ raw) =
    let name = trim_space item in
    let rest = unique_onto seen raw in
    let more = name ∷ unique_onto (to_lower name ∷ seen) raw in
    if is_empty name then rest else if is_seen (to_lower name) seen then rest else more

-- No key of the list is one that was seen, or twice in it.
abbrev pub Fresh : List Text → List Text → Type 0
Fresh seen [] = Unit
Fresh seen (name ∷ names) =
    ((is_empty name ≡ false) × (is_seen (to_lower name) seen ≡ false))
    × Fresh (to_lower name ∷ seen) names

pub unique_onto-Fresh : (seen raw : List Text) → Fresh seen (unique_onto seen raw)
unfolding unique_onto
unique_onto-Fresh seen [] = tt
unique_onto-Fresh seen (item ∷ raw) =
    ground
      (arith, unique_onto-Fresh seen raw, unique_onto-Fresh (to_lower (trim_space item) ∷ seen) raw)

-- An item that is not blank is in the list, in some spelling, or was seen.
abbrev pub Covered : List Text → List Text → Text → Type 0
Covered seen names item =
    (is_empty (trim_space item)
      || (is_seen (to_lower (trim_space item)) seen
          || is_seen (to_lower (trim_space item)) (map to_lower names)))
    ≡ true

module _ (seen : List Text) (item : Text) (raw : List Text) where
  unique_onto-skip :
      (is_empty (trim_space item) || is_seen (to_lower (trim_space item)) seen) ≡ true
      → unique_onto seen (item ∷ raw) ≡ unique_onto seen raw
  unfolding unique_onto
  unique_onto-skip h = ground (arith, h)

  unique_onto-take :
      (is_empty (trim_space item) || is_seen (to_lower (trim_space item)) seen) ≡ false
      → unique_onto seen (item ∷ raw)
        ≡ trim_space item ∷ unique_onto (to_lower (trim_space item) ∷ seen) raw
  unfolding unique_onto
  unique_onto-take h = ground (arith, h)

  Covered-skip :
      (names : List Text)
      → (is_empty (trim_space item) || is_seen (to_lower (trim_space item)) seen) ≡ true
      → Covered seen names item
  Covered-skip names h = ground (arith, h)

Covered-take :
    (seen names : List Text) (name other : Text)
    → Covered (to_lower name ∷ seen) names other
    → Covered seen (name ∷ names) other
Covered-take seen names name other h = ground (arith, h)

Covered-self : (seen names : List Text) (item : Text) → Covered seen (trim_space item ∷ names) item
Covered-self seen names item = ground (arith, text_eq_refl (to_lower (trim_space item)))

pub unique_onto-covers : (seen raw : List Text) → All (Covered seen (unique_onto seen raw)) raw
unique_onto-covers seen [] = tt
unique_onto-covers seen (item ∷ raw) =
    elim (Bool-cases (is_empty (trim_space item) || is_seen (to_lower (trim_space item)) seen)) [
      | inl skip ↦
          subst (λ t. All (Covered seen t) (item ∷ raw)) (sym (unique_onto-skip seen item raw skip))
            (Covered-skip seen item raw (unique_onto seen raw) skip, unique_onto-covers seen raw)
      | inr new ↦
          let rest : List Text = unique_onto (to_lower (trim_space item) ∷ seen) raw in
          subst (λ t. All (Covered seen t) (item ∷ raw)) (sym (unique_onto-take seen item raw new))
            (
              Covered-self seen rest item,
              All-map (Covered seen (trim_space item ∷ rest)) raw
                  (Covered-take seen rest (trim_space item))
                  (unique_onto-covers (to_lower (trim_space item) ∷ seen) raw),
            )
    ]
