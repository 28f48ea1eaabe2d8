-- ===== src/Preset/Categories/Choice.antt =====
-- Which categories a preset cycle works on.
use lightroom_sync.Common.{
  ◌≡◌, refl, sym, subst, Bool, true, false, some, List, [], ◌∷◌, arith, All, Bool-cases,
  Option-cases, inl, inr,
}
use lightroom_sync.Common.Text.{Text, lit, text_eq, lower_rune, is_empty, trim_space, to_lower}
use lightroom_sync.Common.Trim.{trim_space_idem}
use lightroom_sync.Common.Unique.{
  unique_onto, Fresh, Covered, unique_onto-Fresh, unique_onto-covers,
}
use lightroom_sync.Preset.Categories.{
  Start, begin_sync, discover_preset_categories, resolve_preset_categories, filled_names, or_else,
  unique_strings_ordered, default_preset_categories,
}

abbrev pub is_none : List Text → Bool
is_none [] = true
is_none (c ∷ cs) = false

-- What a cycle's list of categories is: some names, none blank or given twice in any spelling, with
-- each configured name that is not blank among them in some spelling.
pub record IsChoice (configured cs : List Text) : Type 0 where
  pub is_filled : is_none cs ≡ false
  pub is_fresh : Fresh [] cs
  pub has_configured : All (Covered [] cs) (filled_names configured)

or_else-Fresh : (xs ys : List Text) → Fresh [] xs → Fresh [] ys → Fresh [] (or_else xs ys)
or_else-Fresh [] ys hx hy = hy
or_else-Fresh (x ∷ xs) ys hx hy = hx

or_else-filled : (xs ys : List Text) → is_none ys ≡ false → is_none (or_else xs ys) ≡ false
or_else-filled [] ys h = h
or_else-filled (x ∷ xs) ys h = refl

default-Fresh : Fresh [] default_preset_categories
unfolding lit text_eq to_lower lower_rune
default-Fresh = ((refl, refl), ((refl, refl), ((refl, refl), ((refl, refl), ((refl, refl), tt)))))

filled_names-filled :
    (items : List Text) → All (λ t. is_empty (trim_space t) ≡ false) (filled_names items)
unfolding filled_names
filled_names-filled [] = tt
filled_names-filled (item ∷ items) = elim (Bool-cases (is_empty (trim_space item))) [
  | inl e ↦ simp e (filled_names-filled items)
  | inr e ↦ simp e (rw (trim_space_idem item) e, filled_names-filled items)
]

-- A list that is covered by nothing has only blank names.
Covered-nil :
    (items : List Text)
    → All (λ t. is_empty (trim_space t) ≡ false) items
    → All (Covered [] []) items
    → items ≡ []
Covered-nil [] h k = refl
Covered-nil (t ∷ items) h k = absurd (ground (arith, h.0, k.0))

-- Of configured names the unique ones are taken, if there is one.
or_else-covers :
    (u rest items : List Text)
    → All (λ t. is_empty (trim_space t) ≡ false) items
    → All (Covered [] u) items
    → All (Covered [] (or_else u rest)) items
or_else-covers [] rest items h k =
    subst (λ t. All (Covered [] rest) t) (sym (Covered-nil items h k)) tt
or_else-covers (x ∷ u) rest items h k = k

resolve-IsChoice :
    (configured discovered : List Text)
    → IsChoice configured (resolve_preset_categories configured discovered)
unfolding resolve_preset_categories unique_strings_ordered
resolve-IsChoice configured discovered =
    let own = filled_names configured in
    let others = or_else (unique_onto [] discovered) default_preset_categories in
    record {
      is_filled =
          or_else-filled (unique_onto [] own) others
            (or_else-filled (unique_onto [] discovered) default_preset_categories refl);
      is_fresh = or_else-Fresh (unique_onto [] own) others (unique_onto-Fresh [] own) (
          or_else-Fresh (unique_onto [] discovered) default_preset_categories
            (unique_onto-Fresh [] discovered) default-Fresh);
      has_configured =
          or_else-covers (unique_onto [] own) others own (filled_names-filled configured)
            (unique_onto-covers [] own);
    }

-- Where Sync gets to its loops, it does so with categories of that kind.
pub begin_sync-IsChoice :
    (s : Start) (cs : List Text) → begin_sync s ≡ some cs → IsChoice s.configured cs
unfolding begin_sync
begin_sync-IsChoice s cs h =
    elim (Option-cases (discover_preset_categories s.local_root s.listing)) [
      | inl e ↦ absurd (ground (arith, e, h))
      | inr (found, e) ↦
          subst (λ t. IsChoice s.configured t) (ground (arith, e, h))
            (resolve-IsChoice s.configured found)
    ]
