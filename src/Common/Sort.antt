-- ===== src/Common/Sort.antt =====
-- `sort.Slice`, as an insertion sort: the program's orders leave no two elements unordered.
use mathlib.Core.Path.{◌≡◌, refl, subst}
use mathlib.Core.Logic.{inl, inr}
use mathlib.Core.Bool.{Bool, true, false}
use mathlib.Core.List.{List, [], ◌∷◌, ◌++◌}
use mathlib.Core.List.{Permᴰ}
use mathlib.Core.List.Permᴰ
use native.Mathlib.Omega.{arith}
use lightroom_sync.Common.Test.{if◌then◌else◌, Bool-cases}
use lightroom_sync.Common.Seq.{All, length}

module _ {ℓ} {A : Type ℓ} (before : A → A → Bool) where
  unfoldable pub place : A → List A → List A
  place x [] = x ∷ []
  place x (y ∷ ys) = let rest = place x ys in if before x y then x ∷ y ∷ ys else y ∷ rest

  unfoldable pub sort : List A → List A
  unfolding place
  sort [] = []
  sort (x ∷ xs) = place x (sort xs)

  -- Each element stands before all that follow, or is not after them.
  abbrev pub Sorted : List A → Type 0
  Sorted [] = Unit
  Sorted (x ∷ xs) = All (λ y. before y x ≡ false) xs × Sorted xs

  place-Perm : (x : A) (ys : List A) → Permᴰ (place x ys) (x ∷ ys)
  unfolding place
  place-Perm x [] = Permᴰ.refl (x ∷ [])
  place-Perm x (y ∷ ys) = elim (Bool-cases (before x y)) [
    | inl first ↦ rw first (Permᴰ.refl (x ∷ y ∷ ys))
    | inr later ↦ rw later (Permᴰ.trans (Permᴰ.cons refl (place-Perm x ys)) (Permᴰ.swap refl refl))
  ]

  pub sort-Perm : (xs : List A) → Permᴰ (sort xs) xs
  unfolding sort
  sort-Perm [] = Permᴰ.nil
  sort-Perm (x ∷ xs) = Permᴰ.trans (place-Perm x (sort xs)) (Permᴰ.cons refl (sort-Perm xs))

pub length-Perm {ℓ} : {A : Type ℓ} (xs ys : List A) → Permᴰ xs ys → length xs ≡ length ys
length-Perm [] [] Permᴰ.nil = refl
length-Perm (x ∷ xs) (y ∷ ys) (Permᴰ.cons e p) = omega (arith, length-Perm xs ys p)
length-Perm (x ∷ y ∷ xs) (z ∷ w ∷ ys) (Permᴰ.swap e f) = refl
length-Perm xs zs (Permᴰ.trans {l₂ = ys} p q) =
    omega (arith, length-Perm xs ys p, length-Perm ys zs q)

module _ {ℓ κ} {A : Type ℓ} (P : A → Type κ) where
  pub All-Perm : (xs ys : List A) → Permᴰ xs ys → All P xs → All P ys
  All-Perm [] [] Permᴰ.nil h = h
  All-Perm (x ∷ xs) (y ∷ ys) (Permᴰ.cons e p) h = (subst P e h.0, All-Perm xs ys p h.1)
  All-Perm (x ∷ y ∷ xs) (z ∷ w ∷ ys) (Permᴰ.swap e f) h = (subst P f h.1.0, (subst P e h.0, h.1.1))
  All-Perm xs zs (Permᴰ.trans {l₂ = ys} p q) h = All-Perm ys zs q (All-Perm xs ys p h)

  pub All-map {ι} : {Q : A → Type ι} (xs : List A) → ((a : A) → Q a → P a) → All Q xs → All P xs
  All-map [] f h = tt
  All-map (x ∷ xs) f h = (f x h.0, All-map xs f h.1)

-- A strict order whose `neither` is an equivalence.
pub record IsOrder {ℓ} {A : Type ℓ} (before : A → A → Bool) : Type ℓ where
  pub asym : (a b : A) → before a b ≡ true → before b a ≡ false
  pub negtrans : (a b c : A) → before b a ≡ false → before c b ≡ false → before c a ≡ false

module _ {ℓ} {A : Type ℓ} (before : A → A → Bool) (o : IsOrder before) where
  place-Sorted : (x : A) (ys : List A) → Sorted before ys → Sorted before (place before x ys)
  unfolding place
  place-Sorted x [] s = (tt, tt)
  place-Sorted x (y ∷ ys) s = elim (Bool-cases (before x y)) [
    | inl first ↦
        let xy = o.asym x y first in
        rw first
          ((xy, All-map (λ z. before z x ≡ false) ys (λ z zy. o.negtrans x y z xy zy) s.0), s)
    | inr later ↦ rw later (
      All-Perm (λ z. before z y ≡ false) (x ∷ ys) (place before x ys)
          (Permᴰ.symm (place-Perm before x ys)) (later, s.0),
      place-Sorted x ys s.1,
    )
  ]

  pub sort-Sorted : (xs : List A) → Sorted before (sort before xs)
  unfolding sort
  sort-Sorted [] = tt
  sort-Sorted (x ∷ xs) = place-Sorted x (sort before xs) (sort-Sorted xs)

  -- What stands in the first part is not after what stands in the second.
  pub Sorted-append :
      (xs ys : List A) → Sorted before (xs ++ ys) → All (λ x. All (λ y. before y x ≡ false) ys) xs
  Sorted-append [] ys s = tt
  Sorted-append (x ∷ xs) ys s = (All-suffix x xs ys s.0, Sorted-append xs ys s.1)
    where
      All-suffix :
          (x : A) (xs ys : List A)
          → All (λ y. before y x ≡ false) (xs ++ ys)
          → All (λ y. before y x ≡ false) ys
      All-suffix x [] ys h = h
      All-suffix x (_ ∷ xs) ys h = All-suffix x xs ys h.1
