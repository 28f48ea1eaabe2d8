-- ===== src/Common/Text.antt =====
-- Go strings as lists of code points, with what the program uses of the package strings.
-- Letters are folded in the ASCII range only; white space is all of Unicode's.
use Prim.Native.Nat.{ℕ, zero, suc, ◌+◌, ◌-◌, ◌%◌, ◌/◌}
use Prim.Native.Char.{code}
use Prim.Native.String.{String}
use mathlib.Core.Path.{◌≡◌, refl}
use mathlib.Core.Logic.{◌↔◌}
use mathlib.Core.Bool.{Bool, true, false, ◌&&◌, ◌||◌}
use mathlib.Core.List.{List, [], ◌∷◌, map, reverse}
use native.Mathlib.Omega.{arith}
use lightroom_sync.Common.Test.{leb, ltb, ◌==◌, if◌then◌else◌}

abbrev pub Text : Type 0
Text = List ℕ

-- A literal of the source.
unfoldable pub lit : String → Text
lit String.[] = []
lit (String.◌∷◌ c s) = code c ∷ lit s

unfoldable pub text_eq : Text → Text → Bool
text_eq [] [] = true
text_eq [] (y ∷ ys) = false
text_eq (x ∷ xs) [] = false
text_eq (x ∷ xs) (y ∷ ys) = x == y && text_eq xs ys

pub text_eq_iff : (s t : Text) → (text_eq s t ≡ true) ↔ (s ≡ t)
unfolding text_eq
text_eq_iff [] [] = (λ _. refl, λ _. refl)
text_eq_iff [] (y ∷ ys) = (λ h. cc, λ h. cc)
text_eq_iff (x ∷ xs) [] = (λ h. cc, λ h. cc)
text_eq_iff (x ∷ xs) (y ∷ ys) =
    (λ h. ground (arith, text_eq_iff xs ys), λ h. ground (arith, text_eq_iff xs ys))

pub text_eq_refl : (s : Text) → text_eq s s ≡ true
text_eq_refl s = (text_eq_iff s s).1 refl

pub text_eq-false_symm : (s t : Text) → text_eq s t ≡ false → text_eq t s ≡ false
text_eq-false_symm s t h = ground (arith, text_eq_iff s t, text_eq_iff t s)

abbrev pub is_empty : Text → Bool
is_empty [] = true
is_empty (_ ∷ _) = false

-- `strings.HasPrefix(s, p)`.
unfoldable pub has_prefix : Text → Text → Bool
has_prefix s [] = true
has_prefix [] (y ∷ ys) = false
has_prefix (x ∷ xs) (y ∷ ys) = x == y && has_prefix xs ys

-- `strings.Contains(s, p)`.
unfoldable pub contains_text : Text → Text → Bool
unfolding has_prefix
contains_text [] p = has_prefix [] p
contains_text (x ∷ xs) p = has_prefix (x ∷ xs) p || contains_text xs p

-- `unicode.IsSpace`.
unfoldable pub is_space : ℕ → Bool
is_space c =
    (leb 9 c && leb c 13)
    || c == 0x20
    || c == 0x85
    || c == 0xa0
    || c == 0x1680
    || (leb 0x2000 c && leb c 0x200a)
    || c == 0x2028
    || c == 0x2029
    || c == 0x202f
    || c == 0x205f
    || c == 0x3000

unfoldable pub trim_left : Text → Text
trim_left [] = []
trim_left (c ∷ s) = let rest = trim_left s in if is_space c then rest else c ∷ s

-- `strings.TrimSpace`.
unfoldable pub trim_space : Text → Text
unfolding trim_left is_space
trim_space s = reverse (trim_left (reverse (trim_left s)))

unfoldable pub lower_rune : ℕ → ℕ
lower_rune c = if leb b'A' c && leb c b'Z' then c + 32 else c

unfoldable pub upper_rune : ℕ → ℕ
upper_rune c = if leb b'a' c && leb c b'z' then c - 32 else c

-- `strings.ToLower` and `strings.ToUpper`.
unfoldable pub to_lower : Text → Text
unfolding lower_rune
to_lower s = map lower_rune s

unfoldable pub to_upper : Text → Text
unfolding upper_rune
to_upper s = map upper_rune s

-- `strings.EqualFold`.
unfoldable pub equal_fold : Text → Text → Bool
unfolding to_lower
equal_fold s t = text_eq (to_lower s) (to_lower t)

-- `strings.Split(s, sep)` at a separator of one character: never an empty list.
unfoldable pub split_onto : ℕ → Text → Text → List Text
split_onto sep word [] = reverse word ∷ []
split_onto sep word (c ∷ s) =
    let cut = reverse word ∷ split_onto sep [] s in
    let go = split_onto sep (c ∷ word) s in if c == sep then cut else go

unfoldable pub split : ℕ → Text → List Text
unfolding split_onto
split sep s = split_onto sep [] s

-- `filepath.Ext`, on `/`: from the last dot of the last part on.
unfoldable pub ext_onto : Text → Text → Text
ext_onto ext [] = ext
ext_onto ext (c ∷ s) = ext_onto (if c == b'.' then c ∷ s else if c == b'/' then [] else ext) s

unfoldable pub ext : Text → Text
unfolding ext_onto
ext path = ext_onto [] path

-- The order of Go strings: that of their bytes is that of their code points.
unfoldable pub text_ltb : Text → Text → Bool
text_ltb [] [] = false
text_ltb [] (y ∷ ys) = true
text_ltb (x ∷ xs) [] = false
text_ltb (x ∷ xs) (y ∷ ys) = ltb x y || (x == y && text_ltb xs ys)

pub text_ltb_asym : (s t : Text) → text_ltb s t ≡ true → text_ltb t s ≡ false
unfolding text_ltb
text_ltb_asym [] [] h = refl
text_ltb_asym [] (y ∷ ys) h = refl
text_ltb_asym (x ∷ xs) [] h = cc
text_ltb_asym (x ∷ xs) (y ∷ ys) h = ground (arith, text_ltb_asym xs ys)

pub text_ltb_negtrans :
    (s t u : Text) → text_ltb t s ≡ false → text_ltb u t ≡ false → text_ltb u s ≡ false
unfolding text_ltb
text_ltb_negtrans s t [] h k = ground arith
text_ltb_negtrans [] [] (z ∷ u) h k = refl
text_ltb_negtrans [] (y ∷ t) (z ∷ u) h k = cc
text_ltb_negtrans (x ∷ s) [] (z ∷ u) h k = cc
text_ltb_negtrans (x ∷ s) (y ∷ t) (z ∷ u) h k = ground (arith, text_ltb_negtrans s t u)

-- `strings.ReplaceAll(s, from, to)` of one character by one character.
unfoldable pub replace_rune : ℕ → ℕ → Text → Text
replace_rune from to s = map (λ c. if c == from then to else c) s

-- `%d` of a non-negative number. Dividing by ten `n + 1` times at most reaches 0.
unfoldable pub decimal_onto : ℕ → ℕ → Text → Text
decimal_onto zero n s = s
decimal_onto (suc fuel) n s =
    let digit = b'0' + n % 10 in
    let rest = decimal_onto fuel (n / 10) (digit ∷ s) in if n / 10 == 0 then digit ∷ s else rest

unfoldable pub decimal : ℕ → Text
unfolding decimal_onto
decimal n = decimal_onto (suc n) n []

decimal_run : decimal 1207 ≡ lit "1207"
unfolding decimal lit
decimal_run = refl
