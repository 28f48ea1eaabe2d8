-- ===== src/Agent/Cleanup/Numbers.antt =====
-- Which number the pattern of the agent's cleanup takes from a name.
use mathlib.Core.List.{append_assoc}
use lightroom_sync.Common.{
  ℕ, zero, suc, ◌+◌, ◌≡◌, refl, ap, ◌∙◌, subst, Bool, true, false, ◌&&◌, not, none, some, [], ◌∷◌,
  ◌++◌, length, length-append, take, drop, arith, ltb, leb, if◌then◌else◌,
}
use lightroom_sync.Common.Text.{Text, is_empty}
use lightroom_sync.Update.Version.{is_ascii_digit}
use lightroom_sync.Update.Token.{count_digits, match_groups, match_number}
use lightroom_sync.Agent.Cleanup.{number_at, last_number}

abbrev pub all_digits : Text → Bool
all_digits [] = true
all_digits (c ∷ s) = is_ascii_digit c && all_digits s

-- A text that neither goes on with a number nor has one.
pub record IsApart (s : Text) : Type 0 where
  pub no_digits : count_digits s ≡ 0
  pub no_group : match_groups 1 s ≡ (0, 0)
  pub no_number : last_number s ≡ none

count_digits-append :
    (y s : Text) → all_digits y ≡ true → count_digits s ≡ 0 → count_digits (y ++ s) ≡ length y
unfolding count_digits
count_digits-append [] s h k = k
count_digits-append (c ∷ y) s h k = ground (arith, count_digits-append y s, h, k)

drop-append : (y s : Text) → drop (length y) (y ++ s) ≡ s
drop-append [] s = refl
drop-append (c ∷ y) s = drop-append y s

take-append : (y s : Text) → take (length y) (y ++ s) ≡ y
take-append [] s = refl
take-append (c ∷ y) s = ap (λ t. c ∷ t) (take-append y s)

no_groups : (k : ℕ) (s : Text) → match_groups 1 s ≡ (0, 0) → match_groups k s ≡ (0, 0)
unfolding match_groups
no_groups zero s h = refl
no_groups (suc k) [] h = refl
no_groups (suc k) (c ∷ s) h = ground (arith, h)

abbrev pub is_number : Text → Bool
is_number s = not (is_empty s) && all_digits s

is_number-length : (y : Text) → is_number y ≡ true → ltb 0 (length y) ≡ true
is_number-length [] h = cc
is_number-length (c ∷ y) h = ground arith

pub is_number-all_digits : (y : Text) → is_number y ≡ true → all_digits y ≡ true
is_number-all_digits [] h = refl
is_number-all_digits (c ∷ y) h = h

group_step :
    (k : ℕ) (y s : Text)
    → is_number y ≡ true
    → count_digits s ≡ 0
    → match_groups (suc k) (b'.' ∷ y ++ s)
      ≡ (suc (match_groups k s).0, suc (length y) + (match_groups k s).1)
unfolding match_groups
group_step k y s h e =
    let n = count_digits-append y s (is_number-all_digits y h) e in
    rw n (rw (drop-append y s) (rw (is_number-length y h) refl))

no_both : (b : Bool) (n : ℕ) → (if b && false then some n else none) ≡ none
no_both true n = refl
no_both false n = refl

match_number_few :
    (y s : Text)
    → all_digits y ≡ true
    → count_digits s ≡ 0
    → leb 2 (match_groups 3 s).0 ≡ false
    → match_number (y ++ s) ≡ none
unfolding match_number
match_number_few y s h e few =
    rw (count_digits-append y s h e) (rw (drop-append y s) (rw few (no_both (ltb 0 (length y)) _)))

-- No number starts in digits that are followed by too few groups.
last_number-digits :
    (y s : Text)
    → all_digits y ≡ true
    → count_digits s ≡ 0
    → leb 2 (match_groups 3 s).0 ≡ false
    → last_number s ≡ none
    → last_number (y ++ s) ≡ none
unfolding last_number
last_number-digits [] s h e few k = k
last_number-digits (c ∷ y) s h e few k =
    rw (last_number-digits y s (ground (arith, h)) e few k)
      (rw (match_number_few (c ∷ y) s h e few, number_at) refl)

dot_count : (s : Text) → count_digits (b'.' ∷ s) ≡ 0
unfolding count_digits
dot_count s = refl

-- Nor at a dot.
last_number-dot : (s : Text) → last_number s ≡ none → last_number (b'.' ∷ s) ≡ none
unfolding last_number match_number count_digits
last_number-dot s k = rw k refl

last_number-append : (pre s t : Text) → last_number s ≡ some t → last_number (pre ++ s) ≡ some t
unfolding last_number
last_number-append [] s t h = h
last_number-append (c ∷ pre) s t h = rw (last_number-append pre s t h) refl

abbrev pub version_text : ℕ → Text → Text → Text
version_text c y z = c ∷ b'.' ∷ y ++ (b'.' ∷ z)

module _ (c : ℕ) (y z post : Text) (one : is_ascii_digit c ≡ true) (ny : is_number y ≡ true)
    (nz : is_number z ≡ true) (apart : IsApart post) where
  version_text-append : version_text c y z ++ post ≡ c ∷ b'.' ∷ y ++ (b'.' ∷ (z ++ post))
  version_text-append = rw append_assoc refl

  groups_z : (k : ℕ) → match_groups (suc k) (b'.' ∷ z ++ post) ≡ (1, suc (length z))
  groups_z k =
      group_step k z post nz apart.no_digits
      ∙ rw (no_groups k post apart.no_group) (ap (λ n. (1, n)) (omega arith))

  none_behind : last_number (b'.' ∷ y ++ (b'.' ∷ (z ++ post))) ≡ none
  none_behind = last_number-dot (y ++ (b'.' ∷ (z ++ post))) (
      last_number-digits y (b'.' ∷ (z ++ post)) (is_number-all_digits y ny) (dot_count (z ++ post))
        (rw (groups_z 2) refl)
        (last_number-dot (z ++ post) (
          last_number-digits z post (is_number-all_digits z nz) apart.no_digits
            (rw (no_groups 3 post apart.no_group) refl) apart.no_number)))

  groups_y :
      match_groups 3 (b'.' ∷ y ++ (b'.' ∷ (z ++ post))) ≡ (2, suc (length y) + suc (length z))
  groups_y = group_step 2 y (b'.' ∷ (z ++ post)) ny (dot_count (z ++ post)) ∙ rw (groups_z 1) refl

  one_digit : (s : Text) → count_digits (c ∷ b'.' ∷ s) ≡ 1
  unfolding count_digits
  one_digit s = rw one refl

  found : match_number (c ∷ b'.' ∷ y ++ (b'.' ∷ (z ++ post))) ≡ some (length (version_text c y z))
  unfolding match_number
  found =
      rw (one_digit (y ++ (b'.' ∷ (z ++ post))))
        (rw groups_y (ap some (omega (arith, length-append y (b'.' ∷ z)))))

  last_here : last_number (c ∷ b'.' ∷ y ++ (b'.' ∷ (z ++ post))) ≡ some (version_text c y z)
  unfolding last_number
  last_here = rw none_behind (
      rw (found, number_at)
        (ap some (
          subst (λ s. take (length (version_text c y z)) s ≡ version_text c y z) version_text-append
            (take-append (version_text c y z) post))))

  -- A number of three parts, the first of one digit, is the last one, whatever is before it.
  pub last_number-version_text :
      (pre : Text) → last_number (pre ++ (version_text c y z ++ post)) ≡ some (version_text c y z)
  last_number-version_text pre =
      last_number-append pre (version_text c y z ++ post) (version_text c y z)
        (rw version_text-append last_here)
