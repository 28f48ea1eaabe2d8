-- ===== src/Update/Checker/Choice.antt =====
-- The choice of the update checker (selectReleaseForApp in internal/update/checker.go).
use mathlib.Core.List.{Memᴰ}
use mathlib.Core.List.Memᴰ
use mathlib.Core.List.Memᴰ.{head, tail}
use lightroom_sync.Common.{
  ℕ, ◌≡◌, refl, ◌∙◌, subst, Bool, true, false, not, none, some, List, [], ◌∷◌, ◌⊎◌, inl, inr, All,
  Bool-cases,
}
use lightroom_sync.Common.Text.{Text, is_empty}
use lightroom_sync.Update.Token.{is_newer}
use lightroom_sync.Update.Token.Newer.{AtMost, newer_empty, AtMost-refl, AtMost-newer, AtMost-first}
use lightroom_sync.Update.Checker.{
  ReleaseApiResponse, Best, release_version, release_matches_app, normalize_app_key, better_release,
  consider, consider_all, select_release_for_app,
}

-- The release `s` is a match among `rs`, and no match among them has a newer version.
pub record IsNewest (is_other_digit : ℕ → Bool) (app_name : Text) (rs : List ReleaseApiResponse)
    (s : ReleaseApiResponse) : Type 0 where
  pub is_listed : Memᴰ s rs
  pub is_match : release_matches_app s (normalize_app_key app_name) ≡ true
  pub none_newer :
      All
        (λ r.
          release_matches_app r (normalize_app_key app_name) ≡ true
          → AtMost is_other_digit
              (release_version is_other_digit app_name r)
              (release_version is_other_digit app_name s))
        rs

module _ (is_other_digit : ℕ → Bool) where
  -- What the loop keeps of its best release.
  record IsWell (app_name : Text) (b : Best is_other_digit) : Type 0 where
    parsed_right : b.is_parsed ≡ not (is_empty b.version)
    version_right : b.version ≡ release_version is_other_digit app_name b.release
    matches : release_matches_app b.release (normalize_app_key app_name) ≡ true

  -- What a round makes of the best release: it is kept, or the other one takes its place.
  better_release-cases :
      (b : Best is_other_digit) (r : ReleaseApiResponse) (v : Text)
      → b.is_parsed ≡ not (is_empty b.version)
      → ((better_release is_other_digit b r v ≡ b) × AtMost is_other_digit v b.version)
        ⊎ ((better_release is_other_digit b r v
              ≡ record { release = r; version = v; is_parsed = true })
            × ((is_empty v ≡ false)
                × ((is_empty b.version ≡ true) ⊎ (is_newer is_other_digit v b.version ≡ true))))
  unfolding better_release
  better_release-cases b r v p = elim (Bool-cases (is_empty v)) [
    | inl e ↦ inl (simp e, (newer_empty is_other_digit v b.version e, λ t. e))
    | inr e ↦ elim (Bool-cases (is_empty b.version)) [
      | inl f ↦ inr (simp (e, p, f), (e, inl f))
      | inr f ↦ elim (Bool-cases (is_newer is_other_digit v b.version)) [
        | inl n ↦ inr (simp (e, p, f, n), (e, inr n))
        | inr n ↦ inl (simp (e, p, f, n), (n, λ t. absurd cc))
      ]
    ]
  ]

  module _ (app_name : Text) where
    abbrev version_of_release : ReleaseApiResponse → Text
    version_of_release r = release_version is_other_digit app_name r

    abbrev Below : Text → ReleaseApiResponse → Type 0
    Below v r =
        release_matches_app r (normalize_app_key app_name) ≡ true
        → AtMost is_other_digit (version_of_release r) v

    -- The best release `c` behind rounds for `rs` that start with `b`.
    record IsAfter (b : Best is_other_digit) (rs : List ReleaseApiResponse)
        (c : Best is_other_digit) : Type 0 where
      well : IsWell app_name c
      rises : (w : Text) → AtMost is_other_digit w b.version → AtMost is_other_digit w c.version
      all_below : All (Below c.version) rs
      from_list : (c.release ≡ b.release) ⊎ Memᴰ c.release rs

    -- One round that takes the place of `b` or keeps it.
    round :
        (b : Best is_other_digit) (r : ReleaseApiResponse)
        → IsWell app_name b
        → release_matches_app r (normalize_app_key app_name) ≡ true
        → IsAfter b (r ∷ []) (better_release is_other_digit b r (version_of_release r))
    round b r well m = elim (better_release-cases b r (version_of_release r) well.parsed_right) [
      | inl (same, below) ↦ rw same (record {
        well = well;
        rises = λ w h. h;
        all_below = ((λ _. below), tt);
        from_list = inl refl;
      })
      | inr (new, (filled, why)) ↦ rw new (record {
        well = record { parsed_right = rw filled refl; version_right = refl; matches = m };
        rises = λ w h. elim why [
          | inl f ↦ AtMost-first is_other_digit w b.version (version_of_release r) h f filled
          | inr n ↦ AtMost-newer is_other_digit w b.version (version_of_release r) h n filled
        ];
        all_below = ((λ _. AtMost-refl is_other_digit (version_of_release r)), tt);
        from_list = inr (head refl);
      })
    ]

    -- A round, and the rounds behind it.
    then-IsAfter :
        {b b' c : Best is_other_digit} {r : ReleaseApiResponse} {rs : List ReleaseApiResponse}
        → IsAfter b (r ∷ []) b'
        → IsAfter b' rs c
        → IsAfter b (r ∷ rs) c
    then-IsAfter one more = record {
      well = more.well;
      rises = λ w h. more.rises w (one.rises w h);
      all_below = ((λ m. more.rises _ (one.all_below.0 m)), more.all_below);
      from_list = elim more.from_list [
        | inr listed ↦ inr (tail listed)
        | inl same ↦ elim one.from_list [
          | inl e ↦ inl (same ∙ e)
          | inr listed ↦ inr (Memᴰ.cast same (Memᴰ.append_left _ listed))
        ]
      ];
    }

    skip_round :
        {b : Best is_other_digit} {r : ReleaseApiResponse}
        → IsWell app_name b
        → release_matches_app r (normalize_app_key app_name) ≡ false
        → IsAfter b (r ∷ []) b
    skip_round well m = record {
      well = well;
      rises = λ w h. h;
      all_below = ((λ t. absurd cc), tt);
      from_list = inl refl;
    }

    consider_all-some :
        (rs : List ReleaseApiResponse) (b : Best is_other_digit)
        → IsWell app_name b
        → (c : Best is_other_digit) × ((consider_all is_other_digit app_name (some b) rs ≡ some c)
            × IsAfter b rs c)
    unfolding consider_all consider
    consider_all-some [] b well =
        (b, (refl, record { well = well; rises = λ w h. h; all_below = tt; from_list = inl refl }))
    consider_all-some (r ∷ rs) b well =
        elim (Bool-cases (release_matches_app r (normalize_app_key app_name))) [
          | inl m ↦
              let one = round b r well m in
              let (c, (e, more)) = consider_all-some rs _ one.well in
              (c, (rw m e, then-IsAfter one more))
          | inr m ↦
              let (c, (e, more)) = consider_all-some rs b well in
              (c, (rw m e, then-IsAfter (skip_round well m) more))
        ]

    consider_all-none :
        (rs : List ReleaseApiResponse)
        → ((consider_all is_other_digit app_name none rs ≡ none)
            × All (λ r. release_matches_app r (normalize_app_key app_name) ≡ false) rs)
          ⊎ ((c : Best is_other_digit) × ((consider_all is_other_digit app_name none rs ≡ some c)
                × (IsWell app_name c × (Memᴰ c.release rs × All (Below c.version) rs))))
    unfolding consider_all consider
    consider_all-none [] = inl (refl, tt)
    consider_all-none (r ∷ rs) =
        elim (Bool-cases (release_matches_app r (normalize_app_key app_name))) [
          | inl m ↦
              let v = version_of_release r in
              let best : Best is_other_digit = record {
                release = r;
                version = v;
                is_parsed = not (is_empty v);
              } in
              let first : IsWell app_name best = record {
                parsed_right = refl;
                version_right = refl;
                matches = m;
              } in
              let (c, (e, more)) = consider_all-some rs best first in
              let listed : Memᴰ c.release (r ∷ rs) = elim more.from_list [
                | inl same ↦ head same
                | inr later ↦ tail later
              ] in
              let below : Below c.version r = λ _. more.rises v (AtMost-refl is_other_digit v) in
              inr (c, (rw m e, (more.well, (listed, (below, more.all_below)))))
          | inr m ↦ elim (consider_all-none rs) [
            | inl (e, none_match) ↦ inl (rw m e, (m, none_match))
            | inr (c, (e, (well, (listed, below)))) ↦
                inr (c, (rw m e, (well, (tail listed, ((λ t. absurd cc), below)))))
          ]
        ]

    -- The selection from releases of which there is one: where the application's name is found in
    -- none of them it is the first one, and otherwise it is one with the name, such that no other one
    -- with the name has a version that CompareVersions puts after the selected one's.
    pub select_release_for_app-IsNewest :
        (r : ReleaseApiResponse) (rs : List ReleaseApiResponse)
        → (s : ReleaseApiResponse) × ((select_release_for_app is_other_digit (r ∷ rs) app_name
              ≡ some s)
            × (((s ≡ r)
                  × All (λ t. release_matches_app t (normalize_app_key app_name) ≡ false) (r ∷ rs))
                ⊎ IsNewest is_other_digit app_name (r ∷ rs) s))
    unfolding select_release_for_app
    select_release_for_app-IsNewest r rs = elim (consider_all-none (r ∷ rs)) [
      | inl (e, none_match) ↦ (r, (rw (e, select_release_for_app) refl, inl (refl, none_match)))
      | inr (c, (e, (well, (listed, below)))) ↦ (
        c.release,
        (
          rw (e, select_release_for_app) refl,
          inr (record {
            is_listed = listed;
            is_match = well.matches;
            none_newer = subst (λ v. All (Below v) (r ∷ rs)) well.version_right below;
          }),
        ),
      )
    ]
