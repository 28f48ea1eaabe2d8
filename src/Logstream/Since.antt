-- ===== src/Logstream/Since.antt =====
-- What a reader of the log buffer gets: the meaning of `Since`, and polling by its cursor.
use lightroom_sync.Common.{
  ℕ, zero, suc, ◌+◌, ◌-◌, ◌≤◌, ◌<◌, ◌≡◌, refl, sym, ◌∙◌, ap, List, [], ◌∷◌, ◌++◌, arith, length,
  take, drop, min, pos→ne, take_add, subst, leb→le, leb→lt, le→leb, some, tests, inl, inr,
  Bool-cases, if◌then◌else◌, leb, length-drop, take_nil, take-min, drop_all,
}
use lightroom_sync.Common.Int64.{two63, le64_small, lt64_small}
use lightroom_sync.Logstream.{
  Entry, Buffer, start_after, since, last_id, effective_limit, end_index, window,
}
use lightroom_sync.Logstream.Invariant.{IdsFrom, IsWell}

-- The entries with an ID above the cursor.
pub newer : ℕ → List Entry → List Entry
newer after [] = []
newer after (e ∷ es) = let rest = newer after es in if leb e.id after then rest else e ∷ rest

newer_all : (after n : ℕ) (es : List Entry) → IdsFrom n es → after < n → newer after es ≡ es
unfolding newer
newer_all after n [] h l = refl
newer_all after n (e ∷ es) h l = ground (arith, newer_all after (suc n) es h.1)

start_after_le : (after : ℕ) (es : List Entry) → start_after after es ≤ length es
unfolding start_after
start_after_le after [] = omega arith
start_after_le after (e ∷ es) = ground (arith, start_after_le after es)

-- The loop of `Since` stops at the first newer entry; as the IDs rise, all behind it are newer.
drop-start_after :
    (after n : ℕ) (es : List Entry)
    → IdsFrom n es
    → n + length es ≤ two63
    → after < two63
    → drop (start_after after es) es ≡ newer after es
unfolding start_after newer
drop-start_after after n [] h l a = refl
drop-start_after after n (e ∷ es) h l a = elim (Bool-cases (leb e.id after)) [
  | inl old ↦
      rw (le64_small e.id after (omega (arith, h)) a, old)
        (drop-start_after after (suc n) es h.1 (omega arith) a)
  | inr new ↦
      rw (le64_small e.id after (omega (arith, h)) a, new)
        (ap (λ t. e ∷ t) (sym (newer_all after (suc n) es h.1 (omega (tests, h, new)))))
]

effective_limit_lem : (limit : ℕ) → 0 < limit → limit < two63 → effective_limit limit ≡ limit
unfolding effective_limit
effective_limit_lem limit p h = ground arith

end_index_lem :
    (start limit len : ℕ)
    → start ≤ len
    → limit + len < two63
    → end_index start limit len ≡ min (start + limit) len
unfolding end_index
end_index_lem start limit len h k = ground arith

-- The slice, when nothing overflows.
window_lem :
    (after start limit end : ℕ) (es : List Entry)
    → start < length es
    → limit + length es < two63
    → end ≡ min (start + limit) (length es)
    → window after start end es
      ≡ some (take limit (drop start es), last_id after (take limit (drop start es)))
unfolding window
window_lem after start limit end es h k q =
    rw
      (
        lt64_small end start (omega arith) (omega arith),
        take-min limit (drop start es) (end - start) (omega (arith, length-drop start es)),
      )
      (ground arith)

module _ (b : Buffer) (w : IsWell b) where
  -- On a well-formed buffer `Since` returns the entries with an ID above the cursor, in order and
  -- at most `limit` of them, with the ID of the last one as the new cursor, and does not panic,
  -- for a positive limit that does not overflow when the length is added.
  pub since-newer :
      (after limit : ℕ)
      → after < two63
      → 0 < limit
      → limit + length b.entries < two63
      → since after limit b
        ≡ some
            (take limit (newer after b.entries), last_id after (take limit (newer after b.entries)))
  unfolding since
  since-newer after limit a l r =
      let start = start_after after b.entries in
      let found : drop start b.entries ≡ newer after b.entries =
        drop-start_after after _ b.entries w.ids (omega (arith, w)) a in
      elim (Bool-cases (leb (length b.entries) start)) [
        | inl none_left ↦
            let no_more : newer after b.entries ≡ [] =
              sym found ∙ drop_all start b.entries (leb→le _ _ none_left) in
            rw (no_more, take_nil)
              (ground
                (arith, w, le64_small (length b.entries) start, start_after_le after b.entries))
        | inr some_left ↦
            let inside = leb→lt _ _ some_left in
            rw
              (
                pos→ne _ _ inside,
                le64_small (length b.entries) start (omega (arith, w)) (omega (arith, w, inside)),
                some_left,
                effective_limit_lem limit l (omega arith),
                ← found,
              )
              (window_lem after start limit _ b.entries inside r
                (end_index_lem start limit _ (omega (arith, inside)) r))
      ]

pub last_id-ge : (d l n : ℕ) (xs : List Entry) → IdsFrom n xs → d < n → d ≤ last_id d (take l xs)
last_id-ge d zero n xs h k = omega arith
last_id-ge d (suc l) n [] h k = omega arith
last_id-ge d (suc l) n (x ∷ xs) h k =
    omega (arith, h.0, last_id-ge x.id l (suc n) xs h.1 (omega (arith, h.0)))

-- Behind the last ID of the first `l` entries stand the others.
newer-last_id :
    (d l n : ℕ) (xs : List Entry)
    → IdsFrom n xs
    → d < n
    → newer (last_id d (take l xs)) xs ≡ drop l xs
unfolding newer
newer-last_id d zero n xs h k = newer_all d n xs h k
newer-last_id d (suc l) n [] h k = refl
newer-last_id d (suc l) n (x ∷ xs) h k =
    let up : x.id < suc n = omega (arith, h.0) in
    rw (le→leb _ _ (last_id-ge x.id l (suc n) xs h.1 up)) (newer-last_id x.id l (suc n) xs h.1 up)

newer-newer : (after c : ℕ) (es : List Entry) → after ≤ c → newer c (newer after es) ≡ newer c es
unfolding newer
newer-newer after c [] h = refl
newer-newer after c (e ∷ es) h = ground (arith, newer-newer after c es)

-- The newer entries have rising IDs above the cursor, below any bound on those of the list.
pub newer-IdsFrom :
    (after n k : ℕ) (es : List Entry)
    → IdsFrom n es
    → n + length es ≤ k
    → after < k
    → (m : ℕ) × (after < m) × (m + length (newer after es) ≤ k) × IdsFrom m (newer after es)
unfolding newer
newer-IdsFrom after n k [] h l a = (suc after, omega arith, omega arith, tt)
newer-IdsFrom after n k (e ∷ es) h l a = elim (Bool-cases (leb e.id after)) [
  | inl old ↦ rw old (newer-IdsFrom after (suc n) k es h.1 (omega arith) a)
  | inr new ↦
      let all : newer after es ≡ es = newer_all after (suc n) es h.1 (omega (tests, h.0, new)) in
      (n, omega (tests, h.0, new), rw (new, all) l, rw (new, all) h)
]

last_id-lt :
    (d l n k : ℕ) (xs : List Entry)
    → IdsFrom n xs
    → d < k
    → n + length xs ≤ k
    → last_id d (take l xs) < k
last_id-lt d zero n k xs h a b = a
last_id-lt d (suc l) n k [] h a b = a
last_id-lt d (suc l) n k (x ∷ xs) h a b =
    last_id-lt x.id l (suc n) k xs h.1 (omega (arith, h.0)) (omega arith)

last_id-append : (d : ℕ) (xs ys : List Entry) → last_id d (xs ++ ys) ≡ last_id (last_id d xs) ys
last_id-append d [] ys = refl
last_id-append d (x ∷ xs) ys = last_id-append x.id xs ys

module _ (b : Buffer) (w : IsWell b) (after l m : ℕ) where
  -- Polling loses nothing and repeats nothing: the entries of one read, with those of a second read
  -- that starts from the cursor of the first, are those of a single read of both sizes together.
  pub since_resume :
      after < two63
      → 0 < l
      → 0 < m
      → l + m + length b.entries < two63
      → (first : List Entry) (cursor : ℕ) → since after l b ≡ some (first, cursor)
      → ((second : List Entry) × (end : ℕ) × (since cursor m b ≡ some (second, end))
          × (since after (l + m) b ≡ some (first ++ second, end)))
  since_resume a pl pm r first cursor h =
      let found : List Entry = newer after b.entries in
      let (n, up, top, ids) = newer-IdsFrom after _ two63 b.entries w.ids (omega (arith, w)) a in
      let read = since-newer b w after l a pl (omega arith) in
      let stop : ℕ = last_id after (take l found) in
      let below = last_id-lt after l n two63 found ids a top in
      let rest : newer stop b.entries ≡ drop l found =
        sym (newer-newer after stop b.entries (last_id-ge after l n found ids up))
        ∙ newer-last_id after l n found ids up in
      let again : since stop m b
          ≡ some (take m (drop l found), last_id stop (take m (drop l found))) =
        subst (λ t. since stop m b ≡ some (take m t, last_id stop (take m t))) rest
          (since-newer b w stop m below pm (omega arith)) in
      let both : since after (l + m) b
          ≡ some (take l found ++ take m (drop l found), last_id stop (take m (drop l found))) =
        since-newer b w after (l + m) a (omega arith) r
        ∙ rw (← take_add l m found, last_id-append) in
      (
        take m (drop l found),
        last_id stop (take m (drop l found)),
        cc (again, read, h),
        cc (both, read, h),
      )
