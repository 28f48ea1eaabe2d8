-- ===== src/Agent/Logs.antt =====
-- What a subscriber of the log stream gets, and what a filter keeps from it for ever.
use lightroom_sync.Common.{
  ℕ, zero, suc, ◌+◌, ◌-◌, ◌≤◌, ◌<◌, ◌≡◌, refl, sym, ap, ◌∙◌, some, List, [], ◌∷◌, arith, length,
  take, drop, All, All-drop, if◌then◌else◌,
}
use lightroom_sync.Common.Int64.{two63, two64}
use lightroom_sync.Common.Text.{Text, is_empty}
use lightroom_sync.Logstream.{Entry, Buffer, since, last_id}
use lightroom_sync.Logstream.Invariant.{IsWell, IdsFrom}
use lightroom_sync.Logstream.Since.{newer, since-newer, newer-IdsFrom, last_id-ge}
use lightroom_sync.Agent.{
  normalize_log_level_filter, stream_limit, passes, fill_stream, stream_answer, subscribe_logs,
}

unfoldable pub matching : Text → List Entry → List Entry
matching level_filter [] = []
matching level_filter (e ∷ es) =
    let rest = matching level_filter es in if passes level_filter e then e ∷ rest else rest

fill_stream-take :
    (level_filter : Text) (limit count left : ℕ) (es : List Entry)
    → limit ≡ count + suc left
    → fill_stream level_filter limit count es ≡ take (suc left) (matching level_filter es)
unfolding fill_stream matching
fill_stream-take level_filter limit count left [] h = refl
fill_stream-take level_filter limit count zero (e ∷ es) h =
    ground (arith, h, fill_stream-take level_filter limit count zero es h)
fill_stream-take level_filter limit count (suc left) (e ∷ es) h = ground (
  arith,
  h,
  fill_stream-take level_filter limit count (suc left) es h,
  fill_stream-take level_filter limit (count + 1) left es (omega (arith, h)),
)

stream_limit-range :
    (limit : ℕ) → limit < two64 → (0 < stream_limit limit) × (stream_limit limit ≤ 500)
unfolding stream_limit
stream_limit-range limit h = (ground arith, ground arith)

-- The entries up to the last one read have IDs up to its own.
ids_below :
    (d l n : ℕ) (xs : List Entry)
    → IdsFrom n xs
    → All (λ (e : Entry). e.id ≤ last_id d (take l xs)) (take l xs)
ids_below d zero n xs h = tt
ids_below d (suc l) n [] h = tt
ids_below d (suc l) n (x ∷ xs) h =
    (last_id-ge x.id l (suc n) xs h.1 (omega (arith, h.0)), ids_below x.id l (suc n) xs h.1)

All-matching :
    (P : Entry → Type 0) (level_filter : Text) (es : List Entry)
    → All P es
    → All P (matching level_filter es)
unfolding matching
All-matching P level_filter [] h = tt
All-matching P level_filter (e ∷ es) h = ground (arith, h, All-matching P level_filter es h.1)

module _ (level : Text) (after limit : ℕ) (b : Buffer) (w : IsWell b)
    (cursor_in_range : after < two63) (limit_in_range : limit < two64)
    (room : 500 + length b.entries < two63) where
  abbrev pub scan_limit : ℕ
  scan_limit = if is_empty (normalize_log_level_filter level) then stream_limit limit else 500

  abbrev pub scanned : List Entry
  scanned = take scan_limit (newer after b.entries)

  scan_limit-range : (0 < scan_limit) × (scan_limit ≤ 500)
  scan_limit-range =
      let (low, high) = stream_limit-range limit limit_in_range in (ground arith, ground arith)

  since-scanned : since after scan_limit b ≡ some (scanned, last_id after scanned)
  since-scanned =
      let (low, high) = scan_limit-range in
      since-newer b w after scan_limit cursor_in_range low (omega (arith, high, room))

  fill-scanned :
      fill_stream (normalize_log_level_filter level) (stream_limit limit) 0 scanned
      ≡ take (stream_limit limit) (matching (normalize_log_level_filter level) scanned)
  fill-scanned =
      let (low, high) = stream_limit-range limit limit_in_range in
      let left : ℕ = stream_limit limit - 1 in
      let e : stream_limit limit ≡ suc left = omega (arith, low) in
      fill_stream-take (normalize_log_level_filter level) (stream_limit limit) 0 left scanned
        (omega (arith, e))
      ∙ ap (λ t. take t (matching (normalize_log_level_filter level) scanned)) (sym e)

  -- A subscriber gets the first entries behind its cursor that pass the filter, as many as its limit
  -- allows of those that were scanned; its next cursor is the ID of the last one scanned, so that the
  -- entries beyond the limit, which it did not get, stand behind the cursor from which it goes on.
  pub subscribe_logs-scanned :
      let level_filter = normalize_log_level_filter level in
      (subscribe_logs level after limit b
        ≡ some (take (stream_limit limit) (matching level_filter scanned), last_id after scanned))
      × All
          (λ (e : Entry). e.id ≤ last_id after scanned)
          (drop (stream_limit limit) (matching level_filter scanned))
  unfolding subscribe_logs
  subscribe_logs-scanned =
      let level_filter : Text = normalize_log_level_filter level in
      let (n, up, top, ids) =
        newer-IdsFrom after _ two63 b.entries w.ids (omega (arith, w)) cursor_in_range in
      (
        ap (stream_answer level_filter (stream_limit limit)) since-scanned
            ∙ ap (λ t. some (t, last_id after scanned)) fill-scanned,
        All-drop (λ (e : Entry). e.id ≤ last_id after scanned) (stream_limit limit)
            (matching level_filter scanned)
            (All-matching (λ (e : Entry). e.id ≤ last_id after scanned) level_filter scanned
              (ids_below after scan_limit n (newer after b.entries) ids)),
      )
