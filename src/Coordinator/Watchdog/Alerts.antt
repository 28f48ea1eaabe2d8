-- ===== src/Coordinator/Watchdog/Alerts.antt =====
-- Which alerts a series of scans raises.
use lightroom_sync.Common.{
  ℕ, ◌+◌, ◌≡◌, refl, ◌∙◌, Bool, false, ◌||◌, List, [], ◌∷◌, ◌++◌, Option, none, some, arith, ltb,
  if◌then◌else◌,
}
use lightroom_sync.Common.Int64.{le64}
use lightroom_sync.Common.Text.{Text, text_eq, text_eq_iff, text_eq_refl}
use lightroom_sync.Common.Dict.{
  Dict, lookup, insert, lookup-insert, erase, lookup-erase, NodupKeys, insert-NodupKeys,
  erase-NodupKeys,
}
use lightroom_sync.Coordinator.Watchdog.{
  Alert, Watchdog, start, stop, is_expired, expired, unexpired, scan_expired,
}

-- The alerts of a series of scans, and the watchdog behind them.
pub scans : List ℕ → Watchdog → List Alert × Watchdog
scans [] w = ([], w)
scans (t ∷ ts) w =
    let (now, w') = scan_expired t w in let (later, w'') = scans ts w' in (now ++ later, w'')

abbrev pub some_after : ℕ → List ℕ → Bool
some_after d [] = false
some_after d (t ∷ ts) = ltb d t || some_after d ts

-- The alerts for one operation; the entry of a key carries the key as its ID.
pub alerts_for : Text → List Alert → List Alert
alerts_for op [] = []
alerts_for op (a ∷ as') = let rest = alerts_for op as' in if text_eq a.id op then a ∷ rest else rest

abbrev pub IsKeyed : Dict Alert → Type 0
IsKeyed [] = Unit
IsKeyed ((k, e) ∷ m) = (e.id ≡ k) × IsKeyed m

abbrev alert_of : ℕ → Option Alert → List Alert
alert_of now none = []
alert_of now (some e) = if is_expired now e then e ∷ [] else []

abbrev kept : ℕ → Option Alert → Option Alert
kept now none = none
kept now (some e) = if is_expired now e then none else some e

lookup-unexpired :
    (op : Text) (now : ℕ) (m : Dict Alert)
    → NodupKeys m
    → lookup op (unexpired now m) ≡ kept now (lookup op m)
unfolding unexpired lookup
lookup-unexpired op now [] u = refl
lookup-unexpired op now ((k, e) ∷ m) u =
    ground (arith, text_eq_iff k op, lookup-unexpired op now m u.1, lookup-unexpired k now m u.1)

alerts_for-expired :
    (op : Text) (now : ℕ) (m : Dict Alert)
    → NodupKeys m
    → IsKeyed m
    → alerts_for op (expired now m) ≡ alert_of now (lookup op m)
unfolding expired alerts_for lookup
alerts_for-expired op now [] u v = refl
alerts_for-expired op now ((k, e) ∷ m) u v = ground (
  arith,
  text_eq_iff k op,
  text_eq_iff e.id op,
  alerts_for-expired op now m u.1 v.1,
  alerts_for-expired k now m u.1 v.1,
)

unexpired-NodupKeys : (now : ℕ) (m : Dict Alert) → NodupKeys m → NodupKeys (unexpired now m)
unfolding unexpired
unexpired-NodupKeys now [] u = tt
unexpired-NodupKeys now ((k, e) ∷ m) u =
    ground (arith, lookup-unexpired k now m u.1, unexpired-NodupKeys now m u.1)

unexpired-IsKeyed : (now : ℕ) (m : Dict Alert) → IsKeyed m → IsKeyed (unexpired now m)
unfolding unexpired
unexpired-IsKeyed now [] v = tt
unexpired-IsKeyed now ((k, e) ∷ m) v = ground (arith, unexpired-IsKeyed now m v.1)

alerts_for-append :
    (op : Text) (xs ys : List Alert)
    → alerts_for op (xs ++ ys) ≡ alerts_for op xs ++ alerts_for op ys
unfolding alerts_for
alerts_for-append op [] ys = refl
alerts_for-append op (x ∷ xs) ys = ground (arith, alerts_for-append op xs ys)

abbrev once : Option Alert → List ℕ → List Alert
once none ts = []
once (some e) ts = if some_after e.deadline_at ts then e ∷ [] else []

once-cons :
    (o : Option Alert) (t : ℕ) (ts : List ℕ) → alert_of t o ++ once (kept t o) ts ≡ once o (t ∷ ts)
once-cons none t ts = refl
once-cons (some e) t ts = ground arith

alerts_once :
    (op : Text) (ts : List ℕ) (w : Watchdog)
    → NodupKeys w.entries
    → IsKeyed w.entries
    → alerts_for op (scans ts w).0 ≡ once (lookup op w.entries) ts
unfolding scans scan_expired alerts_for
alerts_once op [] w u v = ground arith
alerts_once op (t ∷ ts) w u v =
    let w' : Watchdog = record w { entries = unexpired t w.entries } in
    let later =
      alerts_once op ts w' (unexpired-NodupKeys t w.entries u) (unexpired-IsKeyed t w.entries v) in
    rw alerts_for-append (
      rw (alerts_for-expired op t w.entries u v, later, lookup-unexpired op t w.entries u)
        (once-cons (lookup op w.entries) t ts))

insert-IsKeyed :
    (k : Text) (e : Alert) (m : Dict Alert) → e.id ≡ k → IsKeyed m → IsKeyed (insert k e m)
unfolding insert
insert-IsKeyed k e [] q v = (q, tt)
insert-IsKeyed k e ((j, d) ∷ m) q v = ground (arith, insert-IsKeyed k e m q v.1)

erase-IsKeyed : (k : Text) (m : Dict Alert) → IsKeyed m → IsKeyed (erase k m)
unfolding erase
erase-IsKeyed k [] v = tt
erase-IsKeyed k ((j, d) ∷ m) v = ground (arith, erase-IsKeyed k m v.1)

abbrev pub limit_of : ℕ → ℕ
limit_of timeout = if le64 timeout 0 then 30_000_000_000 else timeout

module _ (op : Text) (ts : List ℕ) (w : Watchdog) (u : NodupKeys w.entries)
    (v : IsKeyed w.entries) where
  -- After `Start`, a series of scans alerts for the operation exactly once if one of them comes
  -- after its deadline, which is 30 s for a timeout that is not positive; and never otherwise.
  pub start_alerts :
      (name : Text) (timeout now : ℕ)
      → let deadline = now + limit_of timeout in
        alerts_for op (scans ts (start op name timeout now w)).0 ≡ (
          if some_after deadline ts
          then record { id = op; name = name; started_at = now; deadline_at = deadline } ∷ []
          else [])
  unfolding start
  start_alerts name timeout now =
      alerts_once op ts _ (insert-NodupKeys op _ w.entries u) (insert-IsKeyed op _ w.entries refl v)
      ∙ rw (lookup-insert, text_eq_refl)

  -- After the stop function has run, no scan alerts for the operation.
  pub stop_silent : alerts_for op (scans ts (stop op w)).0 ≡ []
  unfolding stop
  stop_silent =
      alerts_once op ts _ (erase-NodupKeys op w.entries u) (erase-IsKeyed op w.entries v)
      ∙ rw (lookup-erase, text_eq_refl)
