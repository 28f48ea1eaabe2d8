-- ===== src/Preset/Outcome.antt =====
-- The outcome of a cycle for one path, as a function of what the cycle starts from there.
use lightroom_sync.Common.{
  ℕ, ◌≡◌, refl, ◌∙◌, ap, Bool, true, false, Option, none, [], ◌∷◌, arith, if◌then◌else◌, is_some,
}
use lightroom_sync.Common.Text.{Text}
use lightroom_sync.Common.Dict.{Dict, lookup, has_key, NodupKeys}
use lightroom_sync.Preset.{
  File, Disk, Env, Slot, pull_deletion, pull_change, push_deletion, push_change,
}
use lightroom_sync.Preset.Paths.{is_scanned}
use lightroom_sync.Preset.Cycle.{
  Cycle, slot, scan, pull_phase, push_phase, start_cycle, read_state, read_tombstone, run_loops,
}
use lightroom_sync.Preset.Slots.{
  through, slot-each, lookup-scan, scan-NodupKeys, IsKeyed, each-IsKeyed,
}

module _ (env : Env) (k : Text) where
  -- What a scan sees of the path.
  abbrev pub visible : Bool → Option File → Option File
  visible skip_json o = if is_scanned env.categories skip_json k then o else none

  unfoldable pub after_pull : Slot → Slot
  after_pull s =
      let net = visible false s.network in
      let s' = through (pull_deletion env (is_some net) k) s.seen s in
      through (pull_change env s.seen k) net s'

  unfoldable pub after_push : Slot → Slot
  after_push s =
      let loc = visible true s.local in
      let s' = through (push_deletion env (is_some loc) k) s.seen s in
      through (push_change env k) loc s'

has_key-lookup {ℓ} : {V : Type ℓ} (k : Text) (m : Dict V) → has_key k m ≡ is_some (lookup k m)
unfolding has_key lookup
has_key-lookup k [] = refl
has_key-lookup k ((j, v) ∷ m) = ground (arith, has_key-lookup k m)

module _ (env : Env) (k : Text) where
  slot-pull_phase :
      (state : Dict ℕ) (c : Cycle)
      → NodupKeys state
      → IsKeyed c
      → lookup k state ≡ lookup k c.seen
      → slot k (pull_phase env state c) ≡ after_pull env k (slot k c)
  unfolding pull_phase after_pull
  slot-pull_phase state c u v e =
      let files : Dict File = scan env.categories false c.network in
      slot-each (λ j. pull_change env (lookup j state) j) files _ k
        (scan-NodupKeys env.categories false c.network v.network_keys)
      ∙ ap (through (pull_change env (lookup k state) k) (lookup k files))
          (slot-each (λ j. pull_deletion env (has_key j files) j) state c k u)
      ∙ rw (has_key-lookup k files, lookup-scan env.categories false c.network k, e)

  slot-push_phase :
      (c : Cycle) → IsKeyed c → slot k (push_phase env c) ≡ after_push env k (slot k c)
  unfolding push_phase after_push
  slot-push_phase c v =
      let files : Dict File = scan env.categories true c.local in
      slot-each (push_change env) files _ k
        (scan-NodupKeys env.categories true c.local v.local_keys)
      ∙ ap (through (push_change env k) (lookup k files))
          (slot-each (λ j. push_deletion env (has_key j files) j) c.seen c k v.seen_keys)
      ∙ rw (has_key-lookup k files, lookup-scan env.categories true c.local k)

pull_phase-IsKeyed :
    (env : Env) (state : Dict ℕ) (c : Cycle) → IsKeyed c → IsKeyed (pull_phase env state c)
unfolding pull_phase
pull_phase-IsKeyed env state c v =
    let files : Dict File = scan env.categories false c.network in
    each-IsKeyed (λ k. pull_change env (lookup k state) k) files _
      (each-IsKeyed (λ k. pull_deletion env (has_key k files) k) state c v)

pub push_phase-IsKeyed : (env : Env) (c : Cycle) → IsKeyed c → IsKeyed (push_phase env c)
unfolding push_phase
push_phase-IsKeyed env c v =
    let files : Dict File = scan env.categories true c.local in
    each-IsKeyed (push_change env) files _
      (each-IsKeyed (λ k. push_deletion env (has_key k files) k) c.seen c v)

-- The four maps hold a path once.
pub record IsDisk (d : Disk) : Type 0 where
  pub local_keys : NodupKeys d.local
  pub network_keys : NodupKeys d.network
  pub state_keys : NodupKeys d.state
  pub tombstone_keys : NodupKeys d.tombstone

module _ (env : Env) (d : Disk) (u : IsDisk d) where
  abbrev pub start : Cycle
  start = start_cycle env (read_state env d) (read_tombstone env d) d

  read_state-NodupKeys : NodupKeys (read_state env d)
  read_state-NodupKeys = ground (arith, u.state_keys)

  start-IsKeyed : IsKeyed start
  start-IsKeyed = record {
    local_keys = u.local_keys;
    network_keys = u.network_keys;
    seen_keys = read_state-NodupKeys;
    tombstone_keys = ground (arith, u.tombstone_keys);
  }

  -- A cycle treats each path by itself: the entries of a path behind the loops are a function of
  -- its entries before them, whatever the other paths are and in whichever order the maps are
  -- visited.
  pub slot-run_loops :
      (k : Text) → slot k (run_loops env d) ≡ after_push env k (after_pull env k (slot k start))
  unfolding run_loops
  slot-run_loops k =
      let state : Dict ℕ = read_state env d in
      slot-push_phase env k _ (pull_phase-IsKeyed env state start start-IsKeyed)
      ∙ ap (after_push env k)
          (slot-pull_phase env k state start read_state-NodupKeys start-IsKeyed refl)

  pub run_loops-IsKeyed : IsKeyed (run_loops env d)
  unfolding run_loops
  run_loops-IsKeyed =
      push_phase-IsKeyed env _ (pull_phase-IsKeyed env (read_state env d) start start-IsKeyed)
