-- ===== src/Monitor/Lock/Epochs.antt =====
-- Writes that leave the number to the manager get increasing numbers.
use lightroom_sync.Common.{
  ℕ, suc, ◌≤◌, ◌<◌, ◌≡◌, refl, inl, inr, Bool-cases, true, false, List, [], ◌∷◌, arith, ltb, ◌==◌,
  All, if◌then◌else◌,
}
use lightroom_sync.Common.Int64.{two64}
use lightroom_sync.Monitor.Lock.{LockInfo, LockManager, next_epoch, prepare_internal_metadata}

-- The numbers that a sequence of writes gets, where the manager chooses them.
unfoldable pub chosen : List LockInfo → LockManager → List ℕ
chosen [] m = []
chosen (info ∷ infos) m =
    let (prepared, m') = prepare_internal_metadata info m in
    let rest = chosen infos m' in if info.epoch == 0 then prepared.epoch ∷ rest else rest

abbrev pub Increasing : List ℕ → Type 0
Increasing [] = Unit
Increasing (n ∷ ns) = All (λ m. n < m) ns × Increasing ns

-- How far the writes can take the manager's number; below 2^64 nothing wraps around.
unfoldable pub reach : List LockInfo → ℕ → ℕ
reach [] e = e
reach (info ∷ infos) e =
    if info.epoch == 0
    then reach infos (suc e)
    else reach infos (if ltb e info.epoch then info.epoch else e)

reach_grows : (infos : List LockInfo) (e : ℕ) → e ≤ reach infos e
unfolding reach
reach_grows [] e = omega arith
reach_grows (info ∷ infos) e =
    ground (arith, reach_grows infos (suc e), reach_grows infos info.epoch, reach_grows infos e)

All-above : (ns : List ℕ) (a b : ℕ) → a ≤ b → All (λ m. b < m) ns → All (λ m. a < m) ns
All-above [] a b h u = tt
All-above (n ∷ ns) a b h u = (omega (arith, h, u.0), All-above ns a b h u.1)

prepare-chosen :
    (info : LockInfo) (m : LockManager)
    → (info.epoch == 0) ≡ true
    → let p = prepare_internal_metadata info m in
      (p.0.epoch ≡ next_epoch m.epoch) × (p.1.epoch ≡ next_epoch m.epoch)
unfolding prepare_internal_metadata
prepare-chosen info m h = rw h (refl, refl)

prepare-given :
    (info : LockInfo) (m : LockManager)
    → (info.epoch == 0) ≡ false
    → (prepare_internal_metadata info m).1.epoch
      ≡ (if ltb m.epoch info.epoch then info.epoch else m.epoch)
unfolding prepare_internal_metadata
prepare-given info m h = rw h

chosen_above :
    (infos : List LockInfo) (m : LockManager)
    → reach infos m.epoch < two64
    → All (λ n. m.epoch < n) (chosen infos m) × Increasing (chosen infos m)
unfolding chosen reach
chosen_above [] m h = (tt, tt)
chosen_above (info ∷ infos) m h = elim (Bool-cases (info.epoch == 0)) [
  | inl chosen_here ↦
      let m' : LockManager = (prepare_internal_metadata info m).1 in
      let (given, kept) = prepare-chosen info m chosen_here in
      let small : reach infos (suc m.epoch) < two64 = ground (arith, h, chosen_here) in
      let next : next_epoch m.epoch ≡ suc m.epoch =
        omega (arith, reach_grows infos (suc m.epoch), small) in
      let (above, increasing) = chosen_above infos m' (rw (kept, next) small) in
      rw chosen_here (
        (
          omega (arith, given, next),
          All-above (chosen infos m') m.epoch m'.epoch (omega (arith, kept, next)) above,
        ),
        (All-above (chosen infos m') _ m'.epoch (omega (arith, given, kept)) above, increasing),
      )
  | inr other ↦
      let m' : LockManager = (prepare_internal_metadata info m).1 in
      let kept = prepare-given info m other in
      let small : reach infos (if ltb m.epoch info.epoch then info.epoch else m.epoch) < two64 =
        ground (arith, h, other) in
      let (above, increasing) = chosen_above infos m' (rw kept small) in
      rw other
        (All-above (chosen infos m') m.epoch m'.epoch (ground (arith, kept)) above, increasing)
]

-- The numbers that the manager gives to writes are strictly increasing, other writes with numbers of
-- their own in between, as long as no number reaches 2^64.
pub chosen-Increasing :
    (infos : List LockInfo) (m : LockManager)
    → reach infos m.epoch < two64
    → Increasing (chosen infos m)
chosen-Increasing infos m h = (chosen_above infos m h).1
