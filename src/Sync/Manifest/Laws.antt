-- ===== src/Sync/Manifest/Laws.antt =====
-- When a manifest is synced from, and what the lock file promises.
use lightroom_sync.Common.{
  ℕ, ◌≡◌, ◌↔◌, ◌⊎◌, refl, inl, inr, Bool, true, false, Option, none, some, List, [], ◌∷◌, All,
  arith, if◌then◌else◌,
}
use lightroom_sync.Common.Text.{Text, equal_fold, text_ltb, replace_rune}
use lightroom_sync.Sync.Manifest.{
  Manifest, manifest, holds, Open, created, exists, open_error, Wake, cancelled, timeout, tick,
  Effect, create_lock, remove_lock, write_file, read_manifest, marshalled, acquire_and_write,
  should_sync_from_network, new_manifest_for_backup,
}

-- What the rules ask for.
abbrev pub IsDue : Manifest → Text → Text → (Text → Option ℕ) → Type 0
IsDue m local_machine last_synced zip_size =
    (equal_fold m.machine local_machine ≡ false)
    × ((last_synced ≡ []) ⊎ (text_ltb last_synced m.timestamp ≡ true))
    × ((size : ℕ) × ((zip_size m.zip_file ≡ some size) × ((m.zip_size ≡ 0) ⊎ (size ≡ m.zip_size))))

module _ (m : Manifest) (local_machine : Text) (zip_size : Text → Option ℕ) where
  IsDue-needs :
      (last_synced : Text) (o : Option ℕ)
      → zip_size m.zip_file ≡ o
      → should_sync_from_network (some m) local_machine last_synced zip_size ≡ none
      → IsDue m local_machine last_synced zip_size
  unfolding should_sync_from_network
  IsDue-needs last_synced none e h = absurd (ground arith)
  IsDue-needs [] (some size) e h = (ground arith, inl refl, (size, (e, ground arith)))
  IsDue-needs (c ∷ s) (some size) e h =
      (ground arith, inr (ground arith), (size, (e, ground arith)))

  due_when :
      (last_synced : Text)
      → IsDue m local_machine last_synced zip_size
      → should_sync_from_network (some m) local_machine last_synced zip_size ≡ none
  unfolding should_sync_from_network
  due_when [] (foreign, newer, (size, (found, fits))) = rw (foreign, found) (ground arith)
  due_when (c ∷ s) (foreign, newer, (size, (found, fits))) = rw (foreign, found) (ground arith)

  -- A sync is due for a manifest just if another machine wrote it, with a timestamp behind the last
  -- sync (if there was one), and its zip is there with the size that the manifest gives (if positive).
  pub should_sync_iff :
      (last_synced : Text)
      → (should_sync_from_network (some m) local_machine last_synced zip_size ≡ none)
        ↔ IsDue m local_machine last_synced zip_size
  should_sync_iff last_synced =
      (IsDue-needs last_synced (zip_size m.zip_file) refl, due_when last_synced)

-- What a machine writes, another one reads back.
pub read_manifest-marshalled :
    (m : Manifest) → read_manifest false (holds (marshalled m)) ≡ manifest m
unfolding read_manifest
read_manifest-marshalled m = ground arith

-- The lock, held or not, behind the effects; `none` when the manifest is written, or the lock is left
-- over, without its being held.
unfoldable pub lock_after : Bool → List Effect → Option Bool
lock_after held [] = some held
lock_after held (create_lock ∷ es) = lock_after true es
lock_after held (remove_lock ∷ es) = lock_after false es
lock_after held (write_file ∷ es) = let rest = lock_after held es in if held then rest else none

-- The loop goes on for ever only while every attempt finds another machine's lock and is followed by
-- a tick of the ticker: the timeout ends it, as each error does.
pub acquire_and_write-none_iff :
    (write_fails : Bool) (polls : List (Open × Wake))
    → (acquire_and_write write_fails polls ≡ none) ↔ All (λ p. p ≡ (exists, tick)) polls
unfolding acquire_and_write
acquire_and_write-none_iff write_fails polls = (stuck polls, waits polls)
  where
    stuck :
        (polls : List (Open × Wake))
        → acquire_and_write write_fails polls ≡ none
        → All (λ p. p ≡ (exists, tick)) polls
    stuck [] h = tt
    stuck ((created, wake) ∷ polls) h = cc
    stuck ((open_error, wake) ∷ polls) h = cc
    stuck ((exists, cancelled) ∷ polls) h = cc
    stuck ((exists, timeout created) ∷ polls) h = cc
    stuck ((exists, timeout exists) ∷ polls) h = cc
    stuck ((exists, timeout open_error) ∷ polls) h = cc
    stuck ((exists, tick) ∷ polls) h = (refl, stuck polls h)

    waits :
        (polls : List (Open × Wake))
        → All (λ p. p ≡ (exists, tick)) polls
        → acquire_and_write write_fails polls ≡ none
    waits [] h = refl
    waits (p ∷ polls) h = rw h.0 (waits polls h.1)

-- A manifest that one machine makes for its new backup is what another machine reads from the file,
-- and that machine takes it for a sync: its name is another one in every letter case, its last sync
-- is empty or before the manifest's time, and it sees the zip with the size that was published.
pub new_manifest_for_backup-accepted :
    (machine now relative other last_synced : Text) (size : ℕ) (zip_size : Text → Option ℕ)
    → equal_fold machine other ≡ false
    → (last_synced ≡ []) ⊎ (text_ltb last_synced now ≡ true)
    → zip_size (replace_rune b'\\' b'/' relative) ≡ some size
    → (m : Manifest) × ((new_manifest_for_backup machine now (some relative) (some size) ≡ some m)
        × ((read_manifest false (holds (marshalled m)) ≡ manifest m)
            × (should_sync_from_network (some m) other last_synced zip_size ≡ none)))
unfolding new_manifest_for_backup
new_manifest_for_backup-accepted machine now relative other last_synced size zip_size foreign due
      seen =
    let m : Manifest = record {
      machine = machine;
      timestamp = now;
      zip_file = replace_rune b'\\' b'/' relative;
      zip_size = size;
    } in
    (
      m,
      (
        refl,
        (
          read_manifest-marshalled m,
          due_when m other zip_size last_synced (foreign, due, (size, (seen, inr refl))),
        ),
      ),
    )
