-- ===== src/Preset/Reconcile.antt =====
-- What a cycle without faults does to a path, against an independent table of the four outcomes.
use lightroom_sync.Common.{ℕ, ◌+◌, Bool, true, false, Option, none, some, if◌then◌else◌, leb, ltb}
use lightroom_sync.Common.Text.{Text}
use lightroom_sync.Preset.{File, Env, Slot, abs_diff}
use lightroom_sync.Preset.Paths.{is_rewritten}

pub data Verdict : Type 0 where
  keep : Verdict
  take_network : Verdict
  take_local : Verdict
  delete_both : Verdict

-- The rules of the two-way synchronization. A file on one side only is new there or was deleted on
-- the other side, which the time recorded by the last cycle tells apart; a deletion loses against
-- an edit of the surviving copy; of two copies the newer one wins.
unfoldable pub verdict : ℕ → Slot → Verdict
verdict tol s = elim s.local [
  | none ↦ elim s.network [
    | none ↦ keep
    | some g ↦ elim s.seen [
      | none ↦ take_network
      | some last ↦ if leb g.mtime (last + tol) then delete_both else take_network
    ]
  ]
  | some f ↦ elim s.network [
    | none ↦
        let known_zombie : Bool = elim s.tomb [
          | none ↦ false
          | some deleted_at ↦ leb f.mtime (deleted_at + tol)
        ] in
        let untouched : Bool = elim s.seen [
          | none ↦ false
          | some last ↦ ltb (abs_diff f.mtime last) tol
        ] in
        if untouched then delete_both else if known_zombie then delete_both else take_local
    | some g ↦
        let edited : Bool = elim s.seen [ none ↦ true | some last ↦ ltb (last + tol) f.mtime ] in
        if ltb (f.mtime + tol) g.mtime
        then take_network
        else if edited
        then (if ltb g.mtime f.mtime then take_local else keep)
        else keep
  ]
]

-- A file as the other side receives it: only the text of a watermark template changes.
abbrev rewritten : (Text → Text) → Text → File → File
rewritten f k g = record { mtime = g.mtime; body = if is_rewritten k then f g.body else g.body }

-- The two folders' entries under a verdict.
unfoldable pub outcome : Env → Text → Verdict → Slot → Option File × Option File
outcome env k keep s = (s.local, s.network)
outcome env k take_network s = elim s.network [
  | none ↦ (none, none)
  | some g ↦ (some (rewritten env.pull_watermark k g), some g)
]
outcome env k take_local s = elim s.local [
  | none ↦ (none, none)
  | some f ↦ let f' = rewritten env.push_watermark k f in (some f', some f')
]
outcome env k delete_both s = (none, none)
