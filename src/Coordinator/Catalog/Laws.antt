-- ===== src/Coordinator/Catalog/Laws.antt =====
-- No restore is queued under a running Lightroom, none is forgotten, none is run twice, and none
-- overwrites a catalog that has no backup.
use lightroom_sync.Common.{
  ℕ, ◌≡◌, ◌⊎◌, refl, inl, inr, Bool, true, false, ◌||◌, Option, none, some, [], ◌∷◌, ◌++◌, arith,
  Bool-cases,
}
use lightroom_sync.Common.Text.{Text, lit, is_empty}
use lightroom_sync.Coordinator.State.{set_lightroom_running}
use lightroom_sync.Sync.Manifest.{
  Manifest, manifest, ManifestFile, read_manifest, should_sync_from_network,
}
use lightroom_sync.Coordinator.Catalog.{
  NetworkJob, Orchestrator, Result, is_running, job_name, enqueue_manifest, queue_or_pend,
  run_pending_if_any, check_startup_manifest, on_sync_completed, Execution,
}

-- One call from outside.
pub data Event : Type 0 where
  startup : Bool → ManifestFile → (Text → Option ℕ) → Bool → Event
  run_pending : Bool → Event
  completed : Bool → Text → Text → Event
  lightroom : Bool → Event

unfoldable pub handle : Event → Orchestrator → Orchestrator
handle (startup is_cancelled file zip_size refuses) o =
    (check_startup_manifest is_cancelled file zip_size refuses o).after
handle (run_pending refuses) o = (run_pending_if_any refuses o).after
handle (completed refuses now name) o = (on_sync_completed refuses now name o).after
handle (lightroom v) o = record o {
  app = elim o.app [ none ↦ none | some s ↦ some (set_lightroom_running v s) ];
}

queue_or_pend-running :
    (refuses : Bool) (m : Manifest) (reason : Text) (o : Orchestrator)
    → is_running o ≡ true
    → (queue_or_pend refuses m reason o).after.jobs ≡ o.jobs
unfolding queue_or_pend
queue_or_pend-running refuses m reason o h = rw h

pub check_startup_manifest-running :
    (is_cancelled : Bool) (file : ManifestFile) (zip_size : Text → Option ℕ) (refuses : Bool)
    (o : Orchestrator)
    → is_running o ≡ true
    → (check_startup_manifest is_cancelled file zip_size refuses o).after.jobs ≡ o.jobs
unfolding check_startup_manifest
check_startup_manifest-running is_cancelled file zip_size refuses o h =
    grind (arith, queue_or_pend-running)

-- While Lightroom runs, no event queues a restore.
pub handle-running :
    (e : Event) (o : Orchestrator) → is_running o ≡ true → (handle e o).jobs ≡ o.jobs
unfolding handle run_pending_if_any on_sync_completed
handle-running (startup is_cancelled file zip_size refuses) o h =
    check_startup_manifest-running is_cancelled file zip_size refuses o h
handle-running (run_pending refuses) o h = ground arith
handle-running (completed refuses now name) o h = ground arith
handle-running (lightroom v) o h = refl

-- What one call of the worker's `Enqueue` does.
enqueue_manifest-cases :
    (refuses : Bool) (m : Manifest) (reason : Text) (o : Orchestrator)
    → let r = enqueue_manifest refuses m reason o in
      ((r.is_failed ≡ true) × (r.after ≡ o))
      ⊎ ((r.is_failed ≡ false)
          × (r.after.jobs ≡ o.jobs ++ (record { name = job_name reason; source = m } ∷ [])))
unfolding enqueue_manifest
enqueue_manifest-cases refuses m reason o =
    elim (Bool-cases (is_empty o.backup_dir || is_empty o.catalog_dir)) [
      | inl unset ↦ inl (simp unset, simp unset)
      | inr set ↦ elim (Bool-cases refuses) [
        | inl full ↦ inl (simp (set, full), simp (set, full))
        | inr free ↦ inr (simp (set, free), simp (set, free))
      ]
    ]

-- A pending manifest stays pending, with nothing changed, while Lightroom runs or when the worker
-- does not take the job; otherwise it is queued once and is pending no more.
pub run_pending_if_any-cases :
    (refuses : Bool) (o : Orchestrator) (m : Manifest)
    → o.has_worker ≡ true
    → o.pending ≡ some m
    → let r = run_pending_if_any refuses o in
      ((r.after ≡ o) × ((is_running o ≡ true) ⊎ (r.is_failed ≡ true)))
      ⊎ ((is_running o ≡ false)
          × (r.is_failed ≡ false)
          × (r.after.pending ≡ none)
          × (r.after.jobs
              ≡ o.jobs ++ (record { name = job_name (lit "pending"); source = m } ∷ [])))
unfolding run_pending_if_any
run_pending_if_any-cases refuses o m w p = elim (Bool-cases (is_running o)) [
  | inl running ↦ inl (simp (w, p, running), inl running)
  | inr stopped ↦ elim (enqueue_manifest-cases refuses m (lit "pending") o) [
    | inl (err, same) ↦ inl (simp (w, p, stopped, err) same, inr (simp (w, p, stopped, err)))
    | inr (ok, queued) ↦ inr (
      stopped,
      simp (w, p, stopped, ok),
      simp (w, p, stopped, ok),
      simp (w, p, stopped, ok) queued,
    )
  ]
]

-- What one call of `queueOrPend` does.
abbrev pub QueuedOrPending : Manifest → Text → Orchestrator → Result → Type 0
QueuedOrPending m reason o r =
    ((is_running o ≡ true) × ((r.is_failed ≡ false) × (r.after.pending ≡ some m)))
    ⊎ ((is_running o ≡ false)
        × (((r.is_failed ≡ true) × (r.after ≡ o))
            ⊎ ((r.is_failed ≡ false)
                × ((r.after.pending ≡ none)
                    × (r.after.jobs
                        ≡ o.jobs ++ (record { name = job_name reason; source = m } ∷ []))))))

queue_or_pend-cases :
    (refuses : Bool) (m : Manifest) (reason : Text) (o : Orchestrator)
    → QueuedOrPending m reason o (queue_or_pend refuses m reason o)
unfolding queue_or_pend
queue_or_pend-cases refuses m reason o = elim (Bool-cases (is_running o)) [
  | inl running ↦ inl (running, (simp running, simp running))
  | inr stopped ↦ inr (
    stopped,
    elim (enqueue_manifest-cases refuses m reason o) [
      | inl (err, same) ↦ inl (simp (stopped, err), simp (stopped, err) same)
      | inr (ok, queued) ↦ inr (simp (stopped, ok), (simp (stopped, ok), simp (stopped, ok) queued))
    ],
  )
]

-- A manifest that is due when the agent starts, with automatic sync on, is kept pending if Lightroom
-- runs, and queued otherwise, unless the worker does not take the job, which is reported.
pub startup_due :
    (file : ManifestFile) (m : Manifest) (last : Text) (zip_size : Text → Option ℕ) (refuses : Bool)
    (o : Orchestrator)
    → o.has_manifest ≡ true
    → o.has_worker ≡ true
    → o.auto_sync ≡ some true
    → o.last_synced ≡ some last
    → read_manifest false file ≡ manifest m
    → should_sync_from_network (some m) o.machine last zip_size ≡ none
    → QueuedOrPending m (lit "startup") o (check_startup_manifest false file zip_size refuses o)
unfolding check_startup_manifest
startup_due file m last zip_size refuses o hm hw on synced read due =
    simp (hm, hw, on, synced, read, due) (queue_or_pend-cases refuses m (lit "startup") o)
