-- ===== src/Coordinator/Worker/Invariant.antt =====
-- What holds of the worker between any two steps, whatever the goroutines do.
use lightroom_sync.Common.{
  ℕ, suc, ◌≤◌, ◌≡◌, refl, sym, subst, ◌∙◌, OnSome, OnSome-some, Bool-cases, inl, inr, Bool, true,
  false, Option, some, List, [], ◌∷◌, arith, if◌then◌else◌, length, length-append,
}
use lightroom_sync.Common.Text.{Text}
use lightroom_sync.Coordinator.State.{
  AppState, set_warning, set_current_job_name, set_restore_progress,
}
use lightroom_sync.Coordinator.State.Colors.{
  Update, update, is_other, update_flags, set_sync_paused_flags, set_syncing_flags,
}
use lightroom_sync.Coordinator.Bus.{Bus}
use lightroom_sync.Coordinator.Worker.{
  Job, Phase, receiving, testing, blocked, cleared, running, Worker, receive_step, make_channel,
  close_channel, worker_step, pause, resume, enqueue, begin_job, end_job, Action, do_pause,
  do_resume, receive, test, wake, cancel, do_enqueue, begin, finish, other, is_other, warn, act,
  Run, here, step, new_worker,
}

abbrev pub is_running : Phase → Bool
is_running (running _ _) = true
is_running _ = false

-- A blocked worker waits on a channel that is closed, or on the one that `Resume` will close.
abbrev pub WaitsRight : Phase → ℕ → (ℕ → Bool) → Type 0
WaitsRight (blocked job ch) c closed = (ch ≤ c) × (closed ch ≡ false → ch ≡ c)
WaitsRight _ c closed = Unit

pub record IsWell (w : Worker) : Type 0 where
  pub bounded : length w.queue ≤ w.queue_size
  pub pause_shown : w.app.sync_paused ≡ w.is_paused
  pub sync_shown : w.app.sync_in_progress ≡ is_running w.phase
  pub open_if_paused : w.closed w.resume_ch ≡ (if w.is_paused then false else true)
  pub waits_right : WaitsRight w.phase w.resume_ch w.closed

pub new_worker-IsWell :
    (n : ℕ) (s : AppState) (b : Bus)
    → s.sync_paused ≡ false
    → s.sync_in_progress ≡ false
    → IsWell (new_worker n s b)
unfolding new_worker
new_worker-IsWell n s b p q = ground arith

waits_make :
    (p : Phase) (c : ℕ) (closed : ℕ → Bool)
    → closed c ≡ true
    → WaitsRight p c closed
    → WaitsRight p (suc c) (make_channel (suc c) closed)
waits_make (blocked job ch) c closed e h =
    let (below, right) = h in (omega arith, λ still. absurd (ground (arith, right)))
waits_make receiving c closed e h = tt
waits_make _ c closed e h = tt

waits_close :
    (p : Phase) (c : ℕ) (closed : ℕ → Bool)
    → WaitsRight p c closed
    → WaitsRight p c (close_channel c closed)
waits_close (blocked job ch) c closed h = let (below, right) = h in (below, λ still. ground arith)
waits_close receiving c closed h = tt
waits_close _ c closed h = tt

pub pause-IsWell : (w : Worker) → IsWell w → IsWell (pause w)
unfolding pause
pause-IsWell w h = elim (Bool-cases w.is_paused) [
  | inl already ↦ simp already h
  | inr not_yet ↦
      let free : w.closed w.resume_ch ≡ true = ground (arith, h.open_if_paused) in
      simp not_yet (record {
        bounded = h.bounded;
        pause_shown = (set_sync_paused_flags true w.app).0;
        sync_shown = (set_sync_paused_flags true w.app).1 ∙ h.sync_shown;
        open_if_paused = ground arith;
        waits_right = waits_make w.phase w.resume_ch w.closed free h.waits_right;
      })
]

pub resume-IsWell : (w : Worker) → IsWell w → IsWell (resume w)
unfolding resume
resume-IsWell w h = elim (Bool-cases w.is_paused) [
  | inl pausing ↦ simp pausing (record {
    bounded = h.bounded;
    pause_shown = (set_sync_paused_flags false w.app).0;
    sync_shown = (set_sync_paused_flags false w.app).1 ∙ h.sync_shown;
    open_if_paused = ground arith;
    waits_right = waits_close w.phase w.resume_ch w.closed h.waits_right;
  })
  | inr no_pause ↦ simp no_pause h
]

pub enqueue-IsWell : (job : Job) (w : Worker) → IsWell w → IsWell (enqueue job w).0
unfolding enqueue
enqueue-IsWell job w h = ground (arith, length-append {0} w.queue (job ∷ []))

begin_job-IsWell : (job : Job) (now : ℕ) (w : Worker) → IsWell w → IsWell (begin_job job now w)
unfolding begin_job set_current_job_name set_restore_progress
begin_job-IsWell job now w h = record {
  bounded = h.bounded;
  pause_shown = (set_syncing_flags true w.app).0 ∙ h.pause_shown;
  sync_shown = (set_syncing_flags true w.app).1;
  open_if_paused = h.open_if_paused;
  waits_right = tt;
}

end_job-IsWell :
    (job : Job) (op : Text) (err : Option Text) (w : Worker)
    → IsWell w
    → IsWell (end_job job op err w)
unfolding end_job set_current_job_name set_restore_progress
end_job-IsWell job op err w h = record {
  bounded = h.bounded;
  pause_shown = (set_syncing_flags false w.app).0 ∙ h.pause_shown;
  sync_shown = (set_syncing_flags false w.app).1;
  open_if_paused = h.open_if_paused;
  waits_right = tt;
}

other-IsWell :
    (u : Update) (w : Worker)
    → is_other u ≡ true
    → IsWell w
    → IsWell (record w { app = update u w.app })
other-IsWell u w o h = record {
  bounded = h.bounded;
  pause_shown = (update_flags w.app u o).0 ∙ h.pause_shown;
  sync_shown = (update_flags w.app u o).1 ∙ h.sync_shown;
  open_if_paused = h.open_if_paused;
  waits_right = h.waits_right;
}

receive_step-IsWell :
    (l : List Job) (w : Worker)
    → length l ≤ w.queue_size
    → is_running w.phase ≡ false
    → IsWell w
    → OnSome IsWell (receive_step l w)
unfolding receive_step
receive_step-IsWell [] w b r h = tt
receive_step-IsWell (job ∷ rest) w b r h = ground arith

test-IsWell :
    (job : Job) (w : Worker)
    → is_running w.phase ≡ false
    → IsWell w
    → IsWell (record w { phase = if w.is_paused then blocked job w.resume_ch else cleared job })
test-IsWell job w r h = elim (Bool-cases w.is_paused) [
  | inl yes_paused ↦ simp yes_paused (ground arith)
  | inr not_paused ↦ simp not_paused (ground arith)
]

worker_step-IsWell :
    (a : Action) (p : Phase) (w : Worker)
    → is_running w.phase ≡ is_running p
    → IsWell w
    → OnSome IsWell (worker_step a p w)
unfolding worker_step
worker_step-IsWell receive receiving w r h = receive_step-IsWell w.queue w h.bounded r h
worker_step-IsWell cancel receiving w r h = ground arith
worker_step-IsWell test (testing job) w r h = test-IsWell job w r h
worker_step-IsWell wake (blocked job ch) w r h = ground arith
worker_step-IsWell cancel (blocked job ch) w r h = ground arith
worker_step-IsWell (begin now) (cleared job) w r h = begin_job-IsWell job now w h
worker_step-IsWell (finish err) (running job op) w r h = end_job-IsWell job op err w h
worker_step-IsWell _ _ w r h = tt

act-OnSome : (a : Action) (w : Worker) → IsWell w → OnSome IsWell (act a w)
unfolding act set_warning
act-OnSome do_pause w h = pause-IsWell w h
act-OnSome do_resume w h = resume-IsWell w h
act-OnSome (do_enqueue job) w h = enqueue-IsWell job w h
act-OnSome (other u) w h = elim (Bool-cases (is_other u)) [
  | inl o ↦ rw o (other-IsWell u w o h)
  | inr n ↦ rw n tt
]
act-OnSome (warn text) w h = record {
  bounded = h.bounded;
  pause_shown = h.pause_shown;
  sync_shown = h.sync_shown;
  open_if_paused = h.open_if_paused;
  waits_right = h.waits_right;
}
act-OnSome a w h = worker_step-IsWell a w.phase w refl h

-- Every step of every goroutine keeps the worker well-formed: its queue bounded, its flags shown in
-- the state, its channel open exactly while paused, and nobody blocked on a channel that no
-- `Resume` will close.
pub act-IsWell : (a : Action) (w : Worker) {v : Worker} → IsWell w → act a w ≡ some v → IsWell v
act-IsWell a w h e = OnSome-some IsWell e (act-OnSome a w h)

-- Any run of the worker's steps and its callers' keeps it well-formed: its queue bounded, its flags
-- shown in the state, its channel open exactly while paused, and nobody blocked on a channel that no
-- `Resume` will close.
pub Run-IsWell : {w v : Worker} {as' : List Action} → IsWell w → Run w as' v → IsWell v
Run-IsWell h here = h
Run-IsWell h (step r e) = act-IsWell _ _ (Run-IsWell h r) e

closed_when_resumed :
    (job : Job) (ch : ℕ) (w : Worker)
    → IsWell w
    → w.phase ≡ blocked job ch
    → w.is_paused ≡ false
    → w.closed ch ≡ true
closed_when_resumed job ch w h p n =
    let (below, right) = subst (λ t. WaitsRight t w.resume_ch w.closed) p h.waits_right in
    elim (Bool-cases (w.closed ch)) [
      | inl shut ↦ shut
      | inr still ↦ ground (arith, right still, h.open_if_paused)
    ]

-- No lost wake-up: when the worker is blocked and not paused, the channel on which it waits is
-- closed, so that its select can go on.
pub blocked_can_wake :
    (job : Job) (ch : ℕ) (w : Worker)
    → IsWell w
    → w.phase ≡ blocked job ch
    → w.is_paused ≡ false
    → act wake w ≡ some (record w { phase = testing job })
unfolding act worker_step
blocked_can_wake job ch w h p n =
    subst (λ t. worker_step wake t w ≡ some (record w { phase = testing job })) (sym p)
      (rw (closed_when_resumed job ch w h p n))
