-- ===== src/Coordinator/Worker/Queue.antt =====
-- What the steps of the sync worker do to its queue: only `Enqueue` makes it longer.
use lightroom_sync.Common.{
  ◌≡◌, ◌⊎◌, refl, inl, inr, Bool, true, false, List, [], ◌∷◌, OnSome, arith, Bool-cases,
}
use lightroom_sync.Coordinator.State.Colors.{is_other}
use lightroom_sync.Coordinator.Worker.{
  Job, Worker, Phase, receiving, testing, blocked, cleared, running, Action, receive, test, wake,
  cancel, begin, finish, do_pause, do_resume, do_enqueue, other, warn, receive_step, worker_step,
  act, pause, resume, begin_job, end_job,
}

-- The queue is as it was, or its first job is gone.
abbrev pub Shrinks : List Job → List Job → Type 0
Shrinks before after = (after ≡ before) ⊎ ((j : Job) × (before ≡ j ∷ after))

receive_step-Shrinks :
    (l : List Job) (w : Worker) → OnSome (λ v. Shrinks l v.queue) (receive_step l w)
unfolding receive_step
receive_step-Shrinks [] w = tt
receive_step-Shrinks (job ∷ rest) w = inr (job, refl)

worker_step-Shrinks :
    (a : Action) (p : Phase) (w : Worker)
    → OnSome (λ v. Shrinks w.queue v.queue) (worker_step a p w)
unfolding worker_step begin_job end_job
worker_step-Shrinks receive receiving w = receive_step-Shrinks w.queue w
worker_step-Shrinks cancel receiving w = inl refl
worker_step-Shrinks test (testing job) w = inl refl
worker_step-Shrinks wake (blocked job ch) w = elim (Bool-cases (w.closed ch)) [
  | inl o ↦ rw o (inl refl)
  | inr n ↦ rw n tt
]
worker_step-Shrinks cancel (blocked job ch) w = inl refl
worker_step-Shrinks (begin now) (cleared job) w = inl refl
worker_step-Shrinks (finish err) (running job op) w = inl refl
worker_step-Shrinks _ _ w = tt

abbrev pub is_enqueue : Action → Bool
is_enqueue (do_enqueue job) = true
is_enqueue _ = false

-- No other action adds a job to the queue.
pub act-Shrinks :
    (a : Action) (w : Worker)
    → is_enqueue a ≡ false
    → OnSome (λ v. Shrinks w.queue v.queue) (act a w)
unfolding act pause resume
act-Shrinks do_pause w h = inl (ground arith)
act-Shrinks do_resume w h = inl (ground arith)
act-Shrinks (do_enqueue job) w h = absurd cc
act-Shrinks (other u) w h = elim (Bool-cases (is_other u)) [
  | inl o ↦ rw o (inl refl)
  | inr n ↦ rw n tt
]
act-Shrinks (warn text) w h = inl refl
act-Shrinks a w h = worker_step-Shrinks a w.phase w
