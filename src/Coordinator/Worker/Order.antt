-- ===== src/Coordinator/Worker/Order.antt =====
-- The worker as a queue: which jobs it accepts and begins, in which order.
use mathlib.Core.List.{append_assoc, append-nil}
use lightroom_sync.Common.{
  ◌≡◌, refl, ◌∙◌, ap, sym, Option, none, some, List, [], ◌∷◌, ◌++◌, arith, OnSome, OnSome-some,
  OnSome-map, Bool-cases, inl, inr,
}
use lightroom_sync.Coordinator.Worker.{
  Job, EnqueueError, Phase, receiving, testing, blocked, cleared, running, stopped, Worker, pause,
  resume, enqueue, begin_job, end_job, Action, do_pause, do_resume, receive, test, wake, cancel,
  do_enqueue, begin, finish, other, warn, receive_step, worker_step, act, Run, here, step,
}
use lightroom_sync.Coordinator.State.Colors.{is_other}

abbrev accepted_if : Option EnqueueError → Job → List Job
accepted_if none job = job ∷ []
accepted_if (some _) job = []

-- The job that a step adds to the queue: that of an `Enqueue` that returns no error.
abbrev pub accepted_by : Action → Worker → List Job
accepted_by (do_enqueue job) w = accepted_if (enqueue job w).1 job
accepted_by _ w = []

abbrev pub begun_in : Action → Phase → List Job
begun_in (begin now) (cleared job) = job ∷ []
begun_in _ _ = []

-- All jobs that a run accepts, and all that it begins to execute, in order.
unfoldable pub accepted : {w v : Worker} {as' : List Action} → Run w as' v → List Job
accepted here = []
accepted (step {u = u} {a = a} r e) = accepted r ++ accepted_by a u

unfoldable pub begun : {w v : Worker} {as' : List Action} → Run w as' v → List Job
begun here = []
begun (step {u = u} {a = a} r e) = begun r ++ begun_in a u.phase

-- The job that was received and is not begun.
abbrev pub in_hand : Phase → List Job
in_hand (testing job) = job ∷ []
in_hand (blocked job ch) = job ∷ []
in_hand (cleared job) = job ∷ []
in_hand (stopped l) = l
in_hand _ = []

abbrev pending : Worker → List Job
pending w = in_hand w.phase ++ w.queue

receive_step-pending : (l : List Job) (w : Worker) → OnSome (λ v. pending v ≡ l) (receive_step l w)
unfolding receive_step
receive_step-pending [] w = tt
receive_step-pending (job ∷ rest) w = refl

worker_step-pending :
    (a : Action) (p : Phase) (w : Worker)
    → OnSome (λ v. begun_in a p ++ pending v ≡ (in_hand p ++ w.queue)) (worker_step a p w)
unfolding worker_step begin_job end_job
worker_step-pending receive receiving w = receive_step-pending w.queue w
worker_step-pending cancel receiving w = refl
worker_step-pending test (testing job) w = ground arith
worker_step-pending wake (blocked job ch) w = ground arith
worker_step-pending cancel (blocked job ch) w = refl
worker_step-pending (begin now) (cleared job) w = refl
worker_step-pending (finish err) (running job op) w = refl
worker_step-pending _ _ w = tt

enqueue-pending :
    (job : Job) (w : Worker)
    → pending (enqueue job w).0 ≡ pending w ++ accepted_by (do_enqueue job) w
unfolding enqueue
enqueue-pending job w =
    ground (arith, append-nil (pending w), append_assoc (in_hand w.phase) w.queue (job ∷ []))

pause-pending : (w : Worker) → pending (pause w) ≡ pending w
unfolding pause
pause-pending w = elim (Bool-cases w.is_paused) [ inl y ↦ simp y | inr n ↦ simp n ]

resume-pending : (w : Worker) → pending (resume w) ≡ pending w
unfolding resume
resume-pending w = elim (Bool-cases w.is_paused) [ inl y ↦ simp y | inr n ↦ simp n ]

act-pending :
    (a : Action) (w : Worker)
    → OnSome (λ v. begun_in a w.phase ++ pending v ≡ pending w ++ accepted_by a w) (act a w)
unfolding act
act-pending do_pause w = pause-pending w ∙ sym (append-nil _)
act-pending do_resume w = resume-pending w ∙ sym (append-nil _)
act-pending (do_enqueue job) w = enqueue-pending job w
act-pending (other u) w = elim (Bool-cases (is_other u)) [
  | inl o ↦ rw o (sym (append-nil _))
  | inr n ↦ rw n tt
]
act-pending (warn text) w = sym (append-nil _)
act-pending a w =
    OnSome-map (worker_step a w.phase w) (λ v h. h ∙ sym (append-nil _))
      (worker_step-pending a w.phase w)

-- First in, first out, each job once: the jobs that a run begins, then the one in hand, then those
-- in the queue, are the jobs that were there at its start and the accepted ones, in that order.
pub Run-order :
    {w v : Worker} {as' : List Action} (r : Run w as' v)
    → begun r ++ (in_hand v.phase ++ v.queue) ≡ (in_hand w.phase ++ w.queue) ++ accepted r
unfolding begun accepted
Run-order here = sym (append-nil _)
Run-order (step {u = u} {v = v} {a = a} r e) =
    let one =
      OnSome-some (λ t. begun_in a u.phase ++ pending t ≡ pending u ++ accepted_by a u) e
        (act-pending a u) in
    append_assoc (begun r) (begun_in a u.phase) (pending v)
    ∙ ap (λ t. begun r ++ t) one
    ∙ sym (append_assoc (begun r) (pending u) (accepted_by a u))
    ∙ ap (λ t. t ++ accepted_by a u) (Run-order r)
    ∙ append_assoc _ (accepted r) (accepted_by a u)
