-- ===== src/Coordinator/Worker/Pausing.antt =====
-- What a pause prevents: jobs that begin before the next resume.
use lightroom_sync.Common.{
  ℕ, ◌+◌, ◌≤◌, ◌≡◌, sym, subst, true, List, [], ◌∷◌, arith, OnSome, OnSome-some, length,
  length-append,
}
use lightroom_sync.Coordinator.Worker.{
  Job, Phase, receiving, testing, blocked, cleared, running, Worker, pause, enqueue, begin_job,
  end_job, Action, do_pause, do_resume, receive, test, wake, cancel, do_enqueue, begin, finish,
  other, warn, receive_step, worker_step, act, Run, here, step,
}
use lightroom_sync.Coordinator.Worker.Order.{begun, begun_in}

-- No action of the run is a resume.
abbrev pub NoResume : List Action → Type 0
NoResume [] = Unit
NoResume (do_resume ∷ as') = ⊥
NoResume (_ ∷ as') = NoResume as'

-- 1 where `waitUntilResumed` has already let a job through.
abbrev pub let_through : Phase → ℕ
let_through (cleared job) = 1
let_through _ = 0

abbrev IsBounded : Action → Phase → Worker → Type 0
IsBounded a p v =
    (v.is_paused ≡ true) × (length (begun_in a p) + let_through v.phase ≤ let_through p)

receive_step-IsBounded :
    (l : List Job) (w : Worker)
    → w.is_paused ≡ true
    → OnSome (IsBounded receive receiving) (receive_step l w)
unfolding receive_step
receive_step-IsBounded [] w h = tt
receive_step-IsBounded (job ∷ rest) w h = (h, omega arith)

worker_step-IsBounded :
    (a : Action) (p : Phase) (w : Worker)
    → w.is_paused ≡ true
    → OnSome (IsBounded a p) (worker_step a p w)
unfolding worker_step begin_job end_job
worker_step-IsBounded receive receiving w h = receive_step-IsBounded w.queue w h
worker_step-IsBounded cancel receiving w h = (h, omega arith)
worker_step-IsBounded test (testing job) w h = ground arith
worker_step-IsBounded wake (blocked job ch) w h = ground arith
worker_step-IsBounded cancel (blocked job ch) w h = (h, omega arith)
worker_step-IsBounded (begin now) (cleared job) w h = (h, omega arith)
worker_step-IsBounded (finish err) (running job op) w h = (h, omega arith)
worker_step-IsBounded _ _ w h = tt

pause_again : (w : Worker) → w.is_paused ≡ true → pause w ≡ w
unfolding pause
pause_again w h = simp h

act-IsBounded :
    (a : Action) (w : Worker)
    → NoResume (a ∷ [])
    → w.is_paused ≡ true
    → OnSome (IsBounded a w.phase) (act a w)
unfolding act enqueue
act-IsBounded do_pause w n h =
    subst (IsBounded do_pause w.phase) (sym (pause_again w h)) (h, omega arith)
act-IsBounded do_resume w n h = elim n [ ]
act-IsBounded (do_enqueue job) w n h = ground arith
act-IsBounded (other u) w n h = ground arith
act-IsBounded (warn text) w n h = ground arith
act-IsBounded a w n h = worker_step-IsBounded a w.phase w h

NoResume-head : (a : Action) (as' : List Action) → NoResume (a ∷ as') → NoResume (a ∷ [])
NoResume-head do_resume as' h = h
NoResume-head _ as' h = tt

NoResume-tail : (a : Action) (as' : List Action) → NoResume (a ∷ as') → NoResume as'
NoResume-tail do_resume as' h = elim h [ ]
NoResume-tail _ as' h = h

paused_bound :
    {w v : Worker} {as' : List Action} (r : Run w as' v)
    → NoResume as'
    → w.is_paused ≡ true
    → (v.is_paused ≡ true) × (length (begun r) + let_through v.phase ≤ let_through w.phase)
unfolding begun
paused_bound here n h = (h, omega arith)
paused_bound (step {as' = as'} {u = u} {v = v} {a = a} r e) n h =
    let before = paused_bound r (NoResume-tail a as' n) h in
    let now =
      OnSome-some (IsBounded a u.phase) e (act-IsBounded a u (NoResume-head a as' n) before.0) in
    (now.0, omega (arith, before, now, length-append {0} (begun r) (begun_in a u.phase)))

-- Until the next resume a paused worker begins no job, but for the one that had passed the test
-- of the flag before the pause, if there is one.
pub paused_begins :
    {w v : Worker} {as' : List Action} (r : Run w as' v)
    → NoResume as'
    → w.is_paused ≡ true
    → length (begun r) ≤ let_through w.phase
paused_begins r n h = omega (arith, paused_bound r n h)
