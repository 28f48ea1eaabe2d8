-- ===== src/Coordinator/Worker/Progress.antt =====
-- What the worker gets done when it is not paused.
use mathlib.Core.List.{append-nil}
use lightroom_sync.Common.{
  ℕ, ◌≡◌, refl, ap, if◌then◌else◌, ◌∙◌, sym, Bool, false, Option, some, List, [], ◌∷◌, ◌++◌,
}
use lightroom_sync.Common.Text.{Text}
use lightroom_sync.Coordinator.Worker.Order.{begun, accepted, Run-order, in_hand}
use lightroom_sync.Coordinator.Worker.{
  Job, Phase, receiving, testing, blocked, cleared, do_enqueue, Worker, operation_of, begin_job,
  end_job, Action, receive, test, begin, finish, worker_step, receive_step, act, Run, here, step,
}

-- The worker's four steps for each queued job, the last step first; `outcome` is what `Execute`
-- returns for it.
pub rounds : ℕ → (Job → Option Text) → List Job → List Action
rounds now outcome [] = []
rounds now outcome (job ∷ jobs) =
    rounds now outcome jobs ++ (finish (outcome job) ∷ begin now ∷ test ∷ receive ∷ [])

pub Run-append :
    {u v w : Worker} {as' bs : List Action} → Run u as' v → Run v bs w → Run u (bs ++ as') w
Run-append r here = r
Run-append r (step s e) = step (Run-append r s) e

-- Behind one round.
after_round : ℕ → (Job → Option Text) → Job → List Job → Worker → Worker
after_round now outcome job rest w =
    end_job job (operation_of job now) (outcome job)
      (begin_job job now (record w { queue = rest; phase = cleared job }))

one_round :
    (now : ℕ) (outcome : Job → Option Text) (job : Job) (rest : List Job) (w : Worker)
    → w.queue ≡ job ∷ rest
    → w.phase ≡ receiving
    → w.is_paused ≡ false
    → Run w
        (finish (outcome job) ∷ begin now ∷ test ∷ receive ∷ [])
        (after_round now outcome job rest w)
unfolding act worker_step receive_step after_round begin_job
one_round now outcome job rest w q p n =
    step {u = begin_job job now (record w { queue = rest; phase = cleared job })}
      (step {u = record w { queue = rest; phase = cleared job }}
        (step {u = record w { queue = rest; phase = testing job }} (step here taken) passed) refl)
      refl
  where
    taken : act receive w ≡ some (record w { queue = rest; phase = testing job })
    taken = ap (λ t. worker_step receive t w) p ∙ ap (λ l. receive_step l w) q

    passed :
        act test (record w { queue = rest; phase = testing job })
        ≡ some (record w { queue = rest; phase = cleared job })
    passed =
        ap
          (λ (t : Bool).
            some (record w {
              queue = rest;
              phase = if t then blocked job w.resume_ch else cleared job;
            }))
          n

all_done_from :
    (now : ℕ) (outcome : Job → Option Text) (jobs : List Job) (w : Worker)
    → w.queue ≡ jobs
    → w.phase ≡ receiving
    → w.is_paused ≡ false
    → (v : Worker) × Run w (rounds now outcome jobs) v × (v.queue ≡ []) × (v.phase ≡ receiving)
unfolding rounds after_round begin_job end_job
all_done_from now outcome [] w q p n = (w, here, q, p)
all_done_from now outcome (job ∷ rest) w q p n =
    let (v, later, empty, idle) =
      all_done_from now outcome rest (after_round now outcome job rest w) refl refl n in
    (v, Run-append (one_round now outcome job rest w q p n) later, empty, idle)

abbrev NoEnqueue : List Action → Type 0
NoEnqueue [] = Unit
NoEnqueue (do_enqueue job ∷ as') = ⊥
NoEnqueue (_ ∷ as') = NoEnqueue as'

NoEnqueue-append : (as' bs : List Action) → NoEnqueue as' → NoEnqueue bs → NoEnqueue (as' ++ bs)
NoEnqueue-append [] bs h k = k
NoEnqueue-append (do_enqueue job ∷ as') bs h k = h
NoEnqueue-append (_ ∷ as') bs h k = NoEnqueue-append as' bs h k

rounds-NoEnqueue :
    (now : ℕ) (outcome : Job → Option Text) (jobs : List Job) → NoEnqueue (rounds now outcome jobs)
unfolding rounds
rounds-NoEnqueue now outcome [] = tt
rounds-NoEnqueue now outcome (job ∷ jobs) =
    NoEnqueue-append (rounds now outcome jobs)
      (finish (outcome job) ∷ begin now ∷ test ∷ receive ∷ []) (rounds-NoEnqueue now outcome jobs)
      tt

accepted_none :
    {w v : Worker} {as' : List Action} (r : Run w as' v) → NoEnqueue as' → accepted r ≡ []
unfolding accepted
accepted_none here h = refl
accepted_none (step {a = do_enqueue job} r e) h = elim h [ ]
accepted_none (step r e) h = append-nil _ ∙ accepted_none r h

-- What the order of jobs says where nothing is pending at the end, and nothing is added.
begun_all :
    (b q q' added : List Job) (p p' : Phase)
    → p ≡ receiving
    → p' ≡ receiving
    → q' ≡ []
    → added ≡ []
    → b ++ (in_hand p' ++ q') ≡ (in_hand p ++ q) ++ added
    → b ≡ q
begun_all b q q' added p p' e e' none_left none_added h =
    let left : in_hand p' ++ q' ≡ [] = rw (e', none_left) in
    let right : (in_hand p ++ q) ++ added ≡ q = rw (e, none_added) (append-nil q) in
    sym (append-nil b) ∙ ap (λ t. b ++ t) (sym left) ∙ h ∙ right

-- A worker that is idle and not paused can run all queued jobs to their end, in their order and
-- whatever their outcomes: a failed job does not keep the later ones from running.
pub all_jobs_done :
    (now : ℕ) (outcome : Job → Option Text) (w : Worker)
    → w.phase ≡ receiving
    → w.is_paused ≡ false
    → ((v : Worker) × (r : Run w (rounds now outcome w.queue) v) × (v.queue ≡ [])
        × (v.phase ≡ receiving)
        × (begun r ≡ w.queue))
all_jobs_done now outcome w p n =
    let (v, r, empty, idle) = all_done_from now outcome w.queue w refl p n in
    let quiet = accepted_none r (rounds-NoEnqueue now outcome w.queue) in
    (
      v,
      r,
      empty,
      idle,
      begun_all _ w.queue v.queue _ w.phase v.phase p idle empty quiet (Run-order r),
    )
