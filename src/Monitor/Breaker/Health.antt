-- ===== src/Monitor/Breaker/Health.antt =====
-- The notices of the share health monitor against the state of its breaker.
use mathlib.Core.List.{append_assoc, append-nil}
use lightroom_sync.Common.{
  ℕ, ◌≡◌, refl, ap, ◌≢◌, Bool-cases, inl, inr, sym, Bool, true, false, not, Option, none, some,
  List, [], ◌∷◌, ◌++◌, arith,
}
use lightroom_sync.Common.Text.{Text}
use lightroom_sync.Monitor.Breaker.{
  closed, open_, half_open, Change, CircuitBreaker, allow, record_success, record_failure, Probe,
  absent, healthy, failed, check_once, Check, run_checks, same_state, Notice, network_lost,
  network_recovered, notice_of, notices,
}

-- What a listener believes after the notices: whether there is an outage.
unfoldable pub outage_after : Bool → List Notice → Bool
outage_after o [] = o
outage_after o (network_lost c ∷ ns) = outage_after true ns
outage_after o (network_recovered ∷ ns) = outage_after false ns

outage_after-append :
    (o : Bool) (ns ms : List Notice)
    → outage_after o (ns ++ ms) ≡ outage_after (outage_after o ns) ms
unfolding outage_after
outage_after-append o [] ms = refl
outage_after-append o (network_lost c ∷ ns) ms = outage_after-append true ns ms
outage_after-append o (network_recovered ∷ ns) ms = outage_after-append false ns ms

notices-append : (cs ds : List Change) → notices (cs ++ ds) ≡ notices cs ++ notices ds
unfolding notices
notices-append [] ds = refl
notices-append (c ∷ cs) ds =
    rw (notices-append cs ds) (sym (append_assoc (notice_of c) (notices cs) (notices ds)))

-- What a listener believes is true: there is an outage exactly while the breaker is not closed.
abbrev pub Believed : CircuitBreaker → Type 0
Believed b = outage_after false (notices b.changes) ≡ not (same_state b.state closed)

outage_cons :
    (cs : List Change) (c : Change)
    → outage_after false (notices (cs ++ (c ∷ [])))
      ≡ outage_after (outage_after false (notices cs)) (notice_of c)
unfolding notices
outage_cons cs c =
    rw notices-append (rw outage_after-append (ap (outage_after _) (append-nil (notice_of c))))

-- With the last change known, the belief follows from the one before.
allow-Believed :
    (now : ℕ) (b : CircuitBreaker)
    → Believed b
    → Believed (allow now b).0 × ((allow now b).1 ≡ true → (allow now b).0.state ≢ open_)
unfolding allow notice_of outage_after
allow-Believed now b h =
    let c : Change = record { from = b.state; to = half_open; cause = none } in
    (ground (arith, outage_cons b.changes c), λ e. ground arith)

record_success-Believed :
    (b : CircuitBreaker) → b.state ≢ open_ → Believed b → Believed (record_success b)
unfolding record_success notice_of outage_after
record_success-Believed b n h =
    let c : Change = record { from = b.state; to = closed; cause = none } in
    ground (arith, outage_cons b.changes c)

record_failure-Believed :
    (now : ℕ) (cause : Option Text) (b : CircuitBreaker)
    → Believed b
    → Believed (record_failure now cause b)
unfolding record_failure notice_of outage_after
record_failure-Believed now cause b h =
    let c : Change = record { from = b.state; to = open_; cause = cause } in
    ground (arith, outage_cons b.changes c)

probed :
    (now : ℕ) (p : Probe) (b : CircuitBreaker)
    → b.state ≢ open_
    → Believed b
    → Believed (elim p [
      | absent ↦ b
      | healthy ↦ record_success b
      | failed text ↦ record_failure now (some text) b
    ])
probed now absent b n h = h
probed now healthy b n h = record_success-Believed b n h
probed now (failed text) b n h = record_failure-Believed now (some text) b h

check_once-Believed :
    (now : ℕ) (p : Probe) (b : CircuitBreaker) → Believed b → Believed (check_once now p b)
unfolding check_once
check_once-Believed now p b h =
    let (h', shut) = allow-Believed now b h in
    elim (Bool-cases (allow now b).1) [
      | inl yes_allowed ↦ simp yes_allowed (probed now p (allow now b).0 (shut yes_allowed) h')
      | inr denied ↦ simp denied h'
    ]

-- After any checks from a new monitor the notices tell the truth: a listener that knows only them
-- believes in an outage exactly if the breaker is not closed.
pub run_checks-Believed :
    (cs : List Check) (b : CircuitBreaker) → Believed b → Believed (run_checks cs b)
unfolding run_checks
run_checks-Believed [] b h = h
run_checks-Believed (c ∷ cs) b h = run_checks-Believed cs _ (check_once-Believed c.time c.probe b h)
