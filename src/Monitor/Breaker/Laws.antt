-- ===== src/Monitor/Breaker/Laws.antt =====
-- The circuit breaker: its invariant, and when it opens.
use lightroom_sync.Common.{
  ℕ, suc, ◌+◌, ◌≤◌, ◌<◌, ◌≡◌, refl, ◌∙◌, ◌≢◌, List, [], ◌∷◌, arith, length, All, ◌^◌,
}
use lightroom_sync.Common.Int64.{two63}
use lightroom_sync.Common.Text.{Text}
use lightroom_sync.Monitor.Breaker.{
  closed, open_, BreakerConfig, CircuitBreaker, new_circuit_breaker, allow, record_success,
  record_failure, Probe, healthy, failed, check_once, Check, run_checks,
}

pub record IsWell (b : CircuitBreaker) : Type 0 where
  pub threshold_positive : 1 ≤ b.cfg.failure_threshold
  pub threshold_small : b.cfg.failure_threshold < two63
  pub below : b.failures < b.cfg.failure_threshold
  pub counts_closed : b.state ≢ closed → b.failures ≡ 0

-- A new breaker is well-formed, whatever the configuration.
pub new_circuit_breaker-IsWell :
    (cfg : BreakerConfig) → cfg.failure_threshold < 2 ^ 64 → IsWell (new_circuit_breaker cfg)
unfolding new_circuit_breaker
new_circuit_breaker-IsWell cfg h = ground arith

-- Any check keeps the breaker well-formed: its count stays below the threshold, and is 0 unless
-- the breaker is closed.
pub check_once-IsWell :
    (now : ℕ) (p : Probe) (b : CircuitBreaker) → IsWell b → IsWell (check_once now p b)
unfolding check_once allow record_success record_failure
check_once-IsWell now p b h = ground arith

failure_closed :
    (now : ℕ) (text : Text) (b : CircuitBreaker)
    → IsWell b
    → b.state ≡ closed
    → suc b.failures < b.cfg.failure_threshold
    → ((check_once now (failed text) b).state ≡ closed)
      × ((check_once now (failed text) b).failures ≡ suc b.failures)
      × ((check_once now (failed text) b).cfg ≡ b.cfg)
unfolding check_once allow record_success record_failure
failure_closed now text b h c l = ground arith

failure_opens :
    (now : ℕ) (text : Text) (b : CircuitBreaker)
    → IsWell b
    → b.state ≡ closed
    → suc b.failures ≡ b.cfg.failure_threshold
    → ((check_once now (failed text) b).state ≡ open_)
      × ((check_once now (failed text) b).opened_at ≡ now)
unfolding check_once allow record_success record_failure
failure_opens now text b h c l = ground arith

abbrev pub IsFailing : Check → Type 0
IsFailing c = (text : Text) × (c.probe ≡ failed text)

failing_closed :
    (c : Check) (b : CircuitBreaker)
    → IsFailing c
    → IsWell b
    → b.state ≡ closed
    → suc b.failures < b.cfg.failure_threshold
    → ((check_once c.time c.probe b).state ≡ closed)
      × ((check_once c.time c.probe b).failures ≡ suc b.failures)
      × ((check_once c.time c.probe b).cfg ≡ b.cfg)
failing_closed c b (text, e) h s l = rw e (failure_closed c.time text b h s l)

run_failing :
    (cs : List Check) (b : CircuitBreaker)
    → All IsFailing cs
    → IsWell b
    → b.state ≡ closed
    → b.failures + length cs < b.cfg.failure_threshold
    → ((run_checks cs b).state ≡ closed)
      × ((run_checks cs b).failures ≡ b.failures + length cs)
      × ((run_checks cs b).cfg ≡ b.cfg)
      × IsWell (run_checks cs b)
unfolding run_checks
run_failing [] b f h s l = (s, omega arith, refl, h)
run_failing (c ∷ cs) b f h s l =
    let b' : CircuitBreaker = check_once c.time c.probe b in
    let (s', n', g') = failing_closed c b f.0 h s (omega arith) in
    let room : b'.failures + length cs < b'.cfg.failure_threshold = rw (n', g') (omega arith) in
    let (s'', n'', g'', h'') =
      run_failing cs b' f.1 (check_once-IsWell c.time c.probe b h) s' room in
    (s'', omega (arith, n', n''), g'' ∙ g', h'')

-- The breaker opens at the failure that reaches the threshold, and at none before: after a series
-- of failing checks from a closed breaker it is closed, and the next failing check opens it, if
-- with that one the failures are as many as the threshold.
pub opens_at_threshold :
    (cs : List Check) (c : Check) (b : CircuitBreaker)
    → All IsFailing cs
    → IsFailing c
    → IsWell b
    → b.state ≡ closed
    → suc (b.failures + length cs) ≡ b.cfg.failure_threshold
    → ((run_checks cs b).state ≡ closed)
      × ((check_once c.time c.probe (run_checks cs b)).state ≡ open_)
      × ((check_once c.time c.probe (run_checks cs b)).opened_at ≡ c.time)
opens_at_threshold cs c b f (text, e) h s l =
    let (s', n', g', h') = run_failing cs b f h s (omega arith) in
    let last : suc (run_checks cs b).failures ≡ (run_checks cs b).cfg.failure_threshold =
      rw (n', g') l in
    let opened = failure_opens c.time text (run_checks cs b) h' s' last in
    (s', rw e opened.0, rw e opened.1)

-- An open breaker keeps the probe from being asked until its timeout has passed: a check before
-- that changes nothing. The first check after it closes the breaker if the probe is healthy, and
-- opens it anew, from that time on, if it fails.
pub open_check :
    (now : ℕ) (p : Probe) (b : CircuitBreaker)
    → b.state ≡ open_
    → (now < b.opened_at + b.cfg.open_timeout → check_once now p b ≡ b)
      × (b.opened_at + b.cfg.open_timeout ≤ now
          → ((p ≡ healthy
                → ((check_once now p b).state ≡ closed) × ((check_once now p b).failures ≡ 0))
              × ((text : Text)
                  → p ≡ failed text
                  → ((check_once now p b).state ≡ open_) × ((check_once now p b).opened_at ≡ now))))
unfolding check_once allow record_success record_failure
open_check now p b s = (λ early. ground arith, λ late. (λ e. ground arith, λ text e. ground arith))
