-- ===== src/Monitor/Heartbeat/Retries.antt =====
-- How often a heartbeat is tried, and how long it waits in between.
use lightroom_sync.Common.{
  ℕ, zero, suc, ◌+◌, ◌*◌, ◌^◌, ◌≤◌, ◌<◌, ◌≡◌, refl, ◌∙◌, subst, sym, ap, false, List, [], ◌∷◌,
  arith, min,
}
use native.Mathlib.Nat.{mul_assoc, pow-suc}
use lightroom_sync.Monitor.Heartbeat.{
  Config, written, write_error, Answers, succeeded, gave_up, Retry, next_delay, retry_from,
  write_with_retry,
}

-- The attempts before the last one failed; the last one is what the end says.
abbrev pub IsRun : Answers → ℕ → Retry → Type 0
IsRun answers left r = (r.attempts ≤ left) × ((r.ending ≡ gave_up) → r.attempts ≡ left)

retry_from-IsRun :
    (retry_max : ℕ) (answers : Answers) (left attempt delay : ℕ)
    → IsRun answers left (retry_from retry_max answers left attempt delay)
unfolding retry_from
retry_from-IsRun retry_max answers zero attempt delay = (omega arith, λ h. refl)
retry_from-IsRun retry_max answers (suc left) attempt delay = (
  ground
      (arith, retry_from-IsRun retry_max answers left (suc attempt) (next_delay retry_max delay)),
  λ h.
      ground
        (arith, retry_from-IsRun retry_max answers left (suc attempt) (next_delay retry_max delay)),
)

-- An attempt that is answered with success or with an error of the context is the last one.
retry_from-last :
    (retry_max : ℕ) (answers : Answers) (left attempt delay k : ℕ)
    → let r = retry_from retry_max answers left attempt delay in
      suc k < r.attempts → answers.writes (attempt + k) ≡ write_error
unfolding retry_from
retry_from-last retry_max answers zero attempt delay k h = absurd (omega arith)
retry_from-last retry_max answers (suc left) attempt delay zero h =
    subst (λ t. answers.writes t ≡ write_error) (omega arith) (first h)
  where
    first :
        1 < (retry_from retry_max answers (suc left) attempt delay).attempts
        → answers.writes attempt ≡ write_error
    first h = ground (arith, h)
retry_from-last retry_max answers (suc left) attempt delay (suc k) h =
    let inner : suc k
        < (retry_from retry_max answers left (suc attempt) (next_delay retry_max delay)).attempts =
      ground (arith, h) in
    subst (λ t. answers.writes t ≡ write_error) (omega arith)
      (retry_from-last retry_max answers left (suc attempt) (next_delay retry_max delay) k inner)

-- The wait behind the attempt `i`, counted from 0: the base doubled `i` times, at most the maximum.
-- The first one is the base itself.
unfoldable pub backoff : Config → ℕ → ℕ
backoff cfg zero = cfg.retry_base
backoff cfg (suc i) = min (cfg.retry_base * 2 ^ suc i) cfg.retry_max

abbrev pub Follows : Config → ℕ → List ℕ → Type 0
Follows cfg i [] = Unit
Follows cfg i (d ∷ ds) = (d ≡ backoff cfg i) × Follows cfg (suc i) ds

next_delay-min : (m x y : ℕ) → y ≡ x * 2 → next_delay m (min x m) ≡ min y m
next_delay-min m x y h = ground arith

next_delay-backoff :
    (cfg : Config) (i : ℕ) → next_delay cfg.retry_max (backoff cfg i) ≡ backoff cfg (suc i)
unfolding backoff
next_delay-backoff cfg zero = ground arith
next_delay-backoff cfg (suc i) = next_delay-min cfg.retry_max (cfg.retry_base * 2 ^ suc i) _ (
    ap (λ t. cfg.retry_base * t) (pow-suc 2 (suc i)) ∙ sym (mul_assoc cfg.retry_base (2 ^ suc i) 2))

backoff_first : (cfg : Config) → cfg.retry_base ≡ backoff cfg 0
unfolding backoff
backoff_first cfg = refl

retry_from-Follows :
    (cfg : Config) (answers : Answers) (left attempt delay i : ℕ)
    → delay ≡ backoff cfg i
    → Follows cfg i (retry_from cfg.retry_max answers left attempt delay).delays
unfolding retry_from
retry_from-Follows cfg answers zero attempt delay i h = tt
retry_from-Follows cfg answers (suc left) attempt delay i h = ground (
  arith,
  retry_from-Follows cfg answers left (suc attempt) (next_delay cfg.retry_max delay) (suc i)
      (ap (next_delay cfg.retry_max) h ∙ next_delay-backoff cfg i),
)

-- A heartbeat is tried as often as configured at most, and exactly as often before it is given up;
-- each attempt but the last one failed, with no error of the context; and the waits in between double
-- from the base on, up to the maximum.
pub write_with_retry-bounded :
    (cfg : Config) (answers : Answers)
    → let r = write_with_retry cfg answers in
      IsRun answers cfg.max_retries r
      × (((k : ℕ) → suc k < r.attempts → answers.writes (1 + k) ≡ write_error)
          × Follows cfg 0 r.delays)
unfolding write_with_retry
write_with_retry-bounded cfg answers = (
  retry_from-IsRun cfg.retry_max answers cfg.max_retries 1 cfg.retry_base,
  (
    retry_from-last cfg.retry_max answers cfg.max_retries 1 cfg.retry_base,
    retry_from-Follows cfg answers cfg.max_retries 1 cfg.retry_base 0 (backoff_first cfg),
  ),
)

shift : (a j : ℕ) → a + suc j ≡ suc a + j
shift a j = omega arith

retry_from-succeeds :
    (retry_max : ℕ) (answers : Answers) (left attempt delay k : ℕ)
    → k < left
    → ((j : ℕ)
        → j < k
        → (answers.writes (attempt + j) ≡ write_error)
          × (answers.cancelled_in_wait (attempt + j) ≡ false))
    → answers.writes (attempt + k) ≡ written
    → let r = retry_from retry_max answers left attempt delay in
      (r.ending ≡ succeeded) × (r.attempts ≡ suc k)
unfolding retry_from
retry_from-succeeds retry_max answers zero attempt delay k h before w = absurd (omega arith)
retry_from-succeeds retry_max answers (suc left) attempt delay zero h before w =
    let now : answers.writes attempt ≡ written =
      subst (λ t. answers.writes t ≡ written) (omega arith) w in
    (ground (arith, now), ground (arith, now))
retry_from-succeeds retry_max answers (suc left) attempt delay (suc k) h before w =
    let (failed, waited) = before 0 (omega arith) in
    let failed_now : answers.writes attempt ≡ write_error =
      subst (λ t. answers.writes t ≡ write_error) (omega arith) failed in
    let waited_now : answers.cancelled_in_wait attempt ≡ false =
      subst (λ t. answers.cancelled_in_wait t ≡ false) (omega arith) waited in
    let rest =
      retry_from-succeeds retry_max answers left (suc attempt) (next_delay retry_max delay) k
        (omega arith)
        (λ j hj.
          subst (λ t. (answers.writes t ≡ write_error) × (answers.cancelled_in_wait t ≡ false))
            (shift attempt j) (before (suc j) (omega arith)))
        (subst (λ t. answers.writes t ≡ written) (shift attempt k) w) in
    (ground (arith, failed_now, waited_now, rest.0), ground (arith, failed_now, waited_now, rest.1))

-- A heartbeat succeeds at the first attempt that is answered with success, if this is one of the
-- configured number, those before it failed otherwise than by the context, and no wait is cut short.
pub write_with_retry-succeeds :
    (cfg : Config) (answers : Answers) (k : ℕ)
    → k < cfg.max_retries
    → ((j : ℕ)
        → j < k
        → (answers.writes (1 + j) ≡ write_error) × (answers.cancelled_in_wait (1 + j) ≡ false))
    → answers.writes (1 + k) ≡ written
    → let r = write_with_retry cfg answers in (r.ending ≡ succeeded) × (r.attempts ≡ suc k)
unfolding write_with_retry
write_with_retry-succeeds cfg answers k h before w =
    retry_from-succeeds cfg.retry_max answers cfg.max_retries 1 cfg.retry_base k h before w
