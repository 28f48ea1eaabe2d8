-- ===== src/Monitor/Heartbeat.antt =====
-- HeartbeatManager (internal/monitor/heartbeat.go): writeWithRetry. Durations are nanoseconds, and
-- one that is not positive in the configuration is 0 here; doubling does not overflow for less than
-- 146 years.
pub mod Retries
pub mod Beats
use lightroom_sync.Common.{
  ℕ, zero, suc, ◌+◌, ◌*◌, ◌≤◌, Bool, true, false, List, [], ◌∷◌, ltb, ◌==◌, if◌then◌else◌,
}

pub record Config : Type 0 where
  pub interval : ℕ
  pub retry_base : ℕ
  pub retry_max : ℕ
  pub max_retries : ℕ
  pub shutdown_timeout : ℕ

-- The defaults of `NewHeartbeatManager`.
unfoldable pub new_config : Config → Config
new_config c = record {
  interval = if c.interval == 0 then 30 * 1000000000 else c.interval;
  retry_base = if c.retry_base == 0 then 500 * 1000000 else c.retry_base;
  retry_max = if c.retry_max == 0 then 5 * 1000000000 else c.retry_max;
  max_retries = if c.max_retries == 0 then 3 else c.max_retries;
  shutdown_timeout = if c.shutdown_timeout == 0 then 2 * 1000000000 else c.shutdown_timeout;
}

-- What `WriteLock` returns: nil, an error of the context, or another error.
pub data Write : Type 0 where
  written : Write
  context_error : Write
  write_error : Write

-- Which attempt is answered how, and whether the context ends while the timer after it runs.
pub record Answers : Type 0 where
  pub writes : ℕ → Write
  pub cancelled_in_wait : ℕ → Bool

pub data Ending : Type 0 where
  succeeded : Ending
  cancelled : Ending
  gave_up : Ending

-- The attempts made, the timers started between them, and the end.
pub record Retry : Type 0 where
  pub attempts : ℕ
  pub delays : List ℕ
  pub ending : Ending

abbrev ended : Ending → Retry
ended e = record { attempts = 1; delays = []; ending = e }

abbrev pub after_delay : ℕ → Retry → Retry
after_delay delay r = record r { attempts = suc r.attempts; delays = delay ∷ r.delays }

-- `delay *= 2`, at most `RetryMax`.
abbrev pub next_delay : ℕ → ℕ → ℕ
next_delay retry_max delay = if ltb retry_max (delay * 2) then retry_max else delay * 2

-- The loop with `left` attempts left, the next one being `attempt`.
unfoldable pub retry_from : ℕ → Answers → ℕ → ℕ → ℕ → Retry
retry_from retry_max answers zero attempt delay = record {
  attempts = 0;
  delays = [];
  ending = gave_up;
}
retry_from retry_max answers (suc left) attempt delay =
    let rest = retry_from retry_max answers left (suc attempt) (next_delay retry_max delay) in
    elim (answers.writes attempt) [
      | written ↦ ended succeeded
      | context_error ↦ ended cancelled
      | write_error ↦
          if left == 0
          then ended gave_up
          else if answers.cancelled_in_wait attempt
          then record { attempts = 1; delays = delay ∷ []; ending = cancelled }
          else after_delay delay rest
    ]

unfoldable pub write_with_retry : Config → Answers → Retry
write_with_retry cfg answers = retry_from cfg.retry_max answers cfg.max_retries 1 cfg.retry_base
