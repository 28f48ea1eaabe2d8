-- ===== src/Monitor/Breaker.antt =====
-- CircuitBreaker and ShareHealthMonitor (internal/monitor/network_health.go). Times and durations
-- are nanoseconds; a configured value is a 64-bit pattern, which may be negative.
pub mod Laws
pub mod Health
use lightroom_sync.Common.{
  ℕ, ◌+◌, Bool, true, false, ◌&&◌, not, Option, none, some, List, [], ◌∷◌, ◌++◌, ltb, leb,
  if◌then◌else◌,
}
use lightroom_sync.Common.Int64.{add64, le64}
use lightroom_sync.Common.Text.{Text}

pub data BreakerState : Type 0 where
  closed open_ half_open : BreakerState

pub record BreakerConfig : Type 0 where
  pub failure_threshold : ℕ  -- int
  pub open_timeout : ℕ  -- time.Duration

-- A call of `onStateChange`; a cause is the text of an error.
pub record Change : Type 0 where
  pub from : BreakerState
  pub to : BreakerState
  pub cause : Option Text

-- `changes` are the calls of the hook so far.
pub record CircuitBreaker : Type 0 where
  pub state : BreakerState
  pub failures : ℕ  -- int
  pub opened_at : ℕ
  pub cfg : BreakerConfig
  pub changes : List Change

unfoldable pub new_circuit_breaker : BreakerConfig → CircuitBreaker
new_circuit_breaker cfg = record {
  state = closed;
  failures = 0;
  opened_at = 0;
  cfg = record {
    failure_threshold = if le64 cfg.failure_threshold 0 then 3 else cfg.failure_threshold;
    open_timeout = if le64 cfg.open_timeout 0 then 10_000_000_000 else cfg.open_timeout;
  };
  changes = [];
}

abbrev pub same_state : BreakerState → BreakerState → Bool
same_state closed closed = true
same_state open_ open_ = true
same_state half_open half_open = true
same_state _ _ = false

unfoldable pub transition_locked : BreakerState → Option Text → CircuitBreaker → CircuitBreaker
transition_locked to cause b = if same_state b.state to then b else record b {
  state = to;
  changes = b.changes ++ (record { from = b.state; to = to; cause = cause } ∷ []);
}

unfoldable pub open_locked : ℕ → Option Text → CircuitBreaker → CircuitBreaker
unfolding transition_locked
open_locked now cause b = transition_locked open_ cause (record b { opened_at = now; failures = 0 })

-- `now.Sub(b.openedAt) < OpenTimeout`, without the subtraction.
unfoldable pub allow : ℕ → CircuitBreaker → CircuitBreaker × Bool
unfolding transition_locked
allow now b =
    if same_state b.state open_
    then (if ltb now (b.opened_at + b.cfg.open_timeout)
        then (b, false)
        else (transition_locked half_open none b, true))
    else (b, true)

unfoldable pub record_success : CircuitBreaker → CircuitBreaker
record_success b =
    let calm = record b { failures = 0; state = closed } in
    if same_state b.state closed then calm else record calm {
      changes = b.changes ++ (record { from = b.state; to = closed; cause = none } ∷ []);
    }

unfoldable pub record_failure : ℕ → Option Text → CircuitBreaker → CircuitBreaker
unfolding open_locked
record_failure now cause b = elim b.state [
  | half_open ↦ open_locked now cause b
  | closed ↦
      let counted = record b { failures = add64 b.failures 1 } in
      if le64 b.cfg.failure_threshold counted.failures
      then open_locked now cause counted
      else counted
  | open_ ↦ b
]

-- What the monitor calls: `OnNetworkLost` and `OnNetworkRecovered`.
pub data Notice : Type 0 where
  network_lost : Option Text → Notice
  network_recovered : Notice

-- The hook that `NewShareHealthMonitor` gives its breaker, both hooks set.
unfoldable pub notice_of : Change → List Notice
notice_of c =
    if same_state c.to open_
    then network_lost c.cause ∷ []
    else if same_state c.from half_open && same_state c.to closed
    then network_recovered ∷ []
    else []

unfoldable pub notices : List Change → List Notice
unfolding notice_of
notices [] = []
notices (c ∷ cs) = notice_of c ++ notices cs

-- What the probe would report; `absent` stands for a probe that is nil.
pub data Probe : Type 0 where
  absent healthy : Probe
  failed : Text → Probe

-- `checkOnce` at the time `now`: the probe is asked only if the breaker allows it.
unfoldable pub check_once : ℕ → Probe → CircuitBreaker → CircuitBreaker
check_once now probe b =
    let (b', allowed) = allow now b in
    if allowed
    then elim probe [
      | absent ↦ b'
      | healthy ↦ record_success b'
      | failed text ↦ record_failure now (some text) b'
    ]
    else b'

pub record Check : Type 0 where
  pub time : ℕ
  pub probe : Probe

-- The loop of `Run`.
unfoldable pub run_checks : List Check → CircuitBreaker → CircuitBreaker
run_checks [] b = b
run_checks (c ∷ cs) b = run_checks cs (check_once c.time c.probe b)
