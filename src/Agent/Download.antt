-- ===== src/Agent/Download.antt =====
-- The download of an update in the agent (cmd/agent/main.go): requests, the goroutines that they
-- start, and the other parts as actions on the shared variables, in any order.
pub mod Single
pub mod Refines
use lightroom_sync.Common.{
  ℕ, zero, suc, ◌-◌, ◌≡◌, Bool, true, false, ◌||◌, not, Option, none, some, List, [], ◌∷◌,
  if◌then◌else◌,
}
use lightroom_sync.Common.Text.{Text, lit, text_eq, trim_space, to_lower, ext}
use lightroom_sync.Coordinator.State.{set_warning, refresh_derived_status}
use lightroom_sync.Coordinator.Worker.{Action, act}
use lightroom_sync.Ipc.{Request}
use lightroom_sync.Agent.Server.{AgentState, Outside, Transfer, UpdateResult}
use lightroom_sync.Agent.Requests.{on_app}
use lightroom_sync.Agent.Handler.{Reply, handle}

-- How a download ends: the result of DownloadToFile, and whether the process starts.
pub record Ending : Type 0 where
  pub is_failed : Bool
  pub start_fails : Bool

-- `launchDownloadedUpdate`: whether it fails.
unfoldable pub launch_fails : Bool → Text → Bool
launch_fails start_fails path =
    let e = to_lower (trim_space (ext path)) in
    not (text_eq e (lit ".exe") || text_eq e (lit ".msi")) || start_fails

abbrev pub downloading_warning : Text
downloading_warning = lit "Đang tải bản cập nhật..."

abbrev pub ending_warning : Ending → Text → Text
ending_warning e destination =
    if e.is_failed
    then lit "Tải cập nhật thất bại"
    else if launch_fails e.start_fails destination
    then lit "Đã tải bản cập nhật. Hãy mở file cài đặt thủ công."
    else lit "Đã tải và mở bộ cài cập nhật"

abbrev marked : Bool → Option UpdateResult → Option UpdateResult
marked b none = none
marked b (some u) = some (record u { download_in_progress = b })

-- One of the goroutines, and the others.
unfoldable pub pick : {A : Type 0} → ℕ → List A → Option (A × List A)
pick n [] = none
pick zero (t ∷ ts) = some (t, ts)
pick (suc n) (t ∷ ts) = elim (pick n ts) [ none ↦ none | some (u, rest) ↦ some (u, t ∷ rest) ]

-- A step: a request, the mark that its handler sets after it has started the goroutine, the steps of
-- a goroutine, the refresh that is due some seconds after its end, or a step of the worker.
pub data AgentAction (P : Type 0) : Type 0 where
  receive_request : Outside P → Request P → AgentAction P
  mark_cached refresh : AgentAction P
  begin_transfer : ℕ → AgentAction P
  end_transfer : ℕ → Ending → AgentAction P
  work : Action → AgentAction P

abbrev begun : AgentState → Option (Transfer × List Transfer) → Option AgentState
begun s none = none
begun s (some (t, rest)) =
    let loading = on_app (set_warning downloading_warning) s in
    if t.is_begun
    then none
    else some (record loading { transfers = record t { is_begun = true } ∷ rest })

abbrev finished : Ending → AgentState → Option (Transfer × List Transfer) → Option AgentState
finished e s none = none
finished e s (some (t, rest)) =
    let done = on_app (set_warning (ending_warning e t.destination)) s in
    if t.is_begun
    then some (record done {
      transfers = rest;
      is_downloading = false;
      cached_update = marked false s.cached_update;
    })
    else none

abbrev marked_state : ℕ → AgentState → Option AgentState
marked_state zero s = none
marked_state (suc n) s = some (record s { marks = n; cached_update = marked true s.cached_update })

abbrev state_of : Option Reply → Option AgentState
state_of none = none
state_of (some (s, r)) = some s

-- `none` where the step cannot be taken.
unfoldable pub agent_act : {P : Type 0} → AgentAction P → AgentState → Option AgentState
agent_act (receive_request o req) s = state_of (handle o s req)
agent_act mark_cached s = marked_state s.marks s
agent_act refresh s = some (on_app refresh_derived_status s)
agent_act (begin_transfer n) s = begun s (pick n s.transfers)
agent_act (end_transfer n e) s = finished e s (pick n s.transfers)
agent_act (work a) s = elim (act a s.worker) [
  | none ↦ none
  | some w ↦ some (record s { worker = w })
]

pub data AgentRun (P : Type 0) (s : AgentState) : AgentState → Type 0 where
  here : AgentRun P s s
  step :
      {u v : AgentState} (a : AgentAction P)
      → AgentRun P s u
      → agent_act a u ≡ some v
      → AgentRun P s v
