-- ===== src/Ui.antt =====
-- The UI's service (internal/uiapi/service.go, errors.go, types.go): which request an action sends,
-- and the envelope that comes of it. The connection to the agent and encoding/json are parameters.
pub mod Honest
use lightroom_sync.Common.{
  ℕ, Bool, true, false, Option, none, some, List, [], ◌∷◌, ◌++◌, if◌then◌else◌,
}
use lightroom_sync.Common.Int64.{le64}
use lightroom_sync.Common.Text.{Text, lit, text_eq, is_empty, trim_space, to_lower}
use lightroom_sync.Ipc.{Request, Response, code_ok, code_bad_request, code_agent_offline}
use lightroom_sync.Agent.Server.{Decoded, decoded, undecodable, LogsPayload, DownloadPayload}

pub record ActionEnvelope (D : Type 0) : Type 0 where
  pub ok : Bool
  pub id : Text
  pub success : Bool
  pub code : Text
  pub error : Text
  pub answer : Option D
  pub server : Text

-- What an action does: it is refused, pings, or sends a command with a payload under a timeout in
-- milliseconds.
pub data Plan (P : Type 0) : Type 0 where
  reject : Text → Plan P
  ping_agent : Plan P
  send : ℕ → Text → Option P → Plan P

-- encoding/json on the payloads: from text into a value of the type wanted, for two of them over a
-- value with defaults, and from a value to the payload of a request.
pub record Json (P : Type 0) : Type 0 where
  pub parse_map : Text → Decoded P
  pub parse_logs : Text → LogsPayload → Decoded LogsPayload
  pub parse_download : Text → DownloadPayload → Decoded DownloadPayload
  pub of_logs : LogsPayload → P
  pub of_download : DownloadPayload → P
  pub of_zip_path : Text → P

module _ {P : Type 0} (j : Json P) where
  unfoldable pub plan_save_config : Text → Plan P
  plan_save_config payload =
      let body = trim_space payload in
      let parsed : Plan P = elim (j.parse_map body) [
        | undecodable err ↦ reject (lit "invalid payload JSON: " ++ err)
        | decoded raw ↦ send 3000 (lit "save_config") (some raw)
      ] in
      if is_empty body then reject (lit "payload JSON is required for save-config") else parsed

  unfoldable pub plan_sync_backup : Text → Plan P
  plan_sync_backup payload =
      let zip_path = trim_space payload in
      if is_empty zip_path
      then reject (lit "payload is required for sync-backup and must contain zip path")
      else send 3000 (lit "sync_backup") (some (j.of_zip_path zip_path))

  abbrev default_logs : LogsPayload
  default_logs = record { after_id = 0; limit = 120; level = [] }

  unfoldable pub plan_subscribe_logs : Text → Plan P
  plan_subscribe_logs payload =
      let body = trim_space payload in
      let sent : LogsPayload → Plan P = λ p.
        send 2000 (lit "subscribe_logs")
          (some (j.of_logs (record p { limit = if le64 p.limit 0 then 120 else p.limit }))) in
      let parsed : Plan P = elim (j.parse_logs body default_logs) [
        | undecodable err ↦ reject (lit "invalid payload JSON: " ++ err)
        | decoded p ↦ sent p
      ] in
      if is_empty body then sent default_logs else parsed

  abbrev no_asset : DownloadPayload
  no_asset = record { asset_url = []; asset_name = [] }

  unfoldable pub plan_download_update : Text → Plan P
  plan_download_update payload =
      let body = trim_space payload in
      let sent : DownloadPayload → Plan P =
        λ p. send 240_000 (lit "download_update") (some (j.of_download p)) in
      let parsed : Plan P = elim (j.parse_download body no_asset) [
        | undecodable err ↦ reject (lit "invalid payload JSON: " ++ err)
        | decoded p ↦ sent p
      ] in
      if is_empty body then sent no_asset else parsed

  -- The actions by their names.
  abbrev pub actions : Text → List (Text × Plan P)
  actions payload =
      (lit "ping", ping_agent)
      ∷ (lit "status", send 2000 (lit "get_status") none)
      ∷ (lit "get-config", send 2000 (lit "get_config") none)
      ∷ (lit "save-config", plan_save_config payload)
      ∷ (lit "sync-now", send 2000 (lit "sync_now") none)
      ∷ (lit "get-backups", send 3000 (lit "get_backups") none)
      ∷ (lit "sync-backup", plan_sync_backup payload)
      ∷ (lit "pause-sync", send 2000 (lit "pause_sync") none)
      ∷ (lit "resume-sync", send 2000 (lit "resume_sync") none)
      ∷ (lit "subscribe-logs", plan_subscribe_logs payload)
      ∷ (lit "check-update", send 3000 (lit "check_update") none)
      ∷ (lit "download-update", plan_download_update payload)
      ∷ (lit "shutdown-agent", send 2000 (lit "shutdown_agent") none)
      ∷ (lit "discover-presets", send 5000 (lit "discover_presets") none)
      ∷ []

  unfoldable pub plan_in : List (Text × Plan P) → Text → Plan P → Plan P
  plan_in [] key other = other
  plan_in ((name, p) ∷ ps) key other =
      let rest = plan_in ps key other in if text_eq name key then p else rest

  unfoldable pub plan_of : Text → Text → Plan P
  unfolding plan_in
  plan_of action payload =
      plan_in (actions payload) (to_lower (trim_space action))
        (reject (lit "unsupported action: " ++ action))

abbrev pub request_of : {P : Type 0} → Text → Option P → Request P
request_of command payload = record { id = []; command = command; payload = payload }

module _ {D : Type 0} (now : Text) where
  abbrev pub bad_request_envelope : Text → ActionEnvelope D
  bad_request_envelope message = record {
    ok = false;
    id = [];
    success = false;
    code = code_bad_request;
    error = message;
    answer = none;
    server = now;
  }

  abbrev pub agent_offline_envelope : Text → ActionEnvelope D
  agent_offline_envelope err = record {
    ok = false;
    id = [];
    success = false;
    code = code_agent_offline;
    error = err;
    answer = none;
    server = now;
  }

  abbrev pub response_envelope : Response D → ActionEnvelope D
  response_envelope r = record {
    ok = true;
    id = r.id;
    success = r.success;
    code = r.code;
    error = r.error;
    answer = r.answer;
    server = now;
  }

  abbrev pub ping_envelope : Response D → ActionEnvelope D
  ping_envelope r = record {
    ok = true;
    id = [];
    success = r.success;
    code = code_ok;
    error = [];
    answer = none;
    server = now;
  }

  abbrev pub enveloped :
      {S : Type 0}
      → (Response D → ActionEnvelope D)
      → S × Decoded (Response D)
      → S × ActionEnvelope D
  enveloped wrap (s, decoded r) = (s, wrap r)
  enveloped wrap (s, undecodable err) = (s, agent_offline_envelope err)

-- The agent as the service reaches it: a call ends with a response or an error.
module _ {S P D : Type 0} (call : ℕ → Request P → S → S × Decoded (Response D)) (now : Text) where
  unfoldable pub carry_out : Plan P → S → S × ActionEnvelope D
  carry_out (reject message) s = (s, bad_request_envelope now message)
  carry_out ping_agent s =
      enveloped now (ping_envelope now) (call 1200 (request_of (lit "ping") none) s)
  carry_out (send timeout command payload) s =
      enveloped now (response_envelope now) (call timeout (request_of command payload) s)

  -- `ExecuteAction`.
  unfoldable pub execute_action : Json P → Text → Text → S → S × ActionEnvelope D
  unfolding carry_out
  execute_action j action payload s = carry_out (plan_of j action payload) s
