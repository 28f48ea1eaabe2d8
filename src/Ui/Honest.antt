-- ===== src/Ui/Honest.antt =====
-- What the UI's envelopes say of the agent: the service (internal/uiapi) over the client and the
-- server of internal/ipc and the request handler of cmd/agent/main.go.
use lightroom_sync.Common.{ℕ, ◌≡◌, true, Option, none, some}
use lightroom_sync.Common.Text.{Text, lit}
use lightroom_sync.Ipc.{Request, Response, handle_conn, identified}
use lightroom_sync.Agent.Server.{
  Command, unknown, command_of, Decoded, decoded, undecodable, Answer, AgentState, Outside,
}
use lightroom_sync.Agent.Handler.{Reply, handle}
use lightroom_sync.Agent.Handler.Effects.{HasEffect}
use lightroom_sync.Ui.{Plan, reject, ping_agent, send, ActionEnvelope}

-- How a call goes: nobody listens, the response does not come back in time, or it does.
pub data Reach : Type 0 where
  offline lost answers : Reach

-- The command that an action stands for.
abbrev pub command_of_plan : {P : Type 0} → Plan P → Command
command_of_plan (reject message) = unknown
command_of_plan ping_agent = command_of (lit "ping")
command_of_plan (send timeout command payload) = command_of command

-- What the caller gets of a connection. A panic of the handler ends the agent, and there is no
-- response.
abbrev pub received : Reach → AgentState → Option Reply → AgentState × Decoded (Response Answer)
received offline s served = (s, undecodable (lit "dial pipe"))
received lost s none = (s, undecodable (lit "decode response"))
received lost s (some (s', r)) = (s', undecodable (lit "decode response"))
received answers s none = (s, undecodable (lit "decode response"))
received answers s (some (s', r)) = (s', decoded r)

module _ {P : Type 0} (o : Outside P) where
  -- An envelope that has a response says what was done.
  abbrev pub Honest : Command → AgentState → AgentState × ActionEnvelope Answer → Type 0
  Honest c s (s', e) =
      ((e.ok ≡ true) → HasEffect o c s s' e.success) × ((e.success ≡ true) → e.ok ≡ true)

  -- `ipc.Call`, with the connection that the server makes of it.
  unfoldable pub call_agent :
      Reach → Text → Text → ℕ → Request P → AgentState → AgentState × Decoded (Response Answer)
  call_agent reach client_id server_id timeout req s =
      received reach s (handle_conn (some (handle o)) server_id (some (identified client_id req)) s)
