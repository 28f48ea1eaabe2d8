-- ===== src/Ipc.antt =====
-- The contract between the agent and its callers (internal/ipc): requests, responses with their
-- codes, and what the server makes of one connection (handleConn in internal/ipc/server.go).
pub mod Wait
use lightroom_sync.Common.{Bool, true, false, Option, none, some, [], if◌then◌else◌}
use lightroom_sync.Common.Text.{Text, lit, is_empty}

abbrev pub code_ok : Text
code_ok = lit "ok"

abbrev pub code_bad_request : Text
code_bad_request = lit "bad_request"

abbrev pub code_unknown_cmd : Text
code_unknown_cmd = lit "unknown_command"

abbrev pub code_internal_error : Text
code_internal_error = lit "internal_error"

abbrev pub code_agent_offline : Text
code_agent_offline = lit "agent_offline"

-- `payload` is the payload once it is decoded, of whatever type the sender gave it.
pub record Request (P : Type 0) : Type 0 where
  pub id : Text
  pub command : Text
  pub payload : Option P

-- `answer` is the data of the response.
pub record Response (D : Type 0) : Type 0 where
  pub id : Text
  pub success : Bool
  pub answer : Option D
  pub error : Text
  pub code : Text

abbrev or_given : Text → Text → Text
or_given s t = if is_empty s then t else s

abbrev pub identified : {P : Type 0} → Text → Request P → Request P
identified fresh_id req = record req { id = or_given req.id fresh_id }

module _ {D : Type 0} where
  abbrev pub succeeded : Option D → Response D
  succeeded answer = record { id = []; success = true; answer = answer; error = []; code = code_ok }

  abbrev pub refused : Text → Text → Response D
  refused code error = record {
    id = [];
    success = false;
    answer = none;
    error = error;
    code = code;
  }

  -- What the server adds to a handler's response.
  unfoldable pub complete : Text → Response D → Response D
  complete id r = record r {
    id = or_given r.id id;
    code = or_given r.code (if r.success then code_ok else code_internal_error);
  }

-- A connection: the request as it is decoded, the handler on the server's state (`none` is a panic,
-- which ends the process), and the ID that is made for a request without one.
module _ {S P D : Type 0} where
  unfoldable pub handle_conn :
      Option (S → Request P → Option (S × Response D))
      → Text
      → Option (Request P)
      → S
      → Option (S × Response D)
  unfolding complete
  handle_conn handler fresh_id none s =
      some (s, refused code_bad_request (lit "invalid request payload"))
  handle_conn none fresh_id (some req) s = some (
    s,
    record (refused code_internal_error (lit "request handler is not configured")) {
      id = (identified fresh_id req).id;
    },
  )
  handle_conn (some handle) fresh_id (some req) s = elim (handle s (identified fresh_id req)) [
    | none ↦ none
    | some (s', r) ↦ some (s', complete (identified fresh_id req).id r)
  ]
