-- ===== src/Coordinator/Bus.antt =====
-- EventBus (internal/coordinator/events.go): a bounded channel of events and their handlers.
pub mod Dispatch
use lightroom_sync.Common.{
  ℕ, ◌≡◌, refl, Bool, true, false, List, [], ◌∷◌, ◌++◌, ltb, if◌then◌else◌, length,
}
use lightroom_sync.Common.Text.{Text}

pub data EventType : Type 0 where
  lightroom_started lightroom_stopped new_backup_detected sync_requested sync_completed
        sync_failed :
      EventType
  lock_changed config_changed network_available network_lost : EventType

pub EventType-discrete : Discrete EventType
EventType-discrete = hlevel

-- What the program puts into `Payload any`: nothing, a string, or a SyncResult.
pub data Payload : Type 0 where
  no_payload : Payload
  text_payload : Text → Payload
  result_payload : Text → Text → Payload

pub record Event : Type 0 where
  pub kind : EventType
  pub payload : Payload

-- The channel: what is buffered, oldest first, and the size of the buffer.
pub record Bus : Type 0 where
  pub buffered : List Event
  pub size : ℕ

-- `Emit` never blocks: an event that does not fit is dropped.
unfoldable pub emit : Event → Bus → Bus
emit e b =
    if ltb (length b.buffered) b.size then record b { buffered = b.buffered ++ (e ∷ []) } else b

-- A handler changes the state; `true` says that it panicked after the change.
abbrev pub Handler : Type 0 → Type 0
Handler S = Event → S → S × Bool

-- `handlers`: the registrations, in the order of the calls of `On`.
abbrev pub Handlers : Type 0 → Type 0
Handlers S = List (EventType × Handler S)

unfoldable pub on : {S : Type 0} → EventType → Handler S → Handlers S → Handlers S
on kind h hs = hs ++ ((kind, h) ∷ [])

-- `handlers[evt.Type]`.
unfoldable pub handlers_of : {S : Type 0} → EventType → Handlers S → List (Handler S)
handlers_of kind [] = []
handlers_of kind ((k, h) ∷ hs) =
    let rest = handlers_of kind hs in
    elim (EventType-discrete k kind) [ yes _ ↦ h ∷ rest | no _ ↦ rest ]

-- The loop of `dispatch`: a panic is recovered, and the next handler runs.
unfoldable pub run_handlers : {S : Type 0} → List (Handler S) → Event → S → S
run_handlers [] e s = s
run_handlers (h ∷ hs) e s = run_handlers hs e (h e s).0

unfoldable pub dispatch : {S : Type 0} → Handlers S → Event → S → S
unfolding handlers_of run_handlers
dispatch hs e s = run_handlers (handlers_of e.kind hs) e s
