-- ===== src/Command.antt =====
-- shared/contracts/src/commandStateMachine.ts: the life of one command.
-- `none` stands for a thrown error and for the error `null`.
pub mod Invariant
pub mod Traces
mod Tests
use aethor_studio_v.Prelude.{
  Bool, true, false, ◌||◌, Option, none, some, List, [], ◌∷◌, Text, trim, is_empty, if◌then◌else◌,
}
use aethor_studio_v.Contracts.{
  RobotCommandKind, CommandStatus, accepted, completed, CommandEvidence, feedback_confirmed,
  CommandResultCode, device_unconfirmed, CommandResult,
}

-- `'created' | CommandStatus`.
pub data CommandLifecycleStatus : Type 0 where
  created : CommandLifecycleStatus
  public : CommandStatus → CommandLifecycleStatus

pub record CommandLifecycleState : Type 0 where
  pub command_id : Text
  pub session_id : Text
  pub command_kind : RobotCommandKind
  pub status : CommandLifecycleStatus
  pub evidence : CommandEvidence
  pub updated_at_utc : Text

-- The `type` of an event.
pub data EventType : Type 0 where
  gateway_accepted unsupported rejected device_queued device_ack : EventType
  completion_confirmed failed timed_out cancelled confirmation_unavailable : EventType

pub record CommandLifecycleEvent : Type 0 where
  pub type : EventType
  pub timestamp_utc : Text

pub data CommandError : Type 0 where
  invalid_transition : CommandError

pub record CommandTransition : Type 0 where
  pub state : CommandLifecycleState
  pub changed : Bool
  pub error : Option CommandError

-- `terminalStatuses.has(status)`.
abbrev pub is_terminal : CommandLifecycleStatus → Bool
is_terminal created = false
is_terminal (public accepted) = false
is_terminal (public _) = true

unfoldable pub create_command_lifecycle :
    Text → Text → Text → RobotCommandKind → Option CommandLifecycleState
create_command_lifecycle command_id timestamp_utc session_id command_kind =
    if is_empty (trim command_id)
    then none
    else some (record {
      command_id = command_id;
      session_id = session_id;
      command_kind = command_kind;
      status = created;
      evidence = CommandEvidence.none;
      updated_at_utc = timestamp_utc;
    })

abbrev pub changed :
    CommandLifecycleState → CommandStatus → CommandEvidence → Text → CommandTransition
changed current status evidence updated_at_utc = record {
  state = record current {
    status = public status;
    evidence = evidence;
    updated_at_utc = updated_at_utc;
  };
  changed = true;
  error = none;
}

abbrev pub unchanged : CommandLifecycleState → CommandTransition
unchanged state = record { state = state; changed = false; error = some invalid_transition }

-- The branch of `transitionCommand` for the status `created`.
unfoldable pub from_created : CommandLifecycleState → EventType → Text → CommandTransition
from_created current EventType.gateway_accepted t =
    changed current accepted CommandEvidence.gateway_accepted t
from_created current EventType.unsupported t =
    changed current CommandStatus.unsupported CommandEvidence.none t
from_created current EventType.rejected t =
    changed current CommandStatus.rejected CommandEvidence.none t
from_created current EventType.cancelled t =
    changed current CommandStatus.cancelled CommandEvidence.none t
from_created current EventType.failed t =
    changed current CommandStatus.failed CommandEvidence.none t
from_created current EventType.timed_out t =
    changed current CommandStatus.timed_out CommandEvidence.none t
from_created current _ t = unchanged current

-- The branches below it, for a command that the gateway has accepted.
unfoldable pub from_accepted : CommandLifecycleState → EventType → Text → CommandTransition
from_accepted current EventType.device_queued t =
    changed current accepted CommandEvidence.device_queued t
from_accepted current EventType.device_ack t = changed current accepted CommandEvidence.device_ack t
from_accepted current EventType.completion_confirmed t =
    changed current completed feedback_confirmed t
from_accepted current EventType.failed t = changed current CommandStatus.failed current.evidence t
from_accepted current EventType.timed_out t =
    changed current CommandStatus.timed_out current.evidence t
from_accepted current EventType.cancelled t =
    changed current CommandStatus.cancelled current.evidence t
from_accepted current EventType.confirmation_unavailable t =
    changed current CommandStatus.unconfirmed current.evidence t
from_accepted current _ t = unchanged current

abbrev pub is_created : CommandLifecycleStatus → Bool
is_created created = true
is_created (public _) = false

unfoldable pub transition_command :
    CommandLifecycleState → CommandLifecycleEvent → CommandTransition
unfolding from_created from_accepted
transition_command current event =
    if is_terminal current.status
    then unchanged current
    else if is_created current.status
    then from_created current event.type event.timestamp_utc
    else from_accepted current event.type event.timestamp_utc

-- The default of the parameter `code` of `toCommandResult`.
abbrev pub default_code : CommandLifecycleStatus → CommandResultCode
default_code (public completed) = CommandResultCode.ok
default_code _ = device_unconfirmed

result_with :
    CommandLifecycleStatus
    → CommandLifecycleState
    → Text
    → Option Text
    → CommandResultCode
    → Option CommandResult
result_with created state message device_reply code = none
result_with (public status) state message device_reply code = some (record {
  command_id = state.command_id;
  session_id = state.session_id;
  command_kind = state.command_kind;
  status = status;
  code = code;
  evidence = state.evidence;
  message = message;
  timestamp_utc = state.updated_at_utc;
  device_reply = device_reply;
})

unfoldable pub to_command_result :
    CommandLifecycleState → Text → Option Text → Option CommandResultCode → Option CommandResult
unfolding result_with
to_command_result state message device_reply none =
    result_with state.status state message device_reply (default_code state.status)
to_command_result state message device_reply (some code) =
    result_with state.status state message device_reply code

-- A client's events in order; what is rejected leaves the command as it is.
unfoldable pub run : CommandLifecycleState → List CommandLifecycleEvent → CommandLifecycleState
run c [] = c
run c (e ∷ es) = run (transition_command c e).state es
