-- ===== src/Safety.antt =====
-- apps/studio-web/src/domain/commandSafety.ts: the safety latch that the front end folds over the
-- results of commands. `Date.parse` is the parameter `date_parse`: milliseconds, `none` for NaN.
pub mod Outcome
pub mod Newest
mod Tests
pub mod Times
pub mod Latch
use aethor_studio_v.Prelude.{
  ℤ, ltb_ℤ, leb_ℤ, Bool, true, false, not, ◌&&◌, ◌||◌, Option, none, some, List, [], ◌∷◌, Text,
  if◌then◌else◌, text_eq, codes,
}
use aethor_studio_v.Contracts.{
  CommandStatus, unconfirmed, RobotCommandKind, stop_and_disable, CommandEvidence,
  CommandResultCode, CommandResult, CommandAuditRecord, safety_interlock_latched, transport_error,
}

pub record CommandSafetyState : Type 0 where
  pub latched_result : Option CommandResult
  pub confirmed_stop_timestamp_utc : Option Text

-- `uncertainStatuses.has(status)`
abbrev pub is_uncertain : CommandStatus → Bool
is_uncertain unconfirmed = true
is_uncertain CommandStatus.failed = true
is_uncertain CommandStatus.timed_out = true
is_uncertain _ = false

abbrev pub is_interlock : CommandResultCode → Bool
is_interlock safety_interlock_latched = true
is_interlock _ = false

unfoldable pub is_safety_latched_result : CommandResult → Bool
is_safety_latched_result result = is_uncertain result.status || is_interlock result.code

abbrev pub is_stop : RobotCommandKind → Bool
is_stop stop_and_disable = true
is_stop _ = false

abbrev pub is_completed : CommandStatus → Bool
is_completed CommandStatus.completed = true
is_completed _ = false

-- A `stopAndDisable` that completed.
unfoldable pub is_completed_stop : CommandResult → Bool
is_completed_stop result = is_stop result.command_kind && is_completed result.status

-- `time !== null && timestamp < time`
abbrev pub exceeds : Option ℤ → ℤ → Bool
exceeds none timestamp = false
exceeds (some time) timestamp = ltb_ℤ timestamp time

-- `timestamp !== null && time !== null && timestamp <= time`
abbrev pub not_after : Option ℤ → Option ℤ → Bool
not_after none time = false
not_after (some timestamp) none = false
not_after (some timestamp) (some time) = leb_ℤ timestamp time

-- `timestamp === null || (time !== null && timestamp < time)`
abbrev pub unknown_or_older : Option ℤ → Option ℤ → Bool
unknown_or_older none time = true
unknown_or_older (some timestamp) time = exceeds time timestamp

-- `current.latchedResult?.timestampUtc ?? null`
abbrev pub timestamp_of : Option CommandResult → Option Text
timestamp_of none = none
timestamp_of (some result) = some result.timestamp_utc

abbrev pub is_latched : Option CommandResult → Bool
is_latched none = false
is_latched (some result) = true

unfoldable pub create_unconfirmed_transport_result :
    Text → Text → RobotCommandKind → Text → Text → CommandResult
create_unconfirmed_transport_result command_id session_id command_kind message now = record {
  command_id = command_id;
  session_id = session_id;
  command_kind = command_kind;
  status = unconfirmed;
  code = transport_error;
  evidence = CommandEvidence.none;
  message = message;
  timestamp_utc = now;
  device_reply = none;
}

-- The start of a reconciliation: a latch of another session is forgotten.
abbrev pub own_state : Text → CommandSafetyState → Option CommandResult → CommandSafetyState
own_state session_id current none = current
own_state session_id current (some latched) =
    if text_eq latched.session_id session_id
    then current
    else record { latched_result = none; confirmed_stop_timestamp_utc = none }

-- `current?.sessionId === sessionId ? current : null`
abbrev pub own_latch : Text → Option CommandResult → Option CommandResult
own_latch session_id none = none
own_latch session_id (some latched) =
    if text_eq latched.session_id session_id then some latched else none

module _ (date_parse : Text → Option ℤ) where
  unfoldable pub parse_timestamp : Option Text → Option ℤ
  parse_timestamp none = none
  parse_timestamp (some value) = date_parse value

  unfoldable pub reduce_command_safety_state :
      CommandSafetyState → CommandResult → CommandSafetyState
  reduce_command_safety_state current result =
      let result_timestamp = parse_timestamp (some result.timestamp_utc) in
      let confirmed_stop = parse_timestamp current.confirmed_stop_timestamp_utc in
      let latched_timestamp = parse_timestamp (timestamp_of current.latched_result) in
      if is_completed_stop result
      then elim result_timestamp [
        | none ↦ current
        | some timestamp ↦ if exceeds confirmed_stop timestamp then current else record {
          latched_result =
              if exceeds latched_timestamp timestamp then current.latched_result else none;
          confirmed_stop_timestamp_utc = some result.timestamp_utc;
        }
      ]
      else if not (is_safety_latched_result result)
      then current
      else if not_after result_timestamp confirmed_stop
      then current
      else if is_latched current.latched_result
          && unknown_or_older result_timestamp latched_timestamp
      then current
      else record current { latched_result = some result }

  -- The loop over the history.
  unfoldable pub reduce_history :
      {F : Type 0} → CommandSafetyState → List (CommandAuditRecord F) → Text → CommandSafetyState
  reduce_history next [] session_id = next
  reduce_history next (audit ∷ history) session_id =
      reduce_history
        (if text_eq audit.result.session_id session_id
          then reduce_command_safety_state next audit.result
          else next)
        history session_id

  unfoldable pub reconcile_command_safety_state :
      {F : Type 0} → List (CommandAuditRecord F) → Text → CommandSafetyState → CommandSafetyState
  reconcile_command_safety_state history session_id current =
      reduce_history (own_state session_id current current.latched_result) history session_id

  unfoldable pub reconcile_latched_safety_result :
      {F : Type 0}
      → List (CommandAuditRecord F)
      → Text
      → Option CommandResult
      → Option CommandResult
  reconcile_latched_safety_result history session_id current =
      (reconcile_command_safety_state history session_id (record {
        latched_result = own_latch session_id current;
        confirmed_stop_timestamp_utc = none;
      })).latched_result

  unfoldable pub reduce_latched_safety_result :
      Option CommandResult → CommandResult → Option CommandResult
  reduce_latched_safety_result current result =
      (reduce_command_safety_state
        (record { latched_result = current; confirmed_stop_timestamp_utc = none })
        result).latched_result
