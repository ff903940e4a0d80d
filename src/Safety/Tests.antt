-- ===== src/Safety/Tests.antt =====
-- Concrete histories for the safety latch. A time is the code of a text's first character.
use aethor_studio_v.Prelude.{
  ℤ, pos, Bool, true, false, Option, none, some, List, [], ◌∷◌, Text, codes, ◌≡◌, refl, ◌↔◌,
}
use aethor_studio_v.Contracts.{
  CommandResult, CommandAuditRecord, CommandStatus, RobotCommandKind, CommandEvidence,
  CommandResultCode, joint_group, stop_and_disable, unconfirmed, completed,
}
use aethor_studio_v.Safety.{
  CommandSafetyState, reconcile_command_safety_state, reduce_history, reduce_command_safety_state,
  parse_timestamp, is_safety_latched_result, is_completed_stop, is_latched,
}
use aethor_studio_v.Safety.Times.{empty, is_alarm, results_of}
use aethor_studio_v.Safety.Outcome.{reconcile-own, reconcile-cleared, HasStop}
use aethor_studio_v.Safety.Newest.{latched_iff, Picked, AllBefore}

abbrev clock : Text → Option ℤ
clock [] = none
clock (c ∷ l) = some (pos c)

abbrev result : RobotCommandKind → CommandStatus → Text → CommandResult
result kind status t = record {
  command_id = codes "c";
  session_id = codes "s";
  command_kind = kind;
  status = status;
  code = CommandResultCode.ok;
  evidence = CommandEvidence.none;
  message = [];
  timestamp_utc = t;
  device_reply = none;
}

abbrev audit : CommandResult → CommandAuditRecord Bool
audit r = record {
  command_id = codes "c";
  session_id = codes "s";
  profile_id = codes "p";
  command_kind = r.command_kind;
  accepted_at_utc = r.timestamp_utc;
  request = record {
    command_kind = r.command_kind;
    request_fingerprint_sha256 = [];
    mode = none;
    positions_deg = none;
    positions_count = none;
    speed_deg_s = none;
    payload_truncated = false;
  };
  transmitted_payloads = [];
  transmission_log_truncated = false;
  result = r;
}

abbrev alarm_b : CommandResult
alarm_b = result joint_group unconfirmed (codes "b")

-- An alarm, a stop before it that comes late, and a stop behind it.
abbrev late_stop : List (CommandAuditRecord Bool)
late_stop = audit alarm_b ∷ audit (result stop_and_disable completed (codes "a")) ∷ []

abbrev stopped : List (CommandAuditRecord Bool)
stopped = audit (result stop_and_disable completed (codes "c")) ∷ []

abbrev latched : CommandSafetyState
latched = record { latched_result = some alarm_b; confirmed_stop_timestamp_utc = none }

latched_iff_example :
    (is_latched (reconcile_command_safety_state clock late_stop (codes "s") empty).latched_result
      ≡ true)
    ↔ ((t : ℤ) × Picked clock is_alarm (results_of (codes "s") late_stop) t
        × AllBefore clock is_completed_stop (results_of (codes "s") late_stop) t)
latched_iff_example = latched_iff clock late_stop (codes "s") ((pos 98, refl), ((pos 97, refl), tt))

kept :
    (reconcile_command_safety_state clock late_stop (codes "s") empty).latched_result ≡ some alarm_b
unfolding reconcile_command_safety_state reduce_history reduce_command_safety_state parse_timestamp
    is_completed_stop is_safety_latched_result
kept = refl

gone :
    is_latched (reconcile_command_safety_state clock stopped (codes "s") latched).latched_result
    ≡ false
unfolding reconcile_command_safety_state reduce_history reduce_command_safety_state parse_timestamp
    is_completed_stop is_safety_latched_result
gone = refl

reconcile-own_example : alarm_b.session_id ≡ codes "s"
reconcile-own_example = reconcile-own clock late_stop (codes "s") empty alarm_b kept

reconcile-cleared_example : HasStop (codes "s") stopped
reconcile-cleared_example =
    reconcile-cleared clock stopped (codes "s") latched alarm_b refl refl gone
