-- ===== src/Runtime/Tests.antt =====
-- Concrete actions on the gateway runtime store. A time is the code of a text's first character.
use aethor_studio_v.Prelude.{
  ℕ, ℤ, pos, Option, none, some, List, [], ◌∷◌, Text, codes, trim, ◌≡◌, refl,
}
use aethor_studio_v.Contracts.{
  JointStateFrame, ProtocolFrame, tx, rx, whole, showcase, valid, measured, CommandResult,
  CommandEvidence, CommandResultCode, enable, DirectCommandResult, DirectCommandStatus,
  RobotSessionSnapshot,
}
use aethor_studio_v.Contracts
use aethor_studio_v.Runtime.{showcase_session, initial_runtime, append_protocol_frame, set_session}
use aethor_studio_v.Runtime.Commands.{set_last_command_result, command_result_update}
use aethor_studio_v.Runtime.Frames.{
  append_frame, is_routine_joint_position_frame, retained_operators,
}
use aethor_studio_v.Safety.{
  reduce_command_safety_state, is_completed_stop, is_safety_latched_result, parse_timestamp,
}
use aethor_studio_v.Runtime.Actions.{
  Action, frame_appended, session_set, last_result_set, apply, run,
}
use aethor_studio_v.Runtime.Operators.{Mirrored, run-operators}
use aethor_studio_v.Runtime.Invariant.{Held, run-results}

abbrev clock : Text → Option ℤ
clock [] = none
clock (c ∷ l) = some (pos c)

abbrev joints : JointStateFrame ℕ
joints = record {
  sequence = whole (pos 0);
  profile_id = codes "dummy-6dof";
  timestamp_utc = codes "t";
  positions_deg = 0 ∷ 1 ∷ [];
  source = showcase;
  validity = valid;
}

abbrev frame_of : Text → Text → ProtocolFrame
frame_of id raw = record {
  id = id;
  timestamp_utc = codes "t";
  direction = tx;
  raw = raw;
  parsed_kind = codes "command";
  source = measured;
  correlation_id = none;
}

abbrev poll : ProtocolFrame
poll = frame_of (codes "f1") (codes " #GETJPOS ")

abbrev stop : ProtocolFrame
stop = frame_of (codes "f2") (codes "!STOP")

abbrev failure : CommandResult
failure = record {
  command_id = codes "c1";
  session_id = codes "s1";
  command_kind = enable;
  status = Contracts.failed;
  code = CommandResultCode.timeout;
  evidence = CommandEvidence.none;
  message = [];
  timestamp_utc = codes "5";
  device_reply = none;
}

abbrev live_session : RobotSessionSnapshot
live_session = record showcase_session { session_id = codes "s1" }

abbrev actions : List (Action Unit ℕ)
actions =
    session_set live_session
    ∷ frame_appended poll
    ∷ frame_appended stop
    ∷ frame_appended stop
    ∷ last_result_set (some failure)
    ∷ []

-- The poll is kept from the operator, and a frame that comes twice is kept once.
operators_test : (run clock (initial_runtime joints) actions).operator_protocol_frames ≡ stop ∷ []
unfolding run apply set_last_command_result append_protocol_frame set_session append_frame
    command_result_update is_routine_joint_position_frame trim retained_operators
operators_test = refl

run-operators_example : Mirrored (run clock (initial_runtime joints) actions)
run-operators_example = run-operators clock joints actions

latch_test : (run clock (initial_runtime joints) actions).latched_safety_result ≡ some failure
unfolding run apply set_last_command_result append_protocol_frame set_session append_frame
    command_result_update reduce_command_safety_state is_completed_stop is_safety_latched_result
    parse_timestamp
latch_test = refl

run-results_example : Held (run clock (initial_runtime joints) actions)
run-results_example = run-results clock joints actions
