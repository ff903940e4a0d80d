-- ===== src/Runtime/Actions.antt =====
-- The actions of useGatewayRuntimeStore.ts as data, so that a statement can range over the calls
-- that the front end makes, in any order.
use aethor_studio_v.Prelude.{ℤ, Option, List, [], ◌∷◌, Text}
use aethor_studio_v.Contracts.{
  RobotSessionSnapshot, JointStateFrame, ProtocolFrame, CommandResult, CommandAuditRecord,
  DirectCommandResult, SerialPortDescriptor,
}
use aethor_studio_v.Runtime.{
  GatewayRuntimeState, SerialSessionOperationStatus, set_capabilities, set_session, set_joint_state,
  replace_protocol_frames, append_protocol_frame, begin_command_audit_refresh,
  fail_command_audit_refresh, set_transport_warning, set_active_port_name,
  begin_serial_port_refresh, complete_serial_port_refresh, fail_serial_port_refresh,
  set_selected_port_name, begin_serial_session_operation, complete_serial_session_operation,
  fail_serial_session_operation, mark_telemetry_degraded, complete_disconnect, reset_runtime,
}
use aethor_studio_v.Runtime.Commands.{
  replace_command_history, replace_direct_command_history, upsert_direct_command_result,
  set_last_command_result,
}

-- `GatewayRuntimeState`'s functions: an action and its arguments. `joint_state_set` has the target
-- positions too, and `disconnected` and `was_reset` the fixture `showcaseJointFrame`.
pub data Action (Cap F : Type 0) : Type 0 where
  capabilities_set : Option Cap → Action Cap F
  session_set : RobotSessionSnapshot → Action Cap F
  joint_state_set : List F → JointStateFrame F → Action Cap F
  frames_replaced : List ProtocolFrame → Action Cap F
  frame_appended : ProtocolFrame → Action Cap F
  audit_begun : Action Cap F
  audit_failed : Text → Action Cap F
  history_replaced : List (CommandAuditRecord F) → Action Cap F
  direct_history_replaced : List DirectCommandResult → Action Cap F
  direct_result_upserted : DirectCommandResult → Action Cap F
  last_result_set : Option CommandResult → Action Cap F
  warning_set : Option Text → Action Cap F
  active_port_set : Option Text → Action Cap F
  port_refresh_begun : Action Cap F
  port_refresh_completed : List SerialPortDescriptor → Text → Action Cap F
  port_refresh_failed : Text → Action Cap F
  port_selected : Text → Action Cap F
  operation_begun : SerialSessionOperationStatus → Action Cap F
  operation_completed : Action Cap F
  operation_failed : Text → Action Cap F
  telemetry_degraded : Text → Action Cap F
  disconnected : RobotSessionSnapshot → JointStateFrame F → Action Cap F
  was_reset : JointStateFrame F → Action Cap F

module _ {Cap F : Type 0} (date_parse : Text → Option ℤ) where
  unfoldable pub apply : GatewayRuntimeState Cap F → Action Cap F → GatewayRuntimeState Cap F
  apply s (capabilities_set c) = set_capabilities s c
  apply s (session_set session) = (set_session s session).1
  apply s (joint_state_set targets joint) = (set_joint_state s targets joint).1
  apply s (frames_replaced frames) = replace_protocol_frames s frames
  apply s (frame_appended frame) = append_protocol_frame s frame
  apply s audit_begun = begin_command_audit_refresh s
  apply s (audit_failed message) = fail_command_audit_refresh s message
  apply s (history_replaced history) = replace_command_history date_parse s history
  apply s (direct_history_replaced history) = replace_direct_command_history date_parse s history
  apply s (direct_result_upserted result) = upsert_direct_command_result date_parse s result
  apply s (last_result_set result) = set_last_command_result date_parse s result
  apply s (warning_set warning) = set_transport_warning s warning
  apply s (active_port_set port) = set_active_port_name s port
  apply s port_refresh_begun = begin_serial_port_refresh s
  apply s (port_refresh_completed ports updated) = complete_serial_port_refresh s ports updated
  apply s (port_refresh_failed message) = fail_serial_port_refresh s message
  apply s (port_selected port) = set_selected_port_name s port
  apply s (operation_begun status) = begin_serial_session_operation s status
  apply s operation_completed = complete_serial_session_operation s
  apply s (operation_failed message) = fail_serial_session_operation s message
  apply s (telemetry_degraded warning) = mark_telemetry_degraded s warning
  apply s (disconnected session joint) = (complete_disconnect s session joint).1
  apply s (was_reset joint) = (reset_runtime joint).1

  unfoldable pub run : GatewayRuntimeState Cap F → List (Action Cap F) → GatewayRuntimeState Cap F
  run s [] = s
  run s (a ∷ l) = run (apply s a) l
