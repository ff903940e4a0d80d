-- ===== src/Runtime.antt =====
-- apps/studio-web/src/stores/useGatewayRuntimeStore.ts: what the front end knows of the gateway.
-- An action returns the new state; the calls that it makes of the two other stores stand in front.
-- `Cap` is the type of the gateway's capabilities, which the store only passes on, `F` that of
-- JavaScript's numbers, and `joint_frame` the fixture `showcaseJointFrame`.
pub mod Frames
pub mod History
pub mod Commands
pub mod Ids
pub mod Actions
pub mod Operators
pub mod Invariant
mod Tests
use aethor_studio_v.Prelude.{
  ℕ, ◌+◌, ◌-◌, ℤ, ltb_ℤ, leb_ℤ, Bool, true, false, not, ◌&&◌, ◌||◌, Option, none, some, List, [],
  ◌∷◌, ◌++◌, Text, length, drop, take_last, filter, all, any, map, if◌then◌else◌, text_eq, text_mem,
  trim, codes, is_empty,
}
use aethor_studio_v.Contracts.{
  RobotSessionSnapshot, ConnectionState, offline, faulted, MotorState, DataSource, measured,
  showcase, Validity, valid, stale, JointStateFrame, ProtocolFrame, Direction, tx, rx,
  CommandResult, CommandAuditRecord, DirectCommandResult, SerialPortDescriptor,
}
use aethor_studio_v.Safety.{
  CommandSafetyState, reconcile_command_safety_state, reduce_command_safety_state,
}
use Frames.{
  unique_protocol_frames, is_routine_joint_position_frame, append_frame, retained_operators,
}
use History.{merge_direct_command_history}

pub data CommandAuditStatus : Type 0 where
  unavailable loading ready error : CommandAuditStatus

pub data SerialPortCatalogStatus : Type 0 where
  idle loading ready error : SerialPortCatalogStatus

pub data SerialSessionOperationStatus : Type 0 where
  idle connecting disconnecting error : SerialSessionOperationStatus

pub record GatewayRuntimeState (Cap F : Type 0) : Type 0 where
  pub capabilities : Option Cap
  pub session : RobotSessionSnapshot
  pub joint_state : JointStateFrame F
  pub protocol_frames : List ProtocolFrame
  pub operator_protocol_frames : List ProtocolFrame
  pub command_history : List (CommandAuditRecord F)
  pub direct_command_history : List DirectCommandResult
  pub command_audit_status : CommandAuditStatus
  pub command_audit_error : Option Text
  pub last_command_result : Option CommandResult
  pub latched_safety_result : Option CommandResult
  pub confirmed_stop_timestamp_utc : Option Text
  pub transport_warning : Option Text
  pub active_port_name : Option Text
  pub serial_ports : List SerialPortDescriptor
  pub serial_port_catalog_status : SerialPortCatalogStatus
  pub serial_port_catalog_error : Option Text
  pub serial_port_catalog_updated_at_utc : Option Text
  pub selected_port_name : Text
  pub serial_session_operation_status : SerialSessionOperationStatus
  pub serial_session_operation_error : Option Text

-- fixtures/showcase.ts, with the text that `toISOString` gives.
abbrev pub showcase_session : RobotSessionSnapshot
showcase_session = record {
  session_id = codes "showcase-offline";
  profile_id = codes "dummy-6dof";
  connection_state = offline;
  motor_state = MotorState.unknown;
  control_mode = none;
  timestamp_utc = codes "2026-08-07T06:32:10.000Z";
  source = showcase;
  validity = Validity.unavailable;
}

-- A call of `useTelemetryHistoryStore` or `useRobotSessionStore`.
pub data StoreCall (F : Type 0) : Type 0 where
  sync_session : RobotSessionSnapshot → StoreCall F
  ingest_joint_state : JointStateFrame F → List F → StoreCall F
  reset_telemetry_history reset_session : StoreCall F

abbrev pub is_closed : ConnectionState → Bool
is_closed offline = true
is_closed faulted = true
is_closed _ = false

-- `source === 'measured' && validity === 'valid'`
abbrev pub is_live : DataSource → Validity → Bool
is_live measured valid = true
is_live _ _ = false

abbrev pub has_port : Text → List SerialPortDescriptor → Bool
has_port name ports = any (λ port. text_eq port.port_name name) ports

module _ {Cap F : Type 0} where
  abbrev pub initial_runtime : JointStateFrame F → GatewayRuntimeState Cap F
  initial_runtime joint_frame = record {
    capabilities = none;
    session = showcase_session;
    joint_state = joint_frame;
    protocol_frames = [];
    operator_protocol_frames = [];
    command_history = [];
    direct_command_history = [];
    command_audit_status = unavailable;
    command_audit_error = none;
    last_command_result = none;
    latched_safety_result = none;
    confirmed_stop_timestamp_utc = none;
    transport_warning = none;
    active_port_name = none;
    serial_ports = [];
    serial_port_catalog_status = SerialPortCatalogStatus.idle;
    serial_port_catalog_error = none;
    serial_port_catalog_updated_at_utc = none;
    selected_port_name = [];
    serial_session_operation_status = SerialSessionOperationStatus.idle;
    serial_session_operation_error = none;
  }

  unfoldable pub set_capabilities :
      GatewayRuntimeState Cap F → Option Cap → GatewayRuntimeState Cap F
  set_capabilities state capabilities = record state { capabilities = capabilities }

  unfoldable pub set_session :
      GatewayRuntimeState Cap F
      → RobotSessionSnapshot
      → List (StoreCall F) × GatewayRuntimeState Cap F
  set_session state session =
      let port = if is_closed session.connection_state then none else state.active_port_name in
      (
        sync_session session ∷ [],
        if text_eq state.session.session_id session.session_id
            then record state { session = session; active_port_name = port }
            else record state {
              session = session;
              last_command_result = none;
              latched_safety_result = none;
              confirmed_stop_timestamp_utc = none;
              protocol_frames = [];
              operator_protocol_frames = [];
              command_history = [];
              direct_command_history = [];
              command_audit_status = unavailable;
              command_audit_error = none;
              active_port_name = port;
            },
      )

  -- `targets` are the target positions of the robot session store.
  unfoldable pub set_joint_state :
      GatewayRuntimeState Cap F
      → List F
      → JointStateFrame F
      → List (StoreCall F) × GatewayRuntimeState Cap F
  set_joint_state state targets joint_state =
      (ingest_joint_state joint_state targets ∷ [], record state { joint_state = joint_state })

  unfoldable pub replace_protocol_frames :
      GatewayRuntimeState Cap F → List ProtocolFrame → GatewayRuntimeState Cap F
  replace_protocol_frames state frames =
      let unique = unique_protocol_frames frames in
      record state {
        protocol_frames = unique;
        operator_protocol_frames =
            filter (λ frame. not (is_routine_joint_position_frame frame)) unique;
      }

  unfoldable pub append_protocol_frame :
      GatewayRuntimeState Cap F → ProtocolFrame → GatewayRuntimeState Cap F
  append_protocol_frame state frame =
      if any (λ candidate. text_eq candidate.id frame.id) state.protocol_frames
      then state
      else (let frames = append_frame state.protocol_frames frame in
          let retained = retained_operators state.operator_protocol_frames frames in
          record state {
            protocol_frames = frames;
            operator_protocol_frames =
                if is_routine_joint_position_frame frame
                then retained
                else retained ++ (frame ∷ []);
          })

  unfoldable pub begin_command_audit_refresh : GatewayRuntimeState Cap F → GatewayRuntimeState Cap F
  begin_command_audit_refresh state = record state {
    command_audit_status = CommandAuditStatus.loading;
    command_audit_error = none;
  }

  unfoldable pub fail_command_audit_refresh :
      GatewayRuntimeState Cap F → Text → GatewayRuntimeState Cap F
  fail_command_audit_refresh state message = record state {
    command_audit_status = CommandAuditStatus.error;
    command_audit_error = some message;
  }

  unfoldable pub set_transport_warning :
      GatewayRuntimeState Cap F → Option Text → GatewayRuntimeState Cap F
  set_transport_warning state warning = record state { transport_warning = warning }

  unfoldable pub set_active_port_name :
      GatewayRuntimeState Cap F → Option Text → GatewayRuntimeState Cap F
  set_active_port_name state port = record state { active_port_name = port }

  unfoldable pub begin_serial_port_refresh : GatewayRuntimeState Cap F → GatewayRuntimeState Cap F
  begin_serial_port_refresh state = record state {
    serial_port_catalog_status = SerialPortCatalogStatus.loading;
    serial_port_catalog_error = none;
  }

  unfoldable pub complete_serial_port_refresh :
      GatewayRuntimeState Cap F → List SerialPortDescriptor → Text → GatewayRuntimeState Cap F
  complete_serial_port_refresh state ports updated = record state {
    serial_ports = ports;
    serial_port_catalog_status = SerialPortCatalogStatus.ready;
    serial_port_catalog_error = none;
    serial_port_catalog_updated_at_utc = some updated;
    selected_port_name =
        if not (is_empty state.selected_port_name) && has_port state.selected_port_name ports
        then state.selected_port_name
        else [];
  }

  unfoldable pub fail_serial_port_refresh :
      GatewayRuntimeState Cap F → Text → GatewayRuntimeState Cap F
  fail_serial_port_refresh state message = record state {
    serial_port_catalog_status = SerialPortCatalogStatus.error;
    serial_port_catalog_error = some message;
  }

  unfoldable pub set_selected_port_name :
      GatewayRuntimeState Cap F → Text → GatewayRuntimeState Cap F
  set_selected_port_name state port = record state { selected_port_name = port }

  unfoldable pub begin_serial_session_operation :
      GatewayRuntimeState Cap F → SerialSessionOperationStatus → GatewayRuntimeState Cap F
  begin_serial_session_operation state status = record state {
    serial_session_operation_status = status;
    serial_session_operation_error = none;
  }

  unfoldable pub complete_serial_session_operation :
      GatewayRuntimeState Cap F → GatewayRuntimeState Cap F
  complete_serial_session_operation state = record state {
    serial_session_operation_status = SerialSessionOperationStatus.idle;
    serial_session_operation_error = none;
  }

  unfoldable pub fail_serial_session_operation :
      GatewayRuntimeState Cap F → Text → GatewayRuntimeState Cap F
  fail_serial_session_operation state message = record state {
    serial_session_operation_status = SerialSessionOperationStatus.error;
    serial_session_operation_error = some message;
  }

  unfoldable pub mark_telemetry_degraded :
      GatewayRuntimeState Cap F → Text → GatewayRuntimeState Cap F
  mark_telemetry_degraded state warning = record state {
    transport_warning = some warning;
    session =
        if is_live state.session.source state.session.validity
        then record state.session { validity = stale }
        else state.session;
    joint_state =
        if is_live state.joint_state.source state.joint_state.validity
        then record state.joint_state { validity = stale }
        else state.joint_state;
  }

  -- `joint_frame` is the second argument or its default.
  unfoldable pub complete_disconnect :
      GatewayRuntimeState Cap F
      → RobotSessionSnapshot
      → JointStateFrame F
      → List (StoreCall F) × GatewayRuntimeState Cap F
  complete_disconnect state session joint_frame = (
    reset_telemetry_history ∷ reset_session ∷ [],
    record (initial_runtime joint_frame) { capabilities = state.capabilities; session = session },
  )

  unfoldable pub reset_runtime : JointStateFrame F → List (StoreCall F) × GatewayRuntimeState Cap F
  reset_runtime joint_frame = (reset_telemetry_history ∷ [], initial_runtime joint_frame)

  abbrev pub safety_state : GatewayRuntimeState Cap F → CommandSafetyState
  safety_state state = record {
    latched_result = state.latched_safety_result;
    confirmed_stop_timestamp_utc = state.confirmed_stop_timestamp_utc;
  }
