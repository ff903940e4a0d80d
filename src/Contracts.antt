-- ===== src/Contracts.antt =====
-- shared/contracts/src/types.ts and aethorArmV1.ts: the data types that the components exchange.
-- A text field is the list of its UTF-16 code units; `null` and a missing field are `none`.
use aethor_studio_v.Prelude.{ℕ, ℤ, pos, negsuc, Bool, false, Option, List, Text, ◌==◌, leb, ◌&&◌}

-- A JavaScript number as far as tests against integers tell it: an integer, or `other` (a
-- fraction, an infinity or NaN).
pub data Number : Type 0 where
  whole : ℤ → Number
  other : Number

-- `value === n` for a literal `n`.
abbrev pub number_is : ℕ → Number → Bool
number_is n (whole (pos m)) = n == m
number_is n (whole (negsuc _)) = false
number_is n other = false

pub data DataSource : Type 0 where
  showcase measured commanded computed unavailable : DataSource

pub data Validity : Type 0 where
  valid stale invalid unavailable : Validity

pub data ConnectionState : Type 0 where
  offline connecting connected reconnecting disconnecting faulted : ConnectionState

pub data MotorState : Type 0 where
  unknown disabled enabled : MotorState

pub data CommandStatus : Type 0 where
  unsupported rejected accepted completed failed timed_out cancelled unconfirmed : CommandStatus

pub data RobotCommandKind : Type 0 where
  enable stop_and_disable home reset set_mode joint_group : RobotCommandKind

pub data CommandEvidence : Type 0 where
  none gateway_accepted transport_written device_queued device_ack : CommandEvidence
  feedback_confirmed : CommandEvidence

pub data CommandResultCode : Type 0 where
  ok commands_disabled invalid_request session_mismatch not_connected : CommandResultCode
  feedback_stale motor_not_enabled invalid_target speed_unverified : CommandResultCode
  speed_out_of_range safety_interlock_latched command_in_flight : CommandResultCode
  command_id_conflict device_rejected device_unconfirmed transport_error : CommandResultCode
  timeout cancelled : CommandResultCode

pub record RobotSessionSnapshot : Type 0 where
  pub session_id : Text
  pub profile_id : Text
  pub connection_state : ConnectionState
  pub motor_state : MotorState
  pub control_mode : Option Number
  pub timestamp_utc : Text
  pub source : DataSource
  pub validity : Validity

pub record CommandResult : Type 0 where
  pub command_id : Text
  pub session_id : Text
  pub command_kind : RobotCommandKind
  pub status : CommandStatus
  pub code : CommandResultCode
  pub evidence : CommandEvidence
  pub message : Text
  pub timestamp_utc : Text
  pub device_reply : Option Text

-- `F` is the type of JavaScript numbers that no test against an integer reads.
pub record RobotCommandRequestSnapshot (F : Type 0) : Type 0 where
  pub command_kind : RobotCommandKind
  pub request_fingerprint_sha256 : Text
  pub mode : Option F
  pub positions_deg : Option (List F)
  pub positions_count : Option F
  pub speed_deg_s : Option F
  pub payload_truncated : Bool

pub record CommandAuditRecord (F : Type 0) : Type 0 where
  pub command_id : Text
  pub session_id : Text
  pub profile_id : Text
  pub command_kind : RobotCommandKind
  pub accepted_at_utc : Text
  pub request : RobotCommandRequestSnapshot F
  pub transmitted_payloads : List Text
  pub transmission_log_truncated : Bool
  pub result : CommandResult

pub record SignalSample (F : Type 0) : Type 0 where
  pub timestamp_utc : Text
  pub value : Option F
  pub validity : Validity

pub record JointStateFrame (F : Type 0) : Type 0 where
  pub sequence : Number
  pub profile_id : Text
  pub timestamp_utc : Text
  pub positions_deg : List F
  pub source : DataSource
  pub validity : Validity

pub data DirectCommandStatus : Type 0 where
  queued sent rejected expired superseded cancelled failed : DirectCommandStatus

pub record DirectCommandResult : Type 0 where
  pub request_id : Text
  pub session_id : Text
  pub status : DirectCommandStatus
  pub evidence : CommandEvidence
  pub normalized_line : Text
  pub message : Text
  pub timestamp_utc : Text
  pub device_reply : Option Text

pub data Direction : Type 0 where
  tx rx error : Direction

pub record ProtocolFrame : Type 0 where
  pub id : Text
  pub timestamp_utc : Text
  pub direction : Direction
  pub raw : Text
  pub parsed_kind : Text
  pub source : DataSource
  pub correlation_id : Option Text

pub record SerialPortDescriptor : Type 0 where
  pub port_name : Text
  pub hardware_id : Option Text
  pub display_name : Option Text

-- `Number.isInteger(value) && value >= low && value <= high`, for bounds from 0 on.
abbrev pub integer_within : ℕ → ℕ → Number → Bool
integer_within low high (whole (pos n)) = leb low n && leb n high
integer_within low high (whole (negsuc _)) = false
integer_within low high other = false

-- What the code uses of JavaScript's floating-point numbers.
pub record Floats (F : Type 0) : Type 0 where
  pub is_finite : F → Bool
  pub le : F → F → Bool
  pub lt : F → F → Bool
  pub add : F → F → F
  pub sub : F → F → F
  pub of_ℕ : ℕ → F

-- aethorArmV1.ts
pub record AethorArmMotorSample (F : Type 0) : Type 0 where
  pub motor_id : Number
  pub position_deg : F
  pub feedback_age_ms : F
  pub valid : Bool
  pub identity_conflict : Option Bool

pub record AethorArmMotorFrame (F : Type 0) : Type 0 where
  pub contract_version : Text
  pub profile_id : Text
  pub joint_group_id : Text
  pub controller_id : Text
  pub arm_id : Text
  pub boot_id : Text
  pub frame_seq : Number
  pub received_at_utc : Text
  pub snapshot_complete : Bool
  pub motors : List (AethorArmMotorSample F)
  pub unexpected_motor_ids : Option (List Number)
