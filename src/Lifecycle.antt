-- ===== src/Lifecycle.antt =====
-- apps/studio-web/src/integrations/GatewayCommandLifecycle.ts for one gateway. A call goes on when
-- an answer of the gateway comes; other calls and actions of the store may come between.
-- A thrown value is `some` message of an `Error`, or `none`.
pub mod Calls
pub mod Numbers
pub mod Order
pub mod Outcome
pub mod Answered
pub mod Returns
mod Tests
use aethor_studio_v.Prelude.{
  ℕ, zero, suc, ◌+◌, ◌==◌, ℤ, Bool, true, false, not, ◌||◌, Option, none, some, List, [], ◌∷◌, ◌++◌,
  Text, length, get_elem?, set, if◌then◌else◌, codes, Result, err, ok,
}
use aethor_studio_v.Contracts.{
  CommandStatus, unsupported, rejected, accepted, completed, failed, timed_out, cancelled,
  unconfirmed, RobotCommandKind, CommandResult, CommandAuditRecord, RobotSessionSnapshot,
  JointStateFrame, Validity, stale,
}
use aethor_studio_v.Safety.{create_unconfirmed_transport_result}
use aethor_studio_v.Runtime.{
  GatewayRuntimeState, StoreCall, set_session, set_joint_state, begin_command_audit_refresh,
  fail_command_audit_refresh, mark_telemetry_degraded,
}
use aethor_studio_v.Runtime.Commands.{replace_command_history, set_last_command_result}
use aethor_studio_v.Runtime.Actions.{Action, apply}

pub record GatewayCommandIntent : Type 0 where
  pub command_id : Text
  pub session_id : Text
  pub command_kind : RobotCommandKind

pub record GatewayCommandLifecycleOutcome : Type 0 where
  pub result : CommandResult
  pub transport_error : Option Text
  pub snapshot_error : Option Text
  pub audit_error : Option Text
  pub reconciliation_superseded : Bool

-- Where a call is: it waits for the command or for the refresh, or has returned.
pub data Stage : Type 0 where
  executing : GatewayCommandIntent → Text → ℕ → Stage
  refreshing : CommandResult → ℕ → Stage
  finished : GatewayCommandLifecycleOutcome → Stage

unfoldable pub safe_error_message : Option Text → Text → Text
safe_error_message none fallback = fallback
safe_error_message (some message) fallback = message

abbrev pub status_text : CommandStatus → Text
status_text unsupported = codes "unsupported"
status_text rejected = codes "rejected"
status_text accepted = codes "accepted"
status_text completed = codes "completed"
status_text failed = codes "failed"
status_text timed_out = codes "timedOut"
status_text cancelled = codes "cancelled"
status_text unconfirmed = codes "unconfirmed"

abbrev pub is_stale : Validity → Bool
is_stale stale = true
is_stale _ = false

-- `runtime.transportWarning ?? '...'`
abbrev pub warning_or_default : Option Text → Text
warning_or_default none = codes "实时遥测尚未恢复；REST 快照仅代表刷新时刻"
warning_or_default (some warning) = warning

-- An outcome without errors.
abbrev pub quiet_outcome : CommandResult → Bool → GatewayCommandLifecycleOutcome
quiet_outcome result superseded = record {
  result = result;
  transport_error = none;
  snapshot_error = none;
  audit_error = none;
  reconciliation_superseded = superseded;
}

unfoldable pub snapshot_message : CommandResult → Option Text → Text
snapshot_message result reason =
    codes "命令已返回 "
    ++ status_text result.status
    ++ codes "，但权威状态刷新失败："
    ++ safe_error_message reason (codes "未知错误")

-- The answers to `Promise.all([getSession(), getJointState()])` and to `getCommandHistory()`.
abbrev pub SnapshotRefresh : Type 0 → Type 0
SnapshotRefresh F = Result (Option Text) (RobotSessionSnapshot × JointStateFrame F)

abbrev pub AuditRefresh : Type 0 → Type 0
AuditRefresh F = Result (Option Text) (List (CommandAuditRecord F))

-- What the calls share. `refresh_sequence` is the entry of `refreshSequenceByGateway`, 0 for none;
-- `store_calls` are the calls of the other stores so far.
pub record Shared (Cap F : Type 0) : Type 0 where
  pub runtime : GatewayRuntimeState Cap F
  pub refresh_sequence : ℕ
  pub store_calls : List (StoreCall F)

module _ {Cap F : Type 0} where
  -- The call up to the request.
  unfoldable pub begin_call : Shared Cap F → GatewayCommandIntent → Text → Shared Cap F × Stage
  begin_call s intent label =
      let sequence = s.refresh_sequence + 1 in
      (record s { refresh_sequence = sequence }, executing intent label sequence)

  abbrev pub is_current_refresh : Shared Cap F → ℕ → Bool
  is_current_refresh s sequence = s.refresh_sequence == sequence

  -- `setSession` and then `setJointState`; `targets` are the target positions of the session store.
  unfoldable pub restore_snapshot :
      Shared Cap F → List F → RobotSessionSnapshot → JointStateFrame F → Shared Cap F
  restore_snapshot s targets session joint_state =
      let first = set_session s.runtime session in
      let second = set_joint_state first.1 targets joint_state in
      record s { runtime = second.1; store_calls = s.store_calls ++ first.0 ++ second.0 }

  unfoldable pub preserve_degraded_telemetry : GatewayRuntimeState Cap F → Bool
  preserve_degraded_telemetry runtime =
      is_stale runtime.session.validity || is_stale runtime.joint_state.validity

  -- The refreshed snapshot, and `snapshotError`.
  unfoldable pub on_snapshot :
      Shared Cap F → CommandResult → List F → SnapshotRefresh F → Shared Cap F × Option Text
  on_snapshot s result targets (ok (session, joint_state)) =
      let restored = restore_snapshot s targets session joint_state in
      let warning = warning_or_default s.runtime.transport_warning in
      (
        if preserve_degraded_telemetry s.runtime
            then record restored { runtime = mark_telemetry_degraded restored.runtime warning }
            else restored,
        none,
      )
  on_snapshot s result targets (err reason) =
      let message = snapshot_message result reason in
      (record s { runtime = mark_telemetry_degraded s.runtime message }, some message)

module _ {Cap F : Type 0} (date_parse : Text → Option ℤ) where
  -- The refreshed audit history, and `auditError`.
  unfoldable pub on_audit : Shared Cap F → AuditRefresh F → Shared Cap F × Option Text
  on_audit s (ok history) =
      (record s { runtime = replace_command_history date_parse s.runtime history }, none)
  on_audit s (err reason) =
      let message = codes "命令终态已收到，但审计记录恢复失败：" ++ safe_error_message reason (codes "未知错误") in
      (record s { runtime = fail_command_audit_refresh s.runtime message }, some message)

  -- `execute` has thrown, at the time `now`.
  unfoldable pub on_transport_error :
      Shared Cap F → GatewayCommandIntent → Text → ℕ → Option Text → Text → Shared Cap F × Stage
  on_transport_error s intent label sequence reason now =
      let transport_error = safe_error_message reason (label ++ codes "请求失败；物理结果未知") in
      let result =
        create_unconfirmed_transport_result intent.command_id intent.session_id intent.command_kind
          (label ++ codes "请求的物理结果未知：" ++ transport_error) now in
      let degraded =
        mark_telemetry_degraded (set_last_command_result date_parse s.runtime (some result))
          (label ++ codes "请求响应丢失；当前实测状态已降级为陈旧") in
      let audit_error = label ++ codes "请求失败，命令审计尚未重新核对" in
      (
        record s {
          runtime =
              if is_current_refresh s sequence
              then fail_command_audit_refresh degraded audit_error
              else degraded;
        },
        finished (record {
          result = result;
          transport_error = some transport_error;
          snapshot_error = none;
          audit_error = some audit_error;
          reconciliation_superseded = not (is_current_refresh s sequence);
        }),
      )

  -- `execute` has returned.
  unfoldable pub on_result : Shared Cap F → ℕ → CommandResult → Shared Cap F × Stage
  on_result s sequence result =
      let received = set_last_command_result date_parse s.runtime (some result) in
      if is_current_refresh s sequence
      then (record s { runtime = begin_command_audit_refresh received }, refreshing result sequence)
      else (record s { runtime = received }, finished (quiet_outcome result true))

  -- Both parts of the refresh have settled.
  unfoldable pub on_refresh :
      Shared Cap F
      → CommandResult
      → ℕ
      → List F
      → SnapshotRefresh F
      → AuditRefresh F
      → Shared Cap F × Stage
  on_refresh s result sequence targets snapshot audit =
      let first = on_snapshot s result targets snapshot in
      let second = on_audit first.0 audit in
      if is_current_refresh s sequence
      then (
        second.0,
        finished (record {
          result = result;
          transport_error = none;
          snapshot_error = first.1;
          audit_error = second.1;
          reconciliation_superseded = false;
        }),
      )
      else (s, finished (quiet_outcome result true))
