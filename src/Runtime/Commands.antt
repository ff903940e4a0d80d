-- ===== src/Runtime/Commands.antt =====
-- The actions of useGatewayRuntimeStore.ts on the results of commands and their histories.
use aethor_studio_v.Prelude.{
  ℤ, leb_ℤ, Bool, true, false, ◌||◌, Option, none, some, List, [], ◌∷◌, Text, take_last,
  if◌then◌else◌, text_eq,
}
use aethor_studio_v.Contracts.{CommandResult, CommandAuditRecord, DirectCommandResult}
use aethor_studio_v.Safety.{reconcile_command_safety_state, reduce_command_safety_state}
use aethor_studio_v.Runtime.{GatewayRuntimeState, CommandAuditStatus, safety_state}
use aethor_studio_v.Runtime.History.{merge_direct_command_history}

-- The two timestamps are of the current and the incoming result.
abbrev pub is_newer : Option ℤ → Option ℤ → Bool
is_newer current none = false
is_newer none (some incoming) = true
is_newer (some current) (some incoming) = leb_ℤ current incoming

module _ (date_parse : Text → Option ℤ) where
  abbrev pub should_replace_last_result : Option CommandResult → CommandResult → Bool
  should_replace_last_result none incoming = true
  should_replace_last_result (some current) incoming =
      text_eq current.command_id incoming.command_id
      || is_newer (date_parse current.timestamp_utc) (date_parse incoming.timestamp_utc)

module _ {Cap F : Type 0} (date_parse : Text → Option ℤ) where
  unfoldable pub replace_command_history :
      GatewayRuntimeState Cap F → List (CommandAuditRecord F) → GatewayRuntimeState Cap F
  replace_command_history state history =
      let bounded = take_last 128 history in
      let safety =
        reconcile_command_safety_state date_parse bounded state.session.session_id
          (safety_state state) in
      record state {
        command_history = bounded;
        command_audit_status = CommandAuditStatus.ready;
        command_audit_error = none;
        latched_safety_result = safety.latched_result;
        confirmed_stop_timestamp_utc = safety.confirmed_stop_timestamp_utc;
      }

  unfoldable pub replace_direct_command_history :
      GatewayRuntimeState Cap F → List DirectCommandResult → GatewayRuntimeState Cap F
  replace_direct_command_history state history = record state {
    direct_command_history = merge_direct_command_history date_parse [] history;
  }

  unfoldable pub upsert_direct_command_result :
      GatewayRuntimeState Cap F → DirectCommandResult → GatewayRuntimeState Cap F
  upsert_direct_command_result state result =
      if text_eq result.session_id state.session.session_id
      then record state {
        direct_command_history =
            merge_direct_command_history date_parse state.direct_command_history (result ∷ []);
      }
      else state

  unfoldable pub command_result_update :
      GatewayRuntimeState Cap F → CommandResult → GatewayRuntimeState Cap F
  command_result_update state result =
      let safety = reduce_command_safety_state date_parse (safety_state state) result in
      record state {
        last_command_result =
            if should_replace_last_result date_parse state.last_command_result result
            then some result
            else state.last_command_result;
        latched_safety_result = safety.latched_result;
        confirmed_stop_timestamp_utc = safety.confirmed_stop_timestamp_utc;
      }

  unfoldable pub set_last_command_result :
      GatewayRuntimeState Cap F → Option CommandResult → GatewayRuntimeState Cap F
  set_last_command_result state none = record state { last_command_result = none }
  set_last_command_result state (some result) =
      if text_eq result.session_id state.session.session_id
      then command_result_update state result
      else state
