-- ===== src/Lifecycle/Outcome.antt =====
-- What one call leaves behind: it returns, it never hides a lost response, and it never turns
-- degraded telemetry back to live.
use aethor_studio_v.Prelude.{
  ℕ, ℤ, Bool, true, false, Option, none, some, List, ◌++◌, Text, text_eq, text_eq_refl, codes, err,
  ok, ◌≡◌, refl, ap, ◌∙◌, arith, Bool-cases, inl, inr,
}
use aethor_studio_v.Contracts.{CommandResult, DataSource, Validity}
use aethor_studio_v.Safety.{
  create_unconfirmed_transport_result, reduce_command_safety_state, is_completed_stop,
  is_safety_latched_result, parse_timestamp, is_latched, not_after, CommandSafetyState,
}
use aethor_studio_v.Runtime.{
  GatewayRuntimeState, is_live, safety_state, mark_telemetry_degraded, fail_command_audit_refresh,
}
use aethor_studio_v.Runtime.Commands.{
  set_last_command_result, command_result_update, replace_command_history,
}
use aethor_studio_v.Lifecycle.{
  GatewayCommandIntent, Stage, executing, refreshing, finished, Shared, snapshot_message,
  warning_or_default, safe_error_message, SnapshotRefresh, AuditRefresh, restore_snapshot,
  preserve_degraded_telemetry, on_snapshot, on_audit, on_transport_error, on_refresh,
  is_current_refresh,
}

stale-is_live : (source : DataSource) → is_live source Validity.stale ≡ false
stale-is_live source = ground arith

abbrev pub is_finished : Option Stage → Bool
is_finished none = false
is_finished (some (executing intent label n)) = false
is_finished (some (refreshing result n)) = false
is_finished (some (finished outcome)) = true

module _ {Cap F : Type 0} where
  -- Neither the session nor the joint state is shown as measured and valid.
  abbrev pub NotLive : GatewayRuntimeState Cap F → Type 0
  NotLive s =
      (is_live s.session.source s.session.validity ≡ false)
      × (is_live s.joint_state.source s.joint_state.validity ≡ false)

  mark_telemetry_degraded-NotLive :
      (s : GatewayRuntimeState Cap F) (warning : Text) → NotLive (mark_telemetry_degraded s warning)
  unfolding mark_telemetry_degraded
  mark_telemetry_degraded-NotLive s warning = (
    elim (Bool-cases (is_live s.session.source s.session.validity)) [
      | inl live ↦ rw live (stale-is_live s.session.source)
      | inr other ↦ rw other other
    ],
    elim (Bool-cases (is_live s.joint_state.source s.joint_state.validity)) [
      | inl live ↦ rw live (stale-is_live s.joint_state.source)
      | inr other ↦ rw other other
    ],
  )

reduce-latches :
    (date_parse : Text → Option ℤ) (s : CommandSafetyState) (r : CommandResult)
    → is_completed_stop r ≡ false
    → is_safety_latched_result r ≡ true
    → not_after
        (date_parse r.timestamp_utc)
        (parse_timestamp date_parse s.confirmed_stop_timestamp_utc)
      ≡ false
    → is_latched (reduce_command_safety_state date_parse s r).latched_result ≡ true
unfolding reduce_command_safety_state parse_timestamp
reduce-latches date_parse s r other uncertain late = rw (other, uncertain, late) (ground arith)

module _ {Cap F : Type 0} (date_parse : Text → Option ℤ) where
  last_result-latches :
      (s : GatewayRuntimeState Cap F) (r : CommandResult)
      → r.session_id ≡ s.session.session_id
      → is_completed_stop r ≡ false
      → is_safety_latched_result r ≡ true
      → not_after
          (date_parse r.timestamp_utc)
          (parse_timestamp date_parse s.confirmed_stop_timestamp_utc)
        ≡ false
      → is_latched (set_last_command_result date_parse s (some r)).latched_safety_result ≡ true
  unfolding set_last_command_result command_result_update
  last_result-latches s r own other uncertain late =
      rw (ap (λ x. text_eq x s.session.session_id) own ∙ text_eq_refl s.session.session_id)
        (reduce-latches date_parse (safety_state s) r other uncertain late)

  -- `execute` throws for a command of the session that the store has, not at or before the time of
  -- a confirmed stop: then the safety latch is set, neither the session nor the joint state is shown
  -- as live, and the call returns.
  pub on_transport_error-latches :
      (s : Shared Cap F) (intent : GatewayCommandIntent) (label : Text) (n : ℕ)
      (reason : Option Text) (now : Text)
      → intent.session_id ≡ s.runtime.session.session_id
      → not_after
          (date_parse now)
          (parse_timestamp date_parse s.runtime.confirmed_stop_timestamp_utc)
        ≡ false
      → let end = on_transport_error date_parse s intent label n reason now in
        (is_latched end.0.runtime.latched_safety_result ≡ true)
        × NotLive end.0.runtime
        × (is_finished (some end.1) ≡ true)
  unfolding on_transport_error fail_command_audit_refresh mark_telemetry_degraded
      create_unconfirmed_transport_result is_completed_stop is_safety_latched_result
  on_transport_error-latches s intent label n reason now own late =
      elim (Bool-cases (is_current_refresh s n)) [
        | inl current ↦ rw current (
          latch,
          mark_telemetry_degraded-NotLive received (label ++ codes "请求响应丢失；当前实测状态已降级为陈旧"),
          refl,
        )
        | inr superseded ↦ rw superseded (
          latch,
          mark_telemetry_degraded-NotLive received (label ++ codes "请求响应丢失；当前实测状态已降级为陈旧"),
          refl,
        )
      ]
    where
      result : CommandResult
      result =
          create_unconfirmed_transport_result intent.command_id intent.session_id
            intent.command_kind
            (label
              ++ codes "请求的物理结果未知："
              ++ safe_error_message reason (label ++ codes "请求失败；物理结果未知"))
            now

      received : GatewayRuntimeState Cap F
      received = set_last_command_result date_parse s.runtime (some result)

      latch : is_latched received.latched_safety_result ≡ true
      latch = last_result-latches s.runtime result own (ground arith) refl late

  on_audit-NotLive :
      (s : Shared Cap F) (audit : AuditRefresh F)
      → NotLive s.runtime
      → NotLive (on_audit date_parse s audit).0.runtime
  unfolding on_audit replace_command_history fail_command_audit_refresh
  on_audit-NotLive s (ok history) h = h
  on_audit-NotLive s (err reason) h = h

  on_snapshot-NotLive :
      (s : Shared Cap F) (r : CommandResult) (targets : List F) (snapshot : SnapshotRefresh F)
      → preserve_degraded_telemetry s.runtime ≡ true
      → NotLive (on_snapshot s r targets snapshot).0.runtime
  unfolding on_snapshot
  on_snapshot-NotLive s r targets (err reason) degraded =
      mark_telemetry_degraded-NotLive s.runtime (snapshot_message r reason)
  on_snapshot-NotLive s r targets (ok (session, joint)) degraded = rw degraded (
      mark_telemetry_degraded-NotLive (restore_snapshot s targets session joint).runtime
        (warning_or_default s.runtime.transport_warning))

  -- The session or the joint state is stale when the refresh of the newest call settles: whatever
  -- the refresh brings, neither of them is shown as live after it.
  pub on_refresh-NotLive :
      (s : Shared Cap F) (r : CommandResult) (n : ℕ) (targets : List F)
      (snapshot : SnapshotRefresh F) (audit : AuditRefresh F)
      → is_current_refresh s n ≡ true
      → preserve_degraded_telemetry s.runtime ≡ true
      → NotLive (on_refresh date_parse s r n targets snapshot audit).0.runtime
  unfolding on_refresh
  on_refresh-NotLive s r n targets snapshot audit current degraded = rw current (
      on_audit-NotLive (on_snapshot s r targets snapshot).0 audit
        (on_snapshot-NotLive s r targets snapshot degraded))
