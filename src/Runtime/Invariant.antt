-- ===== src/Runtime/Invariant.antt =====
-- The histories and the results that the gateway runtime store keeps, over any actions of the store.
use mathlib.Core.Path.{subst}
use aethor_studio_v.Prelude.{
  ℕ, ◌-◌, ◌≤◌, ℤ, List, [], ◌∷◌, Text, Option, none, some, length, length-drop, take_last, any,
  text_eq, eq_of_text_eq, ◌≡◌, refl, sym, ◌∙◌, arith, Bool-cases, inl, inr,
}
use aethor_studio_v.Contracts.{
  ProtocolFrame, RobotSessionSnapshot, JointStateFrame, CommandResult, DirectCommandResult,
  CommandAuditRecord,
}
use aethor_studio_v.Safety.Outcome.{reduce-Own, reconcile-own, some-injective}
use aethor_studio_v.Runtime.{
  GatewayRuntimeState, initial_runtime, is_live, safety_state, set_capabilities, set_session,
  set_joint_state, replace_protocol_frames, append_protocol_frame, begin_command_audit_refresh,
  fail_command_audit_refresh, set_transport_warning, set_active_port_name,
  begin_serial_port_refresh, complete_serial_port_refresh, fail_serial_port_refresh,
  set_selected_port_name, begin_serial_session_operation, complete_serial_session_operation,
  fail_serial_session_operation, mark_telemetry_degraded, complete_disconnect, reset_runtime,
}
use aethor_studio_v.Runtime.Commands.{
  should_replace_last_result, replace_command_history, replace_direct_command_history,
  upsert_direct_command_result, set_last_command_result, command_result_update,
}
use aethor_studio_v.Runtime.History.{merge_direct_command_history, sort_by_time, values, insert_all}
use aethor_studio_v.Runtime.Actions.{
  Action, capabilities_set, session_set, joint_state_set, frames_replaced, frame_appended,
  audit_begun, audit_failed, history_replaced, direct_history_replaced, direct_result_upserted,
  last_result_set, warning_set, active_port_set, port_refresh_begun, port_refresh_completed,
  port_refresh_failed, port_selected, operation_begun, operation_completed, operation_failed,
  telemetry_degraded, disconnected, was_reset, apply, run,
}

-- A result that is there is of the session.
abbrev pub OfSession : Text → Option CommandResult → Type 0
OfSession session_id o = (r : CommandResult) → o ≡ some r → r.session_id ≡ session_id

none-OfSession : (session_id : Text) → OfSession session_id none
none-OfSession session_id = λ r h. cc

some-OfSession :
    (session_id : Text) (r : CommandResult)
    → r.session_id ≡ session_id
    → OfSession session_id (some r)
some-OfSession session_id r own =
    λ q h. subst {A = CommandResult} (λ x. x.session_id ≡ session_id) (some-injective r q h) own

pub record Held {Cap F : Type 0} (s : GatewayRuntimeState Cap F) : Type 0 where
  pub latched : OfSession s.session.session_id s.latched_safety_result
  pub last : OfSession s.session.session_id s.last_command_result
  pub history : length s.command_history ≤ 128
  pub direct_history : length s.direct_command_history ≤ 128

length-take_last : {A : Type 0} (n : ℕ) (l : List A) → length (take_last n l) ≤ n
length-take_last n l = omega (arith, length-drop (length l - n) l)

module _ (date_parse : Text → Option ℤ) where
  length-merge :
      (l m : List DirectCommandResult) → length (merge_direct_command_history date_parse l m) ≤ 128
  unfolding merge_direct_command_history
  length-merge l m =
      length-take_last 128 (sort_by_time date_parse (values (insert_all m (insert_all l []))))

module _ {Cap F : Type 0} where
  -- The same results and histories under the same session.
  same-Held :
      (s t : GatewayRuntimeState Cap F)
      → s.session.session_id ≡ t.session.session_id
      → s.latched_safety_result ≡ t.latched_safety_result
      → s.last_command_result ≡ t.last_command_result
      → s.command_history ≡ t.command_history
      → s.direct_command_history ≡ t.direct_command_history
      → Held s
      → Held t
  same-Held s t session latched last history direct h = record {
    latched = λ r e. h.latched r (latched ∙ e) ∙ session;
    last = λ r e. h.last r (last ∙ e) ∙ session;
    history = subst (λ x. length x ≤ 128) history h.history;
    direct_history = subst (λ x. length x ≤ 128) direct h.direct_history;
  }

  fresh-Held :
      (s : GatewayRuntimeState Cap F)
      → s.latched_safety_result ≡ none
      → s.last_command_result ≡ none
      → s.command_history ≡ []
      → s.direct_command_history ≡ []
      → Held s
  fresh-Held s latched last history direct = record {
    latched = λ r h. absurd (let e = sym latched ∙ h in cc);
    last = λ r h. absurd (let e = sym last ∙ h in cc);
    history = rw history (omega arith);
    direct_history = rw direct (omega arith);
  }

  set_session-Held :
      (s : GatewayRuntimeState Cap F) (session : RobotSessionSnapshot)
      → Held s
      → Held (set_session s session).1
  unfolding set_session
  set_session-Held s session h =
      elim (Bool-cases (text_eq s.session.session_id session.session_id)) [
        | inl same ↦ rw same (
            let e = eq_of_text_eq s.session.session_id session.session_id same in
            record {
              latched = λ r h'. h.latched r h' ∙ e;
              last = λ r h'. h.last r h' ∙ e;
              history = h.history;
              direct_history = h.direct_history;
            })
        | inr other ↦ rw other (fresh-Held _ refl refl refl refl)
      ]

  append_protocol_frame-Held :
      (s : GatewayRuntimeState Cap F) (frame : ProtocolFrame)
      → Held s
      → Held (append_protocol_frame s frame)
  unfolding append_protocol_frame
  append_protocol_frame-Held s frame h =
      elim (Bool-cases (any (λ (c : ProtocolFrame). text_eq c.id frame.id) s.protocol_frames)) [
        | inl known ↦ rw known h
        | inr new ↦ rw new (same-Held s _ refl refl refl refl refl h)
      ]

  mark_telemetry_degraded-Held :
      (s : GatewayRuntimeState Cap F) (warning : Text)
      → Held s
      → Held (mark_telemetry_degraded s warning)
  unfolding mark_telemetry_degraded
  mark_telemetry_degraded-Held s warning h =
      same-Held s (mark_telemetry_degraded s warning)
        (elim (Bool-cases (is_live s.session.source s.session.validity)) [
          | inl live ↦ rw live refl
          | inr other ↦ rw other refl
        ])
        refl refl refl refl h

module _ {Cap F : Type 0} (date_parse : Text → Option ℤ) where
  upsert-Held :
      (s : GatewayRuntimeState Cap F) (r : DirectCommandResult)
      → Held s
      → Held (upsert_direct_command_result date_parse s r)
  unfolding upsert_direct_command_result
  upsert-Held s r h = elim (Bool-cases (text_eq r.session_id s.session.session_id)) [
    | inl own ↦ rw own (record {
      latched = h.latched;
      last = h.last;
      history = h.history;
      direct_history = length-merge date_parse s.direct_command_history (r ∷ []);
    })
    | inr foreign ↦ rw foreign h
  ]

  update-Held :
      (s : GatewayRuntimeState Cap F) (r : CommandResult)
      → r.session_id ≡ s.session.session_id
      → Held s
      → Held (command_result_update date_parse s r)
  unfolding command_result_update
  update-Held s r own h = record {
    latched = reduce-Own date_parse s.session.session_id (safety_state s) r own h.latched;
    last = elim (Bool-cases (should_replace_last_result date_parse s.last_command_result r)) [
      | inl newer ↦ rw newer (some-OfSession s.session.session_id r own)
      | inr older ↦ rw older h.last
    ];
    history = h.history;
    direct_history = h.direct_history;
  }

  last_result-Held :
      (s : GatewayRuntimeState Cap F) (r : Option CommandResult)
      → Held s
      → Held (set_last_command_result date_parse s r)
  unfolding set_last_command_result
  last_result-Held s none h = record {
    latched = h.latched;
    last = none-OfSession _;
    history = h.history;
    direct_history = h.direct_history;
  }
  last_result-Held s (some r) h = elim (Bool-cases (text_eq r.session_id s.session.session_id)) [
    | inl own ↦ rw own (update-Held s r (eq_of_text_eq r.session_id s.session.session_id own) h)
    | inr foreign ↦ rw foreign h
  ]

  replace_command_history-Held :
      (s : GatewayRuntimeState Cap F) (l : List (CommandAuditRecord F))
      → Held s
      → Held (replace_command_history date_parse s l)
  unfolding replace_command_history
  replace_command_history-Held s l h = record {
    latched = reconcile-own date_parse (take_last 128 l) s.session.session_id (safety_state s);
    last = h.last;
    history = length-take_last 128 l;
    direct_history = h.direct_history;
  }

  apply-Held :
      (s : GatewayRuntimeState Cap F) (a : Action Cap F) → Held s → Held (apply date_parse s a)
  unfolding apply set_capabilities set_joint_state replace_protocol_frames
      begin_command_audit_refresh fail_command_audit_refresh replace_direct_command_history
      set_transport_warning set_active_port_name begin_serial_port_refresh
      complete_serial_port_refresh fail_serial_port_refresh set_selected_port_name
      begin_serial_session_operation complete_serial_session_operation fail_serial_session_operation
      complete_disconnect reset_runtime
  apply-Held s (session_set session) h = set_session-Held s session h
  apply-Held s (frame_appended frame) h = append_protocol_frame-Held s frame h
  apply-Held s (telemetry_degraded warning) h = mark_telemetry_degraded-Held s warning h
  apply-Held s (history_replaced history) h = replace_command_history-Held s history h
  apply-Held s (direct_history_replaced l) h = record {
    latched = h.latched;
    last = h.last;
    history = h.history;
    direct_history = length-merge date_parse [] l;
  }
  apply-Held s (direct_result_upserted r) h = upsert-Held s r h
  apply-Held s (last_result_set r) h = last_result-Held s r h
  apply-Held s (disconnected session joint) h = fresh-Held _ refl refl refl refl
  apply-Held s (was_reset joint) h = fresh-Held _ refl refl refl refl
  apply-Held s (capabilities_set c) h = same-Held s _ refl refl refl refl refl h
  apply-Held s (frames_replaced frames) h = same-Held s _ refl refl refl refl refl h
  apply-Held s (joint_state_set targets joint) h = same-Held s _ refl refl refl refl refl h
  apply-Held s audit_begun h = same-Held s _ refl refl refl refl refl h
  apply-Held s (audit_failed message) h = same-Held s _ refl refl refl refl refl h
  apply-Held s (warning_set warning) h = same-Held s _ refl refl refl refl refl h
  apply-Held s (active_port_set port) h = same-Held s _ refl refl refl refl refl h
  apply-Held s port_refresh_begun h = same-Held s _ refl refl refl refl refl h
  apply-Held s (port_refresh_completed ports updated) h = same-Held s _ refl refl refl refl refl h
  apply-Held s (port_refresh_failed message) h = same-Held s _ refl refl refl refl refl h
  apply-Held s (port_selected port) h = same-Held s _ refl refl refl refl refl h
  apply-Held s (operation_begun status) h = same-Held s _ refl refl refl refl refl h
  apply-Held s operation_completed h = same-Held s _ refl refl refl refl refl h
  apply-Held s (operation_failed message) h = same-Held s _ refl refl refl refl refl h

  run-Held :
      (s : GatewayRuntimeState Cap F) (l : List (Action Cap F)) → Held s → Held (run date_parse s l)
  unfolding run
  run-Held s [] h = h
  run-Held s (a ∷ l) h = run-Held (apply date_parse s a) l (apply-Held s a h)

  -- After any actions on the initial state, the latched result and the last result, where there is
  -- one, are of the session that the state has, and each of the two histories has at most 128
  -- entries.
  pub run-results :
      (joint_frame : JointStateFrame F) (l : List (Action Cap F))
      → Held (run date_parse (initial_runtime joint_frame) l)
  run-results joint_frame l =
      run-Held (initial_runtime joint_frame) l (fresh-Held _ refl refl refl refl)
