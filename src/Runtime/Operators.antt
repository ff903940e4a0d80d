-- ===== src/Runtime/Operators.antt =====
-- The protocol frames and those that an operator sees, over any actions of the store.
use aethor_studio_v.Prelude.{
  ℕ, zero, suc, ◌-◌, ◌≤◌, ℤ, Bool, true, false, not, List, [], ◌∷◌, ◌++◌, Text, Option, none, some,
  length, drop, filter, all, any, if◌then◌else◌, text_eq, text_eq_refl, text_mem, ◌≡◌, refl, sym,
  ap, append-nil, arith, Bool-cases, inl, inr,
}
use aethor_studio_v.Contracts.{
  ProtocolFrame, RobotSessionSnapshot, JointStateFrame, CommandResult, DirectCommandResult,
}
use aethor_studio_v.Runtime.{
  GatewayRuntimeState, initial_runtime, set_capabilities, set_session, set_joint_state,
  replace_protocol_frames, append_protocol_frame, begin_command_audit_refresh,
  fail_command_audit_refresh, set_transport_warning, set_active_port_name,
  begin_serial_port_refresh, complete_serial_port_refresh, fail_serial_port_refresh,
  set_selected_port_name, begin_serial_session_operation, complete_serial_session_operation,
  fail_serial_session_operation, mark_telemetry_degraded, complete_disconnect, reset_runtime,
}
use aethor_studio_v.Runtime.Commands.{
  replace_command_history, replace_direct_command_history, upsert_direct_command_result,
  set_last_command_result, command_result_update,
}
use aethor_studio_v.Runtime.Frames.{
  ids_of, is_routine_joint_position_frame, append_frame, retained_operators,
}
use aethor_studio_v.Runtime.Ids.{
  Absent, DistinctIds, text_eq_sym, mem-append, Absent-drop, any-Absent, unique-DistinctIds,
  length-unique_protocol_frames, append_frame-DistinctIds, length-append_frame,
}
use aethor_studio_v.Runtime.Actions.{
  Action, capabilities_set, session_set, joint_state_set, frames_replaced, frame_appended,
  audit_begun, audit_failed, history_replaced, direct_history_replaced, direct_result_upserted,
  last_result_set, warning_set, active_port_set, port_refresh_begun, port_refresh_completed,
  port_refresh_failed, port_selected, operation_begun, operation_completed, operation_failed,
  telemetry_degraded, disconnected, was_reset, apply, run,
}

-- The frames that are not routine position traffic.
abbrev pub notable : List ProtocolFrame → List ProtocolFrame
notable frames = filter (λ frame. not (is_routine_joint_position_frame frame)) frames

-- The frames whose id is one of `ids`.
abbrev with_ids : List Text → List ProtocolFrame → List ProtocolFrame
with_ids ids frames = filter (λ candidate. text_mem candidate.id ids) frames

filter-all : (p : ProtocolFrame → Bool) (l : List ProtocolFrame) → all p l ≡ true → filter p l ≡ l
filter-all p [] h = refl
filter-all p (f ∷ l) h = elim (Bool-cases (p f)) [
  | inl here ↦ rw here (ap (λ rest. f ∷ rest) (filter-all p l (ground arith)))
  | inr away ↦ absurd (ground arith)
]

retained-with_ids :
    (operators frames : List ProtocolFrame)
    → retained_operators operators frames ≡ with_ids (ids_of frames) operators
unfolding retained_operators
retained-with_ids operators frames =
    elim (Bool-cases (all (λ (c : ProtocolFrame). text_mem c.id (ids_of frames)) operators)) [
      | inl kept ↦ rw kept (sym (filter-all _ operators kept))
      | inr lost ↦ rw lost refl
    ]

-- Frames whose ids are all there.
with_ids-notable :
    (ids : List Text) (l : List ProtocolFrame)
    → ((x : Text) → text_mem x (ids_of l) ≡ true → text_mem x ids ≡ true)
    → with_ids ids (notable l) ≡ notable l
with_ids-notable ids [] h = refl
with_ids-notable ids (f ∷ l) h =
    let rest : with_ids ids (notable l) ≡ notable l =
      with_ids-notable ids l (λ x e. h x (ground arith)) in
    elim (Bool-cases (is_routine_joint_position_frame f)) [
      | inl routine ↦ rw routine rest
      | inr shown ↦ rw (shown, h f.id (rw (text_eq_refl f.id) refl)) (ap (λ k. f ∷ k) rest)
    ]

-- Once the oldest frames are dropped, keeping by id drops the same of the notable ones.
with_ids-drop :
    (n : ℕ) (l : List ProtocolFrame) (f : ProtocolFrame)
    → DistinctIds l
    → Absent f.id l
    → with_ids (ids_of (drop n l ++ (f ∷ []))) (notable l) ≡ notable (drop n l)
with_ids-drop zero l f distinct absent =
    with_ids-notable _ l (λ x e. rw (mem-append x l (f ∷ []), e) refl)
with_ids-drop (suc n) [] f distinct absent = refl
with_ids-drop (suc n) (g ∷ l) f (here, distinct) absent =
    let rest : with_ids (ids_of (drop n l ++ (f ∷ []))) (notable l) ≡ notable (drop n l) =
      with_ids-drop n l f distinct (ground arith) in
    let gone : text_mem g.id (ids_of (drop n l ++ (f ∷ []))) ≡ false =
      rw (mem-append g.id (drop n l) (f ∷ []), Absent-drop g.id n l here, text_eq_sym g.id f.id)
        (ground arith) in
    elim (Bool-cases (is_routine_joint_position_frame g)) [
      | inl routine ↦ rw routine rest
      | inr shown ↦ rw (shown, gone) rest
    ]

filter-append :
    (p : ProtocolFrame → Bool) (l m : List ProtocolFrame)
    → filter p (l ++ m) ≡ filter p l ++ filter p m
filter-append p [] m = refl
filter-append p (f ∷ l) m = elim (Bool-cases (p f)) [
  | inl here ↦ rw here (ap (λ k. f ∷ k) (filter-append p l m))
  | inr away ↦ rw away (filter-append p l m)
]

-- The operator's frames after a frame is appended.
append-notable :
    (l : List ProtocolFrame) (f : ProtocolFrame)
    → DistinctIds l
    → Absent f.id l
    → (let retained = retained_operators (notable l) (append_frame l f) in
        if is_routine_joint_position_frame f then retained else retained ++ (f ∷ []))
      ≡ notable (append_frame l f)
unfolding append_frame
append-notable l f distinct absent =
    rw
      (
        retained-with_ids (notable l) (append_frame l f),
        with_ids-drop (length l - 255) l f distinct absent,
        filter-append (λ c. not (is_routine_joint_position_frame c)) (drop (length l - 255) l)
            (f ∷ []),
      )
      (elim (Bool-cases (is_routine_joint_position_frame f)) [
        | inl routine ↦ rw routine (sym (append-nil _))
        | inr shown ↦ rw shown refl
      ])

-- Frames with distinct ids, at most 256, and among them exactly the notable ones as the operator's.
pub record Mirrors (frames operators : List ProtocolFrame) : Type 0 where
  pub same : operators ≡ notable frames
  pub distinct : DistinctIds frames
  pub fits : length frames ≤ 256

no_frames : Mirrors [] []
no_frames = record { same = refl; distinct = tt; fits = omega arith }

module _ {Cap F : Type 0} where
  abbrev pub Mirrored : GatewayRuntimeState Cap F → Type 0
  Mirrored s = Mirrors s.protocol_frames s.operator_protocol_frames

  set_session-Mirrored :
      (s : GatewayRuntimeState Cap F) (session : RobotSessionSnapshot)
      → Mirrored s
      → Mirrored (set_session s session).1
  unfolding set_session
  set_session-Mirrored s session h =
      elim (Bool-cases (text_eq s.session.session_id session.session_id)) [
        | inl same ↦ rw same h
        | inr other ↦ rw other no_frames
      ]

  append_protocol_frame-Mirrored :
      (s : GatewayRuntimeState Cap F) (frame : ProtocolFrame)
      → Mirrored s
      → Mirrored (append_protocol_frame s frame)
  unfolding append_protocol_frame
  append_protocol_frame-Mirrored s frame h =
      elim (Bool-cases (any (λ (c : ProtocolFrame). text_eq c.id frame.id) s.protocol_frames)) [
        | inl known ↦ rw known h
        | inr new ↦
            let absent = any-Absent frame.id s.protocol_frames new in
            rw (new, h.same)
              (record {
                same = append-notable s.protocol_frames frame h.distinct absent;
                distinct = append_frame-DistinctIds s.protocol_frames frame h.distinct absent;
                fits = length-append_frame s.protocol_frames frame;
              })
      ]

  replace_protocol_frames-Mirrored :
      (s : GatewayRuntimeState Cap F) (frames : List ProtocolFrame)
      → Mirrored (replace_protocol_frames s frames)
  unfolding replace_protocol_frames
  replace_protocol_frames-Mirrored s frames = record {
    same = refl;
    distinct = unique-DistinctIds frames;
    fits = length-unique_protocol_frames frames;
  }

module _ {Cap F : Type 0} (date_parse : Text → Option ℤ) where
  upsert-Mirrored :
      (s : GatewayRuntimeState Cap F) (r : DirectCommandResult)
      → Mirrored s
      → Mirrored (upsert_direct_command_result date_parse s r)
  unfolding upsert_direct_command_result
  upsert-Mirrored s r h = elim (Bool-cases (text_eq r.session_id s.session.session_id)) [
    | inl own ↦ rw own h
    | inr foreign ↦ rw foreign h
  ]

  last_result-Mirrored :
      (s : GatewayRuntimeState Cap F) (r : Option CommandResult)
      → Mirrored s
      → Mirrored (set_last_command_result date_parse s r)
  unfolding set_last_command_result command_result_update
  last_result-Mirrored s none h = h
  last_result-Mirrored s (some r) h =
      elim (Bool-cases (text_eq r.session_id s.session.session_id)) [
        | inl own ↦ rw own h
        | inr foreign ↦ rw foreign h
      ]

  apply-Mirrored :
      (s : GatewayRuntimeState Cap F) (a : Action Cap F)
      → Mirrored s
      → Mirrored (apply date_parse s a)
  unfolding apply set_capabilities set_joint_state begin_command_audit_refresh
      fail_command_audit_refresh replace_command_history replace_direct_command_history
      set_transport_warning set_active_port_name begin_serial_port_refresh
      complete_serial_port_refresh fail_serial_port_refresh set_selected_port_name
      begin_serial_session_operation complete_serial_session_operation fail_serial_session_operation
      mark_telemetry_degraded complete_disconnect reset_runtime
  apply-Mirrored s (session_set session) h = set_session-Mirrored s session h
  apply-Mirrored s (frames_replaced frames) h = replace_protocol_frames-Mirrored s frames
  apply-Mirrored s (frame_appended frame) h = append_protocol_frame-Mirrored s frame h
  apply-Mirrored s (direct_result_upserted r) h = upsert-Mirrored s r h
  apply-Mirrored s (last_result_set r) h = last_result-Mirrored s r h
  apply-Mirrored s (disconnected session joint) h = no_frames
  apply-Mirrored s (was_reset joint) h = no_frames
  apply-Mirrored s (capabilities_set c) h = h
  apply-Mirrored s (joint_state_set targets joint) h = h
  apply-Mirrored s audit_begun h = h
  apply-Mirrored s (audit_failed message) h = h
  apply-Mirrored s (history_replaced history) h = h
  apply-Mirrored s (direct_history_replaced history) h = h
  apply-Mirrored s (warning_set warning) h = h
  apply-Mirrored s (active_port_set port) h = h
  apply-Mirrored s port_refresh_begun h = h
  apply-Mirrored s (port_refresh_completed ports updated) h = h
  apply-Mirrored s (port_refresh_failed message) h = h
  apply-Mirrored s (port_selected port) h = h
  apply-Mirrored s (operation_begun status) h = h
  apply-Mirrored s operation_completed h = h
  apply-Mirrored s (operation_failed message) h = h
  apply-Mirrored s (telemetry_degraded warning) h = h

  run-Mirrored :
      (s : GatewayRuntimeState Cap F) (l : List (Action Cap F))
      → Mirrored s
      → Mirrored (run date_parse s l)
  unfolding run
  run-Mirrored s [] h = h
  run-Mirrored s (a ∷ l) h = run-Mirrored (apply date_parse s a) l (apply-Mirrored s a h)

  -- After any actions on the initial state, the operator's frames are exactly the protocol frames
  -- other than routine position traffic, in the same order; no two protocol frames have the same
  -- id, and there are at most 256.
  pub run-operators :
      (joint_frame : JointStateFrame F) (l : List (Action Cap F))
      → Mirrored (run date_parse (initial_runtime joint_frame) l)
  run-operators joint_frame l = run-Mirrored (initial_runtime joint_frame) l no_frames
