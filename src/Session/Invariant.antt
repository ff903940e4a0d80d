-- ===== src/Session/Invariant.antt =====
-- What a session snapshot satisfies between two events (sessionStateMachine.ts).
use aethor_studio_v.Prelude.{true, Option, none, some, Text, ◌≡◌, ◌≢◌, arith}
use aethor_studio_v.Contracts.{
  Number, showcase, measured, Validity, valid, offline, connected, unknown, RobotSessionSnapshot,
}
use aethor_studio_v.Session.{
  SessionEvent, showcase_loaded, create_offline_session, is_dummy_control_mode, transition_session,
}

-- A mode in the snapshot is one of the three that the protocol allows.
abbrev pub ModeAllowed : Option Number → Type 0
ModeAllowed none = Unit
ModeAllowed (some m) = is_dummy_control_mode m ≡ true

pub record IsConsistent (s : RobotSessionSnapshot) : Type 0 where
  pub mode_allowed : ModeAllowed s.control_mode
  pub motor_needs_link : s.motor_state ≢ unknown → s.connection_state ≡ connected
  pub mode_needs_link : s.control_mode ≢ none → s.connection_state ≡ connected
  pub motor_needs_mode : s.motor_state ≢ unknown → s.control_mode ≢ none
  pub link_measured : s.connection_state ≡ connected → s.source ≡ measured
  pub measured_link : s.source ≡ measured → s.connection_state ≡ connected
  pub showcase_offline : s.source ≡ showcase → s.connection_state ≡ offline
  pub valid_observed : s.source ≡ measured → (s.validity ≡ valid → s.control_mode ≢ none)
  pub invalid_blank : s.validity ≡ Validity.invalid → s.control_mode ≡ none

-- A session that `createOfflineSession` returns is consistent.
pub create_offline_session-IsConsistent :
    (sid pid t : Text) {s : RobotSessionSnapshot}
    → create_offline_session sid pid t ≡ some s
    → IsConsistent s
unfolding create_offline_session
create_offline_session-IsConsistent sid pid t h = grind arith

pub transition_session-IsConsistent :
    (s : RobotSessionSnapshot) (e : SessionEvent)
    → IsConsistent s
    → IsConsistent (transition_session s e).state
unfolding transition_session
transition_session-IsConsistent s (showcase_loaded t) h = ground arith
transition_session-IsConsistent s e h = ground arith
