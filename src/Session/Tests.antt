-- ===== src/Session/Tests.antt =====
-- Runs of the session state machine, and its theorems at concrete inputs.
use aethor_studio_v.Prelude.{List, [], ◌∷◌, some, codes, trim, ◌≡◌, refl, pos, true, none}
use aethor_studio_v.Contracts.{
  whole, offline, connected, unknown, enabled, RobotSessionSnapshot, DataSource, Validity,
}
use aethor_studio_v.Session.{
  SessionEvent, connect_requested, transport_opened, status_observed, feedback_stale,
  transport_lost, showcase_loaded, unsupported_control_mode, create_offline_session,
  transition_session, run,
}
use aethor_studio_v.Session.Invariant.{IsConsistent}
use aethor_studio_v.Session.Traces.{
  IsReported, transition_session-IsReported, run-IsConsistent, Observed, motor_state-Observed,
}

abbrev fresh : RobotSessionSnapshot
fresh = record {
  session_id = codes "s1";
  profile_id = codes "dummy-6dof";
  connection_state = offline;
  motor_state = unknown;
  control_mode = none;
  timestamp_utc = codes "t0";
  source = DataSource.unavailable;
  validity = Validity.unavailable;
}

created : create_offline_session (codes "s1") (codes "dummy-6dof") (codes "t0") ≡ some fresh
unfolding create_offline_session trim
created = refl

no_session_id : create_offline_session (codes "  ") (codes "dummy-6dof") (codes "t0") ≡ none
unfolding create_offline_session trim
no_session_id = refl

abbrev connects : List SessionEvent
connects =
    connect_requested (codes "t1")
    ∷ transport_opened (codes "t2")
    ∷ status_observed (codes "t3") enabled (whole (pos 2))
    ∷ feedback_stale (codes "t4")
    ∷ showcase_loaded (codes "t5")
    ∷ []

connects_enabled :
    let s = run fresh connects in (s.motor_state ≡ enabled) × (s.connection_state ≡ connected)
unfolding run transition_session
connects_enabled = (refl, refl)

unsupported_mode :
    (transition_session
      (run fresh connects)
      (status_observed (codes "t6") enabled (whole (pos 7)))).error
    ≡ some unsupported_control_mode
unfolding run transition_session
unsupported_mode = refl

transition_session-IsReported_example : IsReported fresh (transport_lost (codes "t1") true)
transition_session-IsReported_example =
    transition_session-IsReported fresh (transport_lost (codes "t1") true)

run-IsConsistent_example : IsConsistent (run fresh connects)
run-IsConsistent_example =
    run-IsConsistent (codes "s1") (codes "dummy-6dof") (codes "t0") connects created

motor_state-Observed_example : Observed fresh connects
unfolding run transition_session
motor_state-Observed_example =
    motor_state-Observed (codes "s1") (codes "dummy-6dof") (codes "t0") connects created (λ e. cc)
