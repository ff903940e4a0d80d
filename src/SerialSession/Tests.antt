-- ===== src/SerialSession/Tests.antt =====
-- Concrete operations: two requests for a port, a disconnection in between and a failure.
use aethor_studio_v.Prelude.{ℕ, none, some, List, [], ◌∷◌, Text, codes, err, ◌≡◌, refl, pos}
use aethor_studio_v.Contracts.{JointStateFrame, whole, measured, valid}
use aethor_studio_v.Runtime.{GatewayRuntimeState, initial_runtime}
use aethor_studio_v.SerialSession.{
  connect, RobotConnectRequest, ErrorValue, InFlightSerialSessionOperation, promised, conflict,
  connect_serial_session, disconnect_serial_session, run_serial_session_operation, begin_operation,
  classify_operation_failure, is_timeout_message,
}
use aethor_studio_v.SerialSession.Calls.{
  Event, connect_called, disconnect_called, answered, settled, start, step, steps,
}
use aethor_studio_v.SerialSession.Exclusive.{IsExclusive, steps-IsExclusive, steps-released}

abbrev joints : JointStateFrame ℕ
joints = record {
  sequence = whole (pos 0);
  profile_id = codes "dummy-6dof";
  timestamp_utc = codes "t";
  positions_deg = [];
  source = measured;
  validity = valid;
}

abbrev idle_runtime : GatewayRuntimeState Unit ℕ
idle_runtime = initial_runtime joints

abbrev same : Text → Text
same s = s

abbrev port : RobotConnectRequest
port = record { port_name = codes "COM3"; profile_id = codes "dummy-6dof" }

abbrev slow : ErrorValue
slow = record { name = codes "Error"; message = codes "Gateway TimeOut"; status = some 500 }

abbrev requests : List (Event ℕ)
requests =
    connect_called port (codes "o1")
    ∷ connect_called port (codes "o2")
    ∷ disconnect_called (codes "o3")
    ∷ []

timeout_test : classify_operation_failure (some slow) ≡ codes "timeout"
unfolding classify_operation_failure is_timeout_message
timeout_test = refl

join_test :
    (connect_serial_session same
      (steps same (start idle_runtime) requests).operations
      port
      (codes "o4")).1
    ≡ promised 0
unfolding steps step connect_serial_session disconnect_serial_session run_serial_session_operation
    begin_operation
join_test = refl

conflict_test :
    (disconnect_serial_session (steps same (start idle_runtime) requests).operations (codes "o4")).1
    ≡ conflict connect
unfolding steps step connect_serial_session disconnect_serial_session run_serial_session_operation
    begin_operation
conflict_test = refl

steps-IsExclusive_example : IsExclusive (steps same (start idle_runtime) requests)
steps-IsExclusive_example = steps-IsExclusive same idle_runtime requests tt

abbrev first : InFlightSerialSessionOperation
first = record { kind = connect; identity = codes "dummy-6dof:COM3"; promise = 0 }

in_flight_test : (steps same (start idle_runtime) requests).operations.in_flight ≡ some first
unfolding steps step connect_serial_session disconnect_serial_session run_serial_session_operation
    begin_operation
in_flight_test = refl

steps-released_example :
    let w = steps same (start idle_runtime) requests in
    let end = step same (step same w (answered 0 (err (some slow)) 7)) (settled 0) in
    (end.operations.in_flight ≡ none) × (end.running ≡ []) × (end.settling ≡ [])
steps-released_example =
    steps-released same idle_runtime requests first (err (some slow)) 7 tt in_flight_test
