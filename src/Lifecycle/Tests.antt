-- ===== src/Lifecycle/Tests.antt =====
-- Concrete calls: the first command is answered after the second has started.
use aethor_studio_v.Prelude.{
  ℕ, ◌<◌, ℤ, pos, true, Option, none, some, List, [], ◌∷◌, Text, codes, get_elem?, set, length, err,
  ok, ◌≡◌, refl, arith,
}
use aethor_studio_v.Contracts.{
  JointStateFrame, whole, measured, valid, CommandResult, CommandEvidence, CommandResultCode,
  enable, home, RobotSessionSnapshot,
}
use aethor_studio_v.Contracts
use aethor_studio_v.Safety.{is_latched, parse_timestamp}
use aethor_studio_v.Runtime.{
  GatewayRuntimeState, showcase_session, initial_runtime, mark_telemetry_degraded,
}
use aethor_studio_v.Lifecycle.{
  GatewayCommandIntent, executing, refreshing, finished, Shared, quiet_outcome, begin_call,
  on_result, on_transport_error, on_refresh, preserve_degraded_telemetry,
}
use aethor_studio_v.Lifecycle.Calls.{Event, called, answered, refreshed, acted, start, step, steps}
use aethor_studio_v.Lifecycle.Order.{steps-superseded}
use aethor_studio_v.Runtime.Actions.{session_set}
use aethor_studio_v.Lifecycle.Returns.{IsReturned, steps-IsReturned}
use aethor_studio_v.Lifecycle.Outcome.{
  NotLive, is_finished, on_transport_error-latches, on_refresh-NotLive,
}

abbrev clock : Text → Option ℤ
clock [] = none
clock (c ∷ l) = some (pos c)

abbrev joints : JointStateFrame ℕ
joints = record {
  sequence = whole (pos 0);
  profile_id = codes "dummy-6dof";
  timestamp_utc = codes "t";
  positions_deg = 0 ∷ 1 ∷ [];
  source = measured;
  validity = valid;
}

abbrev live_session : RobotSessionSnapshot
live_session = record showcase_session {
  session_id = codes "s1";
  source = measured;
  validity = valid;
}

abbrev intent_of : Text → GatewayCommandIntent
intent_of id = record { command_id = id; session_id = codes "s1"; command_kind = enable }

abbrev result_of : Text → CommandResult
result_of id = record {
  command_id = id;
  session_id = codes "s1";
  command_kind = enable;
  status = Contracts.completed;
  code = CommandResultCode.ok;
  evidence = CommandEvidence.feedback_confirmed;
  message = [];
  timestamp_utc = codes "5";
  device_reply = none;
}

abbrev live : GatewayRuntimeState Unit ℕ
live = record (initial_runtime joints) { session = live_session }

abbrev shared : Shared Unit ℕ
shared = record { runtime = live; refresh_sequence = 1; store_calls = [] }

-- The second call starts while the first waits for its refresh.
abbrev overlapping : List (Event Unit ℕ)
overlapping =
    called (intent_of (codes "c1")) (codes "enable")
    ∷ answered 0 (ok (result_of (codes "c1"))) (codes "6")
    ∷ called (intent_of (codes "c2")) (codes "home")
    ∷ []

overlapping_test :
    get_elem? (steps clock (start live) overlapping).calls 0
    ≡ some (refreshing (result_of (codes "c1")) 1)
unfolding steps step begin_call on_result
overlapping_test = refl

later_test : 1 < length (steps clock (start live) overlapping).calls
unfolding steps step begin_call on_result
later_test = omega arith

steps-superseded_example :
    let w = steps clock (start live) overlapping in
    step clock w (refreshed 0 [] (err none) (err none))
    ≡ record w { calls = set w.calls 0 (finished (quiet_outcome (result_of (codes "c1")) true)) }
steps-superseded_example =
    steps-superseded clock live overlapping 0 1 (result_of (codes "c1")) [] (err none) (err none)
      overlapping_test later_test

on_transport_error-latches_example :
    let end =
      on_transport_error clock shared
        (intent_of (codes "c1"))
        (codes "enable")
        1
        none
        (codes "6") in
    (is_latched end.0.runtime.latched_safety_result ≡ true)
    × NotLive end.0.runtime
    × (is_finished (some end.1) ≡ true)
unfolding parse_timestamp
on_transport_error-latches_example =
    on_transport_error-latches clock shared (intent_of (codes "c1")) (codes "enable") 1 none
      (codes "6") refl refl

on_refresh-NotLive_example :
    NotLive
      (on_refresh clock
        (record shared { runtime = mark_telemetry_degraded live [] })
        (result_of (codes "c1"))
        1
        []
        (ok (live_session, joints))
        (ok [])).0.runtime
unfolding mark_telemetry_degraded preserve_degraded_telemetry
on_refresh-NotLive_example =
    on_refresh-NotLive clock (record shared { runtime = mark_telemetry_degraded live [] })
      (result_of (codes "c1")) 1 [] (ok (live_session, joints)) (ok []) refl refl

abbrev first_call : List (Event Unit ℕ)
first_call = called (intent_of (codes "c1")) (codes "enable") ∷ []

-- A second call starts between the answer of the first and its refresh.
abbrev second_call : List (Event Unit ℕ)
second_call = called (intent_of (codes "c2")) (codes "home") ∷ acted (session_set live_session) ∷ []

first_test :
    get_elem? (steps clock (start live) first_call).calls 0
    ≡ some (executing (intent_of (codes "c1")) (codes "enable") 1)
unfolding steps step begin_call
first_test = refl

steps-IsReturned_example :
    let w = steps clock (start live) first_call in
    let u = steps clock (step clock w (answered 0 (ok (result_of (codes "c1"))) [])) second_call in
    IsReturned
      (result_of (codes "c1"))
      0
      u
      (get_elem? (step clock u (refreshed 0 [] (err none) (err none))).calls 0)
steps-IsReturned_example =
    steps-IsReturned clock live first_call second_call 0 1 (intent_of (codes "c1")) (codes "enable")
      [] (result_of (codes "c1")) [] (err none) (err none) first_test refl
