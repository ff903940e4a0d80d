-- ===== src/SerialSession/Calls.antt =====
-- Requests, answers of the gateway and callbacks of serialSessionOperations.ts in any order.
use aethor_studio_v.Prelude.{
  ℕ, ◌==◌, Bool, true, false, Option, none, some, List, [], ◌∷◌, ◌++◌, Text, if◌then◌else◌, Result,
  err, ok,
}
use aethor_studio_v.Contracts.{RobotSessionSnapshot}
use aethor_studio_v.Runtime.{GatewayRuntimeState}
use aethor_studio_v.SerialSession.{
  SerialSessionOperationKind, connect, disconnect, RobotConnectRequest, ErrorValue, Operations,
  connect_serial_session, disconnect_serial_session, on_fulfilled, on_rejected, on_settled,
}

-- A call of the gateway that has not been answered.
pub record Running : Type 0 where
  pub promise : ℕ
  pub kind : SerialSessionOperationKind
  pub operation_id : Text

-- `settling` are the promises whose `finally` has not run.
pub record System (Cap F : Type 0) : Type 0 where
  pub operations : Operations Cap F
  pub running : List Running
  pub settling : List ℕ

-- An answer comes with the duration of the call.
pub data Event (F : Type 0) : Type 0 where
  connect_called : RobotConnectRequest → Text → Event F
  disconnect_called : Text → Event F
  answered : ℕ → Result (Option ErrorValue) RobotSessionSnapshot → F → Event F
  settled : ℕ → Event F

abbrev pub running_at : ℕ → List Running → Option Running
running_at promise [] = none
running_at promise (r ∷ l) = if r.promise == promise then some r else running_at promise l

abbrev pub without : ℕ → List Running → List Running
without promise [] = []
without promise (r ∷ l) =
    let rest = without promise l in if r.promise == promise then rest else r ∷ rest

abbrev pub is_settling : ℕ → List ℕ → Bool
is_settling promise [] = false
is_settling promise (p ∷ l) = if p == promise then true else is_settling promise l

abbrev pub drop_settling : ℕ → List ℕ → List ℕ
drop_settling promise [] = []
drop_settling promise (p ∷ l) =
    let rest = drop_settling promise l in if p == promise then rest else p ∷ rest

-- The calls of the gateway after a request: one more if the request has taken the number of a new
-- promise.
abbrev pub issued : ℕ → ℕ → SerialSessionOperationKind → Text → List Running → List Running
issued promise next kind operation_id running =
    if next == promise
    then running
    else running ++ (record { promise = promise; kind = kind; operation_id = operation_id } ∷ [])

module _ {Cap F : Type 0} where
  abbrev pub start : GatewayRuntimeState Cap F → System Cap F
  start runtime = record {
    operations = record { runtime = runtime; in_flight = none; probes = []; next_promise = 0 };
    running = [];
    settling = [];
  }

  abbrev pub answer :
      Operations Cap F
      → Running
      → Result (Option ErrorValue) RobotSessionSnapshot
      → F
      → Operations Cap F
  answer s r (ok snapshot) duration = on_fulfilled s r.kind r.operation_id duration
  answer s r (err cause) duration = on_rejected s r.kind r.operation_id duration cause

  abbrev pub answer_at :
      System Cap F
      → ℕ
      → Option Running
      → Result (Option ErrorValue) RobotSessionSnapshot
      → F
      → System Cap F
  answer_at w promise none result duration = w
  answer_at w promise (some r) result duration = record {
    operations = answer w.operations r result duration;
    running = without promise w.running;
    settling = w.settling ++ (promise ∷ []);
  }

module _ {Cap F : Type 0} (upper : Text → Text) where
  unfoldable pub step : System Cap F → Event F → System Cap F
  step w (connect_called request operation_id) =
      let after = (connect_serial_session upper w.operations request operation_id).0 in
      record w {
        operations = after;
        running =
            issued w.operations.next_promise after.next_promise connect operation_id w.running;
      }
  step w (disconnect_called operation_id) =
      let after = (disconnect_serial_session w.operations operation_id).0 in
      record w {
        operations = after;
        running =
            issued w.operations.next_promise after.next_promise disconnect operation_id w.running;
      }
  step w (answered promise result duration) =
      answer_at w promise (running_at promise w.running) result duration
  step w (settled promise) =
      if is_settling promise w.settling
      then record w {
        operations = on_settled w.operations promise;
        settling = drop_settling promise w.settling;
      }
      else w

  unfoldable pub steps : System Cap F → List (Event F) → System Cap F
  steps w [] = w
  steps w (e ∷ l) = steps (step w e) l
