-- ===== src/SerialSession.antt =====
-- apps/studio-web/src/integrations/serialSessionOperations.ts for one gateway, and the classes of
-- failures of operationProbe.ts. A promise is a number; the callbacks of `then` or `catch` run when
-- the gateway answers, and that of `finally` later.
-- `upper` is `toUpperCase`, `F` the type of JavaScript's numbers.
pub mod Calls
pub mod Exclusive
mod Tests
use aethor_studio_v.Prelude.{
  ℕ, suc, leb, ◌+◌, ◌==◌, Bool, true, false, ◌&&◌, ◌||◌, not, Option, none, some, List, [], ◌∷◌,
  ◌++◌, Text, if◌then◌else◌, text_eq, codes, Result, err, ok,
}
use aethor_studio_v.Contracts.{RobotSessionSnapshot}
use aethor_studio_v.Runtime.{
  GatewayRuntimeState, SerialSessionOperationStatus, connecting, disconnecting,
  begin_serial_session_operation, complete_serial_session_operation, fail_serial_session_operation,
}

pub data SerialSessionOperationKind : Type 0 where
  connect disconnect : SerialSessionOperationKind

pub record InFlightSerialSessionOperation : Type 0 where
  pub kind : SerialSessionOperationKind
  pub identity : Text
  pub promise : ℕ

-- types.ts
pub record RobotConnectRequest : Type 0 where
  pub port_name : Text
  pub profile_id : Text

-- operationProbe.ts
pub data ProbeOutcome : Type 0 where
  started completed failed : ProbeOutcome

pub record OperationProbe (F : Type 0) : Type 0 where
  pub event_id : Text
  pub operation_id : Text
  pub outcome : ProbeOutcome
  pub duration_ms : Option F
  pub failure_category : Option Text

-- A thrown value: an `Error` with its name, its message and its `status` if that is a number; or
-- anything else.
pub record ErrorValue : Type 0 where
  pub name : Text
  pub message : Text
  pub status : Option ℕ

-- The flag `i` of a regular expression, for a pattern in lower case: an ASCII letter matches itself
-- in either case, and no other character.
abbrev pub lower_unit : ℕ → ℕ
lower_unit c = if leb 65 c && leb c 90 then c + 32 else c

abbrev pub starts_with_i : Text → Text → Bool
starts_with_i [] s = true
starts_with_i (p ∷ pattern) [] = false
starts_with_i (p ∷ pattern) (c ∷ s) = p == lower_unit c && starts_with_i pattern s

abbrev pub contains_i : Text → Text → Bool
contains_i pattern [] = starts_with_i pattern []
contains_i pattern (c ∷ s) = starts_with_i pattern (c ∷ s) || contains_i pattern s

-- `/timeout|超时/i`
unfoldable pub is_timeout_message : Text → Bool
is_timeout_message message = contains_i (codes "timeout") message || contains_i (codes "超时") message

-- `/contract|契约|响应不符合/i`
unfoldable pub is_contract_message : Text → Bool
is_contract_message message =
    contains_i (codes "contract") message
    || contains_i (codes "契约") message
    || contains_i (codes "响应不符合") message

abbrev pub status_is : ℕ → Option ℕ → Bool
status_is code none = false
status_is code (some status) = status == code

unfoldable pub classify_operation_failure : Option ErrorValue → Text
classify_operation_failure none = codes "unknown"
classify_operation_failure (some cause) =
    if text_eq cause.name (codes "AbortError")
    then codes "cancelled"
    else if status_is 401 cause.status
    then codes "authentication"
    else if status_is 408 cause.status || is_timeout_message cause.message
    then codes "timeout"
    else if status_is 400 cause.status || is_contract_message cause.message
    then codes "validation"
    else if status_is 409 cause.status
    then codes "conflict"
    else if status_is 503 cause.status
    then codes "dependency"
    else if status_is 0 cause.status
    then codes "transport"
    else codes "unknown"

abbrev pub is_kind : SerialSessionOperationKind → SerialSessionOperationKind → Bool
is_kind connect connect = true
is_kind disconnect disconnect = true
is_kind _ _ = false

abbrev pub kind_text : SerialSessionOperationKind → Text
kind_text connect = codes "connect"
kind_text disconnect = codes "disconnect"

-- `kind === 'connect' ? 'connecting' : 'disconnecting'`
abbrev pub status_of : SerialSessionOperationKind → SerialSessionOperationStatus
status_of connect = connecting
status_of disconnect = disconnecting

-- The message of `SerialSessionOperationConflict`.
abbrev pub conflict_message : SerialSessionOperationKind → Text
conflict_message connect = codes "串口会话正在连接；请等待当前操作结束"
conflict_message disconnect = codes "串口会话正在断开；请等待当前操作结束"

abbrev pub identity_of : (Text → Text) → RobotConnectRequest → Text
identity_of upper request = request.profile_id ++ codes ":" ++ upper request.port_name

unfoldable pub failure_message : Option ErrorValue → Text
failure_message none = codes "串口会话操作失败"
failure_message (some cause) = cause.message

-- What `runSerialSessionOperation` returns: a promise, or a rejection because of the operation that
-- is in flight.
pub data Reply : Type 0 where
  promised : ℕ → Reply
  conflict : SerialSessionOperationKind → Reply

-- What the operations of the gateway share: the store, the entry of `inFlightByGateway`, the probes
-- that were emitted and the number of the next promise.
pub record Operations (Cap F : Type 0) : Type 0 where
  pub runtime : GatewayRuntimeState Cap F
  pub in_flight : Option InFlightSerialSessionOperation
  pub probes : List (OperationProbe F)
  pub next_promise : ℕ

-- `existing.kind === kind && existing.identity === identity`
abbrev pub is_same_operation :
    InFlightSerialSessionOperation → SerialSessionOperationKind → Text → Bool
is_same_operation existing kind identity =
    is_kind existing.kind kind && text_eq existing.identity identity

-- `inFlightByGateway.get(gateway)?.promise === promise`
abbrev pub is_promise : Option InFlightSerialSessionOperation → ℕ → Bool
is_promise none promise = false
is_promise (some existing) promise = existing.promise == promise

module _ {F : Type 0} where
  abbrev pub probe_of :
      SerialSessionOperationKind
      → Text
      → Text
      → ProbeOutcome
      → Option F
      → Option Text
      → OperationProbe F
  probe_of kind suffix operation_id outcome duration category = record {
    event_id = codes "frontend.serial.session." ++ kind_text kind ++ suffix;
    operation_id = operation_id;
    outcome = outcome;
    duration_ms = duration;
    failure_category = category;
  }

module _ {Cap F : Type 0} where
  -- The start of an operation that calls the gateway.
  unfoldable pub begin_operation :
      Operations Cap F → SerialSessionOperationKind → Text → Text → Operations Cap F × Reply
  begin_operation s kind identity operation_id = (
    record {
      runtime = begin_serial_session_operation s.runtime (status_of kind);
      in_flight = some (record { kind = kind; identity = identity; promise = s.next_promise });
      probes = s.probes ++ (probe_of kind (codes ".started") operation_id started none none ∷ []);
      next_promise = s.next_promise + 1;
    },
    promised s.next_promise,
  )

  -- `operation_id` is what `randomUUID` gives.
  abbrev pub run_with :
      Operations Cap F
      → Option InFlightSerialSessionOperation
      → SerialSessionOperationKind
      → Text
      → Text
      → Operations Cap F × Reply
  run_with s none kind identity operation_id = begin_operation s kind identity operation_id
  run_with s (some existing) kind identity operation_id =
      if is_same_operation existing kind identity
      then (s, promised existing.promise)
      else (s, conflict existing.kind)

  unfoldable pub run_serial_session_operation :
      Operations Cap F → SerialSessionOperationKind → Text → Text → Operations Cap F × Reply
  run_serial_session_operation s kind identity operation_id =
      run_with s s.in_flight kind identity operation_id

  unfoldable pub connect_serial_session :
      (Text → Text) → Operations Cap F → RobotConnectRequest → Text → Operations Cap F × Reply
  connect_serial_session upper s request operation_id =
      run_serial_session_operation s connect (identity_of upper request) operation_id

  unfoldable pub disconnect_serial_session : Operations Cap F → Text → Operations Cap F × Reply
  disconnect_serial_session s operation_id =
      run_serial_session_operation s disconnect (codes "disconnect") operation_id

  -- The callback of `then`.
  unfoldable pub on_fulfilled :
      Operations Cap F → SerialSessionOperationKind → Text → F → Operations Cap F
  on_fulfilled s kind operation_id duration = record s {
    runtime = complete_serial_session_operation s.runtime;
    probes =
        s.probes
        ++ (probe_of kind (codes ".completed") operation_id completed (some duration) none ∷ []);
  }

  -- The callback of `finally`.
  unfoldable pub on_settled : Operations Cap F → ℕ → Operations Cap F
  on_settled s promise = if is_promise s.in_flight promise then record s { in_flight = none } else s

  -- The callback of `catch`.
  unfoldable pub on_rejected :
      Operations Cap F
      → SerialSessionOperationKind
      → Text
      → F
      → Option ErrorValue
      → Operations Cap F
  on_rejected s kind operation_id duration cause = record s {
    runtime = fail_serial_session_operation s.runtime (failure_message cause);
    probes =
        s.probes
        ++ (probe_of kind (codes ".failed") operation_id failed (some duration)
              (some (classify_operation_failure cause))
            ∷ []);
  }
