-- ===== src/Session.antt =====
-- shared/contracts/src/sessionStateMachine.ts: the state machine of one robot session.
-- `none` stands for a thrown error and for the error `null`.
pub mod Invariant
pub mod Traces
mod Tests
use aethor_studio_v.Prelude.{
  Bool, true, false, ◌||◌, Option, none, some, List, [], ◌∷◌, Text, trim, is_empty, if◌then◌else◌,
}
use aethor_studio_v.Contracts.{
  Number, number_is, DataSource, showcase, measured, Validity, valid, stale, ConnectionState,
  offline, connecting, connected, reconnecting, disconnecting, faulted, MotorState, unknown,
  RobotSessionSnapshot,
}

pub data SessionEvent : Type 0 where
  showcase_loaded : (timestamp_utc : Text) → SessionEvent
  connect_requested : (timestamp_utc : Text) → SessionEvent
  transport_opened : (timestamp_utc : Text) → SessionEvent
  status_observed :
      (timestamp_utc : Text) (motor_state : MotorState) (control_mode : Number) → SessionEvent
  feedback_stale : (timestamp_utc : Text) → SessionEvent
  transport_lost : (timestamp_utc : Text) (will_retry : Bool) → SessionEvent
  disconnect_requested : (timestamp_utc : Text) → SessionEvent
  transport_closed : (timestamp_utc : Text) → SessionEvent
  transport_fault : (timestamp_utc : Text) → SessionEvent

pub data SessionError : Type 0 where
  invalid_transition unsupported_control_mode : SessionError

pub record SessionTransition : Type 0 where
  pub state : RobotSessionSnapshot
  pub changed : Bool
  pub error : Option SessionError

-- `a === b` on connection states.
abbrev pub same_state : ConnectionState → ConnectionState → Bool
same_state offline offline = true
same_state connecting connecting = true
same_state connected connected = true
same_state reconnecting reconnecting = true
same_state disconnecting disconnecting = true
same_state faulted faulted = true
same_state _ _ = false

-- `[…].includes(state)`.
abbrev pub state_in : List ConnectionState → ConnectionState → Bool
state_in [] s = false
state_in (c ∷ cs) s = same_state c s || state_in cs s

unfoldable pub create_offline_session : Text → Text → Text → Option RobotSessionSnapshot
create_offline_session session_id profile_id timestamp_utc =
    if is_empty (trim session_id) || is_empty (trim profile_id)
    then none
    else some (record {
      session_id = session_id;
      profile_id = profile_id;
      connection_state = offline;
      motor_state = unknown;
      control_mode = none;
      timestamp_utc = timestamp_utc;
      source = DataSource.unavailable;
      validity = Validity.unavailable;
    })

unfoldable pub is_dummy_control_mode : Number → Bool
is_dummy_control_mode value = number_is 1 value || number_is 2 value || number_is 3 value

-- `update`, with the patch already merged into the snapshot.
abbrev pub update : RobotSessionSnapshot → SessionTransition
update next = record { state = next; changed = true; error = none }

abbrev pub invalid : RobotSessionSnapshot → SessionTransition
invalid state = record { state = state; changed = false; error = some invalid_transition }

-- The patch that most events share: no motor state and no mode is known.
abbrev pub forget :
    RobotSessionSnapshot → ConnectionState → Text → DataSource → Validity → RobotSessionSnapshot
forget current connection timestamp source validity = record current {
  connection_state = connection;
  motor_state = unknown;
  control_mode = none;
  timestamp_utc = timestamp;
  source = source;
  validity = validity;
}

unfoldable pub transition_session : RobotSessionSnapshot → SessionEvent → SessionTransition
unfolding is_dummy_control_mode
transition_session current (showcase_loaded t) =
    if same_state offline current.connection_state
    then update (forget current offline t showcase valid)
    else invalid current
transition_session current (connect_requested t) =
    if state_in (offline ∷ faulted ∷ []) current.connection_state
    then update (forget current connecting t DataSource.unavailable Validity.unavailable)
    else invalid current
transition_session current (transport_opened t) =
    if state_in (connecting ∷ reconnecting ∷ []) current.connection_state
    then update (forget current connected t measured stale)
    else invalid current
transition_session current (status_observed t motor mode) =
    if same_state connected current.connection_state
    then if is_dummy_control_mode mode
      then update (record current {
        motor_state = motor;
        control_mode = some mode;
        timestamp_utc = t;
        source = measured;
        validity = valid;
      })
      else record {
        state = record current {
          motor_state = unknown;
          control_mode = none;
          timestamp_utc = t;
          source = measured;
          validity = Validity.invalid;
        };
        changed = true;
        error = some unsupported_control_mode;
      }
    else invalid current
transition_session current (feedback_stale t) =
    if same_state connected current.connection_state
    then update (record current { timestamp_utc = t; validity = stale })
    else invalid current
transition_session current (transport_lost t will_retry) =
    if state_in (connecting ∷ connected ∷ reconnecting ∷ disconnecting ∷ [])
      current.connection_state
    then update (
        forget current (if will_retry then reconnecting else offline) t DataSource.unavailable
          Validity.unavailable)
    else invalid current
transition_session current (disconnect_requested t) =
    if state_in (connecting ∷ connected ∷ reconnecting ∷ faulted ∷ []) current.connection_state
    then update (forget current disconnecting t DataSource.unavailable Validity.unavailable)
    else invalid current
transition_session current (transport_closed t) =
    if same_state offline current.connection_state
    then invalid current
    else update (forget current offline t DataSource.unavailable Validity.unavailable)
transition_session current (transport_fault t) =
    update (forget current faulted t DataSource.unavailable Validity.invalid)

-- A client's events in order; what is rejected leaves the snapshot as it is.
unfoldable pub run : RobotSessionSnapshot → List SessionEvent → RobotSessionSnapshot
run s [] = s
run s (e ∷ es) = run (transition_session s e).state es
