-- ===== src/Session/Traces.antt =====
-- What a whole sequence of session events can lead to (sessionStateMachine.ts).
use aethor_studio_v.Prelude.{
  Bool, any, true, false, none, some, List, [], ◌∷◌, ◌++◌, Text, ◌≡◌, ◌≢◌, refl, ap, ◌⊎◌, ◌↔◌, inl,
  inr, ◌∙◌, sym, Bool-cases, arith,
}
use mathlib.Core.Path.{subst}
use aethor_studio_v.Contracts.{
  Number, measured, stale, connected, MotorState, unknown, RobotSessionSnapshot,
}
use aethor_studio_v.Session.{
  SessionEvent, showcase_loaded, connect_requested, transport_opened, status_observed,
  feedback_stale, transport_lost, disconnect_requested, transport_closed, transport_fault,
  invalid_transition, same_state, create_offline_session, is_dummy_control_mode, transition_session,
  run,
}
use aethor_studio_v.Session.Invariant.{
  IsConsistent, create_offline_session-IsConsistent, transition_session-IsConsistent,
}

-- The time that an event carries.
abbrev pub event_time : SessionEvent → Text
event_time (showcase_loaded t) = t
event_time (connect_requested t) = t
event_time (transport_opened t) = t
event_time (status_observed t _ _) = t
event_time (feedback_stale t) = t
event_time (transport_lost t _) = t
event_time (disconnect_requested t) = t
event_time (transport_closed t) = t
event_time (transport_fault t) = t

-- What one call reports and what it leaves alone, on every branch: it reports a change exactly
-- when the error is not INVALID_TRANSITION; without a change the snapshot is the old one, with
-- one it carries the event's time; the identity of the session never changes.
pub record IsReported (s : RobotSessionSnapshot) (e : SessionEvent) : Type 0 where
  pub error_iff :
      ((transition_session s e).changed ≡ false)
      ↔ ((transition_session s e).error ≡ some invalid_transition)
  pub kept : (transition_session s e).changed ≡ false → (transition_session s e).state ≡ s
  pub stamped :
      (transition_session s e).changed ≡ true
      → (transition_session s e).state.timestamp_utc ≡ event_time e
  pub same_session : (transition_session s e).state.session_id ≡ s.session_id
  pub same_profile : (transition_session s e).state.profile_id ≡ s.profile_id

-- Every call of `transitionSession` reports as `IsReported` says.
pub transition_session-IsReported : (s : RobotSessionSnapshot) (e : SessionEvent) → IsReported s e
unfolding transition_session
transition_session-IsReported s (showcase_loaded t) = ground arith
transition_session-IsReported s e = ground arith

pub run-keeps :
    (s : RobotSessionSnapshot) (es : List SessionEvent) → IsConsistent s → IsConsistent (run s es)
unfolding run
run-keeps s [] h = h
run-keeps s (e ∷ es) h =
    run-keeps (transition_session s e).state es (transition_session-IsConsistent s e h)

-- Whatever events follow `createOfflineSession`, in whatever order, the snapshot is consistent.
pub run-IsConsistent :
    (sid pid t : Text) (es : List SessionEvent) {s : RobotSessionSnapshot}
    → create_offline_session sid pid t ≡ some s
    → IsConsistent (run s es)
run-IsConsistent sid pid t es {s} h =
    run-keeps s es (create_offline_session-IsConsistent sid pid t h)

-- The session is connected before every event of the list and after the last one.
abbrev pub StaysConnected : RobotSessionSnapshot → List SessionEvent → Type 0
StaysConnected s [] = s.connection_state ≡ connected
StaysConnected s (e ∷ es) =
    (s.connection_state ≡ connected) × StaysConnected (transition_session s e).state es

abbrev pub is_report : SessionEvent → Bool
is_report (status_observed t motor mode) = true
is_report _ = false

-- The last `statusObserved` of the trace, which the motor state and mode of the snapshot come from.
pub record Observed (s : RobotSessionSnapshot) (es : List SessionEvent) : Type 0 where
  pub before : List SessionEvent
  pub time : Text
  pub mode : Number
  pub after : List SessionEvent
  pub position : es ≡ before ++ (status_observed time (run s es).motor_state mode ∷ after)
  pub is_last : any is_report after ≡ false
  pub allowed : is_dummy_control_mode mode ≡ true
  pub shown : (run s es).control_mode ≡ some mode
  pub linked_before : (run s before).connection_state ≡ connected
  pub linked_since :
      StaysConnected
        (transition_session (run s before) (status_observed time (run s es).motor_state mode)).state
        after

record Unbroken (s : RobotSessionSnapshot) (es : List SessionEvent) : Type 0 where
  linked : StaysConnected s es
  unreported : any is_report es ≡ false
  same_motor : (run s es).motor_state ≡ s.motor_state
  same_mode : (run s es).control_mode ≡ s.control_mode

-- Where a step leaves a known motor state, it was known before or has just been observed.
data Source (s : RobotSessionSnapshot) (e : SessionEvent) : Type 0 where
  carried :
      is_report e ≡ false
      → s.connection_state ≡ connected
      → (transition_session s e).state.motor_state ≡ s.motor_state
      → (transition_session s e).state.control_mode ≡ s.control_mode
      → Source s e
  observed :
      (t : Text) (m : MotorState) (mode : Number)
      → e ≡ status_observed t m mode
      → s.connection_state ≡ connected
      → is_dummy_control_mode mode ≡ true
      → (transition_session s e).state.motor_state ≡ m
      → (transition_session s e).state.control_mode ≡ some mode
      → Source s e

transition_session-Source :
    (s : RobotSessionSnapshot) (e : SessionEvent)
    → IsConsistent s
    → (transition_session s e).state.motor_state ≢ unknown
    → Source s e
unfolding transition_session
transition_session-Source s (status_observed t m mode) h known =
    elim (Bool-cases (same_state connected s.connection_state)) [
      | inl linked ↦ elim (Bool-cases (is_dummy_control_mode mode)) [
        | inl fits ↦ observed t m mode refl (ground arith) fits (ground arith) (ground arith)
        | inr odd ↦ absurd (ground arith)
      ]
      | inr apart ↦ absurd (ground arith)
    ]
transition_session-Source s e h known =
    carried (ground arith) (ground arith) (ground arith) (ground arith)

-- A motor state that the rest of the trace only carries along was observed by its first event.
first-Observed :
    (s : RobotSessionSnapshot) (e : SessionEvent) (es : List SessionEvent) (t : Text)
    (m : MotorState) (mode : Number)
    → Unbroken (transition_session s e).state es
    → e ≡ status_observed t m mode
    → s.connection_state ≡ connected
    → is_dummy_control_mode mode ≡ true
    → (transition_session s e).state.motor_state ≡ m
    → (transition_session s e).state.control_mode ≡ some mode
    → Observed s (e ∷ es)
unfolding run
first-Observed s e es t m mode u is_event linked fits motor shown = record {
  before = [];
  time = t;
  mode = mode;
  after = es;
  position = ap (λ x. x ∷ es) now;
  is_last = u.unreported;
  allowed = fits;
  shown = u.same_mode ∙ shown;
  linked_before = linked;
  linked_since = subst (λ x. StaysConnected (transition_session s x).state es) now u.linked;
}
  where
    now : e ≡ status_observed t (run (transition_session s e).state es).motor_state mode
    now = is_event ∙ ap (λ k. status_observed t k mode) (sym (u.same_motor ∙ motor))

trace_back :
    (s : RobotSessionSnapshot) (es : List SessionEvent)
    → IsConsistent s
    → (run s es).motor_state ≢ unknown
    → Unbroken s es ⊎ Observed s es
unfolding run
trace_back s [] h known = inl (record {
  linked = h.motor_needs_link known;
  unreported = refl;
  same_motor = refl;
  same_mode = refl;
})
trace_back s (e ∷ es) h known =
    elim (trace_back (transition_session s e).state es (transition_session-IsConsistent s e h)
      known) [
        | inr o ↦ inr (record {
          before = e ∷ o.before;
          time = o.time;
          mode = o.mode;
          after = o.after;
          position = ap (λ l. e ∷ l) o.position;
          is_last = o.is_last;
          allowed = o.allowed;
          shown = o.shown;
          linked_before = o.linked_before;
          linked_since = o.linked_since;
        })
        | inl u ↦ elim (transition_session-Source s e h (λ p. known (u.same_motor ∙ p))) [
          | carried other linked motor mode ↦ inl (record {
            linked = (linked, u.linked);
            unreported = rw other u.unreported;
            same_motor = u.same_motor ∙ motor;
            same_mode = u.same_mode ∙ mode;
          })
          | observed t m mode is_event linked fits motor shown ↦
              inr (first-Observed s e es t m mode u is_event linked fits motor shown)
        ]
      ]

-- From a session just created, a motor state other than `unknown` is the one that the last
-- `statusObserved` of the trace reported, with a control mode of 1, 2 or 3; the snapshot shows that
-- mode, and the session has been connected without a break from that event on.
pub motor_state-Observed :
    (sid pid t : Text) (es : List SessionEvent) {s : RobotSessionSnapshot}
    → create_offline_session sid pid t ≡ some s
    → (run s es).motor_state ≢ unknown
    → Observed s es
motor_state-Observed sid pid t es {s} h known =
    elim (trace_back s es (create_offline_session-IsConsistent sid pid t h) known) [
      | inl u ↦ absurd (known (u.same_motor ∙ start))
      | inr o ↦ o
    ]
  where
    start : s.motor_state ≡ unknown
    start = unfold create_offline_session in ground arith

-- From every state, a fault, a connect request and an opened transport lead to a connected
-- session that shows no motor state, no mode and no valid data.
pub run_reconnects :
    (s : RobotSessionSnapshot) (t1 t2 t3 : Text)
    → let r = run s (transport_fault t1 ∷ connect_requested t2 ∷ transport_opened t3 ∷ []) in
      (r.connection_state ≡ connected)
      × (r.motor_state ≡ unknown)
      × (r.control_mode ≡ none)
      × (r.source ≡ measured)
      × (r.validity ≡ stale)
unfolding run transition_session
run_reconnects s t1 t2 t3 = ground arith
