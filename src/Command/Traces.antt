-- ===== src/Command/Traces.antt =====
-- What a whole sequence of events can do to a command (commandStateMachine.ts).
use aethor_studio_v.Prelude.{
  true, some, List, [], ◌∷◌, ◌++◌, Text, ◌≡◌, ◌≢◌, refl, ap, sym, ◌∙◌, ◌⊎◌, ◌↔◌, inl, inr, arith,
}
use aethor_studio_v.Contracts.{RobotCommandKind, accepted, completed}
use aethor_studio_v.Command.{
  created, public, CommandLifecycleState, CommandLifecycleStatus, CommandLifecycleEvent, EventType,
  is_terminal, create_command_lifecycle, transition_command, run,
}

transition_command_terminal :
    (c : CommandLifecycleState) (e : CommandLifecycleEvent)
    → is_terminal c.status ≡ true
    → (transition_command c e).state ≡ c
unfolding transition_command
transition_command_terminal c e h = ground arith

run_terminal :
    (c : CommandLifecycleState) (es : List CommandLifecycleEvent)
    → is_terminal c.status ≡ true
    → run c es ≡ c
unfolding run
run_terminal c [] h = refl
run_terminal c (e ∷ es) h = rw (transition_command_terminal c e h) (run_terminal c es h)

transition_command-accepted :
    (c : CommandLifecycleState) (e : CommandLifecycleEvent)
    → c.status ≡ public accepted
    → let n = (transition_command c e).state in
      (n.status ≡ public accepted)
      ⊎ ((e.type ≡ EventType.completion_confirmed)
          × (is_terminal n.status ≡ true)
          × (n.updated_at_utc ≡ e.timestamp_utc))
      ⊎ ((is_terminal n.status ≡ true) × (n.status ≢ public completed))
unfolding transition_command
transition_command-accepted c e h = ground arith

transition_command-created :
    (c : CommandLifecycleState) (e : CommandLifecycleEvent)
    → c.status ≡ created
    → let n = (transition_command c e).state in
      (n.status ≡ created)
      ⊎ ((e.type ≡ EventType.gateway_accepted) × (n.status ≡ public accepted))
      ⊎ ((is_terminal n.status ≡ true) × (n.status ≢ public completed))
unfolding transition_command
transition_command-created c e h = ground arith

-- The event of the trace that completed the command.
pub record Confirmed (c : CommandLifecycleState) (es : List CommandLifecycleEvent) : Type 0 where
  pub before : List CommandLifecycleEvent
  pub event : CommandLifecycleEvent
  pub after : List CommandLifecycleEvent
  pub position : es ≡ before ++ (event ∷ after)
  pub confirms : event.type ≡ EventType.completion_confirmed
  pub dated : (run c es).updated_at_utc ≡ event.timestamp_utc

-- The event that accepted it, and the confirmation further on.
pub record Accepted (c : CommandLifecycleState) (es : List CommandLifecycleEvent) : Type 0 where
  pub before : List CommandLifecycleEvent
  pub event : CommandLifecycleEvent
  pub after : List CommandLifecycleEvent
  pub position : es ≡ before ++ (event ∷ after)
  pub accepts : event.type ≡ EventType.gateway_accepted
  pub confirmed : Confirmed (run c (before ++ (event ∷ []))) after

not_completed :
    (c : CommandLifecycleState) (es : List CommandLifecycleEvent)
    → is_terminal c.status ≡ true
    → c.status ≢ public completed
    → (run c es).status ≢ public completed
not_completed c es t n = rw (run_terminal c es t) n

completed_from_accepted :
    (c : CommandLifecycleState) (es : List CommandLifecycleEvent)
    → c.status ≡ public accepted
    → (run c es).status ≡ public completed
    → Confirmed c es
unfolding run
completed_from_accepted c [] h d = absurd (ground arith)
completed_from_accepted c (e ∷ es) h d = elim (transition_command-accepted c e h) [
  | inl still ↦
      let rest = completed_from_accepted (transition_command c e).state es still d in
      record {
        before = e ∷ rest.before;
        event = rest.event;
        after = rest.after;
        position = ap (λ l. e ∷ l) rest.position;
        confirms = rest.confirms;
        dated = rest.dated;
      }
  | inr (inl (confirms, final, dated)) ↦ record {
    before = [];
    event = e;
    after = es;
    position = refl;
    confirms = confirms;
    dated =
        ap (λ s. s.updated_at_utc) (run_terminal (transition_command c e).state es final) ∙ dated;
  }
  | inr (inr (final, other)) ↦
      absurd (not_completed (transition_command c e).state es final other d)
]

completed_from_created :
    (c : CommandLifecycleState) (es : List CommandLifecycleEvent)
    → c.status ≡ created
    → (run c es).status ≡ public completed
    → Accepted c es
unfolding run
completed_from_created c [] h d = absurd (ground arith)
completed_from_created c (e ∷ es) h d = elim (transition_command-created c e h) [
  | inl still ↦
      let rest = completed_from_created (transition_command c e).state es still d in
      record {
        before = e ∷ rest.before;
        event = rest.event;
        after = rest.after;
        position = ap (λ l. e ∷ l) rest.position;
        accepts = rest.accepts;
        confirmed = rest.confirmed;
      }
  | inr (inl (accepts, next)) ↦ record {
    before = [];
    event = e;
    after = es;
    position = refl;
    accepts = accepts;
    confirmed = completed_from_accepted (transition_command c e).state es next d;
  }
  | inr (inr (final, other)) ↦
      absurd (not_completed (transition_command c e).state es final other d)
]

-- A command that `createCommandLifecycle` made is `completed` only by a trace in which the gateway
-- accepts it and, further on, its completion is confirmed; its date is that of the confirmation.
pub completed-Accepted :
    (cid t sid : Text) (kind : RobotCommandKind) (es : List CommandLifecycleEvent)
    {c : CommandLifecycleState}
    → create_command_lifecycle cid t sid kind ≡ some c
    → (run c es).status ≡ public completed
    → Accepted c es
completed-Accepted cid t sid kind es {c} h d = completed_from_created c es start d
  where
    start : c.status ≡ created
    start = unfold create_command_lifecycle in ground arith

-- An event of a type, to move a command on.
abbrev event_of : EventType → CommandLifecycleEvent
event_of type = record { type = type; timestamp_utc = [] }

terminal_of_other :
    (status : CommandLifecycleStatus)
    → status ≢ created
    → status ≢ public accepted
    → is_terminal status ≡ true
terminal_of_other status new other = ground arith

accepting :
    (c : CommandLifecycleState)
    → c.status ≡ created
    → (transition_command c (event_of EventType.gateway_accepted)).state.status ≡ public accepted
unfolding transition_command
accepting c h = ground arith

confirming :
    (c : CommandLifecycleState)
    → c.status ≡ public accepted
    → (transition_command c (event_of EventType.completion_confirmed)).state.status
      ≡ public completed
unfolding transition_command
confirming c h = ground arith

created_not_accepted : created ≢ public accepted
created_not_accepted h = cc

accepted_not_completed : public accepted ≢ public completed
accepted_not_completed h = ground arith

-- No sequence of events changes anything of a command exactly if it is neither created nor
-- accepted.
pub run_final_iff :
    (c : CommandLifecycleState)
    → ((es : List CommandLifecycleEvent) → run c es ≡ c)
      ↔ ((c.status ≢ created) × (c.status ≢ public accepted))
unfolding run
run_final_iff c = (
  (λ fixed. (
    (λ new. created_not_accepted (
        sym new
        ∙ sym (
            ap (λ s. CommandLifecycleState.status s)
              (fixed (event_of EventType.gateway_accepted ∷ [])))
        ∙ accepting c new)),
    (λ taken. accepted_not_completed (
        sym taken
        ∙ sym (
            ap (λ s. CommandLifecycleState.status s)
              (fixed (event_of EventType.completion_confirmed ∷ [])))
        ∙ confirming c taken)),
  )),
  (λ (new, other) es. run_terminal c es (terminal_of_other c.status new other)),
)
