-- ===== src/Command/Invariant.antt =====
-- The evidence that a command's status rests on (commandStateMachine.ts).
use aethor_studio_v.Prelude.{Option, none, some, List, [], ◌∷◌, Text, ◌≡◌, ◌≢◌, ◌↔◌, arith}
use aethor_studio_v.Contracts.{
  RobotCommandKind, CommandStatus, accepted, completed, CommandEvidence, feedback_confirmed,
  CommandResultCode, CommandResult,
}
use aethor_studio_v.Command.{
  created, public, CommandLifecycleState, CommandLifecycleEvent, create_command_lifecycle,
  transition_command, to_command_result, run,
}

pub record IsEvidenced (c : CommandLifecycleState) : Type 0 where
  pub confirmed_iff : (c.status ≡ public completed) ↔ (c.evidence ≡ feedback_confirmed)
  pub created_none : c.status ≡ created → c.evidence ≡ CommandEvidence.none
  pub accepted_some : c.status ≡ public accepted → c.evidence ≢ CommandEvidence.none
  pub unsupported_none :
      c.status ≡ public CommandStatus.unsupported → c.evidence ≡ CommandEvidence.none
  pub rejected_none : c.status ≡ public CommandStatus.rejected → c.evidence ≡ CommandEvidence.none
  pub unconfirmed_some :
      c.status ≡ public CommandStatus.unconfirmed → c.evidence ≢ CommandEvidence.none
  pub not_written : c.evidence ≢ CommandEvidence.transport_written

-- Every event keeps the bond between status and evidence.
pub transition_command-IsEvidenced :
    (c : CommandLifecycleState) (e : CommandLifecycleEvent)
    → IsEvidenced c
    → IsEvidenced (transition_command c e).state
unfolding transition_command
transition_command-IsEvidenced c e h = ground arith

pub run-IsEvidenced :
    (c : CommandLifecycleState) (es : List CommandLifecycleEvent)
    → IsEvidenced c
    → IsEvidenced (run c es)
unfolding run
run-IsEvidenced c [] h = h
run-IsEvidenced c (e ∷ es) h =
    run-IsEvidenced (transition_command c e).state es (transition_command-IsEvidenced c e h)

pub create_command_lifecycle-IsEvidenced :
    (cid t sid : Text) (kind : RobotCommandKind) {c : CommandLifecycleState}
    → create_command_lifecycle cid t sid kind ≡ some c
    → IsEvidenced c
unfolding create_command_lifecycle
create_command_lifecycle-IsEvidenced cid t sid kind h = grind arith

-- Whatever events follow `createCommandLifecycle`: the public result with the default code exists
-- exactly when the status is no longer `created`; its code is `ok` exactly when its status is
-- `completed`, and that exactly when its evidence is a confirmation by feedback.
pub to_command_result_honest :
    (cid t sid : Text) (kind : RobotCommandKind) (es : List CommandLifecycleEvent) (message : Text)
    (reply : Option Text) {c : CommandLifecycleState}
    → create_command_lifecycle cid t sid kind ≡ some c
    → ((to_command_result (run c es) message reply none ≡ none) ↔ ((run c es).status ≡ created))
      × ((r : CommandResult)
          → to_command_result (run c es) message reply none ≡ some r
          → ((r.code ≡ CommandResultCode.ok) ↔ (r.status ≡ completed))
            × ((r.status ≡ completed) ↔ (r.evidence ≡ feedback_confirmed)))
unfolding to_command_result
to_command_result_honest cid t sid kind es message reply {c} h =
    (ground arith, λ r e. (ground arith, ground (arith, evidenced.confirmed_iff)))
  where
    evidenced : IsEvidenced (run c es)
    evidenced = run-IsEvidenced c es (create_command_lifecycle-IsEvidenced cid t sid kind h)
