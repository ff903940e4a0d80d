-- ===== src/Command/Tests.antt =====
-- Runs of the command state machine, and its theorems at concrete inputs.
use aethor_studio_v.Prelude.{List, [], ◌∷◌, some, none, codes, trim, ◌≡◌, refl, ◌↔◌, ◌≢◌}
use aethor_studio_v.Contracts.{joint_group, accepted, completed, CommandEvidence}
use aethor_studio_v.Command.{
  created, public, CommandLifecycleState, CommandLifecycleEvent, EventType,
  create_command_lifecycle, transition_command, to_command_result, run,
}
use aethor_studio_v.Command.Invariant.{to_command_result_honest}
use aethor_studio_v.Command.Traces.{run_final_iff, Accepted, completed-Accepted}

abbrev fresh : CommandLifecycleState
fresh = record {
  command_id = codes "c1";
  session_id = codes "s1";
  command_kind = joint_group;
  status = created;
  evidence = CommandEvidence.none;
  updated_at_utc = codes "t0";
}

made : create_command_lifecycle (codes "c1") (codes "t0") (codes "s1") joint_group ≡ some fresh
unfolding create_command_lifecycle trim
made = refl

blank_id : create_command_lifecycle (codes " ") (codes "t0") (codes "s1") joint_group ≡ none
unfolding create_command_lifecycle trim
blank_id = refl

abbrev completes : List CommandLifecycleEvent
completes =
    record { type = EventType.device_ack; timestamp_utc = codes "t1" }
    ∷ record { type = EventType.gateway_accepted; timestamp_utc = codes "t2" }
    ∷ record { type = EventType.device_queued; timestamp_utc = codes "t3" }
    ∷ record { type = EventType.completion_confirmed; timestamp_utc = codes "t4" }
    ∷ []

completes_completed : (run fresh completes).status ≡ public completed
unfolding run transition_command
completes_completed = refl

to_command_result_honest_example :
    (to_command_result (run fresh completes) (codes "m") none none ≡ none)
    ↔ ((run fresh completes).status ≡ created)
to_command_result_honest_example =
    (to_command_result_honest (codes "c1") (codes "t0") (codes "s1") joint_group completes
      (codes "m") none made).0

run_final_iff_example :
    ((es : List CommandLifecycleEvent) → run (run fresh completes) es ≡ run fresh completes)
    ↔ (((run fresh completes).status ≢ created) × ((run fresh completes).status ≢ public accepted))
run_final_iff_example = run_final_iff (run fresh completes)

completed-Accepted_example : Accepted fresh completes
completed-Accepted_example =
    completed-Accepted (codes "c1") (codes "t0") (codes "s1") joint_group completes made
      completes_completed
