-- ===== src/Twin/Tests.antt =====
-- Concrete frames for the coordinator. A time is the code of a text's first character, and the
-- floating-point numbers are naturals.
use aethor_studio_v.Prelude.{
  ℕ, ◌+◌, ◌-◌, ℤ, pos, true, false, ltb, leb, Option, none, some, List, [], ◌∷◌, Text, codes, ◌≡◌,
  refl, lookup, insert, ◌-ℤ◌,
}
use aethor_studio_v.Contracts.{whole, Floats, AethorArmMotorFrame}
use aethor_studio_v.Twin.Frames.{
  is_supported_frame, is_supported_sample, is_identity_token, supported_unexpected_ids,
  are_distinct,
}
use aethor_studio_v.Twin.{
  Coordinator, Commit, create_coordinator, ingest, received, accepted, rejected, admit,
  accept_sequence, advance, run_scheduled, commit_pending, commit_frames, record_rate_sample,
  shift_until, max_rate_samples, max_retired_boot_ids, source_of,
}
use aethor_studio_v.Twin.Counts.{Call, ingested, scheduled, calls, call, Counted, calls-Counted}
use aethor_studio_v.Twin.Order.{number_lt}
use aethor_studio_v.Twin.Sequences.{accepted-same_source, accepted-increasing}
use aethor_studio_v.Twin.Delivery.{Has, run_scheduled-ingest}

abbrev naturals : Floats ℕ
naturals = record {
  is_finite = λ n. true;
  le = leb;
  lt = ltb;
  add = λ a b. a + b;
  sub = λ a b. a - b;
  of_ℕ = λ n. n;
}

abbrev clock : Text → Option ℤ
clock [] = none
clock (c ∷ l) = some (pos c)

abbrev frame_of : Text → ℕ → AethorArmMotorFrame ℕ
frame_of controller seq = record {
  contract_version = codes "1.0";
  profile_id = codes "aethor-robo-dual-7dof";
  joint_group_id = codes "left-arm";
  controller_id = controller;
  arm_id = codes "arm.L";
  boot_id = codes "b1";
  frame_seq = whole (pos seq);
  received_at_utc = codes "t";
  snapshot_complete = true;
  motors =
      record {
        motor_id = whole (pos 1);
        position_deg = 10;
        feedback_age_ms = 5;
        valid = true;
        identity_conflict = none;
      }
      ∷ [];
  unexpected_motor_ids = some (whole (pos 9) ∷ []);
}

abbrev first : AethorArmMotorFrame ℕ
first = frame_of (codes "c1") 1

abbrev second : AethorArmMotorFrame ℕ
second = frame_of (codes "c1") 2

abbrev once : Coordinator ℕ
once = (ingest naturals clock create_coordinator first (pos 100) 7).0

abbrev between : List (Call ℕ)
between = scheduled (pos 120) ∷ []

first_taken : (ingest naturals clock create_coordinator first (pos 100) 7).1 ≡ true
unfolding ingest received accepted rejected admit is_supported_frame is_supported_sample
    is_identity_token supported_unexpected_ids are_distinct accept_sequence advance lookup insert
    record_rate_sample shift_until max_rate_samples max_retired_boot_ids ◌-ℤ◌
first_taken = refl

second_taken :
    (ingest naturals clock (calls naturals clock once between) second (pos 130) 8).1 ≡ true
unfolding ingest received accepted rejected admit is_supported_frame is_supported_sample
    is_identity_token supported_unexpected_ids are_distinct accept_sequence advance lookup insert
    record_rate_sample shift_until max_rate_samples max_retired_boot_ids ◌-ℤ◌ calls call
    run_scheduled commit_pending commit_frames
second_taken = refl

repeated_rejected : (ingest naturals clock once first (pos 130) 8).1 ≡ false
unfolding ingest received accepted rejected admit is_supported_frame is_supported_sample
    is_identity_token supported_unexpected_ids are_distinct accept_sequence advance lookup insert
    record_rate_sample shift_until max_rate_samples max_retired_boot_ids ◌-ℤ◌
repeated_rejected = refl

calls-Counted_example : Counted (
    calls naturals clock create_coordinator
      (ingested first (pos 100) 7 ∷ ingested second (pos 110) 8 ∷ between))
calls-Counted_example =
    calls-Counted naturals clock
      (ingested first (pos 100) 7 ∷ ingested second (pos 110) 8 ∷ between)

accepted-same_source_example : source_of second ≡ source_of first
accepted-same_source_example =
    accepted-same_source naturals clock create_coordinator first (pos 100) 7 between second
      (pos 130) 8 first_taken tt refl second_taken

accepted-increasing_example : number_lt first.frame_seq second.frame_seq ≡ true
accepted-increasing_example =
    accepted-increasing naturals clock create_coordinator first (pos 100) 7 between second (pos 130)
      8 first_taken tt refl refl second_taken

run_scheduled-ingest_example :
    (commit : Commit ℕ) × ((run_scheduled once (pos 120)).1 ≡ some commit)
    × Has first commit.frames
    × ((run_scheduled once (pos 120)).0.pending_frames ≡ [])
run_scheduled-ingest_example =
    run_scheduled-ingest naturals clock create_coordinator first (pos 100) 7 (pos 120) first_taken
