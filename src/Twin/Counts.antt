-- ===== src/Twin/Counts.antt =====
-- The counters and the bounds of the coordinator, over any sequence of calls.
use mathlib.Core.Path.{subst}
use aethor_studio_v.Prelude.{
  ℕ, ◌+◌, ◌≤◌, ℤ, Bool, true, false, ◌||◌, Option, none, some, List, [], ◌∷◌, ◌++◌, Text, length,
  length-drop, ltb, ◌≡◌, refl, ap, arith, Bool-cases, Option-cases, inl, inr, ◌-ℤ◌,
}
use aethor_studio_v.Contracts.{Floats, AethorArmMotorFrame}
use aethor_studio_v.Twin.Frames.{is_arm, is_supported_frame}
use aethor_studio_v.Twin.{
  Coordinator, GroupIngressState, create_coordinator, has_key, commit_frames, commit_pending,
  run_scheduled, flush_now, reset, ingest, received, rejected, accepted, admit, record_rate_sample,
  keep_last, max_rate_samples, shift_until,
}
use aethor_studio_v.Twin.Pending.{
  DistinctKeys, KeysOf, length-insert, KeysOf-insert, DistinctKeys-insert, committed_all,
}

pub data Call (F : Type 0) : Type 0 where
  ingested : AethorArmMotorFrame F → ℤ → ℕ → Call F
  scheduled flushed : ℤ → Call F
  was_reset : Call F

abbrev pub is_nil : {A : Type 0} → List A → Bool
is_nil [] = true
is_nil (_ ∷ _) = false

-- Every received frame is rejected, replaced by a newer one, applied or still waiting; an arm has
-- at most one that waits, and while one waits a commit is scheduled.
pub record Counted {F : Type 0} (c : Coordinator F) : Type 0 where
  pub balanced :
      c.metrics.received_frame_count
      ≡ c.metrics.rejected_frame_count
        + c.metrics.coalesced_frame_count
        + c.metrics.applied_frame_count
        + length c.pending_frames
  pub arms : KeysOf is_arm c.pending_frames
  pub distinct : DistinctKeys c.pending_frames
  pub waits : (is_nil c.pending_frames || has_key c.scheduled_handle) ≡ true
  pub ingress_rate : c.metrics.ingress_rate_hz ≤ 256
  pub model_rate : c.metrics.model_update_rate_hz ≤ 256

keep_last-le : {A : Type 0} (limit : ℕ) (l : List A) → length (keep_last limit l) ≤ limit
keep_last-le limit l = elim (Bool-cases (ltb limit (length l))) [
  | inl over ↦ rw (over, length-drop) (ground arith)
  | inr fits ↦ rw fits (ground arith)
]

record_rate_sample-le : (samples : List ℤ) (now : ℤ) → length (record_rate_sample samples now) ≤ 256
unfolding record_rate_sample max_rate_samples
record_rate_sample-le samples now =
    keep_last-le 256 (shift_until (now -ℤ _) (samples ++ (now ∷ [])))

module _ {F : Type 0} where
  commit_frames-Counted :
      (c : Coordinator F) (p : List (Text × AethorArmMotorFrame F)) (now : ℤ)
      → c.pending_frames ≡ p
      → Counted c
      → Counted (commit_frames (record c { scheduled_handle = none }) p now).0
  unfolding commit_frames
  commit_frames-Counted c [] now e h = record {
    balanced = h.balanced;
    arms = h.arms;
    distinct = h.distinct;
    waits = rw (ap is_nil e) refl;
    ingress_rate = h.ingress_rate;
    model_rate = h.model_rate;
  }
  commit_frames-Counted c (f ∷ p) now e h = record {
    balanced = omega (
      arith,
      h.balanced,
      ap length e,
      committed_all (f ∷ p) (subst (KeysOf is_arm) e h.arms) (subst DistinctKeys e h.distinct),
    );
    arms = tt;
    distinct = tt;
    waits = refl;
    ingress_rate = h.ingress_rate;
    model_rate = record_rate_sample-le c.commit_times now;
  }

  accepted-Counted :
      (c : Coordinator F) (frame : AethorArmMotorFrame F) (now : ℤ) (handle : ℕ)
      (ingress : List (Text × GroupIngressState))
      → is_arm frame.joint_group_id ≡ true
      → Counted c
      → Counted (accepted (received c now) frame ingress handle)
  unfolding accepted received
  accepted-Counted c frame now handle ingress arm h = record {
    balanced =
        ground (arith, length-insert frame.joint_group_id frame c.pending_frames, h.balanced);
    arms = KeysOf-insert is_arm frame.joint_group_id frame c.pending_frames arm h.arms;
    distinct = DistinctKeys-insert frame.joint_group_id frame c.pending_frames h.distinct;
    waits = ground arith;
    ingress_rate = record_rate_sample-le c.ingress_times now;
    model_rate = h.model_rate;
  }

  rejected-Counted : (c : Coordinator F) (now : ℤ) → Counted c → Counted (rejected (received c now))
  unfolding rejected received
  rejected-Counted c now h = record {
    balanced = omega (arith, h.balanced);
    arms = h.arms;
    distinct = h.distinct;
    waits = h.waits;
    ingress_rate = record_rate_sample-le c.ingress_times now;
    model_rate = h.model_rate;
  }

  create_coordinator-Counted : Counted (create_coordinator {F = F})
  create_coordinator-Counted = record {
    balanced = refl;
    arms = tt;
    distinct = tt;
    waits = refl;
    ingress_rate = omega arith;
    model_rate = omega arith;
  }

module _ {F : Type 0} (floats : Floats F) (date_parse : Text → Option ℤ) where
  pub supported-is_arm :
      (frame : AethorArmMotorFrame F)
      → is_supported_frame floats date_parse frame ≡ true
      → is_arm frame.joint_group_id ≡ true
  unfolding is_supported_frame
  supported-is_arm frame h = ground arith

  pub admit-supported :
      (ingress : List (Text × GroupIngressState)) (frame : AethorArmMotorFrame F)
      (next : List (Text × GroupIngressState))
      → admit floats date_parse ingress frame ≡ some next
      → is_supported_frame floats date_parse frame ≡ true
  unfolding admit
  admit-supported ingress frame next h =
      elim (Bool-cases (is_supported_frame floats date_parse frame)) [
        | inl good ↦ good
        | inr bad ↦ absurd (let e = rw bad at h in cc)
      ]

  ingest-Counted :
      (c : Coordinator F) (frame : AethorArmMotorFrame F) (now : ℤ) (handle : ℕ)
      → Counted c
      → Counted (ingest floats date_parse c frame now handle).0
  unfolding ingest
  ingest-Counted c frame now handle h =
      elim (Option-cases (admit floats date_parse c.ingress_state frame)) [
        | inl refused ↦ rw refused (rejected-Counted c now h)
        | inr (next, taken) ↦ rw taken (
            accepted-Counted c frame now handle next
              (supported-is_arm frame (admit-supported c.ingress_state frame next taken)) h)
      ]

  unfoldable pub call : Coordinator F → Call F → Coordinator F
  call c (ingested frame now handle) = (ingest floats date_parse c frame now handle).0
  call c (scheduled now) = (run_scheduled c now).0
  call c (flushed now) = (flush_now c now).1
  call c was_reset = (reset c).1

  unfoldable pub calls : Coordinator F → List (Call F) → Coordinator F
  calls c [] = c
  calls c (k ∷ ks) = calls (call c k) ks

  call-Counted : (c : Coordinator F) (k : Call F) → Counted c → Counted (call c k)
  unfolding call run_scheduled flush_now commit_pending reset
  call-Counted c (ingested frame now handle) h = ingest-Counted c frame now handle h
  call-Counted c (scheduled now) h = commit_frames-Counted c c.pending_frames now refl h
  call-Counted c (flushed now) h = commit_frames-Counted c c.pending_frames now refl h
  call-Counted c was_reset h = create_coordinator-Counted

  calls_keep : (c : Coordinator F) (ks : List (Call F)) → Counted c → Counted (calls c ks)
  unfolding calls
  calls_keep c [] h = h
  calls_keep c (k ∷ ks) h = calls_keep (call c k) ks (call-Counted c k h)

  -- After any calls on a new coordinator, ticks of the scheduler included, `Counted` holds: every
  -- frame that was received since the last reset was rejected, replaced by a newer one of its arm,
  -- applied, or is waiting; each of the two arms has at most one frame that waits; while one waits
  -- a commit is scheduled; and no rate is above 256.
  pub calls-Counted : (ks : List (Call F)) → Counted (calls create_coordinator ks)
  calls-Counted ks = calls_keep create_coordinator ks create_coordinator-Counted
