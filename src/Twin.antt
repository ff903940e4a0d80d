-- ===== src/Twin.antt =====
-- apps/studio-web/src/integrations/AethorTwinFrameCoordinator.ts and domain/aethorTwinTelemetry.ts:
-- the boundary between the motor frames of an adapter and the rendered model. A call returns the
-- new coordinator, and what it hands to the sinks. `date_parse` is `Date.parse`, `now` the clock's
-- milliseconds, and `handle` what the scheduler answers to a request.
pub mod Frames
pub mod Pending
pub mod Counts
pub mod Order
pub mod Sequences
pub mod Delivery
mod Tests
use aethor_studio_v.Prelude.{
  ℕ, ◌+◌, ◌-◌, ℤ, pos, negsuc, ◌-ℤ◌, ltb_ℤ, leb_ℤ, Bool, true, false, not, ◌&&◌, ◌||◌, Option, none,
  some, List, [], ◌∷◌, ◌++◌, Text, length, drop, all, ltb, leb, ◌==◌, if◌then◌else◌, text_eq,
  text_mem, codes, lookup, insert, is_empty,
}
use aethor_studio_v.Contracts.{
  Number, whole, other, integer_within, Floats, AethorArmMotorSample, AethorArmMotorFrame,
}
use Frames.{is_supported_frame}

pub record AethorTwinTelemetryMetrics : Type 0 where
  pub received_frame_count : ℕ
  pub applied_frame_count : ℕ
  pub coalesced_frame_count : ℕ
  pub rejected_frame_count : ℕ
  pub render_commit_count : ℕ
  pub ingress_rate_hz : ℕ
  pub model_update_rate_hz : ℕ
  pub last_ingress_at_ms : Option ℤ
  pub last_commit_at_ms : Option ℤ

abbrev pub create_aethor_twin_telemetry_metrics : AethorTwinTelemetryMetrics
create_aethor_twin_telemetry_metrics = record {
  received_frame_count = 0;
  applied_frame_count = 0;
  coalesced_frame_count = 0;
  rejected_frame_count = 0;
  render_commit_count = 0;
  ingress_rate_hz = 0;
  model_update_rate_hz = 0;
  last_ingress_at_ms = none;
  last_commit_at_ms = none;
}

abbrev pub rate_window_ms : ℤ
rate_window_ms = pos 1000

unfoldable pub max_rate_samples : ℕ
max_rate_samples = 256

unfoldable pub max_retired_boot_ids : ℕ
max_retired_boot_ids = 4

-- `received_at_ms` is `none` for NaN.
pub record GroupIngressState : Type 0 where
  pub source_id : Text
  pub boot_id : Text
  pub frame_seq : Number
  pub received_at_ms : Option ℤ
  pub retired_boot_ids : List Text

pub record Coordinator (F : Type 0) : Type 0 where
  pub pending_frames : List (Text × AethorArmMotorFrame F)
  pub ingress_state : List (Text × GroupIngressState)
  pub ingress_times : List ℤ
  pub commit_times : List ℤ
  pub scheduled_handle : Option ℕ
  pub metrics : AethorTwinTelemetryMetrics

-- What the frame sink is called with.
pub record Commit (F : Type 0) : Type 0 where
  pub frames : List (AethorArmMotorFrame F)
  pub metrics : AethorTwinTelemetryMetrics
  pub committed_at_ms : ℤ

abbrev pub create_coordinator : {F : Type 0} → Coordinator F
create_coordinator = record {
  pending_frames = [];
  ingress_state = [];
  ingress_times = [];
  commit_times = [];
  scheduled_handle = none;
  metrics = create_aethor_twin_telemetry_metrics;
}

-- `while (samples.length > 0 && samples[0] <= cutoff) samples.shift()`
unfoldable pub shift_until : ℤ → List ℤ → List ℤ
shift_until cutoff [] = []
shift_until cutoff (t ∷ l) =
    let rest = shift_until cutoff l in if leb_ℤ t cutoff then rest else t ∷ l

-- `if (items.length > limit) items.splice(0, items.length - limit)`
abbrev pub keep_last : {A : Type 0} → ℕ → List A → List A
keep_last limit l = if ltb limit (length l) then drop (length l - limit) l else l

-- `if (items.length > limit) items.shift()`
abbrev pub shift_over : {A : Type 0} → ℕ → List A → List A
shift_over limit l = if ltb limit (length l) then drop 1 l else l

unfoldable pub record_rate_sample : List ℤ → ℤ → List ℤ
record_rate_sample samples now =
    keep_last max_rate_samples (shift_until (now -ℤ rate_window_ms) (samples ++ (now ∷ [])))

-- `frame.frameSeq <= prior.frameSeq`, for integers.
abbrev pub number_le : Number → Number → Bool
number_le (whole a) (whole b) = leb_ℤ a b
number_le _ _ = false

-- `Math.max`, where `none` is NaN.
abbrev pub later_time : Option ℤ → Option ℤ → Option ℤ
later_time (some a) (some b) = some (if leb_ℤ a b then b else a)
later_time _ _ = none

-- `a < b`, false for NaN.
abbrev pub time_before : Option ℤ → Option ℤ → Bool
time_before (some a) (some b) = ltb_ℤ a b
time_before _ _ = false

abbrev pub has_key : {A : Type 0} → Option A → Bool
has_key none = false
has_key (some _) = true

abbrev pub as_list : {A : Type 0} → Option A → List A
as_list none = []
as_list (some a) = a ∷ []

module _ {F : Type 0} where
  abbrev pub source_of : AethorArmMotorFrame F → Text
  source_of frame = frame.controller_id ++ (0 ∷ frame.arm_id)

  -- The frame of one arm among those that wait, as a list of none or one.
  abbrev pub pending_of : Text → List (Text × AethorArmMotorFrame F) → List (AethorArmMotorFrame F)
  pending_of group pending = as_list (lookup group pending)

  unfoldable pub commit_frames :
      Coordinator F → List (Text × AethorArmMotorFrame F) → ℤ → Coordinator F × Option (Commit F)
  commit_frames c [] now = (c, none)
  commit_frames c (first ∷ rest) now =
      let frames =
        pending_of (codes "left-arm") (first ∷ rest)
        ++ pending_of (codes "right-arm") (first ∷ rest) in
      let times = record_rate_sample c.commit_times now in
      let metrics = record c.metrics {
        applied_frame_count = c.metrics.applied_frame_count + length frames;
        render_commit_count = c.metrics.render_commit_count + 1;
        last_commit_at_ms = some now;
        model_update_rate_hz = length times;
      } in
      (
        record c { pending_frames = []; commit_times = times; metrics = metrics },
        some (record { frames = frames; metrics = metrics; committed_at_ms = now }),
      )

  unfoldable pub commit_pending : Coordinator F → ℤ → Coordinator F × Option (Commit F)
  commit_pending c now = commit_frames c c.pending_frames now

  -- The callback that `ingest` gives to the scheduler.
  unfoldable pub run_scheduled : Coordinator F → ℤ → Coordinator F × Option (Commit F)
  run_scheduled c now = commit_pending (record c { scheduled_handle = none }) now

  -- The cancelled handle is the first result.
  unfoldable pub flush_now : Coordinator F → ℤ → Option ℕ × Coordinator F × Option (Commit F)
  flush_now c now =
      let (c', commit) = commit_pending (record c { scheduled_handle = none }) now in
      (c.scheduled_handle, c', commit)

  unfoldable pub reset : Coordinator F → Option ℕ × Coordinator F
  reset c = (c.scheduled_handle, create_coordinator)

  -- The ingress rate and the counters that `ingest` sets first.
  unfoldable pub received : Coordinator F → ℤ → Coordinator F
  received c now =
      let times = record_rate_sample c.ingress_times now in
      record c {
        ingress_times = times;
        metrics = record c.metrics {
          received_frame_count = c.metrics.received_frame_count + 1;
          last_ingress_at_ms = some now;
          ingress_rate_hz = length times;
        };
      }

  unfoldable pub rejected : Coordinator F → Coordinator F
  rejected c = record c {
    metrics = record c.metrics { rejected_frame_count = c.metrics.rejected_frame_count + 1 };
  }

  -- The frame takes the place of one that waits, and a commit is scheduled.
  unfoldable pub accepted :
      Coordinator F → AethorArmMotorFrame F → List (Text × GroupIngressState) → ℕ → Coordinator F
  accepted c frame ingress handle = record c {
    ingress_state = ingress;
    pending_frames = insert frame.joint_group_id frame c.pending_frames;
    scheduled_handle =
        some (elim c.scheduled_handle [ none ↦ handle | some scheduled ↦ scheduled ]);
    metrics = record c.metrics {
      coalesced_frame_count =
          if has_key (lookup frame.joint_group_id c.pending_frames)
          then c.metrics.coalesced_frame_count + 1
          else c.metrics.coalesced_frame_count;
    };
  }

  -- The answer, and the metrics that the metrics sink gets at a rejection.
  abbrev pub settle :
      Coordinator F
      → AethorArmMotorFrame F
      → ℕ
      → Option (List (Text × GroupIngressState))
      → Coordinator F × Bool × Option AethorTwinTelemetryMetrics
  settle c frame handle none = (rejected c, false, some (rejected c).metrics)
  settle c frame handle (some ingress) = (accepted c frame ingress handle, true, none)

abbrev pub stored :
    List (Text × GroupIngressState)
    → Text
    → Option GroupIngressState
    → Option (List (Text × GroupIngressState))
stored ingress group none = none
stored ingress group (some entry) = some (insert group entry ingress)

module _ {F : Type 0} (date_parse : Text → Option ℤ) where
  abbrev pub new_ingress : AethorArmMotorFrame F → GroupIngressState
  new_ingress frame = record {
    source_id = source_of frame;
    boot_id = frame.boot_id;
    frame_seq = frame.frame_seq;
    received_at_ms = date_parse frame.received_at_utc;
    retired_boot_ids = [];
  }

  -- The body of `acceptSequence` for a group that is known; `none` is `return false`.
  unfoldable pub advance : GroupIngressState → AethorArmMotorFrame F → Option GroupIngressState
  advance prior frame =
      if not (text_eq prior.source_id (source_of frame))
      then none
      else if text_eq frame.boot_id prior.boot_id
      then (if number_le frame.frame_seq prior.frame_seq
          then none
          else some (record prior {
            frame_seq = frame.frame_seq;
            received_at_ms = later_time prior.received_at_ms (date_parse frame.received_at_utc);
          }))
      else if text_mem frame.boot_id prior.retired_boot_ids
      then none
      else if time_before (date_parse frame.received_at_utc) prior.received_at_ms
      then none
      else some (record prior {
        boot_id = frame.boot_id;
        frame_seq = frame.frame_seq;
        received_at_ms = date_parse frame.received_at_utc;
        retired_boot_ids =
            shift_over max_retired_boot_ids (prior.retired_boot_ids ++ (prior.boot_id ∷ []));
      })

  -- The new entry of a group, by the one that it has.
  abbrev pub accept_after :
      Option GroupIngressState → AethorArmMotorFrame F → Option GroupIngressState
  accept_after none frame = some (new_ingress frame)
  accept_after (some prior) frame = advance prior frame

  unfoldable pub accept_sequence :
      List (Text × GroupIngressState)
      → AethorArmMotorFrame F
      → Option (List (Text × GroupIngressState))
  accept_sequence ingress frame =
      stored ingress frame.joint_group_id (accept_after (lookup frame.joint_group_id ingress) frame)

module _ {F : Type 0} (floats : Floats F) (date_parse : Text → Option ℤ) where
  -- `isSupportedFrame(frame) && this.acceptSequence(frame)`
  unfoldable pub admit :
      List (Text × GroupIngressState)
      → AethorArmMotorFrame F
      → Option (List (Text × GroupIngressState))
  admit ingress frame =
      if is_supported_frame floats date_parse frame
      then accept_sequence date_parse ingress frame
      else none

  unfoldable pub ingest :
      Coordinator F
      → AethorArmMotorFrame F
      → ℤ
      → ℕ
      → Coordinator F × Bool × Option AethorTwinTelemetryMetrics
  ingest c frame now handle = settle (received c now) frame handle (admit c.ingress_state frame)
