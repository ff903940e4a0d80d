-- ===== src/Buffer.antt =====
-- apps/studio-web/src/domain/BoundedSignalBuffer.ts: a ring of samples, bounded in number and age.
-- `Date.parse` and `Number.isFinite` are parameters: `date_parse` gives the milliseconds of a
-- timestamp and `none` for NaN. A method that mutates the buffer returns the new one.
pub mod Rings
pub mod Refine
pub mod Window
pub mod Recent
pub mod Client
pub mod Bounds
pub mod Newest
mod Tests
use aethor_studio_v.Prelude.{
  ℕ, zero, suc, ◌+◌, ◌-◌, ◌%◌, ℤ, pos, negsuc, ◌-ℤ◌, ltb_ℤ, leb_ℤ, Bool, true, false, not, ◌&&◌,
  ◌||◌, Option, none, some, List, [], ◌∷◌, Text, length, get_elem?, set, replicate, ltb, ◌==◌,
  if◌then◌else◌, Result, ok, err,
}
use aethor_studio_v.Contracts.{Number, whole, other, SignalSample}

pub data BufferError : Type 0 where
  max_samples_not_positive max_age_not_positive invalid_timestamp value_not_finite : BufferError
  invalid_cutoff invalid_array_length : BufferError

-- `maxAgeMs`: whole milliseconds, or the default `Number.POSITIVE_INFINITY`.
pub data MaxAge : Type 0 where
  millis : ℤ → MaxAge
  forever : MaxAge

pub record SignalBuffer (F : Type 0) : Type 0 where
  pub max_samples : ℕ
  pub max_age : MaxAge
  pub samples : List (Option (SignalSample F))
  pub start : ℕ
  pub count : ℕ
  pub latest : Option ℤ

-- `array[index]`, undefined outside the array.
abbrev pub slot_at {ℓ} : {A : Type ℓ} → List (Option A) → ℕ → Option A
slot_at [] i = none
slot_at (x ∷ xs) zero = x
slot_at (x ∷ xs) (suc i) = slot_at xs i

-- `maxAgeMs > 0`
abbrev pub is_positive : MaxAge → Bool
is_positive forever = true
is_positive (millis n) = ltb_ℤ (pos 0) n

-- `new Array(maxSamples)` throws a RangeError from 2 ^ 32 on.
unfoldable pub create : (F : Type 0) → Number → MaxAge → Result BufferError (SignalBuffer F)
create F (whole (pos n)) age =
    if ltb n 1
    then err max_samples_not_positive
    else if not (is_positive age)
    then err max_age_not_positive
    else if ltb 4294967295 n
    then err invalid_array_length
    else ok (record {
      max_samples = n;
      max_age = age;
      samples = replicate n none;
      start = 0;
      count = 0;
      latest = none;
    })
create F _ age = err max_samples_not_positive

-- `timestampMs - maxAgeMs`; `none` is minus infinity.
abbrev pub cutoff_for : ℤ → MaxAge → Option ℤ
cutoff_for t forever = none
cutoff_for t (millis n) = some (t -ℤ n)

-- `time >= cutoff`, false for NaN.
abbrev pub not_before : Option ℤ → Option ℤ → Bool
not_before none cutoff = false
not_before (some t) none = true
not_before (some t) (some cutoff) = leb_ℤ cutoff t

-- `latestTimestampMs !== null && timestampMs < latestTimestampMs`
abbrev pub is_late : Option ℤ → ℤ → Bool
is_late none t = false
is_late (some latest) t = ltb_ℤ t latest

module _ {F : Type 0} where
  -- The write of `push`, before the eviction.
  unfoldable pub store : SignalBuffer F → SignalSample F → SignalBuffer F
  store b sample =
      if ltb b.count b.max_samples
      then record b {
        samples = set b.samples ((b.start + b.count) % b.max_samples) (some sample);
        count = b.count + 1;
      }
      else record b {
        samples = set b.samples b.start (some sample);
        start = (b.start + 1) % b.max_samples;
      }

  -- The loop of `readSamples`: `left` more rounds from `offset` on.
  unfoldable pub read_from : SignalBuffer F → ℕ → ℕ → List (SignalSample F)
  read_from b offset zero = []
  read_from b offset (suc left) =
      let rest = read_from b (offset + 1) left in
      elim (slot_at b.samples ((b.start + offset) % b.max_samples)) [
        | none ↦ rest
        | some sample ↦ sample ∷ rest
      ]

  -- Samples are values here, so the copies that a snapshot makes are the samples themselves.
  unfoldable pub snapshot : SignalBuffer F → List (SignalSample F)
  snapshot b = read_from b 0 b.count

  unfoldable pub size : SignalBuffer F → ℕ
  size b = b.count

  unfoldable pub clear : SignalBuffer F → SignalBuffer F
  clear b = record b { samples = replicate b.max_samples none; start = 0; count = 0; latest = none }

module _ {F : Type 0} (date_parse : Text → Option ℤ) where
  -- The loop of `evictOlderThan`, which stops at the latest when the count is 0.
  unfoldable pub evict :
      ℕ → List (Option (SignalSample F)) → ℕ → ℕ → Option ℤ → List (Option (SignalSample F)) × ℕ × ℕ
  evict max samples start zero cutoff = (samples, start, 0)
  evict max samples start (suc count) cutoff =
      let rest = evict max (set samples start none) ((start + 1) % max) count cutoff in
      elim (slot_at samples start) [
        | none ↦ (samples, start, suc count)
        | some oldest ↦
            if not_before (date_parse oldest.timestamp_utc) cutoff
            then (samples, start, suc count)
            else rest
      ]

  unfoldable pub evict_older_than : SignalBuffer F → Option ℤ → SignalBuffer F
  evict_older_than b cutoff =
      let (samples, start, count) = evict b.max_samples b.samples b.start b.count cutoff in
      record b { samples = samples; start = start; count = count }

  abbrev pub since : ℤ → List (SignalSample F) → List (SignalSample F)
  since cutoff [] = []
  since cutoff (s ∷ l) =
      let rest = since cutoff l in
      if not_before (date_parse s.timestamp_utc) (some cutoff) then s ∷ rest else rest

  unfoldable pub snapshot_since : SignalBuffer F → Text → Result BufferError (List (SignalSample F))
  snapshot_since b t = elim (date_parse t) [
    | none ↦ err invalid_cutoff
    | some cutoff ↦ ok (since cutoff (snapshot b))
  ]

module _ {F : Type 0} (is_finite : F → Bool) where
  abbrev pub finite_or_null : Option F → Bool
  finite_or_null none = true
  finite_or_null (some v) = is_finite v

module _ {F : Type 0} (date_parse : Text → Option ℤ) (is_finite : F → Bool) where
  unfoldable pub push : SignalBuffer F → SignalSample F → Result BufferError (SignalBuffer F × Bool)
  push b sample = elim (date_parse sample.timestamp_utc) [
    | none ↦ err invalid_timestamp
    | some t ↦
        if not (finite_or_null is_finite sample.value)
        then err value_not_finite
        else if is_late b.latest t
        then ok (b, false)
        else ok (
          evict_older_than date_parse (record (store b sample) { latest = some t })
              (cutoff_for t b.max_age),
          true,
        )
  ]
