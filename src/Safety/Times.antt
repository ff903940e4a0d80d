-- ===== src/Safety/Times.antt =====
-- The times that the safety latch stands for: the last confirmed stop and the last alarm.
use aethor_studio_v.Prelude.{
  ℤ, ltb_ℤ, Bool, true, false, not, ◌&&◌, Option, none, some, List, [], ◌∷◌, Text, if◌then◌else◌,
  text_eq, ◌≡◌, refl, arith,
}
use aethor_studio_v.Contracts.{CommandResult, CommandAuditRecord}
use aethor_studio_v.Safety.{
  CommandSafetyState, is_completed_stop, is_safety_latched_result, exceeds, not_after, timestamp_of,
  is_latched, parse_timestamp,
}

-- A time that is known.
abbrev pub is_dated : Option ℤ → Bool
is_dated none = false
is_dated (some t) = true

-- The later of two times, where `none` is before every time.
abbrev pub later : Option ℤ → ℤ → Option ℤ
later none t = some t
later (some s) t = if ltb_ℤ t s then some s else some t

abbrev pub later_by : Option ℤ → Option ℤ → Option ℤ
later_by s none = s
later_by s (some t) = later s t

-- `u` if it is after `s`.
abbrev pub after : Option ℤ → Option ℤ → Option ℤ
after s none = none
after none (some u) = some u
after (some s) (some u) = if ltb_ℤ s u then some u else none

-- A stop at `t` drops what stands at or before it.
pub after-later_stop :
    (s u : Option ℤ) (t : ℤ)
    → after (later s t) u
      ≡ (if exceeds s t then after s u else if exceeds (after s u) t then after s u else none)
after-later_stop none none t = refl
after-later_stop none (some u) t = ground arith
after-later_stop (some s) none t = ground arith
after-later_stop (some s) (some u) t = ground arith

-- An uncertain result at `t` replaces what stands at or before it, if no stop came after it.
pub after-later_alarm :
    (s u : Option ℤ) (t : ℤ)
    → after s (later u t) ≡ (
        if not_after (some t) s
        then after s u
        else if exceeds (after s u) t
        then after s u
        else some t)
after-later_alarm none none t = refl
after-later_alarm none (some u) t = ground arith
after-later_alarm (some s) none t = ground arith
after-later_alarm (some s) (some u) t = ground arith

pub later-older : (s : Option ℤ) (t : ℤ) → exceeds s t ≡ true → later s t ≡ s
later-older none t h = cc
later-older (some s) t h = rw h refl

pub later-newer : (s : Option ℤ) (t : ℤ) → exceeds s t ≡ false → later s t ≡ some t
later-newer none t h = refl
later-newer (some s) t h = rw h refl

pub exceeds-dated : (s : Option ℤ) (t : ℤ) → exceeds s t ≡ true → is_dated s ≡ true
exceeds-dated none t h = cc
exceeds-dated (some s) t h = refl

pub and_false : (b : Bool) → (b && false) ≡ false
and_false true = refl
and_false false = refl

abbrev pub empty : CommandSafetyState
empty = record { latched_result = none; confirmed_stop_timestamp_utc = none }

-- An uncertain result, as far as the latch tells it from a completed stop.
unfoldable pub is_alarm : CommandResult → Bool
is_alarm r = not (is_completed_stop r) && is_safety_latched_result r

-- The results of one session in a history.
unfoldable pub results_of : {F : Type 0} → Text → List (CommandAuditRecord F) → List CommandResult
results_of session_id [] = []
results_of session_id (a ∷ l) =
    let rest = results_of session_id l in
    if text_eq a.result.session_id session_id then a.result ∷ rest else rest

module _ (date_parse : Text → Option ℤ) where
  abbrev pub time : CommandResult → Option ℤ
  time result = date_parse result.timestamp_utc

  unfoldable pub stop_time : CommandSafetyState → Option ℤ
  stop_time s = parse_timestamp date_parse s.confirmed_stop_timestamp_utc

  unfoldable pub latch_time : CommandSafetyState → Option ℤ
  latch_time s = parse_timestamp date_parse (timestamp_of s.latched_result)

  -- The last confirmed stop was at `stop` and the last uncertain result at `alarm`; the latch is
  -- set if the second is after the first.
  pub record Tracks (s : CommandSafetyState) (stop alarm : Option ℤ) : Type 0 where
    pub stop_at : stop_time s ≡ stop
    pub latch_at : latch_time s ≡ after stop alarm
    pub dated : is_latched s.latched_result ≡ is_dated (latch_time s)

  -- The latest time of the results that a test picks, from `t` on.
  unfoldable pub latest : (CommandResult → Bool) → Option ℤ → List CommandResult → Option ℤ
  latest picks t [] = t
  latest picks t (r ∷ l) = latest picks (if picks r then later_by t (time r) else t) l

  -- Every result has a valid timestamp.
  abbrev pub Dated : {F : Type 0} → List (CommandAuditRecord F) → Type 0
  Dated [] = Unit
  Dated (a ∷ l) = ((t : ℤ) × (time a.result ≡ some t)) × Dated l
