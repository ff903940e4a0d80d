-- ===== src/Buffer/Bounds.antt =====
-- The bounds that a signal buffer keeps: the number, the order and the age of its samples.
use aethor_studio_v.Prelude.{
  ℕ, ◌+◌, ◌<◌, ◌≤◌, ℤ, Bool, false, Option, none, some, List, [], ◌∷◌, ◌++◌, Text, length,
  length-append, ltb, if◌then◌else◌, ◌≡◌, refl, arith, Bool-cases, Option-cases, inl, inr, drop, ok,
}
use aethor_studio_v.Contracts.{SignalSample, Number}
use aethor_studio_v.Buffer.{
  SignalBuffer, MaxAge, create, snapshot, size, cutoff_for, finite_or_null, is_late,
}
use aethor_studio_v.Buffer.Refine.{fresh_from}
use aethor_studio_v.Buffer.Window.{View, push_view, snapshot-Represents}
use aethor_studio_v.Buffer.Recent.{
  Within, append-UpTo, drop-UpTo, NotOlder-UpTo, UpTo, NotOlder, fresh_from-Within,
  length-fresh_from,
}
use aethor_studio_v.Buffer.Client.{
  Call, pushed, cleared, empty_view, call_view, calls, calls_view, calls-Shows, created-Shows,
}

module _ {F : Type 0} (date_parse : Text → Option ℤ) (is_finite : F → Bool) where
  module _ (max : ℕ) (age : MaxAge) where
    -- At most `max` samples in order of time, none after the last accepted time or too old at it.
    pub record Recent (v : View F) : Type 0 where
      pub bounded : length v.items ≤ max
      pub within : NotOlder date_parse age v.latest v.items

    -- The list of a push before the eviction.
    abbrev pub joined : View F → SignalSample F → List (SignalSample F)
    joined v s =
        if ltb (length v.items) max then v.items ++ (s ∷ []) else drop 1 v.items ++ (s ∷ [])

    joined-bounded :
        (v : View F) (s : SignalSample F)
        → 0 < max
        → length v.items ≤ max
        → length (joined v s) ≤ max
    joined-bounded v s positive h = elim (Bool-cases (ltb (length v.items) max)) [
      | inl room ↦ rw (room, length-append v.items (s ∷ [])) (ground arith)
      | inr full ↦ rw (full, length-append (drop 1 v.items) (s ∷ [])) (dropped v.items h)
    ]
      where
        dropped : (l : List (SignalSample F)) → length l ≤ max → length (drop 1 l) + 1 ≤ max
        dropped [] h = omega (arith, positive)
        dropped (x ∷ l) h = omega arith

    joined-Within :
        (v : View F) (s : SignalSample F) (t : ℤ)
        → date_parse s.timestamp_utc ≡ some t
        → is_late v.latest t ≡ false
        → Recent v
        → Within date_parse none (joined v s) t
    joined-Within v s t at now h = elim (Bool-cases (ltb (length v.items) max)) [
      | inl room ↦ rw room (append-UpTo date_parse v.items v.latest s t sorted at now)
      | inr full ↦ rw full (
          append-UpTo date_parse (drop 1 v.items) v.latest s t
            (drop-UpTo date_parse v.latest v.items sorted) at now)
    ]
      where
        sorted : UpTo date_parse v.latest v.items
        sorted = NotOlder-UpTo date_parse age v.latest v.items h.within

    accept :
        (v : View F) (s : SignalSample F) (t : ℤ)
        → 0 < max
        → date_parse s.timestamp_utc ≡ some t
        → is_late v.latest t ≡ false
        → Recent v
        → Recent (record {
          items = fresh_from date_parse (cutoff_for t age) (joined v s);
          latest = some t;
        })
    accept v s t positive at now h = record {
      bounded = omega (
        arith,
        length-fresh_from date_parse (cutoff_for t age) (joined v s),
        joined-bounded v s positive h.bounded,
      );
      within =
          fresh_from-Within date_parse (cutoff_for t age) (joined v s) t
            (joined-Within v s t at now h);
    }

    call_view-Recent :
        (v : View F) (c : Call F)
        → 0 < max
        → Recent v
        → Recent (call_view date_parse is_finite max age v c)
    unfolding call_view push_view
    call_view-Recent v cleared positive h = record { bounded = omega arith; within = refl }
    call_view-Recent v (pushed s) positive h = elim (Option-cases (date_parse s.timestamp_utc)) [
      | inl bad ↦ rw (bad, call_view, push_view) h
      | inr (t, good) ↦
          rw (good, call_view, push_view)
            (elim (Bool-cases (finite_or_null is_finite s.value)) [
              | inr odd ↦ rw odd h
              | inl fine ↦ rw fine (elim (Bool-cases (is_late v.latest t)) [
                | inl late ↦ rw late h
                | inr now ↦ rw now (accept v s t positive good now h)
              ])
            ])
    ]

    calls_view-Recent :
        (v : View F) (l : List (Call F))
        → 0 < max
        → Recent v
        → Recent (calls_view date_parse is_finite max age v l)
    unfolding calls_view
    calls_view-Recent v [] positive h = h
    calls_view-Recent v (c ∷ l) positive h =
        calls_view-Recent (call_view date_parse is_finite max age v c) l positive
          (call_view-Recent v c positive h)

  -- The constructor's buffer after any calls of `push` and `clear`: its snapshot is the plain list
  -- that the same calls make, its size is the length of that list, and the list is `Recent`: at
  -- most `maxSamples` samples, their times in order, none later than the last accepted time or
  -- older than it by more than `maxAgeMs`.
  pub calls-snapshot :
      (max : Number) (age : MaxAge) (b : SignalBuffer F) (l : List (Call F))
      → create F max age ≡ ok b
      → let v = calls_view date_parse is_finite b.max_samples b.max_age empty_view l in
        (snapshot (calls date_parse is_finite b l) ≡ v.items)
        × (size (calls date_parse is_finite b l) ≡ length v.items)
        × Recent b.max_samples b.max_age v
  calls-snapshot max age b l made =
      let (shows, positive, aged) = created-Shows date_parse is_finite max age b made in
      let after =
        calls-Shows date_parse is_finite b.max_samples b.max_age b empty_view l positive shows in
      let v = calls_view date_parse is_finite b.max_samples b.max_age empty_view l in
      let (same, sized) =
        snapshot-Represents (calls date_parse is_finite b l) v.items after.items in
      (
        same,
        sized,
        calls_view-Recent b.max_samples b.max_age empty_view l positive
            (record { bounded = omega arith; within = refl }),
      )
