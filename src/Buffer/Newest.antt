-- ===== src/Buffer/Newest.antt =====
-- The newest sample of a signal buffer is never evicted.
use mathlib.Core.Path.{subst}
use aethor_studio_v.Prelude.{
  ℕ, ℤ, Bool, true, false, Option, none, some, List, [], ◌∷◌, ◌++◌, Text, length, ltb, ◌≡◌, refl,
  ap, sym, ◌∙◌, Bool-cases, Option-cases, inl, inr, drop, Result, ok, err,
}
use aethor_studio_v.Contracts.{SignalSample, Number}
use aethor_studio_v.Buffer.{
  SignalBuffer, BufferError, MaxAge, create, push, snapshot, cutoff_for, finite_or_null, is_late,
  is_positive, not_before,
}
use aethor_studio_v.Buffer.Refine.{fresh_from}
use aethor_studio_v.Buffer.Window.{View, Shows, push_view, push_refines, Agree, snapshot-Represents}
use aethor_studio_v.Buffer.Recent.{fresh_from-append, cutoff_for-not_before}
use aethor_studio_v.Buffer.Client.{Call, empty_view, calls, calls_view, calls-Shows, created-Shows}
use aethor_studio_v.Buffer.Bounds.{joined}

ok-injective :
    {A : Type 0} (a b : A)
    → ◌≡◌ {A = Result BufferError (A × Bool)} (ok (a, true)) (ok (b, true))
    → a ≡ b
ok-injective a b e = cc

module _ {F : Type 0} (date_parse : Text → Option ℤ) (is_finite : F → Bool) where
  agreed :
      (max : ℕ) (age : MaxAge) (b : SignalBuffer F) (r : Result BufferError (View F × Bool))
      → Agree date_parse is_finite max age (ok (b, true)) r
      → (v : View F) × (r ≡ ok (v, true)) × Shows b max age v
  agreed max age b (err e) agree = absurd agree
  agreed max age b (ok (v, answer)) (same, shows) = (v, ap (λ x. ok (v, x)) (sym same), shows)

  push_view-newest :
      (max : ℕ) (age : MaxAge) (v : View F) (s : SignalSample F) (v' : View F)
      → is_positive age ≡ true
      → push_view date_parse is_finite max age v s ≡ ok (v', true)
      → (front : List (SignalSample F)) × (v'.items ≡ front ++ (s ∷ []))
  unfolding push_view
  push_view-newest max age v s v' aged e = elim (Option-cases (date_parse s.timestamp_utc)) [
    | inl bad ↦ absurd (let d = sym (no_time bad) ∙ e in cc)
    | inr (t, good) ↦ elim (Bool-cases (finite_or_null is_finite s.value)) [
      | inr odd ↦ absurd (let d = sym (no_value t good odd) ∙ e in cc)
      | inl fine ↦ elim (Bool-cases (is_late v.latest t)) [
        | inl late ↦ absurd (let d = sym (kept t good fine late) ∙ e in cc)
        | inr now ↦
            let d = sym (taken t good fine now) ∙ e in
            subst (λ w. (front : List (SignalSample F)) × (w.items ≡ front ++ (s ∷ [])))
              (ok-injective (after t) v' d) (survives t good)
      ]
    ]
  ]
    where
      after : ℤ → View F
      after t = record {
        items = fresh_from date_parse (cutoff_for t age) (joined date_parse is_finite max age v s);
        latest = some t;
      }

      no_time :
          date_parse s.timestamp_utc ≡ none
          → push_view date_parse is_finite max age v s ≡ err BufferError.invalid_timestamp
      no_time bad = rw (bad, push_view) refl

      no_value :
          (t : ℤ)
          → date_parse s.timestamp_utc ≡ some t
          → finite_or_null is_finite s.value ≡ false
          → push_view date_parse is_finite max age v s ≡ err BufferError.value_not_finite
      no_value t good odd = rw (good, push_view, odd) refl

      kept :
          (t : ℤ)
          → date_parse s.timestamp_utc ≡ some t
          → finite_or_null is_finite s.value ≡ true
          → is_late v.latest t ≡ true
          → push_view date_parse is_finite max age v s ≡ ok (v, false)
      kept t good fine late = rw (good, push_view, fine, late) refl

      taken :
          (t : ℤ)
          → date_parse s.timestamp_utc ≡ some t
          → finite_or_null is_finite s.value ≡ true
          → is_late v.latest t ≡ false
          → push_view date_parse is_finite max age v s ≡ ok (after t, true)
      taken t good fine now = rw (good, push_view, fine, now) refl

      last :
          (t : ℤ) (l : List (SignalSample F))
          → date_parse s.timestamp_utc ≡ some t
          → (front : List (SignalSample F)) × (fresh_from date_parse
                (cutoff_for t age)
                (l ++ (s ∷ []))
              ≡ front ++ (s ∷ []))
      last t l good =
          fresh_from-append date_parse (cutoff_for t age) l s
            (ap (λ x. not_before x (cutoff_for t age)) good ∙ cutoff_for-not_before t age aged)

      survives :
          (t : ℤ)
          → date_parse s.timestamp_utc ≡ some t
          → (front : List (SignalSample F)) × ((after t).items ≡ front ++ (s ∷ []))
      survives t good = elim (Bool-cases (ltb (length v.items) max)) [
        | inl room ↦ rw room (last t v.items good)
        | inr full ↦ rw full (last t (drop 1 v.items) good)
      ]

  -- After the constructor and any calls, a `push` that answers true leaves its sample as the last
  -- one of the snapshot, whatever it evicts.
  pub push-newest :
      (max : Number) (age : MaxAge) (b : SignalBuffer F) (l : List (Call F)) (s : SignalSample F)
      (b' : SignalBuffer F)
      → create F max age ≡ ok b
      → push date_parse is_finite (calls date_parse is_finite b l) s ≡ ok (b', true)
      → (front : List (SignalSample F)) × (snapshot b' ≡ front ++ (s ∷ []))
  push-newest max age b l s b' made pushes =
      let (shows, positive, aged) = created-Shows date_parse is_finite max age b made in
      let v = calls_view date_parse is_finite b.max_samples b.max_age empty_view l in
      let (v', e, after) =
        agreed b.max_samples b.max_age b'
          (push_view date_parse is_finite b.max_samples b.max_age v s)
          (subst
            (λ r.
              Agree date_parse is_finite b.max_samples b.max_age r
                (push_view date_parse is_finite b.max_samples b.max_age v s))
            pushes
            (push_refines date_parse is_finite b.max_samples b.max_age
              (calls date_parse is_finite b l) v s
              (calls-Shows date_parse is_finite b.max_samples b.max_age b empty_view l positive
                shows))) in
      let (front, last) = push_view-newest b.max_samples b.max_age v s v' aged e in
      let (same, sized) = snapshot-Represents b' v'.items after.items in (front, same ∙ last)
