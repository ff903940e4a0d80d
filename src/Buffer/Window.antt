-- ===== src/Buffer/Window.antt =====
-- What a client of a signal buffer sees: the methods against a plain list of samples.
use aethor_studio_v.Prelude.{
  ℕ, zero, suc, ◌+◌, ◌%◌, ℤ, Bool, true, false, not, Option, none, some, List, [], ◌∷◌, ◌++◌, Text,
  length, ltb, if◌then◌else◌, ◌≡◌, refl, ap, sym, ◌∙◌, arith, map, Bool-cases, inl, inr, drop,
  Result, ok, err, Option-cases,
}
use aethor_studio_v.Contracts.{SignalSample}
use aethor_studio_v.Buffer.{
  SignalBuffer, MaxAge, BufferError, slot_at, store, evict_older_than, read_from, snapshot, size,
  cutoff_for, push, is_late, finite_or_null,
}
use aethor_studio_v.Buffer.Rings.{tabulate, tabulate-ext}
use aethor_studio_v.Buffer.Refine.{
  Holds, Represents, fresh_from, evict-Holds, store-Represents, length-Holds,
}

read_from-shows :
    {F : Type 0} (b : SignalBuffer F) (offset left : ℕ) (cs : List (SignalSample F))
    → tabulate (λ k. slot_at b.samples ((b.start + (offset + k)) % b.max_samples)) left
      ≡ map some cs
    → read_from b offset left ≡ cs
unfolding read_from
read_from-shows b offset zero [] h = refl
read_from-shows b offset zero (c ∷ cs) h = cc
read_from-shows b offset (suc left) [] h = cc
read_from-shows {F} b offset (suc left) (c ∷ cs) h =
    rw (first, read_from) (ap (λ l. c ∷ l) (read_from-shows b (offset + 1) left cs rest))
  where
    at : ℕ → Option (SignalSample F)
    at k = slot_at b.samples ((b.start + k) % b.max_samples)

    first : slot_at b.samples ((b.start + offset) % b.max_samples) ≡ some c
    first = ap at {y = offset + 0} (omega arith) ∙ (let e = h in cc)

    rest : tabulate (λ k. at (offset + 1 + k)) left ≡ map some cs
    rest =
        tabulate-ext (λ k. at (offset + 1 + k)) (λ k. at (offset + suc k)) left
          (λ k lt. ap at (omega arith))
        ∙ (let e = h in cc)

-- A snapshot of a buffer that stands for a list is that list, and the size is its length.
pub snapshot-Represents :
    {F : Type 0} (b : SignalBuffer F) (cs : List (SignalSample F))
    → Represents b cs
    → (snapshot b ≡ cs) × (size b ≡ length cs)
unfolding Represents snapshot size
snapshot-Represents {F} b cs h = (
  read_from-shows b 0 b.count cs
      (tabulate-ext (λ k. at (0 + k)) at b.count (λ k lt. ap at (omega arith)) ∙ h.shows),
  sym (length-Holds b.max_samples b.samples b.start b.count cs h),
)
  where
    at : ℕ → Option (SignalSample F)
    at k = slot_at b.samples ((b.start + k) % b.max_samples)

max-store :
    {F : Type 0} (b : SignalBuffer F) (s : SignalSample F) → (store b s).max_samples ≡ b.max_samples
unfolding store
max-store b s = ground arith

age-store : {F : Type 0} (b : SignalBuffer F) (s : SignalSample F) → (store b s).max_age ≡ b.max_age
unfolding store
age-store b s = ground arith

-- A buffer as a client knows it: the samples, oldest first, and the time of the last accepted one.
pub record View (F : Type 0) : Type 0 where
  pub items : List (SignalSample F)
  pub latest : Option ℤ

pub record Shows {F : Type 0} (b : SignalBuffer F) (max : ℕ) (age : MaxAge) (v : View F)
    : Type 0 where
  pub same_max : b.max_samples ≡ max
  pub same_age : b.max_age ≡ age
  pub same_latest : b.latest ≡ v.latest
  pub items : Represents b v.items

module _ {F : Type 0} (date_parse : Text → Option ℤ) (is_finite : F → Bool) (max : ℕ)
    (age : MaxAge) where
  -- `push` on the list: append, drop the oldest sample above the capacity, then those too old.
  unfoldable pub push_view : View F → SignalSample F → Result BufferError (View F × Bool)
  push_view v s = elim (date_parse s.timestamp_utc) [
    | none ↦ err BufferError.invalid_timestamp
    | some t ↦
        if not (finite_or_null is_finite s.value)
        then err BufferError.value_not_finite
        else if is_late v.latest t
        then ok (v, false)
        else ok (
          record {
            items = fresh_from date_parse (cutoff_for t age) (
                if ltb (length v.items) max
                then v.items ++ (s ∷ [])
                else drop 1 v.items ++ (s ∷ []));
            latest = some t;
          },
          true,
        )
  ]

  -- Two calls throw alike, or answer alike and leave a buffer that shows the list.
  abbrev pub Agree :
      Result BufferError (SignalBuffer F × Bool) → Result BufferError (View F × Bool) → Type 0
  Agree (err e) (err e') = e ≡ e'
  Agree (ok (b, answer)) (ok (v, answer')) = (answer ≡ answer') × Shows b max age v
  Agree _ _ = ⊥

  abbrev fresh : SignalBuffer F → View F → SignalSample F → List (SignalSample F)
  fresh b v s =
      if ltb (length v.items) b.max_samples then v.items ++ (s ∷ []) else drop 1 v.items ++ (s ∷ [])

  stored :
      (b : SignalBuffer F) (v : View F) (s : SignalSample F)
      → Represents b v.items
      → Holds
          (store b s).max_samples
          (store b s).samples
          (store b s).start
          (store b s).count
          (fresh b v s)
  unfolding Represents
  stored b v s h = store-Represents b v.items s (unfold Represents in h)

  evicted-Shows :
      (b : SignalBuffer F) (v : View F) (s : SignalSample F) (t : ℤ)
      → Shows b max age v
      → Shows
          (evict_older_than date_parse
            (record (store b s) { latest = some t })
            (cutoff_for t b.max_age))
          max
          age
          (record {
            items = fresh_from date_parse (cutoff_for t age) (
                if ltb (length v.items) max
                then v.items ++ (s ∷ [])
                else drop 1 v.items ++ (s ∷ []));
            latest = some t;
          })
  unfolding evict_older_than
  evicted-Shows b v s t h = record {
    same_max = max-store b s ∙ h.same_max;
    same_age = age-store b s ∙ h.same_age;
    same_latest = refl;
    items =
        rw (← h.same_age, ← h.same_max)
          (unfold Represents in
            evict-Holds date_parse (store b s).max_samples (store b s).samples (store b s).start
              (store b s).count (fresh b v s) (cutoff_for t b.max_age) (stored b v s h.items));
  }

  -- `push` refines `push_view`: on a buffer that shows a list it throws the same error, or answers
  -- the same and leaves a buffer that shows the list that `push_view` leaves.
  pub push_refines :
      (b : SignalBuffer F) (v : View F) (s : SignalSample F)
      → Shows b max age v
      → Agree (push date_parse is_finite b s) (push_view v s)
  unfolding push push_view
  push_refines b v s h = elim (Option-cases (date_parse s.timestamp_utc)) [
    | inl bad ↦ rw (bad, push, push_view) refl
    | inr (t, good) ↦
        rw (good, push, push_view)
          (elim (Bool-cases (finite_or_null is_finite s.value)) [
            | inr odd ↦ rw odd refl
            | inl fine ↦ rw fine (elim (Bool-cases (is_late v.latest t)) [
              | inl late ↦ rw (late, ap (λ l. is_late l t) h.same_latest ∙ late) (refl, h)
              | inr now ↦
                  rw (now, ap (λ l. is_late l t) h.same_latest ∙ now)
                    (refl, evicted-Shows b v s t h)
            ])
          ])
  ]
