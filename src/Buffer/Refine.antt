-- ===== src/Buffer/Refine.antt =====
-- The ring of a signal buffer stands for a list of samples, oldest first.
use mathlib.Core.Path.{ap₂}
use native.Mathlib.Nat.{mod-lt}
use aethor_studio_v.Prelude.{
  ℕ, zero, suc, ◌+◌, ◌%◌, ◌<◌, ◌≤◌, ℤ, false, Option, none, some, List, [], ◌∷◌, ◌++◌, Text, length,
  set, length-set, map-append, ltb, if◌then◌else◌, ◌≡◌, refl, ap, sym, ◌∙◌, arith, map, Bool-cases,
  inl, inr, drop,
}
use aethor_studio_v.Contracts.{SignalSample}
use aethor_studio_v.Buffer.{SignalBuffer, slot_at, store, evict, not_before}
use aethor_studio_v.Buffer.Rings.{
  tabulate, tabulate-ext, tabulate-snoc, slot_at-set_self, slot_at-set_ne, offsets-ne, offset-step,
  offset-lt, start-place, start-ne, round-place,
}

-- The `count` slots from `start` on, going round at `max`, hold the items `cs`.
pub record Holds {ℓ} {A : Type ℓ} (max : ℕ) (samples : List (Option A)) (start count : ℕ)
    (cs : List A) : Type ℓ where
  pub sized : length samples ≡ max
  pub start_in : start < max
  pub count_in : count ≤ max
  pub shows : tabulate (λ k. slot_at samples ((start + k) % max)) count ≡ map some cs

unfoldable pub Represents : {F : Type 0} → SignalBuffer F → List (SignalSample F) → Type 0
Represents b cs = Holds b.max_samples b.samples b.start b.count cs

module _ {ℓ} {A : Type ℓ} where
  length-tabulate :
      (f : ℕ → Option A) (n : ℕ) (cs : List A) → tabulate f n ≡ map some cs → length cs ≡ n
  length-tabulate f zero [] h = refl
  length-tabulate f zero (c ∷ cs) h = cc
  length-tabulate f (suc n) [] h = cc
  length-tabulate f (suc n) (c ∷ cs) h = ap suc (length-tabulate (λ k. f (suc k)) n cs (cc))

  pub length-Holds :
      (max : ℕ) (samples : List (Option A)) (start count : ℕ) (cs : List A)
      → Holds max samples start count cs
      → length cs ≡ count
  length-Holds max samples start count cs h =
      length-tabulate (λ k. slot_at samples ((start + k) % max)) count cs h.shows

  -- The oldest item stands at the start.
  first-Holds :
      (max : ℕ) (samples : List (Option A)) (start count : ℕ) (c : A) (cs : List A)
      → Holds max samples start (suc count) (c ∷ cs)
      → slot_at samples start ≡ some c
  first-Holds max samples start count c cs h =
      ap (slot_at samples) (sym (start-place max start h.start_in)) ∙ first
    where
      first : slot_at samples ((start + 0) % max) ≡ some c
      first = let e = h.shows in cc

  -- A write outside the slots behind the first, and a step of the start, leave the others.
  rest-Holds :
      (max : ℕ) (samples : List (Option A)) (start count : ℕ) (c : A) (cs : List A) (v : Option A)
      → Holds max samples start (suc count) (c ∷ cs)
      → tabulate (λ k. slot_at (set samples start v) (((start + 1) % max + k) % max)) count
        ≡ map some cs
  rest-Holds max samples start count c cs v h =
      tabulate-ext (λ k. slot_at (set samples start v) (((start + 1) % max + k) % max))
        (λ k. slot_at samples ((start + suc k) % max)) count
        (λ k lt.
          ap (slot_at (set samples start v)) (offset-step max start k)
          ∙ slot_at-set_ne samples start ((start + suc k) % max) v
              (start-ne max start k h.start_in (omega (arith, h.count_in))))
      ∙ (let e = h.shows in cc)

  -- Writing behind the last item of a ring that has room.
  append-Holds :
      (max : ℕ) (samples : List (Option A)) (start count : ℕ) (cs : List A) (v : A)
      → Holds max samples start count cs
      → count < max
      → Holds max (set samples ((start + count) % max) (some v)) start (count + 1) (cs ++ (v ∷ []))
  append-Holds max samples start count cs v h room = record {
    sized = length-set samples ((start + count) % max) (some v) ∙ h.sized;
    start_in = h.start_in;
    count_in = omega arith;
    shows =
        ap (tabulate after) {y = suc count} (omega arith)
        ∙ tabulate-snoc after count
        ∙ ap₂ (λ l x. l ++ (x ∷ []))
            (tabulate-ext after before count (λ k lt.
                slot_at-set_ne samples ((start + count) % max) ((start + k) % max) (some v)
                  (λ e. offsets-ne max start k count h.start_in lt room (sym e)))
              ∙ h.shows)
            (slot_at-set_self samples ((start + count) % max) (some v)
              (omega (arith, h.sized, offset-lt max start count h.start_in room)))
        ∙ sym (map-append some cs (v ∷ []));
  }
    where
      after : ℕ → Option A
      after k = slot_at (set samples ((start + count) % max) (some v)) ((start + k) % max)

      before : ℕ → Option A
      before k = slot_at samples ((start + k) % max)

  -- Writing over the oldest item of a full ring.
  replace-Holds :
      (max : ℕ) (samples : List (Option A)) (start count : ℕ) (c : A) (cs : List A) (v : A)
      → Holds max samples start (suc count) (c ∷ cs)
      → suc count ≡ max
      → Holds max (set samples start (some v)) ((start + 1) % max) (suc count) (cs ++ (v ∷ []))
  replace-Holds max samples start count c cs v h full = record {
    sized = length-set samples start (some v) ∙ h.sized;
    start_in = mod-lt (start + 1) {m = max} (omega (arith, h.start_in));
    count_in = h.count_in;
    shows =
        tabulate-snoc after count
        ∙ ap₂ (λ l x. l ++ (x ∷ [])) (rest-Holds max samples start count c cs (some v) h) last
        ∙ sym (map-append some cs (v ∷ []));
  }
    where
      after : ℕ → Option A
      after k = slot_at (set samples start (some v)) (((start + 1) % max + k) % max)

      last : after count ≡ some v
      last =
          ap (slot_at (set samples start (some v)))
            (offset-step max start count ∙ round-place max start (suc count) h.start_in full)
          ∙ slot_at-set_self samples start (some v) (omega (arith, h.sized, h.start_in))

module _ {ℓ} {A : Type ℓ} where
  replace_full :
      (max : ℕ) (samples : List (Option A)) (start count : ℕ) (cs : List A) (v : A)
      → Holds max samples start count cs
      → count ≡ max
      → Holds max (set samples start (some v)) ((start + 1) % max) count (drop 1 cs ++ (v ∷ []))
  replace_full max samples start zero cs v h full = absurd (omega (arith, h.start_in))
  replace_full max samples start (suc count) [] v h full =
      absurd (omega (arith, length-Holds max samples start (suc count) [] h))
  replace_full max samples start (suc count) (c ∷ cs) v h full =
      replace-Holds max samples start count c cs v h full

ltb-false : (a b : ℕ) → ltb a b ≡ false → b ≤ a
ltb-false a b h = ground arith

-- What is left when the oldest samples before a cutoff are taken off the front.
unfoldable pub fresh_from :
    {F : Type 0} → (Text → Option ℤ) → Option ℤ → List (SignalSample F) → List (SignalSample F)
fresh_from date_parse cutoff [] = []
fresh_from date_parse cutoff (s ∷ l) =
    let rest = fresh_from date_parse cutoff l in
    if not_before (date_parse s.timestamp_utc) cutoff then s ∷ l else rest

module _ {F : Type 0} (date_parse : Text → Option ℤ) where
  pub evict-Holds :
      (max : ℕ) (samples : List (Option (SignalSample F))) (start count : ℕ)
      (cs : List (SignalSample F)) (cutoff : Option ℤ)
      → Holds max samples start count cs
      → let (samples', start', count') = evict date_parse max samples start count cutoff in
        Holds max samples' start' count' (fresh_from date_parse cutoff cs)
  unfolding evict fresh_from
  evict-Holds max samples start zero [] cutoff h = h
  evict-Holds max samples start zero (c ∷ cs) cutoff h =
      absurd (omega (arith, length-Holds max samples start zero (c ∷ cs) h))
  evict-Holds max samples start (suc count) [] cutoff h =
      absurd (omega (arith, length-Holds max samples start (suc count) [] h))
  evict-Holds max samples start (suc count) (c ∷ cs) cutoff h =
      rw (first-Holds max samples start count c cs h, evict)
        (elim (Bool-cases (not_before (date_parse c.timestamp_utc) cutoff)) [
          | inl keep ↦ rw keep h
          | inr old ↦ rw old (
              evict-Holds max (set samples start none) ((start + 1) % max) count cs cutoff (record {
                sized = length-set samples start none ∙ h.sized;
                start_in = mod-lt (start + 1) {m = max} (omega (arith, h.start_in));
                count_in = omega (arith, h.count_in);
                shows = rest-Holds max samples start count c cs none h;
              }))
        ])

module _ {F : Type 0} where
  -- The write of `push`: with room it appends, on a full ring it drops the oldest sample first.
  pub store-Represents :
      (b : SignalBuffer F) (cs : List (SignalSample F)) (s : SignalSample F)
      → Represents b cs
      → Represents
          (store b s)
          (if ltb (length cs) b.max_samples then cs ++ (s ∷ []) else drop 1 cs ++ (s ∷ []))
  unfolding Represents store
  store-Represents b cs s h =
      rw (length-Holds b.max_samples b.samples b.start b.count cs h)
        (elim (Bool-cases (ltb b.count b.max_samples)) [
          | inl room ↦
              rw room (append-Holds b.max_samples b.samples b.start b.count cs s h (ground arith))
          | inr full ↦ rw full (
              replace_full b.max_samples b.samples b.start b.count cs s h
                (omega (arith, h.count_in, ltb-false b.count b.max_samples full)))
        ])
