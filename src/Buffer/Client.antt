-- ===== src/Buffer/Client.antt =====
-- A client's use of a signal buffer: any calls of `push` and `clear` after the constructor.
use mathlib.Core.Path.{subst}
use aethor_studio_v.Prelude.{
  ℕ, zero, suc, ◌<◌, ℤ, pos, negsuc, Bool, true, false, Option, none, List, [], ◌∷◌, Text, length,
  replicate, ltb, ◌≡◌, refl, ap, sym, ◌∙◌, arith, Bool-cases, inl, inr, Result, ok, err,
}
use aethor_studio_v.Contracts.{SignalSample, Number, whole, other}
use aethor_studio_v.Buffer.{
  SignalBuffer, BufferError, MaxAge, create, push, clear, is_positive, max_samples_not_positive,
  max_age_not_positive, invalid_array_length,
}
use aethor_studio_v.Buffer.Refine.{Represents}
use aethor_studio_v.Buffer.Window.{View, Shows, push_view, push_refines, Agree}

pub data Call (F : Type 0) : Type 0 where
  pushed : SignalSample F → Call F
  cleared : Call F

abbrev pub empty_view : {F : Type 0} → View F
empty_view = record { items = []; latest = none }

length-replicate : {A : Type 0} (n : ℕ) (x : A) → length (replicate n x) ≡ n
length-replicate zero x = refl
length-replicate (suc n) x = ap suc (length-replicate n x)

-- What a call leaves: a call that throws changes nothing.
abbrev pub left_by : {A : Type 0} → A → Result BufferError (A × Bool) → A
left_by a (err e) = a
left_by a (ok (a', answer)) = a'

module _ {F : Type 0} (date_parse : Text → Option ℤ) (is_finite : F → Bool) where
  unfoldable pub call : SignalBuffer F → Call F → SignalBuffer F
  call b (pushed s) = left_by b (push date_parse is_finite b s)
  call b cleared = clear b

  unfoldable pub calls : SignalBuffer F → List (Call F) → SignalBuffer F
  calls b [] = b
  calls b (c ∷ l) = calls (call b c) l

  module _ (max : ℕ) (age : MaxAge) where
    unfoldable pub call_view : View F → Call F → View F
    call_view v (pushed s) = left_by v (push_view date_parse is_finite max age v s)
    call_view v cleared = empty_view

    unfoldable pub calls_view : View F → List (Call F) → View F
    calls_view v [] = v
    calls_view v (c ∷ l) = calls_view (call_view v c) l

    left_by-Shows :
        (b : SignalBuffer F) (v : View F) (r : Result BufferError (SignalBuffer F × Bool))
        (r' : Result BufferError (View F × Bool))
        → Shows b max age v
        → Agree date_parse is_finite max age r r'
        → Shows (left_by b r) max age (left_by v r')
    left_by-Shows b v (err e) (err e') h agree = h
    left_by-Shows b v (ok (b', answer)) (ok (v', answer')) h (same, shows) = shows
    left_by-Shows b v (err e) (ok (v', answer')) h agree = absurd agree
    left_by-Shows b v (ok (b', answer)) (err e') h agree = absurd agree

    clear-Shows :
        (b : SignalBuffer F) (v : View F)
        → 0 < max
        → Shows b max age v
        → Shows (clear b) max age empty_view
    unfolding clear Represents
    clear-Shows b v positive h = record {
      same_max = h.same_max;
      same_age = h.same_age;
      same_latest = refl;
      items = record {
        sized = length-replicate b.max_samples none;
        start_in = omega (arith, h.same_max);
        count_in = omega arith;
        shows = refl;
      };
    }

    call-Shows :
        (b : SignalBuffer F) (v : View F) (c : Call F)
        → 0 < max
        → Shows b max age v
        → Shows (call b c) max age (call_view v c)
    unfolding call call_view
    call-Shows b v (pushed s) positive h =
        left_by-Shows b v (push date_parse is_finite b s)
          (push_view date_parse is_finite max age v s) h
          (push_refines date_parse is_finite max age b v s h)
    call-Shows b v cleared positive h = clear-Shows b v positive h

    pub calls-Shows :
        (b : SignalBuffer F) (v : View F) (l : List (Call F))
        → 0 < max
        → Shows b max age v
        → Shows (calls b l) max age (calls_view v l)
    unfolding calls calls_view
    calls-Shows b v [] positive h = h
    calls-Shows b v (c ∷ l) positive h =
        calls-Shows (call b c) (call_view v c) l positive (call-Shows b v c positive h)

  abbrev pub Fresh : SignalBuffer F → Type 0
  Fresh b =
      Shows b b.max_samples b.max_age empty_view
      × (0 < b.max_samples)
      × (is_positive b.max_age ≡ true)

  pub created-Shows :
      (max : Number) (age : MaxAge) (b : SignalBuffer F) → create F max age ≡ ok b → Fresh b
  unfolding create Represents
  created-Shows (whole (pos n)) age b made = elim (Bool-cases (ltb n 1)) [
    | inl small ↦ absurd (let e = sym (refused small) ∙ made in cc)
    | inr large ↦ elim (Bool-cases (is_positive age)) [
      | inr odd ↦ absurd (let e = sym (refused_age large odd) ∙ made in cc)
      | inl aged ↦ elim (Bool-cases (ltb 4294967295 n)) [
        | inl huge ↦ absurd (let e = sym (refused_length large aged huge) ∙ made in cc)
        | inr fits ↦ subst Fresh (same large aged fits) (shown large, ground arith, aged)
      ]
    ]
  ]
    where
      new : SignalBuffer F
      new = record {
        max_samples = n;
        max_age = age;
        samples = replicate n none;
        start = 0;
        count = 0;
        latest = none;
      }

      refused : ltb n 1 ≡ true → create F (whole (pos n)) age ≡ err max_samples_not_positive
      refused small = rw small refl

      refused_age :
          ltb n 1 ≡ false
          → is_positive age ≡ false
          → create F (whole (pos n)) age ≡ err max_age_not_positive
      refused_age large odd = rw (large, odd) refl

      refused_length :
          ltb n 1 ≡ false
          → is_positive age ≡ true
          → ltb 4294967295 n ≡ true
          → create F (whole (pos n)) age ≡ err invalid_array_length
      refused_length large aged huge = rw (large, aged, huge) refl

      built :
          ltb n 1 ≡ false
          → is_positive age ≡ true
          → ltb 4294967295 n ≡ false
          → create F (whole (pos n)) age ≡ ok new
      built large aged fits = rw (large, aged, fits) refl

      same : ltb n 1 ≡ false → is_positive age ≡ true → ltb 4294967295 n ≡ false → new ≡ b
      same large aged fits = let e = sym (built large aged fits) ∙ made in cc

      shown : ltb n 1 ≡ false → Shows new n age empty_view
      shown large = record {
        same_max = refl;
        same_age = refl;
        same_latest = refl;
        items = record {
          sized = length-replicate n none;
          start_in = ground arith;
          count_in = omega arith;
          shows = refl;
        };
      }
  created-Shows (whole (negsuc n)) age b made = cc
  created-Shows other age b made = cc
