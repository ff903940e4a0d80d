-- ===== src/Buffer/Recent.antt =====
-- Order and age of the samples of a signal buffer, on the list that the ring stands for.
use aethor_studio_v.Prelude.{
  ◌≤◌, ℤ, pos, negsuc, ◌-ℤ◌, ltb_ℤ, leb_ℤ, true, false, Option, none, some, List, [], ◌∷◌, ◌++◌,
  Text, ◌≡◌, refl, ap, arith, Bool-cases, inl, inr, drop, length,
}
use aethor_studio_v.Contracts.{SignalSample}
use aethor_studio_v.Buffer.{MaxAge, millis, forever, cutoff_for, not_before, is_positive, is_late}
use aethor_studio_v.Buffer.Refine.{fresh_from}

leb_ℤ-refl : (a : ℤ) → leb_ℤ a a ≡ true
leb_ℤ-refl (pos n) = ground arith
leb_ℤ-refl (negsuc n) = ground arith

leb_ℤ-trans : (a b c : ℤ) → leb_ℤ a b ≡ true → leb_ℤ b c ≡ true → leb_ℤ a c ≡ true
leb_ℤ-trans a b c ab bc = ground arith

pub leb_ℤ-not_ltb : (a b : ℤ) → ltb_ℤ a b ≡ false → leb_ℤ b a ≡ true
leb_ℤ-not_ltb a b h = ground arith

-- Taking off a positive age gives an earlier time.
pub cutoff_for-not_before :
    (t : ℤ) (age : MaxAge) → is_positive age ≡ true → not_before (some t) (cutoff_for t age) ≡ true
unfolding ◌-ℤ◌
cutoff_for-not_before t forever h = refl
cutoff_for-not_before (pos t) (millis (pos n)) h = ground arith
cutoff_for-not_before (negsuc t) (millis (pos n)) h = ground arith
cutoff_for-not_before t (millis (negsuc n)) h = absurd (ground arith)

not_before_trans :
    (t u : ℤ) (lo : Option ℤ)
    → not_before (some t) lo ≡ true
    → leb_ℤ t u ≡ true
    → not_before (some u) lo ≡ true
not_before_trans t u none a b = refl
not_before_trans t u (some lo) a b = leb_ℤ-trans lo t u a b

module _ {F : Type 0} (date_parse : Text → Option ℤ) where
  -- The times of the samples never fall, from the cutoff on and up to the last time.
  abbrev pub Within : Option ℤ → List (SignalSample F) → ℤ → Type 0
  Within lo [] hi = Unit
  Within lo (s ∷ l) hi =
      (t : ℤ) × (date_parse s.timestamp_utc ≡ some t)
      × (not_before (some t) lo ≡ true)
      × (leb_ℤ t hi ≡ true)
      × Within (some t) l hi

  pub append-Within :
      (lo : Option ℤ) (l : List (SignalSample F)) (hi : ℤ) (s : SignalSample F) (t : ℤ)
      → Within lo l hi
      → date_parse s.timestamp_utc ≡ some t
      → leb_ℤ hi t ≡ true
      → not_before (some t) lo ≡ true
      → Within lo (l ++ (s ∷ [])) t
  append-Within lo [] hi s t w at later from = (t, at, from, leb_ℤ-refl t, tt)
  append-Within lo (x ∷ l) hi s t (u, at_x, from_x, to_x, rest) at later from = (
    u,
    at_x,
    from_x,
    leb_ℤ-trans u hi t to_x later,
    append-Within (some u) l hi s t rest at later (leb_ℤ-trans u hi t to_x later),
  )

  pub widen-Within :
      (lo : Option ℤ) (l : List (SignalSample F)) (hi : ℤ) → Within lo l hi → Within none l hi
  widen-Within lo [] hi w = tt
  widen-Within lo (x ∷ l) hi (u, at_x, from_x, to_x, rest) = (u, at_x, refl, to_x, rest)

  pub drop-Within :
      (l : List (SignalSample F)) (hi : ℤ) → Within none l hi → Within none (drop 1 l) hi
  drop-Within [] hi w = tt
  drop-Within (x ∷ l) hi (u, at_x, from_x, to_x, rest) = widen-Within (some u) l hi rest

  -- Eviction leaves only times from the cutoff on.
  pub fresh_from-Within :
      (cutoff : Option ℤ) (l : List (SignalSample F)) (hi : ℤ)
      → Within none l hi
      → Within cutoff (fresh_from date_parse cutoff l) hi
  unfolding fresh_from
  fresh_from-Within cutoff [] hi w = tt
  fresh_from-Within cutoff (x ∷ l) hi (u, at_x, from_x, to_x, rest) =
      rw at_x (elim (Bool-cases (not_before (some u) cutoff)) [
        | inl keep ↦ rw keep (u, at_x, keep, to_x, rest)
        | inr old ↦ rw old (fresh_from-Within cutoff l hi (widen-Within (some u) l hi rest))
      ])

  pub length-fresh_from :
      (cutoff : Option ℤ) (l : List (SignalSample F))
      → length (fresh_from date_parse cutoff l) ≤ length l
  unfolding fresh_from
  length-fresh_from cutoff [] = omega arith
  length-fresh_from cutoff (x ∷ l) =
      elim (Bool-cases (not_before (date_parse x.timestamp_utc) cutoff)) [
        | inl keep ↦ rw keep (omega arith)
        | inr old ↦ rw old (omega (arith, length-fresh_from cutoff l))
      ]

  -- A fresh sample at the end is never evicted.
  pub fresh_from-append :
      (cutoff : Option ℤ) (l : List (SignalSample F)) (s : SignalSample F)
      → not_before (date_parse s.timestamp_utc) cutoff ≡ true
      → (front : List (SignalSample F)) × (fresh_from date_parse cutoff (l ++ (s ∷ []))
          ≡ front ++ (s ∷ []))
  unfolding fresh_from
  fresh_from-append cutoff [] s new = ([], rw new refl)
  fresh_from-append cutoff (x ∷ l) s new =
      elim (Bool-cases (not_before (date_parse x.timestamp_utc) cutoff)) [
        | inl keep ↦ (x ∷ l, rw keep refl)
        | inr old ↦ let (front, e) = fresh_from-append cutoff l s new in (front, rw old e)
      ]

  -- `Within` up to the last accepted time, or no sample before there is one.
  abbrev pub UpTo : Option ℤ → List (SignalSample F) → Type 0
  UpTo none l = l ≡ []
  UpTo (some t) l = Within none l t

  abbrev pub NotOlder : MaxAge → Option ℤ → List (SignalSample F) → Type 0
  NotOlder age none l = l ≡ []
  NotOlder age (some t) l = Within (cutoff_for t age) l t

  pub NotOlder-UpTo :
      (age : MaxAge) (latest : Option ℤ) (l : List (SignalSample F))
      → NotOlder age latest l
      → UpTo latest l
  NotOlder-UpTo age none l h = h
  NotOlder-UpTo age (some t) l h = widen-Within (cutoff_for t age) l t h

  pub drop-UpTo :
      (latest : Option ℤ) (l : List (SignalSample F)) → UpTo latest l → UpTo latest (drop 1 l)
  drop-UpTo none l h = ap (drop 1) h
  drop-UpTo (some t) l h = drop-Within l t h

  -- A sample that is not late goes behind the others.
  pub append-UpTo :
      (l : List (SignalSample F)) (latest : Option ℤ) (s : SignalSample F) (t : ℤ)
      → UpTo latest l
      → date_parse s.timestamp_utc ≡ some t
      → is_late latest t ≡ false
      → Within none (l ++ (s ∷ [])) t
  append-UpTo l none s t nothing at now = rw nothing (t, at, refl, leb_ℤ-refl t, tt)
  append-UpTo l (some u) s t within at now =
      append-Within none l u s t within at (leb_ℤ-not_ltb t u now) refl
