-- ===== src/Safety/Newest.antt =====
-- The safety latch and the results behind it: which alarm is newer than every completed stop.
use aethor_studio_v.Prelude.{
  ℤ, ltb_ℤ, leb_ℤ, Bool, true, false, ◌&&◌, ◌||◌, Option, none, some, List, [], ◌∷◌, Text, ◌≡◌,
  refl, sym, ◌∙◌, arith, Bool-cases, inl, inr, ◌⊎◌, ◌↔◌,
}
use aethor_studio_v.Contracts.{CommandResult, CommandAuditRecord}
use aethor_studio_v.Safety.{is_completed_stop, is_latched, reconcile_command_safety_state}
use aethor_studio_v.Safety.Times.{
  later, later_by, after, is_dated, time, empty, latest, is_alarm, results_of, Dated,
}
use aethor_studio_v.Safety.Outcome.{reconcile-latest}

-- No known time of `s` is at or after `t`, and a time of `s` is at or after `t`.
abbrev pub before : ℤ → Option ℤ → Bool
before t none = true
before t (some s) = ltb_ℤ s t

abbrev reaches : ℤ → Option ℤ → Bool
reaches t none = false
reaches t (some s) = leb_ℤ t s

before-later_by : (t : ℤ) (s x : Option ℤ) → before t (later_by s x) ≡ (before t s && before t x)
before-later_by t none none = refl
before-later_by t (some s) none = ground arith
before-later_by t none (some x) = refl
before-later_by t (some s) (some x) = ground arith

reaches-later_by :
    (t : ℤ) (s x : Option ℤ) → reaches t (later_by s x) ≡ (reaches t s || reaches t x)
reaches-later_by t none none = refl
reaches-later_by t (some s) none = ground arith
reaches-later_by t none (some x) = refl
reaches-later_by t (some s) (some x) = ground arith

later_by-either : (s x : Option ℤ) (t : ℤ) → later_by s x ≡ some t → (s ≡ some t) ⊎ (x ≡ some t)
later_by-either s none t h = inl h
later_by-either none (some x) t h = inr h
later_by-either (some s) (some x) t h = elim (Bool-cases (ltb_ℤ x s)) [
  | inl old ↦ inl (rw old at h)
  | inr new ↦ inr (rw new at h)
]

reached : (b : Bool) (t : ℤ) → (b || leb_ℤ t t) ≡ true
reached b t = ground arith

after-dated :
    (s u : Option ℤ) → is_dated (after s u) ≡ true → (t : ℤ) × (u ≡ some t) × (before t s ≡ true)
after-dated s none h = absurd (let e = h in cc)
after-dated none (some u) h = (u, refl, refl)
after-dated (some s) (some u) h = (u, refl, ground arith)

dated-after :
    (s u : Option ℤ) (t : ℤ) → before t s ≡ true → reaches t u ≡ true → is_dated (after s u) ≡ true
dated-after s none t b r = cc
dated-after none (some u) t b r = refl
dated-after (some s) (some u) t b r = ground arith

module _ (date_parse : Text → Option ℤ) where
  -- One of the results is picked and has the time `t`.
  abbrev pub Picked : (CommandResult → Bool) → List CommandResult → ℤ → Type 0
  Picked picks [] t = ⊥
  Picked picks (r ∷ l) t = ((picks r ≡ true) × (time date_parse r ≡ some t)) ⊎ Picked picks l t

  -- Every picked result is from before `t`.
  abbrev pub AllBefore : (CommandResult → Bool) → List CommandResult → ℤ → Type 0
  AllBefore picks [] t = Unit
  AllBefore picks (r ∷ l) t =
      ((picks r ≡ false) ⊎ (before t (time date_parse r) ≡ true)) × AllBefore picks l t

  latest-Picked :
      (picks : CommandResult → Bool) (s : Option ℤ) (l : List CommandResult) (t : ℤ)
      → latest date_parse picks s l ≡ some t
      → (s ≡ some t) ⊎ Picked picks l t
  unfolding latest
  latest-Picked picks s [] t h = inl h
  latest-Picked picks s (r ∷ l) t h = elim (Bool-cases (picks r)) [
    | inl is ↦ elim (latest-Picked picks (later_by s (time date_parse r)) l t (rw is at h)) [
      | inr later ↦ inr (inr later)
      | inl here ↦ elim (later_by-either s (time date_parse r) t here) [
        | inl old ↦ inl old
        | inr new ↦ inr (inl (is, new))
      ]
    ]
    | inr not_so ↦ elim (latest-Picked picks s l t (rw not_so at h)) [
      | inl old ↦ inl old
      | inr later ↦ inr (inr later)
    ]
  ]

  before-latest :
      (picks : CommandResult → Bool) (s : Option ℤ) (l : List CommandResult) (t : ℤ)
      → before t s ≡ true
      → AllBefore picks l t
      → before t (latest date_parse picks s l) ≡ true
  unfolding latest
  before-latest picks s [] t h all = h
  before-latest picks s (r ∷ l) t h (first, all) = elim (Bool-cases (picks r)) [
    | inl is ↦ rw is (
        before-latest picks (later_by s (time date_parse r)) l t
          (rw (before-later_by t s (time date_parse r), h) (earlier is first)) all)
    | inr not_so ↦ rw not_so (before-latest picks s l t h all)
  ]
    where
      earlier :
          picks r ≡ true
          → (picks r ≡ false) ⊎ (before t (time date_parse r) ≡ true)
          → before t (time date_parse r) ≡ true
      earlier is (inl is_not) = absurd (let e = sym is ∙ is_not in cc)
      earlier is (inr now) = now

  latest-AllBefore :
      (picks : CommandResult → Bool) (s : Option ℤ) (l : List CommandResult) (t : ℤ)
      → before t (latest date_parse picks s l) ≡ true
      → (before t s ≡ true) × AllBefore picks l t
  unfolding latest
  latest-AllBefore picks s [] t h = (h, tt)
  latest-AllBefore picks s (r ∷ l) t h = elim (Bool-cases (picks r)) [
    | inl is ↦
        let (first, all) =
          latest-AllBefore picks (later_by s (time date_parse r)) l t (rw is at h) in
        let both = sym (before-later_by t s (time date_parse r)) ∙ first in
        (
          and-left (before t s) (before t (time date_parse r)) both,
          (inr (and-right (before t s) (before t (time date_parse r)) both), all),
        )
    | inr not_so ↦
        let (first, all) = latest-AllBefore picks s l t (rw not_so at h) in
        (first, (inl not_so, all))
  ]
    where
      and-left : (a b : Bool) → (a && b) ≡ true → a ≡ true
      and-left a b h = ground arith

      and-right : (a b : Bool) → (a && b) ≡ true → b ≡ true
      and-right a b h = ground arith

  reaches-latest :
      (picks : CommandResult → Bool) (s : Option ℤ) (l : List CommandResult) (t : ℤ)
      → (reaches t s ≡ true) ⊎ Picked picks l t
      → reaches t (latest date_parse picks s l) ≡ true
  unfolding latest
  reaches-latest picks s [] t (inl h) = h
  reaches-latest picks s [] t (inr h) = absurd h
  reaches-latest picks s (r ∷ l) t (inl h) = elim (Bool-cases (picks r)) [
    | inl is ↦ rw is (
        reaches-latest picks (later_by s (time date_parse r)) l t
          (inl (rw (reaches-later_by t s (time date_parse r), h) refl)))
    | inr not_so ↦ rw not_so (reaches-latest picks s l t (inl h))
  ]
  reaches-latest picks s (r ∷ l) t (inr (inl (is, at))) = rw is (
      reaches-latest picks (later_by s (time date_parse r)) l t
        (inl (rw (reaches-later_by t s (time date_parse r), at) (reached (reaches t s) t))))
  reaches-latest picks s (r ∷ l) t (inr (inr h)) = elim (Bool-cases (picks r)) [
    | inl is ↦ rw is (reaches-latest picks (later_by s (time date_parse r)) l t (inr h))
    | inr not_so ↦ rw not_so (reaches-latest picks s l t (inr h))
  ]

  -- The latch after a reconciliation from the empty state, where every result has a valid
  -- timestamp: it is set exactly if the session has an uncertain result at a time before which
  -- all its completed stops are.
  pub latched_iff :
      {F : Type 0} (history : List (CommandAuditRecord F)) (session_id : Text)
      → Dated date_parse history
      → let own = results_of session_id history in
        (is_latched
            (reconcile_command_safety_state date_parse history session_id empty).latched_result
          ≡ true)
        ↔ ((t : ℤ) × Picked is_alarm own t × AllBefore is_completed_stop own t)
  latched_iff history session_id dated = (
    (λ set.
        let (u, at, earlier) = after-dated stop alarm (sym same ∙ set) in
        (u, found u at, (latest-AllBefore is_completed_stop none own u earlier).1)),
    λ (t, picked, all).
        same
        ∙ dated-after stop alarm t (before-latest is_completed_stop none own t refl all)
            (reaches-latest is_alarm none own t (inr picked)),
  )
    where
      own : List CommandResult
      own = results_of session_id history

      stop : Option ℤ
      stop = latest date_parse is_completed_stop none own

      alarm : Option ℤ
      alarm = latest date_parse is_alarm none own

      same :
          is_latched
            (reconcile_command_safety_state date_parse history session_id empty).latched_result
          ≡ is_dated (after stop alarm)
      same = let (a, b, c) = reconcile-latest date_parse history session_id dated in c

      found : (u : ℤ) → alarm ≡ some u → Picked is_alarm own u
      found u at = elim (latest-Picked is_alarm none own u at) [
        | inl nothing ↦ absurd (let e = nothing in cc)
        | inr picked ↦ picked
      ]
