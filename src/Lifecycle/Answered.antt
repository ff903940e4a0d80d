-- ===== src/Lifecycle/Answered.antt =====
-- A call whose command has been answered, until its refresh settles.
use mathlib.Core.Path.{subst}
use aethor_studio_v.Prelude.{
  ℕ, zero, suc, ◌+◌, ◌<◌, ◌≤◌, ◌==◌, ℤ, Bool, true, false, not, Option, none, some, List, [], ◌∷◌,
  ◌++◌, Text, length, length-append, length-set, get_elem?, set, all, Result, ok, ◌≡◌, refl, sym,
  ◌∙◌, arith, Bool-cases, inl, inr,
}
use aethor_studio_v.Contracts.{CommandResult}
use aethor_studio_v.Lifecycle.{
  GatewayCommandIntent, Stage, executing, refreshing, finished, Shared, SnapshotRefresh,
  AuditRefresh, quiet_outcome, begin_call, on_result, is_current_refresh,
}
use aethor_studio_v.Lifecycle.Calls.{
  System, Event, called, answered, refreshed, acted, go_on, answer_at, refresh_at, step, steps,
}
use aethor_studio_v.Lifecycle.Numbers.{Numbered-get_elem?}
use aethor_studio_v.Lifecycle.Order.{Ordered}

get_elem?-append :
    (l : List Stage) (more : List Stage) (i : ℕ) (stage : Stage)
    → get_elem? l i ≡ some stage
    → get_elem? (l ++ more) i ≡ some stage
get_elem?-append [] more i stage at = absurd cc
get_elem?-append (x ∷ l) more zero stage at = at
get_elem?-append (x ∷ l) more (suc i) stage at = get_elem?-append l more i stage at

get_elem?-set_other :
    (l : List Stage) (i j : ℕ) (after : Stage)
    → (i == j) ≡ false
    → get_elem? (set l j after) i ≡ get_elem? l i
get_elem?-set_other [] i j after other = refl
get_elem?-set_other (x ∷ l) zero zero after other = absurd cc
get_elem?-set_other (x ∷ l) (suc i) zero after other = refl
get_elem?-set_other (x ∷ l) zero (suc j) after other = refl
get_elem?-set_other (x ∷ l) (suc i) (suc j) after other =
    get_elem?-set_other l i j after (ground (arith, other))

pub get_elem?-set_same :
    (l : List Stage) (i : ℕ) (stage after : Stage)
    → get_elem? l i ≡ some stage
    → get_elem? (set l i after) i ≡ some after
get_elem?-set_same [] i stage after at = absurd cc
get_elem?-set_same (x ∷ l) zero stage after at = refl
get_elem?-set_same (x ∷ l) (suc i) stage after at = get_elem?-set_same l i stage after at

pub get_elem?-length :
    (l : List Stage) (i : ℕ) (stage : Stage) → get_elem? l i ≡ some stage → i < length l
get_elem?-length [] i stage at = absurd cc
get_elem?-length (x ∷ l) zero stage at = omega arith
get_elem?-length (x ∷ l) (suc i) stage at = omega (arith, get_elem?-length l i stage at)

-- The event is not the refresh of call `i`.
abbrev pub leaves_refresh : {Cap F : Type 0} → ℕ → Event Cap F → Bool
leaves_refresh i (refreshed j targets snapshot audit) = not (i == j)
leaves_refresh i _ = true

module _ {Cap F : Type 0} (date_parse : Text → Option ℤ) (r : CommandResult) (i : ℕ) where
  -- The command has been answered by `r`, and call `i` waits for its refresh or, since a later call
  -- had started by then, has returned.
  pub data IsAnswered (w : System Cap F) : Stage → Type 0 where
    waiting : IsAnswered w (refreshing r (suc i))
    superseded : suc i < length w.calls → IsAnswered w (finished (quiet_outcome r true))

  pub record HasAnswer (w : System Cap F) : Type 0 where
    pub stage : Stage
    pub at : get_elem? w.calls i ≡ some stage
    pub is_answered : IsAnswered w stage

  IsAnswered-later :
      (w v : System Cap F) {stage : Stage}
      → length w.calls ≤ length v.calls
      → IsAnswered w stage
      → IsAnswered v stage
  IsAnswered-later w v more waiting = waiting
  IsAnswered-later w v more (superseded later) = superseded (omega (arith, later, more))

  go_on-HasAnswer :
      (w : System Cap F) (j : ℕ) (next : Shared Cap F × Stage)
      → (i == j) ≡ false
      → HasAnswer w
      → HasAnswer (go_on w j next)
  go_on-HasAnswer w j (s, after) other h = record {
    stage = h.stage;
    at = get_elem?-set_other w.calls i j after other ∙ h.at;
    is_answered =
        IsAnswered-later w (go_on w j (s, after)) (omega (arith, length-set w.calls j after))
          h.is_answered;
  }

  answer_at-HasAnswer :
      (w : System Cap F) (j : ℕ) (at : Option Stage) (result : Result (Option Text) CommandResult)
      (now : Text)
      → (i == j) ≡ false
      → HasAnswer w
      → HasAnswer (answer_at date_parse w j at result now)
  answer_at-HasAnswer w j none result now other h = h
  answer_at-HasAnswer w j (some stage) result now other h = go_on-HasAnswer w j _ other h

  refresh_at-HasAnswer :
      (w : System Cap F) (j : ℕ) (at : Option Stage) (targets : List F)
      (snapshot : SnapshotRefresh F) (audit : AuditRefresh F)
      → (i == j) ≡ false
      → HasAnswer w
      → HasAnswer (refresh_at date_parse w j at targets snapshot audit)
  refresh_at-HasAnswer w j none targets snapshot audit other h = h
  refresh_at-HasAnswer w j (some stage) targets snapshot audit other h =
      go_on-HasAnswer w j _ other h

  -- A second answer changes nothing.
  answered_again :
      (w : System Cap F) {stage : Stage} (result : Result (Option Text) CommandResult) (now : Text)
      → get_elem? w.calls i ≡ some stage
      → IsAnswered w stage
      → HasAnswer (answer_at date_parse w i (some stage) result now)
  answered_again w result now at waiting = record {
    stage = refreshing r (suc i);
    at = get_elem?-set_same w.calls i (refreshing r (suc i)) (refreshing r (suc i)) at;
    is_answered = waiting;
  }
  answered_again w result now at (superseded later) =
      let stage = finished (quiet_outcome r true) in
      record {
        stage = stage;
        at = get_elem?-set_same w.calls i stage stage at;
        is_answered = superseded (omega (arith, later, length-set w.calls i stage));
      }

  step-HasAnswer :
      (w : System Cap F) (e : Event Cap F)
      → leaves_refresh i e ≡ true
      → HasAnswer w
      → HasAnswer (step date_parse w e)
  unfolding step begin_call
  step-HasAnswer w (called intent label) other h =
      let new = executing intent label (w.shared.refresh_sequence + 1) ∷ [] in
      record {
        stage = h.stage;
        at = get_elem?-append w.calls new i h.stage h.at;
        is_answered =
            IsAnswered-later w (step date_parse w (called intent label))
              (omega (arith, length-append w.calls new)) h.is_answered;
      }
  step-HasAnswer w (answered j result now) other h = elim (Bool-cases (i == j)) [
    | inr different ↦ answer_at-HasAnswer w j (get_elem? w.calls j) result now different h
    | inl same ↦
        let it : i ≡ j = ground (arith, same) in
        subst (λ k. HasAnswer (answer_at date_parse w k (get_elem? w.calls k) result now)) it
          (subst (λ o. HasAnswer (answer_at date_parse w i o result now)) (sym h.at)
            (answered_again w result now h.at h.is_answered))
  ]
  step-HasAnswer w (refreshed j targets snapshot audit) other h =
      refresh_at-HasAnswer w j (get_elem? w.calls j) targets snapshot audit (ground (arith, other))
        h
  step-HasAnswer w (acted a) other h = record {
    stage = h.stage;
    at = h.at;
    is_answered = IsAnswered-later w (step date_parse w (acted a)) (omega arith) h.is_answered;
  }

  pub steps-HasAnswer :
      (w : System Cap F) (l : List (Event Cap F))
      → all (leaves_refresh i) l ≡ true
      → HasAnswer w
      → HasAnswer (steps date_parse w l)
  unfolding steps
  steps-HasAnswer w [] other h = h
  steps-HasAnswer w (e ∷ l) other h =
      steps-HasAnswer (step date_parse w e) l (ground (arith, other))
        (step-HasAnswer w e (ground (arith, other)) h)

  -- The answer of the command.
  pub answered-HasAnswer :
      (w : System Cap F) (intent : GatewayCommandIntent) (label now : Text) (n : ℕ)
      → get_elem? w.calls i ≡ some (executing intent label n)
      → Ordered w
      → HasAnswer (step date_parse w (answered i (ok r) now))
  unfolding step on_result
  answered-HasAnswer w intent label now n at h =
      let counted : n ≡ 1 + i =
        Numbered-get_elem? 1 w.calls i (executing intent label n) at h.numbered in
      let number : n ≡ suc i = omega (arith, counted) in
      let bound = get_elem?-length w.calls i (executing intent label n) at in
      elim (Bool-cases (is_current_refresh w.shared n)) [
        | inl current ↦
            rw (at, current)
              (record {
                stage = refreshing r n;
                at = get_elem?-set_same w.calls i _ (refreshing r n) at;
                is_answered = rw number waiting;
              })
        | inr late ↦
            let stage = finished (quiet_outcome r true) in
            rw (at, late)
              (record {
                stage = stage;
                at = get_elem?-set_same w.calls i _ stage at;
                is_answered =
                    superseded
                      (ground (arith, late, number, bound, h.newest, length-set w.calls i stage));
              })
      ]
