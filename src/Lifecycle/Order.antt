-- ===== src/Lifecycle/Order.antt =====
-- The order of the calls: the newest one alone may bring its refresh into the store.
use mathlib.Core.Path.{subst}
use aethor_studio_v.Prelude.{
  ℕ, suc, ◌+◌, ◌<◌, ℤ, true, false, Option, none, some, List, [], ◌∷◌, Text, length, length-append,
  length-set, get_elem?, set, Result, err, ok, ◌≡◌, refl, sym, ◌∙◌, arith, Bool-cases, inl, inr,
}
use aethor_studio_v.Contracts.{CommandResult}
use aethor_studio_v.Runtime.{GatewayRuntimeState}
use aethor_studio_v.Lifecycle.{
  Stage, executing, refreshing, finished, Shared, SnapshotRefresh, AuditRefresh, quiet_outcome,
  begin_call, on_snapshot, on_audit, restore_snapshot, preserve_degraded_telemetry, on_result,
  on_transport_error, on_refresh, is_current_refresh,
}
use aethor_studio_v.Lifecycle.Calls.{
  System, Event, called, answered, refreshed, acted, start, go_on, answer, refresh, answer_at,
  refresh_at, step, steps,
}
use aethor_studio_v.Lifecycle.Numbers.{
  HasNumber, Numbered, Numbered-append, Numbered-set, Numbered-get_elem?,
}

module _ {Cap F : Type 0} where
  -- The calls are numbered from 1, and the newest number is the one that is current.
  pub record Ordered (w : System Cap F) : Type 0 where
    pub newest : w.shared.refresh_sequence ≡ length w.calls
    pub numbered : Numbered 1 w.calls

  go_on-Ordered :
      (w : System Cap F) (i : ℕ) (stage : Stage) (next : Shared Cap F × Stage)
      → get_elem? w.calls i ≡ some stage
      → next.0.refresh_sequence ≡ w.shared.refresh_sequence
      → ((k : ℕ) → HasNumber k stage → HasNumber k next.1)
      → Ordered w
      → Ordered (go_on w i next)
  go_on-Ordered w i stage (s, after) at same keep h = record {
    newest = same ∙ h.newest ∙ sym (length-set w.calls i after);
    numbered = Numbered-set 1 w.calls i stage after at keep h.numbered;
  }

module _ {Cap F : Type 0} (date_parse : Text → Option ℤ) where
  on_result-number :
      (s : Shared Cap F) (n : ℕ) (r : CommandResult)
      → ((on_result date_parse s n r).0.refresh_sequence ≡ s.refresh_sequence)
        × HasNumber n (on_result date_parse s n r).1
  unfolding on_result
  on_result-number s n r = elim (Bool-cases (is_current_refresh s n)) [
    | inl current ↦ rw current (refl, refl)
    | inr superseded ↦ rw superseded (refl, tt)
  ]

  on_snapshot-sequence :
      (s : Shared Cap F) (r : CommandResult) (targets : List F) (snapshot : SnapshotRefresh F)
      → (on_snapshot s r targets snapshot).0.refresh_sequence ≡ s.refresh_sequence
  unfolding on_snapshot restore_snapshot
  on_snapshot-sequence s r targets (err reason) = refl
  on_snapshot-sequence s r targets (ok (session, joint)) =
      elim (Bool-cases (preserve_degraded_telemetry s.runtime)) [
        | inl degraded ↦ rw degraded refl
        | inr live ↦ rw live refl
      ]

  on_audit-sequence :
      (s : Shared Cap F) (audit : AuditRefresh F)
      → (on_audit date_parse s audit).0.refresh_sequence ≡ s.refresh_sequence
  unfolding on_audit
  on_audit-sequence s (ok history) = refl
  on_audit-sequence s (err reason) = refl

  answer-number :
      (s : Shared Cap F) (stage : Stage) (result : Result (Option Text) CommandResult) (now : Text)
      → ((answer date_parse s stage result now).0.refresh_sequence ≡ s.refresh_sequence)
        × ((k : ℕ) → HasNumber k stage → HasNumber k (answer date_parse s stage result now).1)
  unfolding on_transport_error
  answer-number s (executing intent label n) (ok r) now = (
    (on_result-number s n r).0,
    λ k e. subst (λ m. HasNumber m (on_result date_parse s n r).1) e (on_result-number s n r).1,
  )
  answer-number s (executing intent label n) (err reason) now = (refl, λ k e. tt)
  answer-number s (refreshing r n) result now = (refl, λ k e. e)
  answer-number s (finished outcome) result now = (refl, λ k e. e)

  refresh-number :
      (s : Shared Cap F) (stage : Stage) (targets : List F) (snapshot : SnapshotRefresh F)
      (audit : AuditRefresh F)
      → ((refresh date_parse s stage targets snapshot audit).0.refresh_sequence
          ≡ s.refresh_sequence)
        × ((k : ℕ)
            → HasNumber k stage
            → HasNumber k (refresh date_parse s stage targets snapshot audit).1)
  unfolding on_refresh
  refresh-number s (executing intent label n) targets snapshot audit = (refl, λ k e. e)
  refresh-number s (finished outcome) targets snapshot audit = (refl, λ k e. e)
  refresh-number s (refreshing r n) targets snapshot audit =
      elim (Bool-cases (is_current_refresh s n)) [
        | inl current ↦ rw current (
          on_audit-sequence (on_snapshot s r targets snapshot).0 audit
              ∙ on_snapshot-sequence s r targets snapshot,
          λ k e. tt,
        )
        | inr superseded ↦ rw superseded (refl, λ k e. tt)
      ]

  answer_at-Ordered :
      (w : System Cap F) (i : ℕ) (at : Option Stage) (result : Result (Option Text) CommandResult)
      (now : Text)
      → get_elem? w.calls i ≡ at
      → Ordered w
      → Ordered (answer_at date_parse w i at result now)
  answer_at-Ordered w i none result now at h = h
  answer_at-Ordered w i (some stage) result now at h =
      let (same, keep) = answer-number w.shared stage result now in
      go_on-Ordered w i stage _ at same keep h

  refresh_at-Ordered :
      (w : System Cap F) (i : ℕ) (at : Option Stage) (targets : List F)
      (snapshot : SnapshotRefresh F) (audit : AuditRefresh F)
      → get_elem? w.calls i ≡ at
      → Ordered w
      → Ordered (refresh_at date_parse w i at targets snapshot audit)
  refresh_at-Ordered w i none targets snapshot audit at h = h
  refresh_at-Ordered w i (some stage) targets snapshot audit at h =
      let (same, keep) = refresh-number w.shared stage targets snapshot audit in
      go_on-Ordered w i stage _ at same keep h

  pub step-Ordered :
      (w : System Cap F) (e : Event Cap F) → Ordered w → Ordered (step date_parse w e)
  unfolding step begin_call
  step-Ordered w (called intent label) h = record {
    newest = omega (
      arith,
      h.newest,
      length-append w.calls (executing intent label (w.shared.refresh_sequence + 1) ∷ []),
    );
    numbered = Numbered-append 1 w.calls _ h.numbered (omega (arith, h.newest));
  }
  step-Ordered w (answered i result now) h =
      answer_at-Ordered w i (get_elem? w.calls i) result now refl h
  step-Ordered w (refreshed i targets snapshot audit) h =
      refresh_at-Ordered w i (get_elem? w.calls i) targets snapshot audit refl h
  step-Ordered w (acted a) h = record { newest = h.newest; numbered = h.numbered }

  pub steps-Ordered :
      (w : System Cap F) (l : List (Event Cap F)) → Ordered w → Ordered (steps date_parse w l)
  unfolding steps
  steps-Ordered w [] h = h
  steps-Ordered w (e ∷ l) h = steps-Ordered (step date_parse w e) l (step-Ordered w e h)

  -- A call that waits for its refresh while a later call has started, in any run: when its refresh
  -- settles, the store and what the calls share stay as they are, and the call returns its result
  -- as superseded.
  pub steps-superseded :
      (runtime : GatewayRuntimeState Cap F) (l : List (Event Cap F)) (i n : ℕ) (r : CommandResult)
      (targets : List F) (snapshot : SnapshotRefresh F) (audit : AuditRefresh F)
      → let w = steps date_parse (start runtime) l in
        get_elem? w.calls i ≡ some (refreshing r n)
        → suc i < length w.calls
        → step date_parse w (refreshed i targets snapshot audit)
          ≡ record w { calls = set w.calls i (finished (quiet_outcome r true)) }
  unfolding step on_refresh
  steps-superseded runtime l i n r targets snapshot audit at later =
      let w = steps date_parse (start runtime) l in
      let h : Ordered w =
        steps-Ordered (start runtime) l (record { newest = refl; numbered = tt }) in
      let number : n ≡ 1 + i = Numbered-get_elem? 1 w.calls i (refreshing r n) at h.numbered in
      let older : is_current_refresh w.shared n ≡ false = ground (arith, number, h.newest, later) in
      rw (at, older) refl
