-- ===== src/Lifecycle/Returns.antt =====
-- What a call returns once its command has been answered, whatever happens until its refresh.
use mathlib.Core.Path.{subst}
use aethor_studio_v.Prelude.{
  ℕ, suc, ltb, ℤ, true, Option, none, some, List, Text, length, get_elem?, all, ok, ◌≡◌, refl, sym,
  arith, Bool-cases, inl, inr,
}
use aethor_studio_v.Contracts.{CommandResult}
use aethor_studio_v.Runtime.{GatewayRuntimeState}
use aethor_studio_v.Lifecycle.{
  GatewayCommandIntent, GatewayCommandLifecycleOutcome, Stage, executing, refreshing, finished,
  SnapshotRefresh, AuditRefresh, quiet_outcome, on_refresh, is_current_refresh,
}
use aethor_studio_v.Lifecycle.Calls.{
  System, Event, answered, refreshed, start, refresh_at, step, steps,
}
use aethor_studio_v.Lifecycle.Order.{Ordered, step-Ordered, steps-Ordered}
use aethor_studio_v.Lifecycle.Answered.{
  get_elem?-set_same, get_elem?-length, leaves_refresh, IsAnswered, waiting, superseded,
  steps-HasAnswer, answered-HasAnswer,
}

module _ {Cap F : Type 0} (r : CommandResult) (i : ℕ) where
  -- The outcome has the result of the command, and says whether a later call has started.
  pub record IsReturned (w : System Cap F) (stage : Option Stage) : Type 0 where
    pub outcome : GatewayCommandLifecycleOutcome
    pub has_returned : stage ≡ some (finished outcome)
    pub result : outcome.result ≡ r
    pub no_transport_error : outcome.transport_error ≡ none
    pub reconciliation_superseded : outcome.reconciliation_superseded ≡ ltb (suc i) (length w.calls)

module _ {Cap F : Type 0} (date_parse : Text → Option ℤ) (r : CommandResult) (i : ℕ) where
  refreshed-IsReturned :
      (w : System Cap F) {stage : Stage} (targets : List F) (snapshot : SnapshotRefresh F)
      (audit : AuditRefresh F)
      → get_elem? w.calls i ≡ some stage
      → IsAnswered date_parse r i w stage
      → Ordered w
      → IsReturned r i w
          (get_elem? (refresh_at date_parse w i (some stage) targets snapshot audit).calls i)
  unfolding on_refresh
  refreshed-IsReturned w targets snapshot audit at waiting h =
      let bound = get_elem?-length w.calls i (refreshing r (suc i)) at in
      elim (Bool-cases (is_current_refresh w.shared (suc i))) [
        | inl current ↦ rw current (record {
          outcome = _;
          has_returned = get_elem?-set_same w.calls i (refreshing r (suc i)) _ at;
          result = refl;
          no_transport_error = refl;
          reconciliation_superseded = ground (arith, current, h.newest);
        })
        | inr late ↦ rw late (record {
          outcome = quiet_outcome r true;
          has_returned = get_elem?-set_same w.calls i (refreshing r (suc i)) _ at;
          result = refl;
          no_transport_error = refl;
          reconciliation_superseded = ground (arith, late, bound, h.newest);
        })
      ]
  refreshed-IsReturned w targets snapshot audit at (superseded later) h = record {
    outcome = quiet_outcome r true;
    has_returned = get_elem?-set_same w.calls i _ (finished (quiet_outcome r true)) at;
    result = refl;
    no_transport_error = refl;
    reconciliation_superseded = ground (arith, later);
  }

module _ {Cap F : Type 0} (date_parse : Text → Option ℤ) where
  -- In any run, the command of a call that waits for it is answered with `r`; after any events
  -- other than its refresh the refresh settles. Then the call has returned `r` without a transport
  -- error, and its outcome is superseded exactly if a later call has started by then.
  pub steps-IsReturned :
      (runtime : GatewayRuntimeState Cap F) (l between : List (Event Cap F)) (i n : ℕ)
      (intent : GatewayCommandIntent) (label now : Text) (r : CommandResult) (targets : List F)
      (snapshot : SnapshotRefresh F) (audit : AuditRefresh F)
      → let w = steps date_parse (start runtime) l in
        let u = steps date_parse (step date_parse w (answered i (ok r) now)) between in
        get_elem? w.calls i ≡ some (executing intent label n)
        → all (leaves_refresh i) between ≡ true
        → IsReturned r i u
            (get_elem? (step date_parse u (refreshed i targets snapshot audit)).calls i)
  unfolding step
  steps-IsReturned runtime l between i n intent label now r targets snapshot audit at other =
      let w = steps date_parse (start runtime) l in
      let v = step date_parse w (answered i (ok r) now) in
      let u = steps date_parse v between in
      let before : Ordered w =
        steps-Ordered date_parse (start runtime) l (record { newest = refl; numbered = tt }) in
      let after : Ordered u =
        steps-Ordered date_parse v between
          (step-Ordered date_parse w (answered i (ok r) now) before) in
      let h =
        steps-HasAnswer date_parse r i v between other
          (answered-HasAnswer date_parse r i w intent label now n at before) in
      subst
        (λ o.
          IsReturned r i u (get_elem? (refresh_at date_parse u i o targets snapshot audit).calls i))
        (sym h.at)
        (refreshed-IsReturned date_parse r i u targets snapshot audit h.at h.is_answered after)
