-- ===== src/Lifecycle/Calls.antt =====
-- Several calls of `runGatewayCommandLifecycle` for one gateway, in any interleaving with each other
-- and with actions of the store. Calls are numbered in the order in which they start.
use aethor_studio_v.Prelude.{
  ℕ, ℤ, Option, none, some, List, [], ◌∷◌, ◌++◌, Text, get_elem?, set, Result, err, ok,
}
use aethor_studio_v.Contracts.{CommandResult}
use aethor_studio_v.Runtime.{GatewayRuntimeState}
use aethor_studio_v.Runtime.Actions.{Action, apply}
use aethor_studio_v.Lifecycle.{
  GatewayCommandIntent, Stage, executing, refreshing, finished, Shared, SnapshotRefresh,
  AuditRefresh, begin_call, on_result, on_transport_error, on_refresh,
}

pub record System (Cap F : Type 0) : Type 0 where
  pub shared : Shared Cap F
  pub calls : List Stage

-- `answered` is the answer of `execute`, with the time at which it comes.
pub data Event (Cap F : Type 0) : Type 0 where
  called : GatewayCommandIntent → Text → Event Cap F
  answered : ℕ → Result (Option Text) CommandResult → Text → Event Cap F
  refreshed : ℕ → List F → SnapshotRefresh F → AuditRefresh F → Event Cap F
  acted : Action Cap F → Event Cap F

module _ {Cap F : Type 0} where
  abbrev pub start : GatewayRuntimeState Cap F → System Cap F
  start runtime = record {
    shared = record { runtime = runtime; refresh_sequence = 0; store_calls = [] };
    calls = [];
  }

  -- The call at an index goes on to what a handler gives.
  abbrev pub go_on : System Cap F → ℕ → Shared Cap F × Stage → System Cap F
  go_on w i (s, stage) = record { shared = s; calls = set w.calls i stage }

module _ {Cap F : Type 0} (date_parse : Text → Option ℤ) where
  abbrev pub answer :
      Shared Cap F → Stage → Result (Option Text) CommandResult → Text → Shared Cap F × Stage
  answer s (executing intent label n) (ok result) now = on_result date_parse s n result
  answer s (executing intent label n) (err reason) now =
      on_transport_error date_parse s intent label n reason now
  answer s (refreshing result n) _ now = (s, refreshing result n)
  answer s (finished outcome) _ now = (s, finished outcome)

  abbrev pub refresh :
      Shared Cap F → Stage → List F → SnapshotRefresh F → AuditRefresh F → Shared Cap F × Stage
  refresh s (refreshing result n) targets snapshot audit =
      on_refresh date_parse s result n targets snapshot audit
  refresh s (executing intent label n) targets snapshot audit = (s, executing intent label n)
  refresh s (finished outcome) targets snapshot audit = (s, finished outcome)

  abbrev pub answer_at :
      System Cap F → ℕ → Option Stage → Result (Option Text) CommandResult → Text → System Cap F
  answer_at w i none result now = w
  answer_at w i (some stage) result now = go_on w i (answer w.shared stage result now)

  abbrev pub refresh_at :
      System Cap F → ℕ → Option Stage → List F → SnapshotRefresh F → AuditRefresh F → System Cap F
  refresh_at w i none targets snapshot audit = w
  refresh_at w i (some stage) targets snapshot audit =
      go_on w i (refresh w.shared stage targets snapshot audit)

  unfoldable pub step : System Cap F → Event Cap F → System Cap F
  step w (called intent label) =
      let begun = begin_call w.shared intent label in
      record { shared = begun.0; calls = w.calls ++ (begun.1 ∷ []) }
  step w (answered i result now) = answer_at w i (get_elem? w.calls i) result now
  step w (refreshed i targets snapshot audit) =
      refresh_at w i (get_elem? w.calls i) targets snapshot audit
  step w (acted a) = record w {
    shared = record w.shared { runtime = apply date_parse w.shared.runtime a };
  }

  unfoldable pub steps : System Cap F → List (Event Cap F) → System Cap F
  steps w [] = w
  steps w (e ∷ l) = steps (step w e) l
