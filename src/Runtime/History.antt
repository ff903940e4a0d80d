-- ===== src/Runtime/History.antt =====
-- The history of direct commands of useGatewayRuntimeStore.ts. `sort` with the difference of two
-- times is a stable insertion by time, where NaN makes two results equal. (Where NaN occurs, ECMAScript leaves the order to the engine.)
use aethor_studio_v.Prelude.{
  ℤ, ltb_ℤ, Bool, false, Option, some, List, [], ◌∷◌, Text, take_last, map, if◌then◌else◌, insert,
}
use aethor_studio_v.Contracts.{DirectCommandResult}

-- `Date.parse(left) - Date.parse(right) < 0`
abbrev pub is_earlier : Option ℤ → Option ℤ → Bool
is_earlier (some a) (some b) = ltb_ℤ a b
is_earlier _ _ = false

abbrev pub insert_all :
    List DirectCommandResult → List (Text × DirectCommandResult) → List (Text × DirectCommandResult)
insert_all [] m = m
insert_all (result ∷ results) m = insert_all results (insert result.request_id result m)

abbrev pub values : {A : Type 0} → List (Text × A) → List A
values m = map (λ e. e.1) m

module _ (date_parse : Text → Option ℤ) where
  -- Before the first result that is later.
  unfoldable pub place : DirectCommandResult → List DirectCommandResult → List DirectCommandResult
  place r [] = r ∷ []
  place r (s ∷ l) =
      let behind = s ∷ place r l in
      if is_earlier (date_parse s.timestamp_utc) (date_parse r.timestamp_utc)
      then behind
      else r ∷ s ∷ l

  unfoldable pub sort_by_time : List DirectCommandResult → List DirectCommandResult
  sort_by_time [] = []
  sort_by_time (r ∷ l) = place r (sort_by_time l)

  unfoldable pub merge_direct_command_history :
      List DirectCommandResult → List DirectCommandResult → List DirectCommandResult
  merge_direct_command_history current incoming =
      take_last 128 (sort_by_time (values (insert_all incoming (insert_all current []))))
