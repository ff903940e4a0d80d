-- ===== src/Buffer/Tests.antt =====
-- Concrete signal buffers. A time is the code of a text's first character.
use aethor_studio_v.Prelude.{
  ℕ, ℤ, pos, Bool, true, ltb, Option, none, some, List, [], ◌∷◌, ◌++◌, Text, codes, length, ◌≡◌,
  refl, ◌-ℤ◌, ok, arith,
}
use aethor_studio_v.Contracts.{SignalSample, Validity, whole}
use aethor_studio_v.Buffer.{
  SignalBuffer, millis, create, push, snapshot, snapshot_since, size, store, evict_older_than,
  evict, read_from,
}
use aethor_studio_v.Buffer.Refine.{Represents}
use aethor_studio_v.Buffer.Window.{Shows, Agree, push_view, push_refines}
use aethor_studio_v.Buffer.Client.{Call, call, pushed, calls, empty_view, calls_view}
use aethor_studio_v.Buffer.Bounds.{calls-snapshot, Recent}
use aethor_studio_v.Buffer.Newest.{push-newest}

abbrev clock : Text → Option ℤ
clock [] = none
clock (c ∷ l) = some (pos c)

abbrev is_small : ℕ → Bool
is_small n = ltb n 100

abbrev at : Text → ℕ → SignalSample ℕ
at t n = record { timestamp_utc = t; value = some n; validity = Validity.valid }

-- Room for two samples, at most five milliseconds apart.
abbrev small : SignalBuffer ℕ
small = record {
  max_samples = 2;
  max_age = millis (pos 5);
  samples = none ∷ none ∷ [];
  start = 0;
  count = 0;
  latest = none;
}

small_made : create ℕ (whole (pos 2)) (millis (pos 5)) ≡ ok small
unfolding create
small_made = refl

abbrev three : List (Call ℕ)
three = pushed (at (codes "a") 1) ∷ pushed (at (codes "b") 2) ∷ pushed (at (codes "c") 3) ∷ []

three_kept : snapshot (calls clock is_small small three) ≡ at (codes "b") 2 ∷ at (codes "c") 3 ∷ []
unfolding calls call push store evict_older_than evict snapshot read_from ◌-ℤ◌
three_kept = refl

-- The sample at `c` is too old at `i`, six milliseconds later.
aged_out :
    snapshot (calls clock is_small small (three ++ (pushed (at (codes "i") 4) ∷ [])))
    ≡ at (codes "i") 4 ∷ []
unfolding calls call push store evict_older_than evict snapshot read_from ◌-ℤ◌
aged_out = refl

since_c :
    snapshot_since clock (calls clock is_small small three) (codes "c") ≡ ok (at (codes "c") 3 ∷ [])
unfolding snapshot_since calls call push store evict_older_than evict snapshot read_from ◌-ℤ◌
since_c = refl

small-Shows : Shows small 2 (millis (pos 5)) empty_view
unfolding Represents
small-Shows = record {
  same_max = refl;
  same_age = refl;
  same_latest = refl;
  items = record { sized = refl; start_in = omega arith; count_in = omega arith; shows = refl };
}

push_refines_example :
    Agree clock is_small 2
      (millis (pos 5))
      (push clock is_small small (at (codes "a") 1))
      (push_view clock is_small 2 (millis (pos 5)) empty_view (at (codes "a") 1))
push_refines_example =
    push_refines clock is_small 2 (millis (pos 5)) small empty_view (at (codes "a") 1) small-Shows

calls-snapshot_example :
    let v = calls_view clock is_small 2 (millis (pos 5)) empty_view three in
    (snapshot (calls clock is_small small three) ≡ v.items)
    × (size (calls clock is_small small three) ≡ length v.items)
    × Recent clock is_small 2 (millis (pos 5)) v
calls-snapshot_example =
    calls-snapshot clock is_small (whole (pos 2)) (millis (pos 5)) small three small_made

abbrev later : SignalBuffer ℕ
later = record {
  max_samples = 2;
  max_age = millis (pos 5);
  samples = none ∷ some (at (codes "i") 4) ∷ [];
  start = 1;
  count = 1;
  latest = some (pos 105);
}

later_pushed :
    push clock is_small (calls clock is_small small three) (at (codes "i") 4) ≡ ok (later, true)
unfolding calls call push store evict_older_than evict ◌-ℤ◌
later_pushed = refl

push-newest_example :
    (front : List (SignalSample ℕ)) × (snapshot later ≡ front ++ (at (codes "i") 4 ∷ []))
push-newest_example =
    push-newest clock is_small (whole (pos 2)) (millis (pos 5)) small three (at (codes "i") 4) later
      small_made later_pushed
