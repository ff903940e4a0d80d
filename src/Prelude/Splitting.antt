-- ===== src/Prelude/Splitting.antt =====
-- `split`, `join` and `indexOf` with a one-character separator, and what they say of one another.
use Prim.Native.Nat.{ℕ, suc}
use mathlib.Core.Path.{◌≡◌, refl}
use mathlib.Core.Bool.{false, ◌||◌}
use mathlib.Core.Option.{Option, none, some}
use mathlib.Core.Option
use mathlib.Core.List.{List, [], ◌∷◌, ◌++◌, append-nil}
use native.Mathlib.Omega.{arith}
use aethor_studio_v.Prelude.Tests.{◌==◌, if◌then◌else◌}
use aethor_studio_v.Prelude.Lists.{length, All}
use aethor_studio_v.Prelude.Strings.{Text, has_unit}

abbrev pub cons_head : ℕ → List Text → List Text
cons_head c [] = (c ∷ []) ∷ []
cons_head c (p ∷ ps) = (c ∷ p) ∷ ps

unfoldable pub split : ℕ → Text → List Text
split sep [] = [] ∷ []
split sep (c ∷ s) = let rest = split sep s in if c == sep then [] ∷ rest else cons_head c rest

unfoldable pub join : ℕ → List Text → Text
join sep [] = []
join sep (p ∷ []) = p
join sep (p ∷ q ∷ ps) = p ++ (sep ∷ join sep (q ∷ ps))

-- The index of the first occurrence; `none` is -1.
unfoldable pub index_of : ℕ → Text → Option ℕ
index_of sep [] = none
index_of sep (c ∷ s) =
    let rest = Option.map suc (index_of sep s) in if c == sep then some 0 else rest

abbrev pub Lacks : ℕ → Text → Type 0
Lacks c s = has_unit c s ≡ false

pub has_unit-append : (c : ℕ) (s t : Text) → has_unit c (s ++ t) ≡ (has_unit c s || has_unit c t)
has_unit-append c [] t = refl
has_unit-append c (d ∷ s) t = ground (arith, has_unit-append c s t)

split-append :
    (sep : ℕ) (p s : Text) (q : Text) (qs : List Text)
    → Lacks sep p
    → split sep s ≡ q ∷ qs
    → split sep (p ++ s) ≡ (p ++ q) ∷ qs
unfolding split
split-append sep [] s q qs h e = e
split-append sep (c ∷ p) s q qs h e = ground (arith, split-append sep p s q qs)

pub split_of_Lacks : (sep : ℕ) (p : Text) → Lacks sep p → split sep p ≡ p ∷ []
unfolding split
split_of_Lacks sep [] h = refl
split_of_Lacks sep (c ∷ p) h = ground (arith, split_of_Lacks sep p)

split-sep : (sep : ℕ) (s : Text) → split sep (sep ∷ s) ≡ [] ∷ split sep s
unfolding split
split-sep sep s = ground arith

-- Splitting a join gives the parts back, if there is one and none holds the separator.
pub split-join :
    (sep : ℕ) (p : Text) (ps : List Text)
    → Lacks sep p
    → All (Lacks sep) ps
    → split sep (join sep (p ∷ ps)) ≡ p ∷ ps
unfolding join
split-join sep p [] h _ = split_of_Lacks sep p h
split-join sep p (q ∷ ps) h (hq, hs) = rw (
  split-append sep p (sep ∷ join sep (q ∷ ps)) [] (split sep (join sep (q ∷ ps))) h
      (split-sep sep (join sep (q ∷ ps))),
  append-nil,
  split-join sep q ps hq hs,
)

pub index_of-append :
    (sep : ℕ) (p s : Text) → Lacks sep p → index_of sep (p ++ (sep ∷ s)) ≡ some (length p)
unfolding index_of
index_of-append sep [] s h = ground arith
index_of-append sep (c ∷ p) s h = ground (arith, index_of-append sep p s)

pub index_of-Lacks : (sep : ℕ) (s : Text) → Lacks sep s → index_of sep s ≡ none
unfolding index_of
index_of-Lacks sep [] h = refl
index_of-Lacks sep (c ∷ s) h = ground (arith, index_of-Lacks sep s)
