-- ===== src/Prelude/Maps.antt =====
-- A `Map` or an object with text keys: the entries in the order of their first insertion.
use mathlib.Core.Path.{◌≡◌, refl}
use mathlib.Core.Bool.{true, false}
use mathlib.Core.Logic.{inl, inr}
use mathlib.Core.Option.{Option, none, some}
use mathlib.Core.List.{List, [], ◌∷◌}
use aethor_studio_v.Prelude.Tests.{if◌then◌else◌, Bool-cases}
use aethor_studio_v.Prelude.Strings.{Text, text_eq, text_eq_refl, eq_of_text_eq}

module _ {ℓ} {A : Type ℓ} where
  unfoldable pub lookup : Text → List (Text × A) → Option A
  lookup k [] = none
  lookup k ((j, v) ∷ m) = if text_eq j k then some v else lookup k m

  unfoldable pub insert : Text → A → List (Text × A) → List (Text × A)
  insert k v [] = (k, v) ∷ []
  insert k v ((j, w) ∷ m) = if text_eq j k then (j, v) ∷ m else (j, w) ∷ insert k v m

  unfoldable pub remove : Text → List (Text × A) → List (Text × A)
  remove k [] = []
  remove k ((j, w) ∷ m) = if text_eq j k then m else (j, w) ∷ remove k m

  pub lookup-insert_self :
      (k : Text) (v : A) (m : List (Text × A)) → lookup k (insert k v m) ≡ some v
  unfolding lookup insert
  lookup-insert_self k v [] = rw (text_eq_refl k)
  lookup-insert_self k v ((j, w) ∷ m) = elim (Bool-cases (text_eq j k)) [
    | inl same ↦ rw (same, same) refl
    | inr other ↦ rw other (rw other (lookup-insert_self k v m))
  ]

  pub lookup-insert_ne :
      (k i : Text) (v : A) (m : List (Text × A))
      → text_eq k i ≡ false
      → lookup i (insert k v m) ≡ lookup i m
  unfolding lookup insert
  lookup-insert_ne k i v [] h = rw h refl
  lookup-insert_ne k i v ((j, w) ∷ m) h = elim (Bool-cases (text_eq j k)) [
    | inl same ↦ rw same (apart same)
    | inr other ↦ rw other (elim (Bool-cases (text_eq j i)) [
      | inl here ↦ rw here refl
      | inr past ↦ rw past (lookup-insert_ne k i v m h)
    ])
  ]
    where
      apart :
          text_eq j k ≡ true
          → (if text_eq j i then some v else lookup i m)
            ≡ (if text_eq j i then some w else lookup i m)
      apart same = rw (eq_of_text_eq j k same, h) refl
