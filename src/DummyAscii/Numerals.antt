-- ===== src/DummyAscii/Numerals.antt =====
-- The numbers that the formatter of Dummy commands prints.
use mathlib.Core.Path.{subst}
use aethor_studio_v.Prelude.{
  suc, true, false, not, Bool, Option, none, some, List, [], ◌∷◌, Text, length, if◌then◌else◌, All,
  all, any, join, Lacks, Result, err, ok, ◌>>◌, guard, guard-eq-ok, >>=-eq-ok, ◌≡◌, refl, sym, ap,
  ◌∙◌, arith, Bool-cases, inl, inr,
}
use aethor_studio_v.AethorAscii.Tokens.{all-append}
use aethor_studio_v.DummyAscii.Commands.{
  Decimals, DummyCommandError, not_finite, format_all, format_speed, format_finite_number,
  strip_zeros, is_bad_value,
}
use aethor_studio_v.DummyAscii.Visible.{is_visible, trim_visible, numeral-visible, numeral-Lacks}
use aethor_studio_v.DummyAscii.Decimal.{
  IsNumeral, IsEcmaScript, strip_zeros-IsNumeral, strip_zeros-positive,
}

pub ok-injective : (a b : Text) → ◌≡◌ {A = Result DummyCommandError Text} (ok a) (ok b) → a ≡ b
ok-injective a b h = cc

ok_list-injective :
    (a b : List Text) → ◌≡◌ {A = Result DummyCommandError (List Text)} (ok a) (ok b) → a ≡ b
ok_list-injective a b h = cc

err-ok :
    (e : DummyCommandError) (a : Text) → ◌≡◌ {A = Result DummyCommandError Text} (err e) (ok a) → ⊥
err-ok e a h = absurd cc

module _ {F : Type 0} (numbers : Decimals F) where
  -- `rounded`
  abbrev rounded : F → F
  rounded v = if numbers.lt (numbers.abs v) numbers.half_thousandth then numbers.nought else v

  -- A number that is printed is finite.
  printed_finite :
      (v : F) {t : Text}
      → format_finite_number numbers v ≡ ok t
      → (numbers.is_finite v ≡ true) × (strip_zeros (numbers.to_fixed 3 (rounded v)) ≡ t)
  unfolding format_finite_number
  printed_finite v {t} h = elim (Bool-cases (numbers.is_finite v)) [
    | inr infinite ↦ absurd (err-ok not_finite t (sym (ap answer infinite) ∙ h))
    | inl finite ↦ (
      finite,
      ok-injective (strip_zeros (numbers.to_fixed 3 (rounded v))) t (sym (ap answer finite) ∙ h),
    )
  ]
    where
      answer : Bool → Result DummyCommandError Text
      answer b = if b then ok (strip_zeros (numbers.to_fixed 3 (rounded v))) else err not_finite

  module _ (large : F) where
    -- The numbers that `toFixed` prints in decimal digits.
    abbrev pub IsSmall : F → Type 0
    IsSmall v = numbers.lt (numbers.abs v) large ≡ true

    -- A speed that is not printed as zero.
    abbrev pub IsSmallSpeed : Option F → Type 0
    IsSmallSpeed none = Unit
    IsSmallSpeed (some v) = IsSmall v × (numbers.lt (numbers.abs v) numbers.half_thousandth ≡ false)

  -- The text of a speed, if there is one, is read as a positive number.
  abbrev pub IsSpeed : List Text → Type 0
  IsSpeed [] = Unit
  IsSpeed (t ∷ []) = numbers.le (numbers.to_number t) numbers.nought ≡ false
  IsSpeed (t ∷ u ∷ ts) = ⊥

  module _ {large : F} where
    format_finite_number-IsNumeral :
        (v : F) {t : Text}
        → IsEcmaScript numbers large
        → IsSmall large v
        → format_finite_number numbers v ≡ ok t
        → IsNumeral numbers t
    format_finite_number-IsNumeral v ecma small h =
        let (finite, same) = printed_finite v h in
        subst (IsNumeral numbers) same
          (elim (Bool-cases (numbers.lt (numbers.abs v) numbers.half_thousandth)) [
            | inl tiny ↦ rw tiny (
                strip_zeros-IsNumeral numbers numbers.nought ecma ecma.nought_finite
                  ecma.nought_small)
            | inr not_tiny ↦ rw not_tiny (strip_zeros-IsNumeral numbers v ecma finite small)
          ])

    pub format_all-IsNumeral :
        (l : List F) {ts : List Text}
        → IsEcmaScript numbers large
        → All (IsSmall large) l
        → format_all numbers l ≡ ok ts
        → All (IsNumeral numbers) ts × (length ts ≡ length l)
    unfolding format_all
    format_all-IsNumeral [] {ts} ecma small h =
        subst (λ x. All (IsNumeral numbers) x × (length x ≡ 0)) (ok_list-injective [] ts h)
          (tt, refl)
    format_all-IsNumeral (v ∷ l) {ts} ecma (v_small, small) h =
        let (t, one, h1) = >>=-eq-ok (format_finite_number numbers v) _ h in
        let (rest, others, h2) = >>=-eq-ok (format_all numbers l) _ h1 in
        let (numerals, count) = format_all-IsNumeral l ecma small others in
        subst (λ x. All (IsNumeral numbers) x × (length x ≡ suc (length l)))
          (ok_list-injective (t ∷ rest) ts h2)
          ((format_finite_number-IsNumeral v ecma v_small one, numerals), ap suc count)

    positive_speed :
        (v : F) {t : Text}
        → IsEcmaScript numbers large
        → IsSmallSpeed large (some v)
        → numbers.le v numbers.nought ≡ false
        → format_finite_number numbers v ≡ ok t
        → numbers.le (numbers.to_number t) numbers.nought ≡ false
    positive_speed v ecma (small, not_tiny) positive h =
        let (finite, same) = printed_finite v h in
        subst (λ t. numbers.le (numbers.to_number t) numbers.nought ≡ false) same
          (rw not_tiny (strip_zeros-positive numbers v ecma finite small not_tiny positive))

    pub format_speed-IsNumeral :
        (speed : Option F) {ts : List Text}
        → IsEcmaScript numbers large
        → IsSmallSpeed large speed
        → format_speed numbers speed ≡ ok ts
        → All (IsNumeral numbers) ts × IsSpeed ts
    unfolding format_speed
    format_speed-IsNumeral none {ts} ecma small h =
        subst (λ x. All (IsNumeral numbers) x × IsSpeed x) (ok_list-injective [] ts h) (tt, tt)
    format_speed-IsNumeral (some v) {ts} ecma (small, not_tiny) h =
        let (t, both, h2) =
          >>=-eq-ok
            (guard (not (numbers.le v numbers.nought)) DummyCommandError.speed_not_positive
              >> format_finite_number numbers v)
            _ h in
        let (u, positive, one) =
          >>=-eq-ok (guard (not (numbers.le v numbers.nought)) DummyCommandError.speed_not_positive)
            _ both in
        subst (λ x. All (IsNumeral numbers) x × IsSpeed x) (ok_list-injective (t ∷ []) ts h2)
          (
            (format_finite_number-IsNumeral v ecma small one, tt),
            positive_speed v ecma (small, not_tiny) (ground (arith, guard-eq-ok _ _ positive)) one,
          )

  -- Lines of numerals.
  pub join-visible :
      (ts : List Text) → All (IsNumeral numbers) ts → all is_visible (join 44 ts) ≡ true
  unfolding join
  join-visible [] h = refl
  join-visible (t ∷ []) (here, h) = numeral-visible t here.units
  join-visible (t ∷ u ∷ ts) (here, h) =
      rw
        (
          all-append is_visible t (44 ∷ join 44 (u ∷ ts)),
          numeral-visible t here.units,
          join-visible (u ∷ ts) h,
        )
        refl

  pub numerals-Lacks : (ts : List Text) → All (IsNumeral numbers) ts → All (Lacks 44) ts
  numerals-Lacks [] h = tt
  numerals-Lacks (t ∷ ts) (here, h) = (numeral-Lacks t here.units, numerals-Lacks ts h)

  pub numerals-is_bad_value :
      (ts : List Text) → All (IsNumeral numbers) ts → any (is_bad_value numbers) ts ≡ false
  unfolding is_bad_value
  numerals-is_bad_value [] h = refl
  numerals-is_bad_value (t ∷ ts) (here, h) =
      rw (trim_visible t (numeral-visible t here.units), here.not_empty, here.finite)
        (numerals-is_bad_value ts h)
