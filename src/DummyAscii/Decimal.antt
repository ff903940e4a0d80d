-- ===== src/DummyAscii/Decimal.antt =====
-- What `toFixed` prints and `Number` reads for the Dummy commands, and the numerals between them.
use mathlib.Core.Path.{subst}
use aethor_studio_v.Prelude.{
  ℕ, ◌≤◌, Bool, true, false, [], ◌∷◌, ◌++◌, Text, is_empty, length, all, ◌≡◌, refl, sym, ap, ◌∙◌,
  arith,
}
use aethor_studio_v.Numerals.{is_decimal_digit}
use aethor_studio_v.AethorAscii.Tokens.{all-append}
use aethor_studio_v.DummyAscii.Commands.{Decimals, strip_zeros}
use aethor_studio_v.DummyAscii.Visible.{is_numeral_unit}
use aethor_studio_v.DummyAscii.Stripped.{
  minus, is_nonzero, kept, behind_point, strip_zeros-kept, kept-digits, kept-is_nonzero,
}

-- The digits on the two sides of the point.
pub record IsDecimal (whole fraction : Text) : Type 0 where
  pub whole_digits : all is_decimal_digit whole ≡ true
  pub fraction_digits : all is_decimal_digit fraction ≡ true
  pub not_empty : is_empty whole ≡ false
  pub short_whole : length whole ≤ 21
  pub short_fraction : length fraction ≤ 3

-- A sign, if the number is negative, at most 21 digits, a point and three digits.
pub record IsFixed (t : Text) : Type 0 where
  pub negative : Bool
  pub whole : Text
  pub tenths : ℕ
  pub hundredths : ℕ
  pub thousandths : ℕ
  pub decimal : IsDecimal whole (tenths ∷ hundredths ∷ thousandths ∷ [])
  pub printed : t ≡ (minus negative ++ whole) ++ (46 ∷ tenths ∷ hundredths ∷ thousandths ∷ [])

-- And no sign and a digit that is not zero.
pub record IsPositive (t : Text) : Type 0 where
  pub fixed : IsFixed t
  pub unsigned : fixed.negative ≡ false
  pub nonzero :
      is_nonzero (fixed.whole ++ (fixed.tenths ∷ fixed.hundredths ∷ fixed.thousandths ∷ [])) ≡ true

-- What `strip_zeros` makes of such a text.
abbrev pub stripped : {t : Text} → IsFixed t → Text
stripped f =
    (minus f.negative ++ f.whole) ++ behind_point (kept f.tenths f.hundredths f.thousandths)

pub strip_zeros-IsFixed :
    {t : Text} (f : IsFixed t)
    → (strip_zeros t ≡ stripped f) × IsDecimal f.whole (kept f.tenths f.hundredths f.thousandths)
strip_zeros-IsFixed f =
    let digits = f.decimal.fraction_digits in
    let (kept_digits, few) = kept-digits f.tenths f.hundredths f.thousandths digits in
    (
      ap strip_zeros f.printed
          ∙ strip_zeros-kept (minus f.negative ++ f.whole) f.tenths f.hundredths f.thousandths
              (ground (arith, digits)) (ground (arith, digits)),
      record {
        whole_digits = f.decimal.whole_digits;
        fraction_digits = kept_digits;
        not_empty = f.decimal.not_empty;
        short_whole = f.decimal.short_whole;
        short_fraction = few;
      },
    )

digits-units : (s : Text) → all is_decimal_digit s ≡ true → all is_numeral_unit s ≡ true
unfolding is_decimal_digit
digits-units [] h = refl
digits-units (c ∷ s) h = ground (arith, digits-units s)

minus-units : (negative : Bool) → all is_numeral_unit (minus negative) ≡ true
minus-units true = refl
minus-units false = refl

point-units :
    (s : Text) → all is_decimal_digit s ≡ true → all is_numeral_unit (behind_point s) ≡ true
point-units [] h = refl
point-units (c ∷ s) h = digits-units (c ∷ s) h

signed-is_empty :
    (negative : Bool) (whole s : Text)
    → is_empty whole ≡ false
    → is_empty ((minus negative ++ whole) ++ s) ≡ false
signed-is_empty true whole s h = refl
signed-is_empty false [] s h = absurd cc
signed-is_empty false (c ∷ whole) s h = refl

module _ {F : Type 0} (numbers : Decimals F) where
  -- A token that `Number` reads as a finite number.
  pub record IsNumeral (t : Text) : Type 0 where
    pub units : all is_numeral_unit t ≡ true
    pub not_empty : is_empty t ≡ false
    pub finite : numbers.is_finite (numbers.to_number t) ≡ true

  -- What ECMAScript says of the numbers below 10 ^ 21 in size, which is `large`: `toFixed(3)` prints
  -- such a number in decimal digits, and one that is not under 0.0005 with a digit that is not zero;
  -- `Number` reads decimal digits as a finite number, and as a positive one if it has no sign and
  -- some digit is not zero.
  pub record IsEcmaScript (large : F) : Type 0 where
    pub nought_finite : numbers.is_finite numbers.nought ≡ true
    pub nought_small : numbers.lt (numbers.abs numbers.nought) large ≡ true
    pub fixed :
        (v : F)
        → numbers.is_finite v ≡ true
        → numbers.lt (numbers.abs v) large ≡ true
        → IsFixed (numbers.to_fixed 3 v)
    pub fixed_positive :
        (v : F)
        → numbers.is_finite v ≡ true
        → numbers.lt (numbers.abs v) large ≡ true
        → numbers.lt (numbers.abs v) numbers.half_thousandth ≡ false
        → numbers.le v numbers.nought ≡ false
        → IsPositive (numbers.to_fixed 3 v)
    pub reads_finite :
        (negative : Bool) (whole fraction : Text)
        → IsDecimal whole fraction
        → numbers.is_finite (numbers.to_number ((minus negative ++ whole) ++ behind_point fraction))
          ≡ true
    pub reads_positive :
        (whole fraction : Text)
        → IsDecimal whole fraction
        → is_nonzero (whole ++ fraction) ≡ true
        → numbers.le (numbers.to_number (whole ++ behind_point fraction)) numbers.nought ≡ false

  module _ {large : F} where
    decimal-IsNumeral :
        (negative : Bool) (whole fraction : Text)
        → IsEcmaScript large
        → IsDecimal whole fraction
        → IsNumeral ((minus negative ++ whole) ++ behind_point fraction)
    decimal-IsNumeral negative whole fraction ecma decimal = record {
      units =
          all-append is_numeral_unit (minus negative ++ whole) (behind_point fraction)
          ∙ rw
              (
                all-append is_numeral_unit (minus negative) whole,
                minus-units negative,
                digits-units whole decimal.whole_digits,
                point-units fraction decimal.fraction_digits,
              )
              refl;
      not_empty = signed-is_empty negative whole (behind_point fraction) decimal.not_empty;
      finite = ecma.reads_finite negative whole fraction decimal;
    }

    -- The text of a number below `large` is a numeral without its last zeros.
    pub strip_zeros-IsNumeral :
        (v : F)
        → IsEcmaScript large
        → numbers.is_finite v ≡ true
        → numbers.lt (numbers.abs v) large ≡ true
        → IsNumeral (strip_zeros (numbers.to_fixed 3 v))
    strip_zeros-IsNumeral v ecma finite small =
        let f = ecma.fixed v finite small in
        let (same, decimal) = strip_zeros-IsFixed f in
        subst IsNumeral (sym same) (decimal-IsNumeral f.negative f.whole _ ecma decimal)

    -- The text of a speed is read as a positive number.
    pub strip_zeros-positive :
        (v : F)
        → IsEcmaScript large
        → numbers.is_finite v ≡ true
        → numbers.lt (numbers.abs v) large ≡ true
        → numbers.lt (numbers.abs v) numbers.half_thousandth ≡ false
        → numbers.le v numbers.nought ≡ false
        → numbers.le (numbers.to_number (strip_zeros (numbers.to_fixed 3 v))) numbers.nought ≡ false
    strip_zeros-positive v ecma finite small not_tiny positive =
        let p = ecma.fixed_positive v finite small not_tiny positive in
        let f = p.fixed in
        let (same, decimal) = strip_zeros-IsFixed f in
        let fraction = kept f.tenths f.hundredths f.thousandths in
        let unsigned : stripped f ≡ f.whole ++ behind_point fraction =
          ap (λ b. (minus b ++ f.whole) ++ behind_point fraction) p.unsigned in
        ap (λ t. numbers.le (numbers.to_number t) numbers.nought) (same ∙ unsigned)
        ∙ ecma.reads_positive f.whole fraction decimal
            (kept-is_nonzero f.whole f.tenths f.hundredths f.thousandths p.nonzero)
