-- ===== src/Numerals/RoundTrip.antt =====
-- The value of the digits of a number is the number; how many digits there are, and which.
use native.Mathlib.Nat.{pow-suc}
use aethor_studio_v.Prelude.{
  ℕ, zero, suc, ◌+◌, ◌/◌, ◌%◌, ◌^◌, ◌<◌, ◌≤◌, true, [], ◌∷◌, Text, length, all, ◌≡◌, refl, arith,
}
use aethor_studio_v.Numerals.{
  digit, digit_value, is_decimal_digit, emit, to_radix, value_from, value,
}

digit_value-digit : (d : ℕ) → d < 16 → digit_value (digit d) ≡ d
unfolding digit digit_value
digit_value-digit d h = ground arith

is_decimal_digit-digit : (d : ℕ) → d < 10 → is_decimal_digit (digit d) ≡ true
unfolding digit is_decimal_digit
is_decimal_digit-digit d h = ground arith

value_from-emit :
    (f n : ℕ) (acc : Text) → n < f → value_from 10 0 (emit 10 f n acc) ≡ value_from 10 n acc
unfolding emit value_from
value_from-emit zero n acc h = absurd (omega arith)
value_from-emit (suc f) n acc h = ground (
  arith,
  value_from-emit f (n / 10) (digit (n % 10) ∷ acc),
  digit_value-digit n,
  digit_value-digit (n % 10),
)

-- The value of the decimal text of a number is that number.
pub value-to_radix : (n : ℕ) → value 10 (to_radix 10 n) ≡ n
unfolding value to_radix value_from
value-to_radix n = value_from-emit (suc n) n [] (omega arith)

all-emit :
    (f n : ℕ) (acc : Text)
    → all is_decimal_digit acc ≡ true
    → all is_decimal_digit (emit 10 f n acc) ≡ true
unfolding emit
all-emit zero n acc h = h
all-emit (suc f) n acc h = ground (
  arith,
  all-emit f (n / 10) (digit (n % 10) ∷ acc),
  is_decimal_digit-digit n,
  is_decimal_digit-digit (n % 10),
)

-- The decimal text of a number consists of decimal digits.
pub all-to_radix : (n : ℕ) → all is_decimal_digit (to_radix 10 n) ≡ true
unfolding to_radix
all-to_radix n = all-emit (suc n) n [] refl

length-emit-le :
    (f n k : ℕ) (acc : Text) → n < 10 ^ suc k → length (emit 10 f n acc) ≤ suc k + length acc
unfolding emit
length-emit-le zero n k acc h = omega arith
length-emit-le (suc f) n zero acc h = ground arith
length-emit-le (suc f) n (suc k) acc h =
    ground (
      arith,
      length-emit-le f (n / 10) k (digit (n % 10) ∷ acc) (omega (arith, pow-suc 10 (suc k))),
    )

length-emit-pos : (f n : ℕ) (acc : Text) → length acc < length (emit 10 (suc f) n acc)
unfolding emit
length-emit-pos zero n acc = ground arith
length-emit-pos (suc f) n acc = ground (arith, length-emit-pos f (n / 10) (digit (n % 10) ∷ acc))

-- A number below 10 ^ (k + 1) has from one to k + 1 digits.
pub length-to_radix :
    (n k : ℕ) → n < 10 ^ suc k → (0 < length (to_radix 10 n)) × (length (to_radix 10 n) ≤ suc k)
unfolding to_radix
length-to_radix n k h = (length-emit-pos n n [], omega (arith, length-emit-le (suc n) n k [] h))
