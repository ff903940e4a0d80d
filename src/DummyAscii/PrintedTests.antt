-- ===== src/DummyAscii/PrintedTests.antt =====
-- A Dummy command that is printed, with 0 and 1 as the only numbers below 2.
use aethor_studio_v.Prelude.{
  ℕ, Bool, true, false, ◌&&◌, some, [], ◌∷◌, ◌++◌, Text, codes, all, any, ltb, leb, ◌==◌,
  if◌then◌else◌, join, ok, ◌≡◌, refl, arith, Bool-cases, inl, inr,
}
use aethor_studio_v.Numerals.{is_decimal_digit}
use aethor_studio_v.DummyAscii.Commands.{
  Decimals, joint_group, high, valid, joints, format_dummy_command, validate_dummy_raw_command,
  format_all, format_speed, format_finite_number, strip_zeros, dummy_ascii_motion_queue_bytes,
}
use aethor_studio_v.DummyAscii.Stripped.{is_nonzero, behind_point}
use aethor_studio_v.DummyAscii.Decimal.{IsFixed, IsPositive, IsEcmaScript}
use aethor_studio_v.DummyAscii.Printed.{validate-format_dummy_command}

abbrev is_one_to_nine : ℕ → Bool
is_one_to_nine c = leb 49 c && leb c 57

abbrev small_numbers : Decimals ℕ
small_numbers = record {
  is_finite = λ v. true;
  le = leb;
  lt = ltb;
  abs = λ v. v;
  to_fixed = λ n v. if v == 0 then codes "0.000" else codes "1.000";
  to_number = λ t. if any is_one_to_nine t then 1 else 0;
  nought = 0;
  half_thousandth = 1;
}

nought-IsFixed : IsFixed (codes "0.000")
unfolding is_decimal_digit
nought-IsFixed = record {
  negative = false;
  whole = codes "0";
  tenths = 48;
  hundredths = 48;
  thousandths = 48;
  decimal = record {
    whole_digits = refl;
    fraction_digits = refl;
    not_empty = refl;
    short_whole = omega arith;
    short_fraction = omega arith;
  };
  printed = refl;
}

one-IsPositive : IsPositive (codes "1.000")
unfolding is_decimal_digit
one-IsPositive = record {
  fixed = record {
    negative = false;
    whole = codes "1";
    tenths = 48;
    hundredths = 48;
    thousandths = 48;
    decimal = record {
      whole_digits = refl;
      fraction_digits = refl;
      not_empty = refl;
      short_whole = omega arith;
      short_fraction = omega arith;
    };
    printed = refl;
  };
  unsigned = refl;
  nonzero = refl;
}

-- A digit that is not zero is found by `to_number`.
any-is_one_to_nine :
    (digits : Text)
    → all is_decimal_digit digits ≡ true
    → is_nonzero digits ≡ true
    → any is_one_to_nine digits ≡ true
unfolding is_decimal_digit
any-is_one_to_nine [] digits h = absurd cc
any-is_one_to_nine (c ∷ s) digits h = elim (Bool-cases (c == 48)) [
  | inl zero_digit ↦ ground (arith, any-is_one_to_nine s)
  | inr other ↦ ground arith
]

nonzero_number :
    (whole fraction : Text)
    → all is_decimal_digit whole ≡ true
    → all is_decimal_digit fraction ≡ true
    → is_nonzero (whole ++ fraction) ≡ true
    → any is_one_to_nine (whole ++ behind_point fraction) ≡ true
unfolding is_decimal_digit
nonzero_number [] [] whole_digits fraction_digits h = absurd cc
nonzero_number [] (c ∷ s) whole_digits fraction_digits h =
    any-is_one_to_nine (c ∷ s) fraction_digits h
nonzero_number (c ∷ s) fraction whole_digits fraction_digits h = elim (Bool-cases (c == 48)) [
  | inl zero_digit ↦ ground (arith, nonzero_number s fraction)
  | inr other ↦ ground arith
]

small_numbers-IsEcmaScript : IsEcmaScript small_numbers 2
small_numbers-IsEcmaScript = record {
  nought_finite = refl;
  nought_small = refl;
  fixed = λ v finite small. elim (Bool-cases (v == 0)) [
    | inl zero_value ↦ rw zero_value nought-IsFixed
    | inr one ↦ rw one one-IsPositive.fixed
  ];
  fixed_positive = λ v finite small not_tiny positive. elim (Bool-cases (v == 0)) [
    | inl zero_value ↦ absurd (ground arith)
    | inr one ↦ rw one one-IsPositive
  ];
  reads_finite = λ negative whole fraction decimal. refl;
  reads_positive = λ whole fraction decimal nonzero.
      rw (nonzero_number whole fraction decimal.whole_digits decimal.fraction_digits nonzero) refl;
}

abbrev group : Text
group = codes ">0,1,0,1,0,1,1"

formatted :
    format_dummy_command small_numbers (joint_group (0 ∷ 1 ∷ 0 ∷ 1 ∷ 0 ∷ 1 ∷ []) (some 1))
    ≡ ok group
unfolding format_dummy_command format_all format_speed format_finite_number strip_zeros join
    dummy_ascii_motion_queue_bytes
formatted = refl

validate-format_dummy_command_example :
    validate_dummy_raw_command small_numbers group ≡ valid joints high group
validate-format_dummy_command_example =
    validate-format_dummy_command small_numbers (joint_group (0 ∷ 1 ∷ 0 ∷ 1 ∷ 0 ∷ 1 ∷ []) (some 1))
      small_numbers-IsEcmaScript ((refl, (refl, (refl, (refl, (refl, (refl, tt)))))), (refl, refl))
      formatted
