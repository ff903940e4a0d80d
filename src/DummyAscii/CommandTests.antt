-- ===== src/DummyAscii/CommandTests.antt =====
-- Dummy commands and responses on concrete texts, with 0 and 1 as the only numbers.
use aethor_studio_v.Prelude.{
  Bool, true, false, not, ◌&&◌, [], ◌∷◌, codes, text_eq, trim, trim_start, is_space, if◌then◌else◌,
  ◌≡◌, refl,
}
use aethor_studio_v.Numerals.{is_decimal_digit, value}
use aethor_studio_v.DummyAscii.{dummy_ascii_max_line_chars}
use aethor_studio_v.DummyAscii.Commands.{
  Decimals, mode, high, valid, validate_dummy_raw_command, is_allowed_mode, exact_commands,
  mode_match, spaced_digits, is_printable_text,
}
use aethor_studio_v.DummyAscii.Responses.{
  joint_positions, parse_dummy_response_line, split_spaces, mode_ack_match, mode_ack, parse_mode,
  parse_positions, span, name_match,
}
use aethor_studio_v.DummyAscii.Allowed.{IsSound, validate_dummy_raw_command-IsSound}
use aethor_studio_v.DummyAscii.Meaning.{IsParsed}
use aethor_studio_v.DummyAscii.Parsed.{parse_dummy_response_line-IsParsed}

abbrev bits : Decimals Bool
bits = record {
  is_finite = λ b. true;
  le = λ a b. not a;
  lt = λ a b. not a && b;
  abs = λ b. b;
  to_fixed = λ n b. if b then codes "1.000" else codes "0.000";
  to_number = λ t. text_eq t (codes "1");
  nought = false;
  half_thousandth = true;
}

validate_dummy_raw_command-IsSound_example :
    IsSound bits (codes " #CMDMODE  2") (validate_dummy_raw_command bits (codes " #CMDMODE  2"))
validate_dummy_raw_command-IsSound_example =
    validate_dummy_raw_command-IsSound bits (codes " #CMDMODE  2")

mode_two :
    validate_dummy_raw_command bits (codes " #CMDMODE  2") ≡ valid mode high (codes "#CMDMODE 2")
unfolding validate_dummy_raw_command exact_commands mode_match spaced_digits is_printable_text
    is_allowed_mode trim trim_start is_space value is_decimal_digit dummy_ascii_max_line_chars
mode_two = refl

acknowledged :
    parse_dummy_response_line bits (codes "ok Set command mode to [2] (INT_POINT)\r")
    ≡ mode_ack (codes "ok Set command mode to [2] (INT_POINT)") 2 (codes "INT_POINT")
unfolding parse_dummy_response_line mode_ack_match parse_mode span name_match trim trim_start
    is_space value is_decimal_digit is_allowed_mode
acknowledged = refl

positions :
    parse_dummy_response_line bits (codes "ok 1 0  1 0 1 0")
    ≡ joint_positions (codes "ok 1 0  1 0 1 0") (true ∷ false ∷ true ∷ false ∷ true ∷ false ∷ [])
unfolding parse_dummy_response_line mode_ack_match split_spaces parse_positions span trim trim_start
    is_space is_decimal_digit
positions = refl

parse_dummy_response_line-IsParsed_example :
    IsParsed bits
      (trim (codes "ok 1 0  1 0 1 0"))
      (parse_dummy_response_line bits (codes "ok 1 0  1 0 1 0"))
parse_dummy_response_line-IsParsed_example =
    parse_dummy_response_line-IsParsed bits (codes "ok 1 0  1 0 1 0")
