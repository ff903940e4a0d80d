-- ===== src/DummyAscii/Printed.antt =====
-- The validator accepts what the formatter of Dummy commands prints.
use mathlib.Core.Path.{subst}
use aethor_studio_v.Prelude.{
  ℕ, zero, suc, ◌<◌, true, false, not, ◌&&◌, ◌||◌, Option, List, [], ◌∷◌, ◌++◌, Text, codes, length,
  length-append, ltb, leb, ◌==◌, All, All-append, trim, trim_start, is_space, has_unit, all, any,
  split, join, split-join, ok, ◌>>◌, guard, guard-eq-ok, >>=-eq-ok, ◌≡◌, refl, ◌∙◌, arith,
}
use aethor_studio_v.Numerals.{is_decimal_digit, value}
use aethor_studio_v.DummyAscii.{dummy_ascii_max_line_chars}
use aethor_studio_v.DummyAscii.Commands.{
  Decimals, DummyStructuredCommand, start, stop, disable, home, reset, query_joint_positions,
  query_mode, query_enable, set_mode, joint_group, DummyCommandError, DummyCommandKind, system,
  query, mode, joints, DummyCommandRisk, low, high, valid, format_dummy_command, format_all,
  format_speed, is_allowed_mode, mode_digit, exact_commands, mode_match, spaced_digits,
  is_printable_text, is_bad_value, has_bad_speed, validate_joint_group_line,
  validate_dummy_raw_command, dummy_ascii_motion_queue_bytes,
}
use aethor_studio_v.DummyAscii.Visible.{
  is_visible, trim_visible, visible-has_unit, visible-printable, numeral-Lacks,
}
use aethor_studio_v.DummyAscii.Decimal.{IsNumeral, IsEcmaScript}
use aethor_studio_v.DummyAscii.Numerals.{
  ok-injective, IsSmall, IsSmallSpeed, IsSpeed, format_all-IsNumeral, format_speed-IsNumeral,
  join-visible, numerals-Lacks, numerals-is_bad_value,
}

abbrev pub kind_of : {F : Type 0} → DummyStructuredCommand F → DummyCommandKind
kind_of query_joint_positions = query
kind_of query_mode = query
kind_of query_enable = query
kind_of (set_mode number) = mode
kind_of (joint_group positions speed) = joints
kind_of _ = system

abbrev pub risk_of : DummyCommandKind → DummyCommandRisk
risk_of query = low
risk_of _ = high

module _ {F : Type 0} (numbers : Decimals F) where
  joint_line_valid :
      (t : Text) (ts : List Text)
      → All (IsNumeral numbers) (t ∷ ts)
      → (length (t ∷ ts) == 6 || length (t ∷ ts) == 7) ≡ true
      → length (62 ∷ join 44 (t ∷ ts)) < 64
      → has_bad_speed numbers (t ∷ ts) ≡ false
      → validate_joint_group_line numbers (62 ∷ join 44 (t ∷ ts))
        ≡ valid joints high (62 ∷ join 44 (t ∷ ts))
  unfolding validate_joint_group_line dummy_ascii_motion_queue_bytes
  joint_line_valid t ts (here, h) count short speed =
      let values : split 44 (join 44 (t ∷ ts)) ≡ t ∷ ts =
        split-join 44 t ts (numeral-Lacks t here.units) (numerals-Lacks numbers ts h) in
      let counted : (not (length (t ∷ ts) == 6) && not (length (t ∷ ts) == 7)) ≡ false =
        ground (arith, count) in
      let finite : any (is_bad_value numbers) (t ∷ ts) ≡ false =
        numerals-is_bad_value numbers (t ∷ ts) (here, h) in
      let queued : leb 64 (length (62 ∷ join 44 (t ∷ ts))) ≡ false = ground (arith, short) in
      rw (values, counted, finite, speed, queued) refl

  -- A visible line that begins with `>` comes to the test of joint lines.
  validate_visible :
      (s : Text)
      → all is_visible (62 ∷ s) ≡ true
      → length (62 ∷ s) < 64
      → validate_dummy_raw_command numbers (62 ∷ s) ≡ validate_joint_group_line numbers (62 ∷ s)
  unfolding validate_dummy_raw_command dummy_ascii_max_line_chars is_printable_text exact_commands
      mode_match
  validate_visible s visible short =
      let carriage : has_unit 13 (62 ∷ s) ≡ false =
        visible-has_unit 13 (62 ∷ s) (omega arith) visible in
      let feed : has_unit 10 (62 ∷ s) ≡ false =
        visible-has_unit 10 (62 ∷ s) (omega arith) visible in
      let fits : ltb 255 (length (62 ∷ s)) ≡ false = ground (arith, short) in
      let printable : all (λ c. leb 0x20 c && leb c 0x7e) (62 ∷ s) ≡ true =
        visible-printable (62 ∷ s) visible in
      rw (trim_visible (62 ∷ s) visible, carriage, feed, fits, printable) refl

  -- A line of six or seven numerals with a positive speed is let through.
  validate_numerals :
      (ts : List Text)
      → All (IsNumeral numbers) ts
      → (length ts == 6 || length ts == 7) ≡ true
      → length (62 ∷ join 44 ts) < 64
      → has_bad_speed numbers ts ≡ false
      → validate_dummy_raw_command numbers (62 ∷ join 44 ts) ≡ valid joints high (62 ∷ join 44 ts)
  validate_numerals [] h count short speed = absurd cc
  validate_numerals (t ∷ ts) h count short speed =
      validate_visible (join 44 (t ∷ ts)) (join-visible numbers (t ∷ ts) h) short
      ∙ joint_line_valid t ts h count short speed

  mode_valid :
      (n : ℕ)
      → is_allowed_mode n ≡ true
      → validate_dummy_raw_command numbers (codes "#CMDMODE " ++ mode_digit n)
        ≡ valid mode high (codes "#CMDMODE " ++ mode_digit n)
  unfolding validate_dummy_raw_command exact_commands mode_match spaced_digits is_printable_text
      is_allowed_mode trim trim_start is_space value is_decimal_digit dummy_ascii_max_line_chars
  mode_valid zero h = absurd cc
  mode_valid (suc zero) h = refl
  mode_valid (suc (suc zero)) h = refl
  mode_valid (suc (suc (suc zero))) h = refl
  mode_valid (suc (suc (suc (suc n)))) h = absurd (ground arith)

  -- Six values and a speed are seven values, the last of which is the speed.
  positive-has_bad_speed :
      (values last : List Text)
      → length values ≡ 6
      → IsSpeed numbers last
      → has_bad_speed numbers (values ++ last) ≡ false
  positive-has_bad_speed (a ∷ b ∷ c ∷ d ∷ e ∷ f ∷ []) [] six positive = refl
  positive-has_bad_speed (a ∷ b ∷ c ∷ d ∷ e ∷ f ∷ []) (t ∷ []) six positive = positive
  positive-has_bad_speed (a ∷ b ∷ c ∷ d ∷ e ∷ f ∷ []) (t ∷ u ∷ ts) six positive = absurd positive
  positive-has_bad_speed [] last six positive = absurd (omega (arith, six))
  positive-has_bad_speed (a ∷ []) last six positive = absurd (omega (arith, six))
  positive-has_bad_speed (a ∷ b ∷ []) last six positive = absurd (omega (arith, six))
  positive-has_bad_speed (a ∷ b ∷ c ∷ []) last six positive = absurd (omega (arith, six))
  positive-has_bad_speed (a ∷ b ∷ c ∷ d ∷ []) last six positive = absurd (omega (arith, six))
  positive-has_bad_speed (a ∷ b ∷ c ∷ d ∷ e ∷ []) last six positive = absurd (omega (arith, six))
  positive-has_bad_speed (a ∷ b ∷ c ∷ d ∷ e ∷ f ∷ g ∷ l) last six positive =
      absurd (omega (arith, six))

  speed-length : (last : List Text) → IsSpeed numbers last → length last < 2
  speed-length [] h = omega arith
  speed-length (t ∷ []) h = omega arith
  speed-length (t ∷ u ∷ ts) h = absurd h

  -- The values of the command are below `large` in size, and its speed is not under 0.0005.
  abbrev pub IsSmallCommand : F → DummyStructuredCommand F → Type 0
  IsSmallCommand large (joint_group positions speed) =
      All (IsSmall numbers large) positions × IsSmallSpeed numbers large speed
  IsSmallCommand large _ = Unit

  abbrev IsAccepted : DummyStructuredCommand F → Text → Type 0
  IsAccepted command line =
      validate_dummy_raw_command numbers line
      ≡ valid (kind_of command) (risk_of (kind_of command)) line

  joint_group-IsAccepted :
      {large : F} (positions : List F) (speed : Option F) {line : Text}
      → IsEcmaScript numbers large
      → IsSmallCommand large (joint_group positions speed)
      → format_dummy_command numbers (joint_group positions speed) ≡ ok line
      → IsAccepted (joint_group positions speed) line
  unfolding format_dummy_command dummy_ascii_motion_queue_bytes
  joint_group-IsAccepted positions speed {line} ecma (small, small_speed) h =
      let (values, both, h1) =
        >>=-eq-ok
          (guard (length positions == 6) DummyCommandError.exactly_six_positions
            >> format_all numbers positions)
          _ h in
      let (u, six, all_formatted) =
        >>=-eq-ok (guard (length positions == 6) DummyCommandError.exactly_six_positions) _ both in
      let (last, speed_formatted, h2) = >>=-eq-ok (format_speed numbers speed) _ h1 in
      let (v, short, same) =
        >>=-eq-ok
          (guard (ltb (length (62 ∷ join 44 (values ++ last))) 64)
            DummyCommandError.motion_too_long)
          _ h2 in
      let (numerals, count) = format_all-IsNumeral numbers positions ecma small all_formatted in
      let (speed_numeral, positive) =
        format_speed-IsNumeral numbers speed ecma small_speed speed_formatted in
      subst (IsAccepted (joint_group positions speed))
        (ok-injective (62 ∷ join 44 (values ++ last)) line same)
        (validate_numerals (values ++ last)
          (All-append (IsNumeral numbers) values last numerals speed_numeral)
          (ground (
            arith,
            length-append values last,
            count,
            speed-length last positive,
            guard-eq-ok _ _ six,
          ))
          (ground (arith, guard-eq-ok _ _ short))
          (positive-has_bad_speed values last (ground (arith, count, guard-eq-ok _ _ six))
            positive))

  -- A command that is printed, its values below 10 ^ 21 in size and its speed, if it has one, not
  -- under 0.0005: the validator accepts the line as it is, with the kind of the command, and with a
  -- low risk for a query and a high one for the rest. `toFixed` and `Number` are relied on as in
  -- `IsEcmaScript`, where `large` is 10 ^ 21.
  pub validate-format_dummy_command :
      {large : F} (command : DummyStructuredCommand F) {line : Text}
      → IsEcmaScript numbers large
      → IsSmallCommand large command
      → format_dummy_command numbers command ≡ ok line
      → validate_dummy_raw_command numbers line
        ≡ valid (kind_of command) (risk_of (kind_of command)) line
  unfolding format_dummy_command validate_dummy_raw_command exact_commands mode_match spaced_digits
      is_printable_text trim trim_start is_space dummy_ascii_max_line_chars
  validate-format_dummy_command start {line} ecma small h =
      subst (λ s. validate_dummy_raw_command numbers s ≡ valid system high s)
        (ok-injective (codes "!START") line h) refl
  validate-format_dummy_command stop {line} ecma small h =
      subst (λ s. validate_dummy_raw_command numbers s ≡ valid system high s)
        (ok-injective (codes "!STOP") line h) refl
  validate-format_dummy_command disable {line} ecma small h =
      subst (λ s. validate_dummy_raw_command numbers s ≡ valid system high s)
        (ok-injective (codes "!DISABLE") line h) refl
  validate-format_dummy_command home {line} ecma small h =
      subst (λ s. validate_dummy_raw_command numbers s ≡ valid system high s)
        (ok-injective (codes "!HOME") line h) refl
  validate-format_dummy_command reset {line} ecma small h =
      subst (λ s. validate_dummy_raw_command numbers s ≡ valid system high s)
        (ok-injective (codes "!RESET") line h) refl
  validate-format_dummy_command query_joint_positions {line} ecma small h =
      subst (λ s. validate_dummy_raw_command numbers s ≡ valid query low s)
        (ok-injective (codes "#GETJPOS") line h) refl
  validate-format_dummy_command query_mode {line} ecma small h =
      subst (λ s. validate_dummy_raw_command numbers s ≡ valid query low s)
        (ok-injective (codes "#GETMODE") line h) refl
  validate-format_dummy_command query_enable {line} ecma small h =
      subst (λ s. validate_dummy_raw_command numbers s ≡ valid query low s)
        (ok-injective (codes "#GETENABLE") line h) refl
  validate-format_dummy_command (set_mode n) {line} ecma small h =
      let (u, allowed, same) =
        >>=-eq-ok (guard (is_allowed_mode n) DummyCommandError.mode_not_allowed) _ h in
      subst (λ s. validate_dummy_raw_command numbers s ≡ valid mode high s)
        (ok-injective (codes "#CMDMODE " ++ mode_digit n) line same)
        (mode_valid n (guard-eq-ok _ _ allowed))
  validate-format_dummy_command (joint_group positions speed) {line} ecma small h =
      joint_group-IsAccepted positions speed ecma small h
