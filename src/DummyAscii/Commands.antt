-- ===== src/DummyAscii/Commands.antt =====
-- shared/contracts/src/dummyAsciiV1.ts, its commands: the formatter and the validator of raw lines.
-- A text is the list of its UTF-16 code units. A number in a pattern `\d+` is its value (exact, where
-- JavaScript rounds from 2 ^ 53 on; the tests against small integers do not tell the two apart).
use mathlib.Core.List.{reverse}
use aethor_studio_v.Prelude.{
  ℕ, ◌+◌, Bool, false, not, ◌&&◌, ◌||◌, Option, none, some, List, [], ◌∷◌, ◌++◌, Text, codes,
  is_empty, length, ltb, leb, ◌==◌, if◌then◌else◌, text_eq, trim, trim_start, is_space, has_unit,
  starts_with, all, any, drop, split, join, Result, err, ok, ◌>>=◌, ◌>>◌, guard,
}
use aethor_studio_v.Numerals.{is_decimal_digit, value}
use aethor_studio_v.DummyAscii.{dummy_ascii_max_line_chars}

-- What the code uses of JavaScript's numbers: `Number.isFinite`, `<=`, `<`, `Math.abs`, `toFixed`,
-- `Number` of a text, and the literals 0 and 0.0005.
pub record Decimals (F : Type 0) : Type 0 where
  pub is_finite : F → Bool
  pub le : F → F → Bool
  pub lt : F → F → Bool
  pub abs : F → F
  pub to_fixed : ℕ → F → Text
  pub to_number : Text → F
  pub nought : F
  pub half_thousandth : F

unfoldable pub dummy_ascii_motion_queue_bytes : ℕ
dummy_ascii_motion_queue_bytes = 64

pub data DummyStructuredCommand (F : Type 0) : Type 0 where
  start stop disable home reset : DummyStructuredCommand F
  query_joint_positions query_mode query_enable : DummyStructuredCommand F
  set_mode : ℕ → DummyStructuredCommand F
  joint_group : List F → Option F → DummyStructuredCommand F

-- `DUMMY_COMMAND_POLICIES`: what completes a command.
pub data DummyCompletion : Type 0 where
  enable_readback disabled_readback never_implicit valid_reply mode_readback feedback_convergence :
      DummyCompletion

abbrev pub completion_of : {F : Type 0} → DummyStructuredCommand F → DummyCompletion
completion_of start = enable_readback
completion_of stop = disabled_readback
completion_of disable = disabled_readback
completion_of home = never_implicit
completion_of reset = never_implicit
completion_of query_joint_positions = valid_reply
completion_of query_mode = valid_reply
completion_of query_enable = valid_reply
completion_of (set_mode number) = mode_readback
completion_of (joint_group positions speed) = feedback_convergence

unfoldable pub format_dummy_safety_zero_current : Text
format_dummy_safety_zero_current = codes "$0,0,0,0,0,0"

pub data DummyCommandError : Type 0 where
  mode_not_allowed exactly_six_positions speed_not_positive not_finite motion_too_long :
      DummyCommandError

pub data DummyCommandKind : Type 0 where
  system query mode joints : DummyCommandKind

pub data DummyCommandRisk : Type 0 where
  low medium high : DummyCommandRisk

-- The codes other than VALID.
pub data DummyCommandValidationCode : Type 0 where
  empty too_long multiline non_ascii mode_not_allowed command_not_allowed :
      DummyCommandValidationCode
  argument_count invalid_number motion_line_too_long : DummyCommandValidationCode

-- `DummyRawCommandValidation`: VALID with its kind, risk and normalized line, or another code.
pub data DummyRawCommandValidation : Type 0 where
  valid : DummyCommandKind → DummyCommandRisk → Text → DummyRawCommandValidation
  invalid : DummyCommandValidationCode → DummyRawCommandValidation

unfoldable pub is_allowed_mode : ℕ → Bool
is_allowed_mode number = number == 1 || number == 2 || number == 3

-- `${mode}` of an allowed mode.
abbrev pub mode_digit : ℕ → Text
mode_digit number = (48 + number) ∷ []

abbrev pub drop_zeros : Text → Text
drop_zeros [] = []
drop_zeros (c ∷ s) = let rest = drop_zeros s in if c == 48 then rest else c ∷ s

abbrev pub drop_point : Text → Text
drop_point [] = []
drop_point (c ∷ s) = if c == 46 then s else c ∷ s

-- The text backwards, and without its last zeros and a point in front of them.
abbrev pub strip_reversed : Text → Text
strip_reversed [] = []
strip_reversed (c ∷ s) = if c == 48 then drop_point (drop_zeros s) else c ∷ s

-- `.replace(/\.?0+$/, '')`
unfoldable pub strip_zeros : Text → Text
strip_zeros s = reverse (strip_reversed (reverse s))

unfoldable pub exact_commands : List (Text × (DummyCommandKind × DummyCommandRisk))
exact_commands =
    (codes "!START", (system, high))
    ∷ (codes "!STOP", (system, high))
    ∷ (codes "!DISABLE", (system, high))
    ∷ (codes "!HOME", (system, high))
    ∷ (codes "!RESET", (system, high))
    ∷ (codes "#GETJPOS", (query, low))
    ∷ (codes "#GETMODE", (query, low))
    ∷ (codes "#GETENABLE", (query, low))
    ∷ []

abbrev pub find_exact :
    Text
    → List (Text × (DummyCommandKind × DummyCommandRisk))
    → Option (DummyCommandKind × DummyCommandRisk)
find_exact line [] = none
find_exact line ((name, policy) ∷ l) = if text_eq name line then some policy else find_exact line l

-- `\s+(\d+)$` behind a prefix: the digits.
unfoldable pub spaced_digits : Text → Option Text
spaced_digits [] = none
spaced_digits (c ∷ s) =
    let digits = trim_start s in
    if is_space c && not (is_empty digits) && all is_decimal_digit digits then some digits else none

-- `/^#CMDMODE\s+(\d+)$/`
unfoldable pub mode_match : Text → Option Text
mode_match line = if starts_with (codes "#CMDMODE") line then spaced_digits (drop 8 line) else none

-- `/^[\x20-\x7e]+$/`
unfoldable pub is_printable_text : Text → Bool
is_printable_text s = not (is_empty s) && all (λ c. leb 0x20 c && leb c 0x7e) s

module _ {F : Type 0} (numbers : Decimals F) where
  unfoldable pub format_finite_number : F → Result DummyCommandError Text
  format_finite_number number =
      if numbers.is_finite number
      then ok (
          strip_zeros (
            numbers.to_fixed 3 (
              if numbers.lt (numbers.abs number) numbers.half_thousandth
              then numbers.nought
              else number)))
      else err not_finite

  unfoldable pub format_all : List F → Result DummyCommandError (List Text)
  format_all [] = ok []
  format_all (v ∷ l) = format_finite_number v >>= λ t. format_all l >>= λ rest. ok (t ∷ rest)

  -- The speed as the last value.
  unfoldable pub format_speed : Option F → Result DummyCommandError (List Text)
  format_speed none = ok []
  format_speed (some speed) =
      guard (not (numbers.le speed numbers.nought)) speed_not_positive
      >> format_finite_number speed
      >>= λ t. ok (t ∷ [])

  unfoldable pub format_dummy_command : DummyStructuredCommand F → Result DummyCommandError Text
  format_dummy_command start = ok (codes "!START")
  format_dummy_command stop = ok (codes "!STOP")
  format_dummy_command disable = ok (codes "!DISABLE")
  format_dummy_command home = ok (codes "!HOME")
  format_dummy_command reset = ok (codes "!RESET")
  format_dummy_command query_joint_positions = ok (codes "#GETJPOS")
  format_dummy_command query_mode = ok (codes "#GETMODE")
  format_dummy_command query_enable = ok (codes "#GETENABLE")
  format_dummy_command (set_mode number) =
      guard (is_allowed_mode number) DummyCommandError.mode_not_allowed
      >> ok (codes "#CMDMODE " ++ mode_digit number)
  format_dummy_command (joint_group positions speed) =
      guard (length positions == 6) exactly_six_positions >> format_all positions >>= λ values.
      format_speed speed >>= λ last.
      let line = codes ">" ++ join 44 (values ++ last) in
      guard (ltb (length line) dummy_ascii_motion_queue_bytes) motion_too_long >> ok line

  unfoldable pub encode_dummy_command : DummyStructuredCommand F → Result DummyCommandError Text
  encode_dummy_command command = format_dummy_command command >>= λ line. ok (line ++ codes "\n")

  -- `!token.trim() || !Number.isFinite(Number(token))`
  unfoldable pub is_bad_value : Text → Bool
  is_bad_value token = is_empty (trim token) || not (numbers.is_finite (numbers.to_number token))

  -- `values.length === 7 && Number(values[6]) <= 0`
  abbrev pub has_bad_speed : List Text → Bool
  has_bad_speed (a ∷ b ∷ c ∷ d ∷ e ∷ f ∷ speed ∷ []) =
      numbers.le (numbers.to_number speed) numbers.nought
  has_bad_speed _ = false

  unfoldable pub validate_joint_group_line : Text → DummyRawCommandValidation
  validate_joint_group_line line =
      let values = split 44 (drop 1 line) in
      if not (length values == 6) && not (length values == 7)
      then invalid argument_count
      else if any is_bad_value values
      then invalid invalid_number
      else if has_bad_speed values
      then invalid invalid_number
      else if leb dummy_ascii_motion_queue_bytes (length line)
      then invalid motion_line_too_long
      else valid joints high line

  -- The tests behind the exact commands.
  abbrev pub validate_other : Text → Option Text → DummyRawCommandValidation
  validate_other line (some digits) =
      if is_allowed_mode (value 10 digits)
      then valid mode high (codes "#CMDMODE " ++ mode_digit (value 10 digits))
      else invalid DummyCommandValidationCode.mode_not_allowed
  validate_other line none =
      if starts_with (codes ">") line
      then validate_joint_group_line line
      else invalid command_not_allowed

  abbrev pub validate_line :
      Text → Option (DummyCommandKind × DummyCommandRisk) → DummyRawCommandValidation
  validate_line line (some (kind, risk)) = valid kind risk line
  validate_line line none = validate_other line (mode_match line)

  unfoldable pub validate_dummy_raw_command : Text → DummyRawCommandValidation
  validate_dummy_raw_command raw =
      let normalized = trim raw in
      if is_empty normalized
      then invalid empty
      else if has_unit 13 raw || has_unit 10 raw
      then invalid multiline
      else if ltb dummy_ascii_max_line_chars (length normalized)
      then invalid too_long
      else if not (is_printable_text normalized)
      then invalid non_ascii
      else validate_line normalized (find_exact normalized exact_commands)
