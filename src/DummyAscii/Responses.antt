-- ===== src/DummyAscii/Responses.antt =====
-- shared/contracts/src/dummyAsciiV1.ts, `parseDummyResponseLine`. A number in a pattern `\d+` is its
-- value, as in the commands; `Number` of a joint position is the parameter `numbers`.
use aethor_studio_v.Prelude.{
  ℕ, Bool, true, false, not, ◌&&◌, ◌||◌, Option, none, some, List, [], ◌∷◌, Text, codes, is_empty,
  leb, ◌==◌, if◌then◌else◌, text_eq, trim, is_space, starts_with, all, any, map, drop,
}
use aethor_studio_v.Prelude.{cons_head}
use aethor_studio_v.Numerals.{is_decimal_digit, value}
use aethor_studio_v.DummyAscii.Commands.{Decimals, is_allowed_mode}

pub data DummySystemAck : Type 0 where
  started stopped disabled homing : DummySystemAck

pub data DummyMalformedReason : Type 0 where
  invalid_number invalid_mode_name invalid_queue_value : DummyMalformedReason

-- Every response has the trimmed line first. `mode_report` is the kind 'mode'; the name of an allowed
-- mode is that of `mode_name`.
pub data DummyResponse (F : Type 0) : Type 0 where
  system_ack : Text → DummySystemAck → DummyResponse F
  generic_ack : Text → DummyResponse F
  joint_positions : Text → List F → DummyResponse F
  mode_report mode_ack : Text → ℕ → Text → DummyResponse F
  unsupported_mode : Text → ℕ → Text → DummyResponse F
  enable : Text → Bool → DummyResponse F
  queue : Text → ℕ → Bool → DummyResponse F
  error : Text → Text → Text → DummyResponse F
  malformed : Text → DummyMalformedReason → DummyResponse F
  unknown : Text → DummyResponse F

-- `modeNames[mode]` of an allowed mode.
abbrev pub mode_name : ℕ → Text
mode_name n =
    if n == 1 then codes "SEQ_POINT" else if n == 2 then codes "INT_POINT" else codes "CONT_TRAJ"

abbrev pub find_system_ack : Text → Option DummySystemAck
find_system_ack raw =
    if text_eq raw (codes "Started ok")
    then some started
    else if text_eq raw (codes "Stopped ok")
    then some stopped
    else if text_eq raw (codes "Disabled ok")
    then some disabled
    else if text_eq raw (codes "Homing ok")
    then some homing
    else none

abbrev pub starts_with_space : Text → Bool
starts_with_space [] = false
starts_with_space (c ∷ s) = is_space c

-- `split(/\s+/)`
unfoldable pub split_spaces : Text → List Text
split_spaces [] = [] ∷ []
split_spaces (c ∷ s) =
    let rest = split_spaces s in
    if not (is_space c) then cons_head c rest else if starts_with_space s then rest else [] ∷ rest

abbrev pub first_or_unknown : List Text → Text
first_or_unknown [] = codes "UNKNOWN"
first_or_unknown (token ∷ tokens) = if is_empty token then codes "UNKNOWN" else token

-- The longest beginning of units that pass a test, and what follows.
unfoldable pub span : (ℕ → Bool) → Text → Text × Text
span p [] = ([], [])
span p (c ∷ s) = let rest = span p s in if p c then (c ∷ rest.0, rest.1) else ([], c ∷ s)

-- `/^\d+$/`
abbrev pub is_digits : Text → Bool
is_digits s = not (is_empty s) && all is_decimal_digit s

-- `[A-Z_]`
abbrev pub is_name_unit : ℕ → Bool
is_name_unit c = leb 65 c && leb c 90 || c == 95

abbrev pub mode_prefix : Text
mode_prefix = codes "ok Set command mode to ["

-- The name between `] (` and `)` at the end.
unfoldable pub name_match : Text → Option Text
name_match s =
    let name = span is_name_unit (drop 3 s) in
    if starts_with (codes "] (") s && not (is_empty name.0) && text_eq name.1 (codes ")")
    then some name.0
    else none

abbrev pub with_digits : Text → Option Text → Option (Text × Text)
with_digits digits none = none
with_digits digits (some name) = if is_empty digits then none else some (digits, name)

-- `/^ok Set command mode to \[(\d+)] \(([A-Z_]+)\)$/`
unfoldable pub mode_ack_match : Text → Option (Text × Text)
mode_ack_match raw =
    let digits = span is_decimal_digit (drop 24 raw) in
    if starts_with mode_prefix raw then with_digits digits.0 (name_match digits.1) else none

module _ {F : Type 0} (numbers : Decimals F) where
  unfoldable pub parse_error : Text → DummyResponse F
  parse_error raw =
      let detail = trim (drop 5 raw) in error raw (first_or_unknown (split_spaces detail)) detail

  unfoldable pub parse_queue : Text → ℕ → DummyResponse F
  parse_queue raw slots =
      if slots == 255
      then queue raw slots false
      else if leb slots 15
      then queue raw slots true
      else malformed raw invalid_queue_value

  -- The tests of a mode and its name, `accept` what is right.
  unfoldable pub parse_mode : (ℕ → Text → DummyResponse F) → Text → ℕ → Text → DummyResponse F
  parse_mode accept raw n name =
      if not (is_allowed_mode n)
      then unsupported_mode raw n name
      else if text_eq (mode_name n) name
      then accept n (mode_name n)
      else malformed raw invalid_mode_name

  abbrev pub is_bit : Text → Bool
  is_bit token = text_eq token (codes "0") || text_eq token (codes "1")

  unfoldable pub parse_positions : Text → List F → DummyResponse F
  parse_positions raw positions =
      if any (λ v. not (numbers.is_finite v)) positions
      then malformed raw invalid_number
      else joint_positions raw positions

  -- The tokens behind `ok`.
  abbrev pub parse_ok : Text → List Text → DummyResponse F
  parse_ok raw (token ∷ []) =
      if is_bit token then enable raw (text_eq token (codes "1")) else unknown raw
  parse_ok raw (number ∷ name ∷ []) =
      if is_digits number
      then parse_mode (mode_report raw) raw (value 10 number) name
      else unknown raw
  parse_ok raw (a ∷ b ∷ c ∷ d ∷ e ∷ f ∷ []) =
      parse_positions raw (map numbers.to_number (a ∷ b ∷ c ∷ d ∷ e ∷ f ∷ []))
  parse_ok raw _ = unknown raw

  abbrev pub parse_tokens : Text → List Text → DummyResponse F
  parse_tokens raw [] = unknown raw
  parse_tokens raw (first ∷ tokens) =
      if text_eq first (codes "ok") then parse_ok raw tokens else unknown raw

  abbrev pub parse_mode_ack : Text → Option (Text × Text) → DummyResponse F
  parse_mode_ack raw (some (digits, name)) = parse_mode (mode_ack raw) raw (value 10 digits) name
  parse_mode_ack raw none = parse_tokens raw (split_spaces raw)

  abbrev pub parse_line : Text → Option DummySystemAck → DummyResponse F
  parse_line raw (some ack) = system_ack raw ack
  parse_line raw none =
      if text_eq raw (codes "ok")
      then generic_ack raw
      else if starts_with (codes "error") raw
      then parse_error raw
      else if is_digits raw
      then parse_queue raw (value 10 raw)
      else parse_mode_ack raw (mode_ack_match raw)

  unfoldable pub parse_dummy_response_line : Text → DummyResponse F
  parse_dummy_response_line input =
      let raw = trim input in
      if is_empty raw then unknown raw else parse_line raw (find_system_ack raw)
