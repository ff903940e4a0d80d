-- ===== src/DummyAscii/Meaning.antt =====
-- What each kind of Dummy response says of its line.
use aethor_studio_v.Prelude.{
  ℕ, Bool, true, false, not, ◌&&◌, ◌||◌, none, List, [], ◌∷◌, ◌++◌, Text, codes, is_empty, length,
  leb, ◌==◌, text_eq, trim, starts_with, any, map, ◌≡◌, ◌⊎◌,
}
use aethor_studio_v.Numerals.{value}
use aethor_studio_v.DummyAscii.Commands.{Decimals, is_allowed_mode}
use aethor_studio_v.DummyAscii.Responses.{
  DummySystemAck, started, stopped, disabled, homing, DummyMalformedReason, invalid_number,
  invalid_mode_name, invalid_queue_value, DummyResponse, system_ack, generic_ack, joint_positions,
  mode_report, mode_ack, unsupported_mode, enable, queue, error, malformed, unknown, mode_name,
  find_system_ack, first_or_unknown, split_spaces, is_digits, mode_ack_match,
}
use aethor_studio_v.DummyAscii.Matched.{IsAckLine}

abbrev pub ack_text : DummySystemAck → Text
ack_text started = codes "Started ok"
ack_text stopped = codes "Stopped ok"
ack_text disabled = codes "Disabled ok"
ack_text homing = codes "Homing ok"

abbrev pub bit_text : Bool → Text
bit_text true = codes "1"
bit_text false = codes "0"

-- The words `ok NUMBER NAME`.
pub record IsReport (raw : Text) (n : ℕ) (name : Text) : Type 0 where
  pub number : Text
  pub words : split_spaces raw ≡ codes "ok" ∷ number ∷ name ∷ []
  pub digits : is_digits number ≡ true
  pub read : n ≡ value 10 number

pub record IsAck (raw : Text) (n : ℕ) (name : Text) : Type 0 where
  pub digits : Text
  pub line : IsAckLine raw digits name
  pub read : n ≡ value 10 digits

-- The words of a reply with a bit, a mode or six positions.
abbrev pub is_ok_reply : List Text → Bool
is_ok_reply (token ∷ []) = text_eq token (codes "0") || text_eq token (codes "1")
is_ok_reply (number ∷ name ∷ []) = is_digits number
is_ok_reply (a ∷ b ∷ c ∷ d ∷ e ∷ f ∷ []) = true
is_ok_reply _ = false

abbrev pub is_reply : List Text → Bool
is_reply [] = false
is_reply (first ∷ tokens) = text_eq first (codes "ok") && is_ok_reply tokens

-- A line of none of the forms.
pub record IsForeign (raw : Text) : Type 0 where
  pub no_system_ack : find_system_ack raw ≡ none
  pub no_ok : text_eq raw (codes "ok") ≡ false
  pub no_error : starts_with (codes "error") raw ≡ false
  pub no_digits : is_digits raw ≡ false
  pub no_mode_ack : mode_ack_match raw ≡ none
  pub no_reply : is_reply (split_spaces raw) ≡ false

module _ {F : Type 0} (numbers : Decimals F) where
  -- The words `ok` and six more.
  pub record IsSix (raw : Text) (l : List F) : Type 0 where
    pub tokens : List Text
    pub words : split_spaces raw ≡ codes "ok" ∷ tokens
    pub six : length tokens ≡ 6
    pub read : l ≡ map numbers.to_number tokens

  abbrev pub IsMalformed : Text → DummyMalformedReason → Type 0
  IsMalformed raw invalid_number =
      (l : List F) × IsSix raw l × (any (λ v. not (numbers.is_finite v)) l ≡ true)
  IsMalformed raw invalid_mode_name =
      (n : ℕ) × (name : Text) × (IsReport raw n name ⊎ IsAck raw n name)
      × (is_allowed_mode n ≡ true)
      × (text_eq (mode_name n) name ≡ false)
  IsMalformed raw invalid_queue_value =
      (is_digits raw ≡ true) × ((value 10 raw == 255 || leb (value 10 raw) 15) ≡ false)

  -- What a response says, but for the line `raw` that it repeats.
  abbrev pub Says : Text → DummyResponse F → Type 0
  Says raw (system_ack r ack) = raw ≡ ack_text ack
  Says raw (generic_ack r) = raw ≡ codes "ok"
  Says raw (joint_positions r l) = IsSix raw l × (any (λ v. not (numbers.is_finite v)) l ≡ false)
  Says raw (mode_report r n name) =
      IsReport raw n name × (is_allowed_mode n ≡ true) × (name ≡ mode_name n)
  Says raw (mode_ack r n name) =
      IsAck raw n name × (is_allowed_mode n ≡ true) × (name ≡ mode_name n)
  Says raw (unsupported_mode r n name) =
      (IsReport raw n name ⊎ IsAck raw n name) × (is_allowed_mode n ≡ false)
  Says raw (enable r on) = split_spaces raw ≡ codes "ok" ∷ bit_text on ∷ []
  Says raw (queue r n accepted) =
      (is_digits raw ≡ true)
      × (n ≡ value 10 raw)
      × (accepted ≡ leb n 15)
      × ((n == 255 || leb n 15) ≡ true)
  Says raw (error r code detail) =
      (rest : Text) × (raw ≡ codes "error" ++ rest)
      × (detail ≡ trim rest)
      × (code ≡ first_or_unknown (split_spaces detail))
      × (is_empty code ≡ false)
  Says raw (malformed r reason) = IsMalformed raw reason
  Says raw (unknown r) = (is_empty raw ≡ true) ⊎ IsForeign raw

  abbrev pub raw_of : DummyResponse F → Text
  raw_of (system_ack r ack) = r
  raw_of (generic_ack r) = r
  raw_of (joint_positions r l) = r
  raw_of (mode_report r n name) = r
  raw_of (mode_ack r n name) = r
  raw_of (unsupported_mode r n name) = r
  raw_of (enable r on) = r
  raw_of (queue r n accepted) = r
  raw_of (error r code detail) = r
  raw_of (malformed r reason) = r
  raw_of (unknown r) = r

  abbrev pub IsParsed : Text → DummyResponse F → Type 0
  IsParsed raw response = (raw_of response ≡ raw) × Says raw response
