-- ===== src/AethorAscii/Frames.antt =====
-- `formatAethorArmRequest`, `encodeAethorArmRequest` and `parseAethorArmAsciiFrame`.
use aethor_studio_v.Prelude.{
  ℕ, ◌-◌, ◌+◌, pos, Bool, true, false, not, ◌&&◌, ◌||◌, Option, none, some, List, [], ◌∷◌, ◌++◌,
  map, Text, codes, text_eq, text_mem, has_unit, is_empty, leb, ltb, ◌==◌, length, all, any,
  get_elem?, take, drop, split, join, index_of, if◌then◌else◌, Result, ok, ◌>>=◌, ◌>>◌, guard,
}
use aethor_studio_v.Contracts.{Number, whole}
use aethor_studio_v.Numerals.{to_radix, value, is_decimal_digit, is_upper_hex_digit}
use aethor_studio_v.AethorAscii.{
  max_line_bytes, line_ending, uint32_max, request_operations, AsciiError, request_id_range,
  unsupported_operation, invalid_key, invalid_value, duplicate_field, frame_too_long,
  is_printable_ascii, matches_upper_token, matches_field_key, has_reserved, compute_crc16,
  format_crc,
}

pub data FrameKind : Type 0 where
  req ack rsp err done evt tel : FrameKind

pub data InvalidCode : Type 0 where
  empty too_long multiline non_ascii bad_frame bad_crc : InvalidCode
  unknown_operation sequence_out_of_range : InvalidCode

-- An object with string values is the list of its entries in the order of insertion.
abbrev pub Fields : Type 0
Fields = List (Text × Text)

pub record Frame : Type 0 where
  pub kind : FrameKind
  pub sequence : ℕ
  pub subject : Text
  pub fields : Fields
  pub body : Text
  pub raw : Text
  pub crc16 : ℕ

pub data ParseResult : Type 0 where
  valid : Frame → ParseResult
  invalid : InvalidCode → ParseResult

pub record Request : Type 0 where
  pub request_id : Number
  pub operation : Text
  pub fields : Fields

unfoldable pub assert_field : Text → Text → List Text → Result AsciiError (Unit {0})
assert_field key value keys = do
  guard (matches_field_key key) invalid_key
  guard (not (is_empty value || has_reserved value || not (is_printable_ascii value))) invalid_value
  guard (not (text_mem key keys)) duplicate_field

-- `${key}=${value}`
abbrev pub field_token : Text × Text → Text
field_token (key, value) = key ++ (b'=' ∷ value)

-- The loop over the fields of a request.
unfoldable pub field_tokens : Fields → List Text → Result AsciiError (List Text)
unfolding assert_field
field_tokens [] keys = ok []
field_tokens ((key, value) ∷ fields) keys = do
  assert_field key value keys
  rest ← field_tokens fields (key ∷ keys)
  ok (field_token (key, value) ∷ rest)

-- A request id in 1..4294967295.
unfoldable pub request_sequence : Number → Result AsciiError ℕ
request_sequence (whole (pos n)) =
    if ltb n 1 || ltb uint32_max n then Result.err request_id_range else ok n
request_sequence _ = Result.err request_id_range

unfoldable pub format_request : Request → Result AsciiError Text
format_request request = do
  sequence ← request_sequence request.request_id
  guard (text_mem request.operation request_operations) unsupported_operation
  tokens ← field_tokens request.fields []
  let body = join b' ' (codes "REQ" ∷ to_radix 10 sequence ∷ request.operation ∷ tokens)
  crc ← compute_crc16 body
  let line = body ++ (b' ' ∷ b'*' ∷ format_crc crc)
  guard (leb (length line) max_line_bytes) frame_too_long
  ok line

unfoldable pub encode_request : Request → Result AsciiError Text
encode_request request = do line ← format_request request; ok (line ++ line_ending)

-- The lookup in `frameKinds`.
unfoldable pub frame_kind : Text → Option FrameKind
frame_kind s =
    if text_eq s (codes "REQ")
    then some req
    else if text_eq s (codes "ACK")
    then some ack
    else if text_eq s (codes "RSP")
    then some rsp
    else if text_eq s (codes "ERR")
    then some FrameKind.err
    else if text_eq s (codes "DONE")
    then some done
    else if text_eq s (codes "EVT")
    then some evt
    else if text_eq s (codes "TEL")
    then some tel
    else none

unfoldable pub requires_non_zero_sequence : FrameKind → Bool
requires_non_zero_sequence req = true
requires_non_zero_sequence ack = true
requires_non_zero_sequence rsp = true
requires_non_zero_sequence done = true
requires_non_zero_sequence _ = false

unfoldable pub is_valid_subject : FrameKind → Text → Bool
is_valid_subject ack subject = text_eq subject (codes "accepted")
is_valid_subject rsp subject = text_eq subject (codes "ok")
is_valid_subject _ subject = matches_upper_token subject

abbrev pub is_req : FrameKind → Bool
is_req req = true
is_req _ = false

-- One round of the loop over the tokens behind the third.
unfoldable pub split_field : Text → Option (Text × Text)
split_field token = elim (index_of b'=' token) [
  | none ↦ none
  | some separator ↦
      let key = take separator token in
      let value = drop (separator + 1) token in
      if separator == 0 || (separator + 1) == length token || has_unit b'=' value
      then none
      else if not (matches_field_key key) || has_reserved value
      then none
      else some (key, value)
]

unfoldable pub parse_fields : List Text → Fields → Option Fields
parse_fields [] fields = some fields
parse_fields (token ∷ tokens) fields = elim (split_field token) [
  | none ↦ none
  | some (key, value) ↦
      let rest = parse_fields tokens (fields ++ ((key, value) ∷ [])) in
      if text_mem key (map (λ f. f.0) fields) then none else rest
]

-- From the checked body on: the tokens of a frame.
unfoldable pub parse_tokens : List Text → Text → Text → ℕ → ParseResult
parse_tokens (kind_token ∷ sequence_token ∷ subject ∷ tokens) body raw crc16 =
    if any is_empty (kind_token ∷ sequence_token ∷ subject ∷ tokens)
    then invalid bad_frame
    else elim (frame_kind kind_token) [
      | none ↦ invalid bad_frame
      | some kind ↦
          let sequence = value 10 sequence_token in
          if not (
            leb 1 (length sequence_token)
            && leb (length sequence_token) 10
            && all is_decimal_digit sequence_token)
          then invalid bad_frame
          else if ltb uint32_max sequence || requires_non_zero_sequence kind && sequence == 0
          then invalid sequence_out_of_range
          else if not (is_valid_subject kind subject)
          then invalid bad_frame
          else if is_req kind && not (text_mem subject request_operations)
          then invalid unknown_operation
          else elim (parse_fields tokens []) [
            | none ↦ invalid bad_frame
            | some fields ↦ valid (record {
              kind = kind;
              sequence = sequence;
              subject = subject;
              fields = fields;
              body = body;
              raw = raw;
              crc16 = crc16;
            })
          ]
    ]
parse_tokens _ body raw crc16 = invalid bad_frame

-- `input[index] !== unit`
abbrev pub unit_differs : Text → ℕ → ℕ → Bool
unit_differs input index unit = elim (get_elem? input index) [
  | none ↦ true
  | some c ↦ not (c == unit)
]

unfoldable pub parse_frame : Text → Result AsciiError ParseResult
parse_frame input =
    let marker = length input - 6 in
    let crc_text = drop (length input - 4) input in
    let body = take marker input in
    let supplied_crc = value 16 crc_text in
    if is_empty input
    then ok (invalid empty)
    else if has_unit 13 input || has_unit 10 input
    then ok (invalid multiline)
    else if ltb max_line_bytes (length input)
    then ok (invalid too_long)
    else if not (is_printable_ascii input)
    then ok (invalid non_ascii)
    else if leb (length input) 6
        || unit_differs input marker b' '
        || unit_differs input (marker + 1) b'*'
    then ok (invalid bad_frame)
    else if not (length crc_text == 4 && all is_upper_hex_digit crc_text)
    then ok (invalid bad_frame)
    else if has_unit b'*' body
    then ok (invalid bad_frame)
    else compute_crc16 body >>= λ crc.
        if not (crc == supplied_crc)
        then ok (invalid bad_crc)
        else ok (parse_tokens (split b' ' body) body input supplied_crc)
