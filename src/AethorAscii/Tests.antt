-- ===== src/AethorAscii/Tests.antt =====
-- Frames of the protocol's conformance tests, and the theorems at concrete inputs.
use aethor_studio_v.Prelude.{
  [], ◌∷◌, ◌++◌, some, codes, Text, ◌≡◌, refl, pos, ok, true, false, arith, split, join, All,
}
use aethor_studio_v.Contracts.{whole}
use aethor_studio_v.Numerals.{to_radix, value, is_decimal_digit, is_upper_hex_digit}
use aethor_studio_v.AethorAscii.{
  compute_crc16, request_operations, is_printable_unit, format_crc, matches_upper_token, is_upper,
  is_upper_token_unit,
}
use aethor_studio_v.AethorAscii.Frames.{
  Request, ParseResult, format_request, encode_request, parse_frame, req, valid, invalid, bad_crc,
  Frame, parse_tokens, frame_kind, is_valid_subject, requires_non_zero_sequence, parse_fields,
  request_sequence, field_tokens,
}
use aethor_studio_v.AethorAscii.Decoder.{
  LineDecoderState, line, fresh, decode_chunk, decode_byte, finish_record, discarded, during,
  overlong, accept_byte, bounded, control_character,
}
use aethor_studio_v.AethorAscii.RoundTrip.{IsFrameOf, parse_frame-format_request}
use aethor_studio_v.AethorAscii.Parsing.{parse_frame_total, IsAccepted, parse_frame-IsAccepted}
use aethor_studio_v.AethorAscii.Lines.{IsLine, RecordOk, decode_chunk-RecordOk}
use aethor_studio_v.AethorAscii.Stream.{
  Delivers, wire, decode_chunks, decode_chunks-wire, decode_chunk_resync, encode_request-Delivers,
}

-- The check value of CRC-16/CCITT-FALSE.
check_value : compute_crc16 (codes "123456789") ≡ ok 0x29b1
unfolding compute_crc16
check_value = refl

abbrev get_jpos : Request
get_jpos = record { request_id = whole (pos 2); operation = codes "GET_JPOS"; fields = [] }

abbrev stream : Request
stream = record {
  request_id = whole (pos 42);
  operation = codes "SET_STREAM";
  fields = (codes "rate_hz", codes "50") ∷ (codes "arm", codes "left") ∷ [];
}

abbrev get_jpos_line : Text
get_jpos_line = codes "REQ 2 GET_JPOS *83EC"

get_jpos_formatted : format_request get_jpos ≡ ok get_jpos_line
unfolding format_request request_sequence request_operations field_tokens compute_crc16 format_crc
    to_radix join
get_jpos_formatted = refl

get_jpos_encoded : encode_request get_jpos ≡ ok (get_jpos_line ++ (10 ∷ []))
unfolding encode_request
get_jpos_encoded = rw get_jpos_formatted

wrong_crc : parse_frame (codes "REQ 2 GET_JPOS *83ED") ≡ ok (invalid bad_crc)
unfolding parse_frame compute_crc16 is_upper_hex_digit value
wrong_crc = refl

split_in_two :
    decode_chunk fresh (codes "ERR 0 BA" ++ codes "D_CRC *2657" ++ (13 ∷ 10 ∷ []))
    ≡ (fresh, line (codes "ERR 0 BAD_CRC *2657") ∷ [])
unfolding decode_chunk decode_byte finish_record accept_byte bounded
split_in_two = refl

bare_cr :
    (decode_chunk fresh (codes "A" ++ (13 ∷ codes "B") ++ (10 ∷ []))).1
    ≡ discarded (during control_character) (codes "A") ∷ []
unfolding decode_chunk decode_byte finish_record accept_byte bounded
bare_cr = refl

parse_frame-format_request_example : IsFrameOf get_jpos get_jpos_line
parse_frame-format_request_example = parse_frame-format_request get_jpos get_jpos_formatted

encode_request-Delivers_example : Delivers get_jpos (get_jpos_line ++ (10 ∷ []))
encode_request-Delivers_example = encode_request-Delivers get_jpos get_jpos_encoded

abbrev get_jpos_frame : Frame
get_jpos_frame = record {
  kind = req;
  sequence = 2;
  subject = codes "GET_JPOS";
  fields = [];
  body = codes "REQ 2 GET_JPOS";
  raw = get_jpos_line;
  crc16 = 0x83ec;
}

get_jpos_parsed : parse_frame get_jpos_line ≡ ok (valid get_jpos_frame)
unfolding parse_frame compute_crc16 is_upper_hex_digit value split parse_tokens frame_kind
    is_valid_subject matches_upper_token is_decimal_digit request_operations parse_fields
    requires_non_zero_sequence is_upper is_upper_token_unit
get_jpos_parsed = refl

parse_frame_total_example : (r : ParseResult) × (parse_frame get_jpos_line ≡ ok r)
parse_frame_total_example = parse_frame_total get_jpos_line

parse_frame-IsAccepted_example : IsAccepted get_jpos_line get_jpos_frame
parse_frame-IsAccepted_example = parse_frame-IsAccepted get_jpos_line get_jpos_parsed

empty-IsLine : IsLine []
empty-IsLine = record { short = omega arith; printable = refl }

decode_chunk-RecordOk_example :
    IsLine (decode_chunk fresh (65 ∷ 10 ∷ [])).0.buffer
    × All RecordOk (decode_chunk fresh (65 ∷ 10 ∷ [])).1
decode_chunk-RecordOk_example = decode_chunk-RecordOk fresh (65 ∷ 10 ∷ []) empty-IsLine

get_jpos-IsLine : IsLine get_jpos_line
unfolding is_printable_unit
get_jpos-IsLine = record { short = omega arith; printable = refl }

abbrev faulty : LineDecoderState
faulty = record { buffer = codes "RE"; pending_cr = false; discard_reason = some overlong }

-- The line is cut within, and between CR and LF.
decode_chunks-wire_example :
    decode_chunks fresh (codes "REQ 2 GET" ∷ (codes "_JPOS *83EC" ++ (13 ∷ [])) ∷ (10 ∷ []) ∷ [])
    ≡ (fresh, line get_jpos_line ∷ [])
decode_chunks-wire_example =
    decode_chunks-wire (codes "REQ 2 GET" ∷ (codes "_JPOS *83EC" ++ (13 ∷ [])) ∷ (10 ∷ []) ∷ [])
      ((get_jpos_line, true) ∷ []) ((get_jpos-IsLine, refl), tt) refl

decode_chunk_resync_example :
    decode_chunk faulty (10 ∷ wire ((get_jpos_line, false) ∷ []))
    ≡ (fresh, (decode_byte faulty 10).1 ++ (line get_jpos_line ∷ []))
decode_chunk_resync_example =
    decode_chunk_resync faulty ((get_jpos_line, false) ∷ []) ((get_jpos-IsLine, refl), tt)
