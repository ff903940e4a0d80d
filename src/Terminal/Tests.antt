-- ===== src/Terminal/Tests.antt =====
-- The terminal's validation of a concrete request.
use aethor_studio_v.Prelude.{[], codes, join, ok, ◌≡◌, refl, pos}
use aethor_studio_v.Contracts.{whole}
use aethor_studio_v.Numerals.{to_radix}
use aethor_studio_v.AethorAscii.{compute_crc16, request_operations, format_crc}
use aethor_studio_v.AethorAscii.Frames.{Request, format_request, request_sequence, field_tokens}
use aethor_studio_v.Terminal.{CommandValidation, validate_aethor_candidate_command}
use aethor_studio_v.Terminal.Candidate.{IsVerified, validate-format_request}

abbrev get_jpos : Request
get_jpos = record { request_id = whole (pos 2); operation = codes "GET_JPOS"; fields = [] }

get_jpos_formatted : format_request get_jpos ≡ ok (codes "REQ 2 GET_JPOS *83EC")
unfolding format_request request_sequence request_operations field_tokens compute_crc16 format_crc
    to_radix join
get_jpos_formatted = refl

validate-format_request_example :
    (validation : CommandValidation) × (validate_aethor_candidate_command
        (codes "REQ 2 GET_JPOS *83EC")
      ≡ ok validation)
    × IsVerified get_jpos validation
validate-format_request_example = validate-format_request get_jpos get_jpos_formatted
